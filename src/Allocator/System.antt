-- ===== src/Allocator/System.antt =====
-- The locked sections of the allocator, in any order: what the goroutines of the command workers, the
-- runtime's callbacks and the sweeper do to the state that they share. A section that waits for the
-- runtime's Stop leaves what it has to know afterwards in `stops`.
use r1s.Base.{ℕ, zero, suc, Bool, Option, none, some, List, [], ◌∷◌, Bytes}
use r1s.Protocol.Messages.{
  ExecutionPhase, ExecutionRequest, ExecutionAssign, ExecutionCancel, ExecutionLeaseRenew,
  ExecutionOfferRelease, Envelope,
}
use r1s.Allocator.Errors.{Err}
use r1s.Allocator.State.{Allocator, Outcome}
use r1s.Allocator.Views.{sweep_expired}
use r1s.Allocator.Offers.{Fresh, handle_request}
use r1s.Allocator.Assign
use r1s.Allocator.Assign.{begin_assign, finish_assign}
use r1s.Allocator.Cancel
use r1s.Allocator.Cancel.{begin_cancel, finish_cancel}
use r1s.Allocator.Lease.{handle_lease_renew, handle_offer_release}
use r1s.Allocator.Runtime.{Completion, completion_reporter}
use r1s.Allocator.Replay.{begin_replay, finish_replay}
use r1s.Allocator.Eviction
use r1s.Allocator.Eviction.{Round, StopResult, eviction_round, complete_eviction}

-- A Stop under way: the execution, and what it goes back to if Stop fails.
pub record Stop : Type 0 where
  pub id : Bytes
  pub phase : ExecutionPhase
  pub detail : Bytes
  pub reason : Bytes

pub record World : Type 0 where
  pub allocator : Allocator
  pub stops : List Stop

-- One locked section, with what it reads from outside: the outcome of its Save, the clock, fresh ids,
-- what the runtime returned. The two that end a Stop name it by its place in `stops`.
pub data Section : Type 0 where
  sweep : Bool → ℕ → Section
  request : Fresh → Bool → ℕ → Bytes → Bytes → ExecutionRequest → Section
  assign_begins : Bytes → Bool → ℕ → Bytes → Bytes → ExecutionAssign → Section
  assign_ends : Bytes → Bool → ℕ → Bytes → Bytes → Option Bytes → Section
  cancel_begins : Bytes → Bool → ℕ → Bytes → Bytes → ExecutionCancel → Section
  cancel_ends : ℕ → Bytes → Bool → ℕ → Bytes → Bool → Section
  renew : Bytes → Bool → ℕ → Bytes → Bytes → ExecutionLeaseRenew → Section
  give_back : Bytes → Bool → ℕ → Bytes → Bytes → ExecutionOfferRelease → Section
  report : Bytes → Bool → ℕ → Completion → Section
  eviction_begins : Bool → Bool → ℕ → Section
  eviction_ends : ℕ → Bool → ℕ → StopResult → Section
  replay_begins : Bool → ℕ → Bytes → Envelope → Section
  replay_ends : Bool → Bytes → List Envelope → Err → Section

abbrev pub put_back : Stop → Option (Stop × List Stop) → Option (Stop × List Stop)
put_back p none = none
put_back p (some found) = some (found.0, p ∷ found.1)

unfoldable pub take_stop : ℕ → List Stop → Option (Stop × List Stop)
take_stop n [] = none
take_stop zero (p ∷ ps) = some (p, ps)
take_stop (suc n) (p ∷ ps) = put_back p (take_stop n ps)

abbrev pub moved : World → Allocator → World
moved w a = record w { allocator = a }

-- A section that dereferences nil has changed nothing.
abbrev pub moved_by : World → Option Outcome → World
moved_by w none = w
moved_by w (some o) = moved w o.state

abbrev pub cancel_begun : World → ExecutionCancel → Cancel.Begun → World
cancel_begun w q (Cancel.replied o) = moved w o.state
cancel_begun w q (Cancel.stopping a phase detail) = record {
  allocator = a;
  stops =
      record { id = q.execution_id; phase = phase; detail = detail; reason = q.reason } ∷ w.stops;
}

abbrev pub round_begun : World → Round → World
round_begun w (Eviction.nothing_due a) = moved w a
round_begun w (Eviction.failed a e) = moved w a
round_begun w (Eviction.stopping a id phase detail) = record {
  allocator = a;
  stops = record { id = id; phase = phase; detail = detail; reason = [] } ∷ w.stops;
}

module _ (request_equal : ExecutionRequest → ExecutionRequest → Bool)
    (same_envelope : Envelope → Envelope → Bool) where
  unfoldable pub step : Section → World → World
  unfolding take_stop
  step (sweep saved now) w = moved w (sweep_expired saved now w.allocator).0
  step (request fresh saved now sender cid q) w =
      moved w (handle_request request_equal fresh saved now w.allocator sender cid q).state
  step (assign_begins message_id saved now sender cid q) w =
      moved w (Assign.state_of (begin_assign message_id saved now w.allocator sender cid q))
  step (assign_ends message_id saved now id cid start_error) w =
      moved_by w (finish_assign message_id saved now w.allocator id cid start_error)
  step (cancel_begins message_id saved now sender cid q) w =
      cancel_begun w q (begin_cancel message_id saved now w.allocator sender cid q)
  step (cancel_ends n message_id saved now cid stop_failed) w = elim (take_stop n w.stops) [
    | none ↦ w
    | some found ↦
        moved_by (record w { stops = found.1 })
          (finish_cancel message_id saved now w.allocator found.0.id cid found.0.phase
            found.0.detail found.0.reason stop_failed)
  ]
  step (renew message_id saved now sender cid q) w =
      moved w (handle_lease_renew message_id saved now w.allocator sender cid q).state
  step (give_back message_id saved now sender cid q) w =
      moved w (handle_offer_release message_id saved now w.allocator sender cid q).state
  step (report id saved now c) w = moved w (completion_reporter id saved now w.allocator c).state
  step (eviction_begins cancelled saved now) w =
      round_begun w (eviction_round cancelled saved now w.allocator)
  step (eviction_ends n saved now result) w = elim (take_stop n w.stops) [
    | none ↦ w
    | some found ↦
        moved (record w { stops = found.1 })
          (complete_eviction saved now w.allocator found.0.id found.0.phase found.0.detail result).0
  ]
  step (replay_begins saved now key envelope) w =
      moved w (begin_replay same_envelope saved now w.allocator key envelope).0
  step (replay_ends saved key responses error) w =
      moved w (finish_replay saved w.allocator key responses error).0

  unfoldable pub run : List Section → World → World
  unfolding step
  run [] w = w
  run (s ∷ ss) w = run ss (step s w)
