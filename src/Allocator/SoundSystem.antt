-- ===== src/Allocator/SoundSystem.antt =====
-- The sweep, the evictions and the replay cache keep the ledger equal to the slots that the records
-- hold; what the sections that wait for a Stop leave behind them.
use r1s.Base.{
  ℕ, zero, suc, ◌≡◌, refl, Bool, false, Option, none, some, List, [], ◌∷◌, Bytes, arith, if_rule,
  inl, inr, Option-cases, Ensures, All, Assoc, IsMap, Bool-cases, beq_refl, beq_iff, beq, ltb,
  is_empty, if◌then◌else◌, get, Checked, ok, err,
}
use r1s.Protocol.Messages.{ExecutionPhase, ExecutionCancel, Envelope, terminal}
use r1s.Allocator.Errors.{Err}
use r1s.Allocator.State.{ReplayCache, ExecutionRecord, Allocator, Outcome, persist_error, is_nil}
use r1s.Allocator.Views.{sweep_expired, expire_offers, expired_offers, put_execution}
use r1s.Allocator.Cancel
use r1s.Allocator.Cancel.{
  cancelling_record, begin_cancel, finish_cancel, cancel_checks, commit_cancel, stop_failed,
}
use r1s.Allocator.Runtime.{Completion, completion_reporter}
use r1s.Allocator.Replay.{
  Verdict, first, duplicate, refused, with_replay, begin_replay, finish_replay, save_first,
}
use r1s.Allocator.Eviction
use r1s.Allocator.Eviction.{
  Round, StopResult, effective_now, next_expired, evictable, begin_eviction, eviction_round,
  evicted, complete_eviction,
}
use r1s.Allocator.Accounts.{IsSound, expire-IsSound}
use r1s.Allocator.Sound.{persist-IsSound}
use r1s.Allocator.SoundSections.{finish-IsSound}
use r1s.Allocator.SoundCancel.{cancelling-IsSound, restored-IsSound, stop_failed-IsSound}
use r1s.Allocator.SoundRelease.{runtime_completed-IsSound}
use r1s.Allocator.System

-- A Stop under way goes back to a phase that is not terminal.
abbrev pub Alive : System.Stop → Type 0
Alive p = terminal p.phase ≡ false

pub record IsSoundWorld (w : System.World) : Type 0 where
  pub sound : IsSound w.allocator
  pub alive : All Alive w.stops

pub sweep-IsSound :
    (saved : Bool) (now : ℕ) (a : Allocator) → IsSound a → IsSound (sweep_expired saved now a).0
unfolding sweep_expired
sweep-IsSound saved now a s =
    let swept = expire-IsSound now a s in
    if_rule IsSound (ltb 0 (expired_offers now a))
      (λ _. persist-IsSound saved (expire_offers now a) swept) (λ _. swept)

pub effective-IsSound : (now : ℕ) (a : Allocator) → IsSound a → IsSound (effective_now now a)
unfolding effective_now
effective-IsSound now a s = if_rule IsSound (ltb a.high_water now) (λ _. s) (λ _. s)

-- What a round finds to evict is on record, and is not terminal.
next_expired_lem :
    (now : ℕ) (m : Assoc ExecutionRecord) (id : Bytes) (e : ExecutionRecord)
    → IsMap m
    → next_expired now m ≡ some (id, e)
    → (get id m ≡ some e) × (terminal e.phase ≡ false)
unfolding next_expired get
next_expired_lem now [] id e u h = ground arith
next_expired_lem now ((k, f) ∷ m) id e u h = elim (Bool-cases (evictable now f)) [
  | inl p ↦ ground (arith, beq_refl k)
  | inr n ↦
      let (found, alive) = next_expired_lem now m id e u.1 (ground arith) in
      (ground (arith, u.0, beq_iff k id), alive)
]

-- What holds of the world after the first section of a cancellation.
abbrev pub CancelAlive : Cancel.Begun → Type 0
CancelAlive (Cancel.replied o) = Unit
CancelAlive (Cancel.stopping a phase detail) = terminal phase ≡ false

pub cancel_checks-Alive :
    (message_id : Bytes) (saved : Bool) (a : Allocator) (sender cid : Bytes) (now : ℕ)
    (q : ExecutionCancel)
    → Ensures CancelAlive (cancel_checks message_id saved a sender cid now q)
unfolding cancel_checks commit_cancel
cancel_checks-Alive message_id saved a sender cid now q =
    elim (Option-cases (get q.execution_id a.executions)) [
      | inl e ↦ ground arith
      | inr (e, h) ↦ ground arith
    ]

pub begin_cancel-Alive :
    (message_id : Bytes) (saved : Bool) (now : ℕ) (a : Allocator) (sender cid : Bytes)
    (q : ExecutionCancel)
    → CancelAlive (begin_cancel message_id saved now a sender cid q)
unfolding begin_cancel
begin_cancel-Alive message_id saved now a sender cid q =
    settle (cancel_checks message_id saved a sender cid now q)
      (cancel_checks-Alive message_id saved a sender cid now q)
  where
    settle :
        (m : Checked Err Cancel.Begun)
        → Ensures CancelAlive m
        → CancelAlive (Cancel.settle_begun a m)
    settle (ok b) k = k
    settle (err e) k = tt

pub cancel_begun-IsSound :
    (w : System.World) (q : ExecutionCancel) (b : Cancel.Begun)
    → All Alive w.stops
    → IsSound (Cancel.state_of b)
    → CancelAlive b
    → IsSoundWorld (System.cancel_begun w q b)
cancel_begun-IsSound w q (Cancel.replied o) alive s k = record { sound = s; alive = alive }
cancel_begun-IsSound w q (Cancel.stopping a phase detail) alive s k = record {
  sound = s;
  alive = (k, alive);
}

-- What holds of the first section of a round of evictions.
abbrev pub IsSoundRound : Round → Type 0
IsSoundRound (Eviction.nothing_due a) = IsSound a
IsSoundRound (Eviction.failed a e) = IsSound a
IsSoundRound (Eviction.stopping a id phase detail) = IsSound a × (terminal phase ≡ false)

pub begin_eviction-IsSound :
    (saved : Bool) (now : ℕ) (a : Allocator) (id : Bytes) (e : ExecutionRecord)
    → get id a.executions ≡ some e
    → terminal e.phase ≡ false
    → IsSound a
    → IsSoundRound (begin_eviction saved now a id e)
unfolding begin_eviction
begin_eviction-IsSound saved now a id e h alive s =
    let marked = cancelling-IsSound a id e h s Eviction.lease_expired_detail now alive in
    let f = cancelling_record e Eviction.lease_expired_detail now in
    if_rule IsSoundRound (is_nil (persist_error saved (put_execution id f a)))
      (λ _. (persist-IsSound saved (put_execution id f a) marked, alive))
      (λ _. restored-IsSound a id e f h s)

pub eviction_round-IsSound :
    (cancelled saved : Bool) (now : ℕ) (a : Allocator)
    → IsSound a
    → IsSoundRound (eviction_round cancelled saved now a)
unfolding eviction_round
eviction_round-IsSound cancelled saved now a s =
    let t = effective-IsSound now a s in
    let b = effective_now now a in
    elim (Option-cases (next_expired b.high_water b.executions)) [
      | inl e ↦ rw (e, IsSoundRound) t
      | inr ((id, e), h) ↦
          let (found, alive) = next_expired_lem b.high_water b.executions id e t.unique h in
          rw (h, IsSoundRound)
            (if_rule IsSoundRound cancelled (λ _. t)
              (λ _. begin_eviction-IsSound saved b.high_water b id e found alive t))
    ]

pub round_begun-IsSound :
    (w : System.World) (r : Round)
    → All Alive w.stops
    → IsSoundRound r
    → IsSoundWorld (System.round_begun w r)
round_begun-IsSound w (Eviction.nothing_due a) alive s = record { sound = s; alive = alive }
round_begun-IsSound w (Eviction.failed a e) alive s = record { sound = s; alive = alive }
round_begun-IsSound w (Eviction.stopping a id phase detail) alive s = record {
  sound = s.0;
  alive = (s.1, alive);
}

pub moved_by-IsSound :
    (w : System.World) (m : Option Outcome)
    → IsSound w.allocator
    → All Alive w.stops
    → ((o : Outcome) → m ≡ some o → IsSound o.state)
    → IsSoundWorld (System.moved_by w m)
moved_by-IsSound w none s alive h = record { sound = s; alive = alive }
moved_by-IsSound w (some o) s alive h = record { sound = h o refl; alive = alive }

abbrev pub AliveFound : Option (System.Stop × List System.Stop) → Type 0
AliveFound none = Unit
AliveFound (some found) = Alive found.0 × All Alive found.1

pub put_back-Alive :
    (q : System.Stop) (m : Option (System.Stop × List System.Stop))
    → Alive q
    → AliveFound m
    → AliveFound (System.put_back q m)
put_back-Alive q none alive h = tt
put_back-Alive q (some found) alive h = (h.0, (alive, h.1))

pub take_stop-Alive :
    (n : ℕ) (ps : List System.Stop) → All Alive ps → AliveFound (System.take_stop n ps)
unfolding System.take_stop
take_stop-Alive n [] alive = tt
take_stop-Alive zero (q ∷ ps) alive = alive
take_stop-Alive (suc n) (q ∷ ps) alive =
    put_back-Alive q (System.take_stop n ps) alive.0 (take_stop-Alive n ps alive.1)

pub reporter-IsSound :
    (id : Bytes) (saved : Bool) (now : ℕ) (a : Allocator) (c : Completion)
    → IsSound a
    → IsSound (completion_reporter id saved now a c).state
unfolding completion_reporter
reporter-IsSound id saved now a c s =
    let named : Completion =
      if is_empty c.execution_id then record c { execution_id = id } else c in
    if_rule (λ (o : Outcome). IsSound o.state) (beq named.execution_id id)
      (λ _. runtime_completed-IsSound saved now a named s) (λ _. s)

pub evicted-IsSound :
    (now : ℕ) (a : Allocator) (id : Bytes) (e : ExecutionRecord)
    → get id a.executions ≡ some e
    → IsSound a
    → IsSound (evicted now a id e)
unfolding evicted
evicted-IsSound now a id e h s =
    if_rule IsSound (terminal e.phase) (λ _. s)
      (λ _.
        finish-IsSound a id e ExecutionPhase.failed Eviction.lease_expired_detail none now h refl s)

pub complete_eviction-IsSound :
    (saved : Bool) (now : ℕ) (a : Allocator) (id : Bytes) (phase : ExecutionPhase) (detail : Bytes)
    (result : StopResult)
    → IsSound a
    → terminal phase ≡ false
    → IsSound (complete_eviction saved now a id phase detail result).0
unfolding complete_eviction
complete_eviction-IsSound saved now a id phase detail result s still =
    elim (Option-cases (get id a.executions)) [
      | inl e ↦ ground arith
      | inr (e, h) ↦ ground (
        arith,
        persist-IsSound saved (stop_failed now a id e phase detail)
            (stop_failed-IsSound a id e h s now phase detail still),
        persist-IsSound saved (evicted now a id e) (evicted-IsSound now a id e h s),
      )
    ]

pub save_first-IsSound :
    (saved : Bool) (a : Allocator) (key : Bytes) (v : ReplayCache × Verdict)
    → IsSound a
    → IsSound (save_first saved a key v).0
unfolding save_first
save_first-IsSound saved a key (c, first) s =
    if_rule (λ (r : Allocator × Verdict). IsSound r.0)
      (is_nil (persist_error saved (with_replay a c)))
      (λ _. persist-IsSound saved (with_replay a c) s) (λ _. s)
save_first-IsSound saved a key (c, duplicate e) s = s
save_first-IsSound saved a key (c, refused e) s = s

pub begin_replay-IsSound :
    (same : Envelope → Envelope → Bool) (saved : Bool) (now : ℕ) (a : Allocator) (key : Bytes)
    (envelope : Envelope)
    → IsSound a
    → IsSound (begin_replay same saved now a key envelope).0
unfolding begin_replay
begin_replay-IsSound same saved now a key envelope s =
    save_first-IsSound saved (expire_offers now a) key _ (expire-IsSound now a s)

pub finish_replay-IsSound :
    (saved : Bool) (a : Allocator) (key : Bytes) (responses : List Envelope) (error : Err)
    → IsSound a
    → IsSound (finish_replay saved a key responses error).0
unfolding finish_replay
finish_replay-IsSound saved a key responses error s = persist-IsSound saved _ s
