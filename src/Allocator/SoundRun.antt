-- ===== src/Allocator/SoundRun.antt =====
-- The ledger over every order of the locked sections.
use r1s.Base.{◌≡◌, ◌≤◌, refl, ◌<◌, count, Bool, none, some, List, [], ◌∷◌, Bytes, arith, get}
use r1s.Protocol.Messages.{ExecutionRequest, Envelope}
use r1s.Allocator.Ledger.{slots}
use r1s.Allocator.State.{Allocator}
use r1s.Allocator.Cancel.{finish_cancel}
use r1s.Allocator.Eviction.{complete_eviction}
use r1s.Allocator.Accounts.{IsSound, held}
use r1s.Allocator.Sound.{handle_request-IsSound}
use r1s.Allocator.SoundSections.{begin_assign-IsSound, finish_assign-IsSound}
use r1s.Allocator.SoundCancel.{
  begin_cancel-IsSound, finish_cancel-IsSound, handle_lease_renew-IsSound,
}
use r1s.Allocator.SoundRelease.{handle_offer_release-IsSound}
use r1s.Allocator.System
use r1s.Allocator.SoundSystem.{
  AliveFound, IsSoundWorld, sweep-IsSound, cancel_begun-IsSound, begin_cancel-Alive,
  round_begun-IsSound, eviction_round-IsSound, moved_by-IsSound, take_stop-Alive, reporter-IsSound,
  complete_eviction-IsSound, begin_replay-IsSound, finish_replay-IsSound,
}

start-IsSound :
    (a : Allocator)
    → a.offers ≡ []
    → a.executions ≡ []
    → a.capacity.used ≡ []
    → ((c : Bytes) → slots c a.capacity.limits < 4294967296)
    → IsSound a
unfolding slots count get
start-IsSound a offers executions used small = record {
  balanced = λ c. rw (offers, executions, used) refl;
  within = λ c. rw used (omega arith);
  bounded = small;
  settled = rw executions tt;
  unique = rw executions tt;
}

module _ (eq : ExecutionRequest → ExecutionRequest → Bool) (same : Envelope → Envelope → Bool) where
  pub step-IsSound :
      (s : System.Section) (w : System.World)
      → IsSoundWorld w
      → IsSoundWorld (System.step eq same s w)
  unfolding System.step
  step-IsSound (System.sweep saved now) w k = record {
    sound = sweep-IsSound saved now w.allocator k.sound;
    alive = k.alive;
  }
  step-IsSound (System.request fresh saved now sender cid q) w k = record {
    sound = handle_request-IsSound eq fresh saved now w.allocator sender cid q k.sound;
    alive = k.alive;
  }
  step-IsSound (System.assign_begins message_id saved now sender cid q) w k = record {
    sound = begin_assign-IsSound message_id saved now w.allocator sender cid q k.sound;
    alive = k.alive;
  }
  step-IsSound (System.assign_ends message_id saved now id cid start_error) w k =
      moved_by-IsSound w _ k.sound k.alive
        (λ o h. finish_assign-IsSound message_id saved now w.allocator id cid start_error k.sound h)
  step-IsSound (System.cancel_begins message_id saved now sender cid q) w k =
      cancel_begun-IsSound w q _ k.alive
        (begin_cancel-IsSound message_id saved now w.allocator sender cid q k.sound)
        (begin_cancel-Alive message_id saved now w.allocator sender cid q)
  step-IsSound (System.cancel_ends n message_id saved now cid failed) w k =
      elim (System.take_stop n w.stops)
          as (λ x.
            AliveFound x
            → IsSoundWorld (elim x [
              | none ↦ w
              | some found ↦
                  System.moved_by (record w { stops = found.1 })
                    (finish_cancel message_id saved now w.allocator found.0.id cid found.0.phase
                      found.0.detail found.0.reason failed)
            ])) [
              | none ↦ λ _. k
              | some (p, ps) ↦ λ (still, rest).
                  moved_by-IsSound (record w { stops = ps }) _ k.sound rest
                    (λ o h.
                      finish_cancel-IsSound message_id saved now w.allocator p.id cid p.phase
                        p.detail p.reason failed k.sound still h)
            ]
        (take_stop-Alive n w.stops k.alive)
  step-IsSound (System.renew message_id saved now sender cid q) w k = record {
    sound = handle_lease_renew-IsSound message_id saved now w.allocator sender cid q k.sound;
    alive = k.alive;
  }
  step-IsSound (System.give_back message_id saved now sender cid q) w k = record {
    sound = handle_offer_release-IsSound message_id saved now w.allocator sender cid q k.sound;
    alive = k.alive;
  }
  step-IsSound (System.report id saved now c) w k = record {
    sound = reporter-IsSound id saved now w.allocator c k.sound;
    alive = k.alive;
  }
  step-IsSound (System.eviction_begins cancelled saved now) w k =
      round_begun-IsSound w _ k.alive
        (eviction_round-IsSound cancelled saved now w.allocator k.sound)
  step-IsSound (System.eviction_ends n saved now result) w k =
      elim (System.take_stop n w.stops)
          as (λ x.
            AliveFound x
            → IsSoundWorld (elim x [
              | none ↦ w
              | some found ↦
                  System.moved (record w { stops = found.1 })
                    (complete_eviction saved now w.allocator found.0.id found.0.phase found.0.detail
                      result).0
            ])) [
              | none ↦ λ _. k
              | some (p, ps) ↦ λ (still, rest). record {
                sound =
                    complete_eviction-IsSound saved now w.allocator p.id p.phase p.detail result
                      k.sound still;
                alive = rest;
              }
            ]
        (take_stop-Alive n w.stops k.alive)
  step-IsSound (System.replay_begins saved now key envelope) w k = record {
    sound = begin_replay-IsSound same saved now w.allocator key envelope k.sound;
    alive = k.alive;
  }
  step-IsSound (System.replay_ends saved key responses error) w k = record {
    sound = finish_replay-IsSound saved w.allocator key responses error k.sound;
    alive = k.alive;
  }

  pub run-IsSound :
      (ss : List System.Section) (w : System.World)
      → IsSoundWorld w
      → IsSoundWorld (System.run eq same ss w)
  unfolding System.run
  run-IsSound [] w k = k
  run-IsSound (s ∷ ss) w k = run-IsSound ss (System.step eq same s w) (step-IsSound s w k)

  -- From an allocator with no records and an empty ledger, with limits that fit uint32, whatever
  -- the order in which the locked sections of requests, assignments, cancellations, renewals,
  -- releases, runtime reports, evictions, sweeps of due offers and replay entries run, and
  -- whichever of their Saves, Starts and Stops fail: for every resource class the slots in use
  -- are the outstanding offers and unreleased executions of the class, and they are at most its
  -- limit.
  pub run-balanced :
      (ss : List System.Section) (a : Allocator) (class : Bytes)
      → a.offers ≡ []
      → a.executions ≡ []
      → a.capacity.used ≡ []
      → ((c : Bytes) → slots c a.capacity.limits < 4294967296)
      → let b = (System.run eq same ss (record { allocator = a; stops = [] })).allocator in
        (slots class b.capacity.used ≡ held class b.offers b.executions)
        × (slots class b.capacity.used ≤ slots class b.capacity.limits)
  run-balanced ss a class offers executions used small =
      let k =
        (run-IsSound ss (record { allocator = a; stops = [] })
          (record { sound = start-IsSound a offers executions used small; alive = tt })).sound in
      (k.balanced class, k.within class)
