-- ===== src/Client/System.antt =====
-- Every operation of the client that changes its state, as one step, in any order.
use r1s.Base.{ℕ, Bool, Option, List, [], ◌∷◌, Bytes, Checked, ok, err}
use r1s.Protocol.Messages.{
  ℤ, Envelope, Workload, ExecutionPolicy, PlacementConstraints, ExecutionRequest, ExecutionOffer,
  ExecutionState,
}
use r1s.Client.State.{ClientError, Allocator, Client}
use r1s.Client.Catalog.{register_allocator}
use r1s.Client.Selection.{select}
use r1s.Client.Leases.{maintain, record_lease_intent, rebind_lease_intent}
use r1s.Client.Inbound.{handle}
use r1s.Client.Commands.{create_first, create_next_attempt, inspect, cancel, logs}

-- One call, with the IDs that newID gives it and the time.
pub data Call : Type 0 where
  register : Allocator → Call
  create :
      (ℕ → Bytes)
      → ℕ
      → Option Workload
      → Option ExecutionPolicy
      → Bytes
      → Option PlacementConstraints
      → Call
  next_attempt : (ℕ → Bytes) → ℕ → Option ExecutionRequest → Call
  choose_offer : (ℕ → Bytes) → ℕ → Bytes → Call
  ask_state : Bytes → ℕ → Bytes → Call
  stop : Bytes → ℕ → Bytes → Bytes → Call
  read_logs : Bytes → ℕ → Bytes → Bytes → ℕ → ℕ → Call
  renew : Bytes → ℕ → Bytes → ℤ → Call
  intend : Bytes → ℤ → List Bytes → Call
  rebind : Bytes → Bytes → Call
  take_message : Bytes → ℕ → Envelope → Call

-- The client after a call that changes nothing where it fails.
abbrev pub kept : {A : Type 0} → (A → Client) → Client → Checked ClientError A → Client
kept f c (ok a) = f a
kept f c (err e) = c

module _ (same_offer : ExecutionOffer → ExecutionOffer → Bool)
    (same_state : ExecutionState → ExecutionState → Bool) (sha256 : Bytes → Bytes) where
  unfoldable pub step : Call → Client → Client
  unfolding create_first create_next_attempt select inspect cancel logs maintain record_lease_intent
      rebind_lease_intent handle register_allocator
  step (register a) c = kept (λ x. x) c (register_allocator c a)
  step (create new_id now workload policy class constraints) c =
      kept (λ x. x.0) c (create_first sha256 new_id now c workload policy class constraints)
  step (next_attempt new_id now previous) c =
      kept (λ x. x.0) c (create_next_attempt sha256 new_id now c previous)
  step (choose_offer new_id now request_id) c = kept (λ x. x.0) c (select new_id now c request_id)
  step (ask_state message_id now id) c = kept (λ x. x.0) c (inspect message_id now c id)
  step (stop message_id now id reason) c = (cancel message_id now c id reason).0
  step (read_logs message_id now id stream offset limit) c =
      kept (λ x. x.0) c (logs sha256 message_id now c id stream offset limit)
  step (renew message_id now id asked) c = (maintain message_id now c id asked).0
  step (intend id asked pinned) c = kept (λ x. x) c (record_lease_intent c id asked pinned)
  step (rebind old_id new_id) c = kept (λ x. x) c (rebind_lease_intent c old_id new_id)
  step (take_message release_id now e) c =
      (handle same_offer same_state sha256 release_id now c e).client

  unfoldable pub run : List Call → Client → Client
  unfolding step
  run [] c = c
  run (call ∷ calls) c = run calls (step call c)
