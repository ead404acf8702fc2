-- ===== src/Client/Leases.antt =====
-- lease_intent.go and lease_ack.go: the duty to keep an execution leased, and how it is lost.
use r1s.Base.{
  ℕ, ◌*◌, ◌/◌, ◌&&◌, ◌||◌, not, Bool, true, false, Option, none, some, List, [], ◌∷◌, Bytes, Assoc,
  ascii, get, any, beq, ltb, leb, ◌==◌, is_empty, if◌then◌else◌, Checked, ok, err, ◌>>=◌, ◌>>◌,
  stop_if, present,
}
use r1s.Protocol.Messages.{
  ℤ, pos, negsuc, Envelope, ExecutionPhase, ExecutionRequest, ExecutionState,
  ExecutionLeaseRenewAck, execution_lease_renew, as_time, stamp, terminal, add_time, nanoseconds,
}
use r1s.Allocator.Eviction.{lease_expired_detail}
use r1s.Client.State.{
  ClientError, invalid_config, execution_not_found, conflict, unauthorized, ExecutionRecord, Client,
  put_execution,
}
use r1s.Client.Selection.{Command}

-- protocol.DefaultLease, 10 minutes.
abbrev pub client_default_lease : ℤ
client_default_lease = pos (600 * nanoseconds)

abbrev pub is_positive : ℤ → Bool
is_positive (pos n) = ltb 0 n
is_positive (negsuc n) = false

-- Go's division of a positive duration by 3.
abbrev pub third : ℤ → ℤ
third (pos n) = pos (n / 3)
third (negsuc n) = pos 0

abbrev is_failed : ExecutionPhase → Bool
is_failed ExecutionPhase.failed = true
is_failed _ = false

abbrev pub is_lost_lease_state : ExecutionState → Bool
is_lost_lease_state s = is_failed s.phase && beq s.detail lease_expired_detail

-- `record.state != nil && protocol.Terminal(record.state.GetPhase())`
abbrev pub has_ended : Option ExecutionState → Bool
has_ended none = false
has_ended (some s) = terminal s.phase

abbrev pub ended_by_lease : Option ExecutionState → Bool
ended_by_lease none = false
ended_by_lease (some s) = is_lost_lease_state s

-- What Maintain gives, where it succeeds: a command, unless the lease is lost.
pub record Maintained : Type 0 where
  pub command : Option Command
  pub lost : Bool

abbrev pub renewed_duration : ℤ → ℤ → ℤ
renewed_duration recorded asked =
    let d : ℤ = if is_positive asked then asked else recorded in
    if is_positive d then d else client_default_lease

abbrev pub renewal : Client → Bytes → ℕ → ExecutionRecord → Envelope
renewal c message_id now r = record {
  message_id = message_id;
  sender = c.identity;
  correlation_id = [];
  sent_at = stamp now;
  payload = execution_lease_renew (
      some (record {
        execution_id = r.id;
        lease_duration = some (record { check_valid = true; as_duration = r.lease_duration });
      }));
}

abbrev pub lost_lease : Maintained
lost_lease = record { command = none; lost = true }

-- The duration is recorded before the ID is asked for.
unfoldable pub maintain : Bytes → ℕ → Client → Bytes → ℤ → Client × Checked ClientError Maintained
maintain message_id now c execution_id asked = elim (get execution_id c.executions) [
  | none ↦ (c, err execution_not_found)
  | some r ↦
      if r.lease_lost
      then (c, ok lost_lease)
      else if has_ended r.state
      then if ended_by_lease r.state
        then (put_execution c execution_id (record r { lease_lost = true }), ok lost_lease)
        else (c, err conflict)
      else let timed : ExecutionRecord = record r {
        lease_duration = renewed_duration r.lease_duration asked;
      } in
        if is_empty message_id then (put_execution c execution_id timed, err invalid_config) else (
          put_execution c execution_id
              (record timed { lease_renew_message_id = message_id; lease_renewed_at = now }),
          ok (record {
            command =
                some (record {
                  destination = r.destination;
                  envelope = renewal c message_id now timed;
                });
            lost = false;
          }),
        )
]

-- Past one third of the lease since the last attempt; the zero time is 0.
abbrev pub is_due : ℕ → ExecutionRecord → Bool
is_due now r =
    is_positive r.lease_duration
    && not r.lease_lost
    && not (has_ended r.state)
    && (r.lease_renewed_at == 0 || leb (add_time r.lease_renewed_at (third r.lease_duration)) now)

unfoldable pub due_lease_renewals : ℕ → Assoc ExecutionRecord → List Bytes
due_lease_renewals now [] = []
due_lease_renewals now ((key, r) ∷ rest) =
    let others : List Bytes = due_lease_renewals now rest in
    if is_due now r then r.id ∷ others else others

unfoldable pub lease_due : ℕ → Client → Bytes → Bool
lease_due now c execution_id = elim (get execution_id c.executions) [
  | none ↦ false
  | some r ↦ is_due now r
]

-- The destinations seen come first.
unfoldable pub pinned_allocators : List Bytes → List Bytes → List Bytes
pinned_allocators seen [] = []
pinned_allocators seen (d ∷ ds) =
    if is_empty d || any (beq d) seen
    then pinned_allocators seen ds
    else d ∷ pinned_allocators (d ∷ seen) ds

unfoldable pub record_lease_intent : Client → Bytes → ℤ → List Bytes → Checked ClientError Client
unfolding pinned_allocators
record_lease_intent c execution_id lease_duration allocators = do
  r ← present (get execution_id c.executions) execution_not_found
  stop_if (r.lease_lost || has_ended r.state) conflict
  ok (
      put_execution c execution_id (record r {
        lease_duration =
            if is_positive lease_duration then lease_duration else client_default_lease;
        lease_allocators = pinned_allocators [] allocators;
      }))

unfoldable pub lease_intent_allocators : Client → Bytes → List Bytes
lease_intent_allocators c execution_id = elim (get execution_id c.executions) [
  | none ↦ []
  | some r ↦ r.lease_allocators
]

unfoldable pub lease_intent_lost : Client → Bytes → Bool
lease_intent_lost c execution_id = elim (get execution_id c.executions) [
  | none ↦ false
  | some r ↦ r.lease_lost
]

unfoldable pub lost_lease_intents : Assoc ExecutionRecord → List Bytes
lost_lease_intents [] = []
lost_lease_intents ((key, r) ∷ rest) =
    let others : List Bytes = lost_lease_intents rest in
    if r.lease_lost && is_positive r.lease_duration then r.id ∷ others else others

unfoldable pub request_for_execution : Client → Bytes → Option ExecutionRequest
request_for_execution c execution_id = elim (get execution_id c.executions) [
  | none ↦ none
  | some e ↦ elim (get e.request_id c.requests) [ none ↦ none | some r ↦ some r.request ]
]

unfoldable pub rebind_lease_intent : Client → Bytes → Bytes → Checked ClientError Client
rebind_lease_intent c old_id new_id = do
  previous ← present (get old_id c.executions) execution_not_found
  replacement ← present (get new_id c.executions) execution_not_found
  stop_if (beq old_id new_id) execution_not_found
  stop_if (not (is_positive previous.lease_duration)) conflict
  let released : Client =
      put_execution c old_id
        (record previous { lease_duration = pos 0; lease_lost = false; lease_allocators = [] })
  ok (
      put_execution released new_id (record replacement {
        lease_duration = previous.lease_duration;
        lease_allocators = previous.lease_allocators;
        lease_lost = false;
        lease_expires_at = 0;
      }))

unfoldable pub handle_renew_ack :
    ℕ → Client → Envelope → ExecutionLeaseRenewAck → Checked ClientError Client
handle_renew_ack now c envelope ack = do
  r ← present (get ack.execution_id c.executions) execution_not_found
  stop_if
      (is_empty r.lease_renew_message_id
        || not (beq r.allocator_id envelope.sender)
        || not (beq r.lease_renew_message_id envelope.correlation_id))
      unauthorized
  stop_if r.lease_lost conflict
  ok (
      put_execution c ack.execution_id (record r {
        lease_renew_message_id = [];
        lease_renewed_at = now;
        lease_expires_at = as_time ack.expires_at;
      }))

abbrev pub is_loss : Bytes → Bool
is_loss code = beq code (ascii "NOT_FOUND") || beq code (ascii "EXPIRED")

-- The record as markRenewalFailureLocked leaves it.
unfoldable pub mark_renewal_failure : Bytes → ExecutionRecord → ExecutionRecord
mark_renewal_failure code r =
    if is_loss code then record r { lease_renew_message_id = []; lease_lost = true } else r
