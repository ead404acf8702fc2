-- ===== src/Allocator/Views.antt =====
-- views.go, with finishLocked and startRequestLocked of runtime_bridge.go: expiry of offers, the
-- response envelopes, and the terminal transition of an execution.
use r1s.Base.{
  ◌%◌, ℕ, ◌+◌, Bool, true, ◌&&◌, not, Option, none, some, [], ◌∷◌, ◌++◌, Bytes, Assoc, put, count,
  is_empty, ltb, max, if◌then◌else◌, Checked, ok, err, ◌>>◌, stop_if,
}
use r1s.Protocol.Messages.{
  ℤ, ExecutionPhase, ExecutionOffer, ExecutionState, Payload, execution_offer, execution_state,
  Envelope, stamp, as_time,
}
use r1s.Tunnel.Registry.{invalidate}
use r1s.Allocator.Errors.{Err, invalid_config, execution_not_found}
use r1s.Allocator.Ledger.{CapacityLedger}
use r1s.Allocator.Ledger
use r1s.Allocator.State.{
  OfferStatus, OfferRecord, ExecutionRecord, Allocator, is_outstanding, persist,
}

-- Outstanding, and its time is not after now.
abbrev pub due : ℕ → OfferRecord → Bool
due now o = is_outstanding o.status && not (ltb now (as_time o.offer.expires_at))

unfoldable pub expire_records : ℕ → Assoc OfferRecord → Assoc OfferRecord
expire_records now [] = []
expire_records now ((id, o) ∷ m) =
    (id, if due now o then record o { status = OfferStatus.expired } else o) ∷ expire_records now m

unfoldable pub release_due : ℕ → Assoc OfferRecord → CapacityLedger → CapacityLedger
release_due now [] l = l
release_due now ((id, o) ∷ m) l =
    release_due now m (if due now o then Ledger.release l o.offer.resource_class else l)

-- expireOffersLocked: one pass over the offers; the number that it returns is `expired_offers`.
unfoldable pub expire_offers : ℕ → Allocator → Allocator
expire_offers now a = record a {
  offers = expire_records now a.offers;
  capacity = release_due now a.offers a.capacity;
}

unfoldable pub expired_offers : ℕ → Allocator → ℕ
expired_offers now a = count (due now) a.offers

-- SweepExpired ignores a failed Save.
unfoldable pub sweep_expired : Bool → ℕ → Allocator → Allocator × ℕ
sweep_expired saved now a =
    let n = expired_offers now a in
    let swept = expire_offers now a in (if ltb 0 n then persist saved swept else swept, n)

-- The identity, a zero byte, the id.
unfoldable pub authority_key : Bytes → Bytes → Bytes
authority_key identity id = identity ++ (0 ∷ id)

abbrev pub envelope_of : Allocator → Bytes → Bytes → ℕ → Payload → Envelope
envelope_of a message_id correlation_id now payload = record {
  message_id = message_id;
  sender = a.identity;
  correlation_id = correlation_id;
  sent_at = stamp now;
  payload = payload;
}

unfoldable pub offer_envelope :
    Bytes → Allocator → ExecutionOffer → Bytes → ℕ → Checked Err Envelope
offer_envelope message_id a offer correlation_id now = do
  stop_if (is_empty message_id) (invalid_config ∷ [])
  ok (envelope_of a message_id correlation_id now (execution_offer (some offer)))

unfoldable pub state_from_record : ExecutionRecord → ExecutionState
state_from_record e = record {
  execution_id = e.id;
  phase = e.phase;
  occurred_at = stamp e.occurred_at;
  detail = e.detail;
  exit_code = e.exit_code;
  revision = e.revision;
}

unfoldable pub state_envelope :
    Bytes → Allocator → Option ExecutionRecord → Bytes → ℕ → Checked Err Envelope
state_envelope message_id a none correlation_id now = err (execution_not_found ∷ [])
state_envelope message_id a (some e) correlation_id now = do
  stop_if (is_empty message_id) (invalid_config ∷ [])
  ok (envelope_of a message_id correlation_id now (execution_state (some (state_from_record e))))

abbrev u64 : ℕ → ℕ
u64 n = n % 18446744073709551616

-- `record.revision++`
abbrev pub bump : ℕ → ℕ
bump n = u64 (n + 1)

-- The record that finishLocked leaves.
unfoldable pub finished_record :
    Allocator → ExecutionRecord → ExecutionPhase → Bytes → Option ℤ → ℕ → ExecutionRecord
finished_record a e phase detail exit_code now = record e {
  phase = phase;
  detail = detail;
  exit_code = exit_code;
  occurred_at = now;
  revision = bump e.revision;
  retain_until = max now a.high_water + a.retention;
  released = true;
}

-- finishLocked of the execution `e`, which the map holds under `id`.
unfoldable pub finish :
    Allocator → Bytes → ExecutionRecord → ExecutionPhase → Bytes → Option ℤ → ℕ → Allocator
finish a id e phase detail exit_code now = record a {
  executions = put id (finished_record a e phase detail exit_code now) a.executions;
  capacity = if e.released then a.capacity else Ledger.release a.capacity e.resource_class;
  tunnels = invalidate a.tunnels id;
}

abbrev pub put_execution : Bytes → ExecutionRecord → Allocator → Allocator
put_execution id e a = record a { executions = put id e a.executions }

abbrev pub put_offer : Bytes → OfferRecord → Allocator → Allocator
put_offer id o a = record a { offers = put id o a.offers }
