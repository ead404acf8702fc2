-- ===== src/Allocator/Offers.antt =====
-- offers.go: handleRequest and handleInspect. `request_equal` is proto.Equal on requests. `fresh` is
-- what newID returns: the offer's id and the message's id; `saved` is the outcome of the Save.
use r1s.Base.{
  ℕ, ◌+◌, ◌*◌, Bool, true, false, ◌&&◌, not, Option, none, some, [], ◌∷◌, Bytes, Assoc, beq, get,
  put, delete, is_empty, is_none, length, ltb, ◌==◌, any, Checked, ok, err, ◌>>=◌, ◌>>◌, stop_if,
  present,
}
use r1s.Protocol.Messages.{
  ExecutionRequest, ExecutionOffer, ExecutionInspect, NodeCapabilities, Envelope, stamp,
}
use r1s.Protocol.Placement.{placement_matches, placement_conflict_details, contains}
use r1s.Allocator.Errors.{
  Err, offer_released, invalid_config, capacity_exhausted, offer_expired, execution_not_found,
  execution_conflict, unauthorized, id_collision, admission, result_expired, incompatible,
}
use r1s.Allocator.Ledger
use r1s.Allocator.Ledger.{CapacityLedger}
use r1s.Allocator.State.{
  OfferStatus, OfferRecord, Tombstone, Resources, Allocator, Outcome, refuse, answer, commit,
}
use r1s.Allocator.Views.{expire_offers, authority_key, offer_envelope, state_envelope}
use r1s.Allocator.Admission.{admit}

pub record Fresh : Type 0 where
  pub offer_id : Bytes
  pub message_id : Bytes

-- A refused check leaves the state as it is.
abbrev pub settle : Allocator → Checked Err Outcome → Outcome
settle a (err e) = refuse a e
settle a (ok o) = o

unfoldable pub inspect_checks :
    Bytes → Allocator → Bytes → Bytes → ExecutionInspect → ℕ → Checked Err Outcome
inspect_checks message_id a sender correlation_id q now = do
  e ← present (get q.execution_id a.executions) (execution_not_found ∷ [])
  stop_if (not (beq e.client sender)) (unauthorized ∷ [])
  response ← state_envelope message_id a (some e) correlation_id now
  ok (answer a (response ∷ []))

unfoldable pub handle_inspect : Bytes → ℕ → Allocator → Bytes → Bytes → ExecutionInspect → Outcome
unfolding inspect_checks
handle_inspect message_id now a sender correlation_id q =
    settle a (inspect_checks message_id a sender correlation_id q now)

-- The offer that an earlier request with the same key got, if it is still on record.
unfoldable pub existing_offer : Allocator → Bytes → Option OfferRecord
existing_offer a key = elim (get key a.requests) [
  | none ↦ none
  | some offer_id ↦ get offer_id a.offers
]

abbrev pub has_status : OfferStatus → OfferStatus → Bool
has_status OfferStatus.outstanding OfferStatus.outstanding = true
has_status OfferStatus.assigned OfferStatus.assigned = true
has_status OfferStatus.expired OfferStatus.expired = true
has_status OfferStatus.released OfferStatus.released = true
has_status _ _ = false

abbrev retired : Bytes → Bytes → Bytes × Tombstone → Bool
retired client request_id e = beq e.1.client client && beq e.1.request_id request_id

abbrev profile_of : Bytes → Assoc Resources → Resources
profile_of class m = elim (get class m) [
  | none ↦ record { memory_bytes = 0; cpu_milli = 0; pids = 0 }
  | some r ↦ r
]

-- An advertised node must list the class.
abbrev profile_missing : Option NodeCapabilities → Bytes → Bool
profile_missing none class = false
profile_missing (some node) class = not (contains node.resource_profiles class)

module _ (request_equal : ExecutionRequest → ExecutionRequest → Bool) (fresh : Fresh)
    (saved : Bool) where
  -- The same request again: the recorded offer.
  unfoldable pub repeat_request :
      Allocator → OfferRecord → Bytes → ℕ → ExecutionRequest → Checked Err Outcome
  repeat_request a o correlation_id now q = do
    stop_if (has_status o.status OfferStatus.expired) (offer_expired ∷ [])
    stop_if (not (request_equal o.request q)) (execution_conflict ∷ [])
    stop_if (has_status o.status OfferStatus.released) (offer_released ∷ [])
    response ← offer_envelope fresh.message_id a o.offer correlation_id now
    ok (answer a (response ∷ []))

  abbrev pub minted : Allocator → ExecutionRequest → ℕ → ExecutionOffer
  minted a q now = record {
    offer_id = fresh.offer_id;
    request_id = q.request_id;
    resource_class = q.resource_class;
    expires_at = stamp (now + a.offer_ttl);
    node = a.node;
  }

  abbrev pub new_record : Allocator → Bytes → ExecutionRequest → ℕ → OfferRecord
  new_record a sender q now = record {
    offer = minted a q now;
    request = q;
    client = sender;
    status = OfferStatus.outstanding;
    execution = [];
    resources = profile_of q.resource_class a.admission.profiles;
  }

  -- The offer and the key of its request are recorded.
  abbrev pub inserted : Allocator → Bytes → Bytes → ExecutionRequest → ℕ → Allocator
  inserted a sender key q now = record a {
    offers = put fresh.offer_id (new_record a sender q now) a.offers;
    requests = put key fresh.offer_id a.requests;
  }

  abbrev pub undo_insert : Bytes → Allocator → Allocator
  undo_insert key b = record b {
    offers = delete fresh.offer_id b.offers;
    requests = delete key b.requests;
  }

  -- The insertion, the reservation and the Save; a refused reservation and a failed Save both take
  -- the offer and the request key out again, a failed Save gives the slot back too.
  unfoldable pub publish_with :
      Allocator
      → Bytes
      → Bytes
      → ExecutionRequest
      → ℕ
      → Envelope
      → Checked Err CapacityLedger
      → Outcome
  publish_with a sender key q now response (err e) =
      refuse (undo_insert key (inserted a sender key q now)) e
  publish_with a sender key q now response (ok l) =
      let reserved : Allocator = record (inserted a sender key q now) { capacity = l } in
      commit saved reserved (response ∷ [])
        (undo_insert key (record reserved { capacity = Ledger.release l q.resource_class }))

  unfoldable pub publish : Allocator → Bytes → Bytes → ExecutionRequest → ℕ → Envelope → Outcome
  unfolding publish_with
  publish a sender key q now response =
      publish_with a sender key q now response (Ledger.reserve a.capacity q.resource_class)

  -- What stands between a new request and its offer.
  unfoldable pub request_guards : Allocator → Bytes → ExecutionRequest → Checked Err (Unit {0})
  request_guards a sender q = do
    stop_if (any (retired sender q.request_id) a.tombstones) (result_expired ∷ [])
    stop_if (ltb a.max_records (length a.offers * 2 + length a.tombstones + 2))
        (capacity_exhausted ∷ [])
    admit a sender false
    stop_if (Ledger.available a.capacity q.resource_class == 0) (capacity_exhausted ∷ [])
    stop_if (not (placement_matches q.constraints a.node))
        (incompatible (placement_conflict_details q.constraints a.node) ∷ [])
    stop_if (profile_missing a.node q.resource_class) (admission ∷ [])
    stop_if (is_empty fresh.offer_id) (invalid_config ∷ [])
    stop_if (not (is_none (get fresh.offer_id a.offers))) (id_collision ∷ [])

  unfoldable pub new_request :
      Allocator → Bytes → Bytes → ℕ → Bytes → ExecutionRequest → Checked Err Outcome
  unfolding publish request_guards
  new_request a sender correlation_id now key q = do
    request_guards a sender q
    response ← offer_envelope fresh.message_id a (minted a q now) correlation_id now
    ok (publish a sender key q now response)

  unfoldable pub request_checks :
      Allocator → Bytes → Bytes → ℕ → ExecutionRequest → Checked Err Outcome
  unfolding existing_offer repeat_request new_request
  request_checks a sender correlation_id now q =
      let key = authority_key sender q.request_id in
      elim (existing_offer a key) [
        | some o ↦ repeat_request a o correlation_id now q
        | none ↦ new_request a sender correlation_id now key q
      ]

  unfoldable pub handle_request : ℕ → Allocator → Bytes → Bytes → ExecutionRequest → Outcome
  unfolding request_checks
  handle_request now a sender correlation_id q =
      let current = expire_offers now a in
      settle current (request_checks current sender correlation_id now q)
