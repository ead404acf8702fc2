-- ===== src/Allocator/Lease.antt =====
-- lease.go and release.go: handleLeaseRenew and handleOfferRelease.
use r1s.Base.{
  ℕ, Bool, false, not, Option, none, some, [], ◌∷◌, Bytes, beq, get, ltb, is_empty, if◌then◌else◌,
  Checked, ok, err, ◌>>=◌, ◌>>◌, stop_if, present,
}
use r1s.Protocol.Messages.{
  ℤ, pos, negsuc, Duration, OfferReleaseOutcome, ExecutionLeaseRenew, ExecutionOfferRelease,
  Envelope, execution_lease_renew_ack, execution_offer_release_ack, stamp, as_time, add_time,
  terminal,
}
use r1s.Allocator.Errors.{
  Err, invalid_config, offer_not_found, execution_not_found, execution_conflict, unauthorized,
  invalid_transition, lease_too_long,
}
use r1s.Allocator.Ledger
use r1s.Allocator.Ledger.{CapacityLedger}
use r1s.Allocator.State.{
  OfferStatus, OfferRecord, ExecutionRecord, Tombstone, Allocator, Outcome, refuse, answer, is_nil,
  is_cancelling, commit, persist, persist_error, max_lease_ttl,
}
use r1s.Allocator.Views.{put_offer, put_execution, envelope_of}
use r1s.Allocator.Offers.{settle}

-- AsDuration of a nil duration is 0.
abbrev as_duration : Option Duration → ℤ
as_duration none = pos 0
as_duration (some d) = d.as_duration

abbrev exceeds : ℤ → ℕ → Bool
exceeds (pos d) limit = ltb limit d
exceeds (negsuc d) limit = false

abbrev pub renewed : ExecutionRecord → ℕ → ExecutionLeaseRenew → ExecutionRecord
renewed e now q = record e { lease_until = add_time now (as_duration q.lease_duration) }

abbrev pub renew_ack : Bytes → Allocator → Bytes → ℕ → ExecutionRecord → Envelope
renew_ack message_id a correlation_id now e = envelope_of a message_id correlation_id now (
    execution_lease_renew_ack
      (some (record { execution_id = e.id; expires_at = stamp e.lease_until })))

-- The lease is written before the Save, restored if that fails, and kept if no message id comes.
unfoldable pub commit_renew :
    Bytes → Bool → Allocator → Bytes → ℕ → ExecutionRecord → ExecutionLeaseRenew → Outcome
commit_renew message_id saved a correlation_id now e q =
    let extended = put_execution q.execution_id (renewed e now q) a in
    let kept = persist saved extended in
    if not (is_nil (persist_error saved extended))
    then refuse (put_execution q.execution_id e extended) (persist_error saved extended)
    else if is_empty message_id
    then refuse kept (invalid_config ∷ [])
    else answer kept (renew_ack message_id a correlation_id now (renewed e now q) ∷ [])

unfoldable pub renew_checks :
    Bytes → Bool → Allocator → Bytes → Bytes → ℕ → ExecutionLeaseRenew → Checked Err Outcome
unfolding commit_renew
renew_checks message_id saved a sender correlation_id now q = do
  e ← present (get q.execution_id a.executions) (execution_not_found ∷ [])
  stop_if (not (beq e.client sender)) (unauthorized ∷ [])
  stop_if (terminal e.phase) (invalid_transition ∷ [])
  stop_if (is_cancelling e.phase) (invalid_transition ∷ [])
  stop_if (exceeds (as_duration q.lease_duration) max_lease_ttl) (lease_too_long ∷ [])
  ok (commit_renew message_id saved a correlation_id now e q)

unfoldable pub handle_lease_renew :
    Bytes → Bool → ℕ → Allocator → Bytes → Bytes → ExecutionLeaseRenew → Outcome
unfolding renew_checks
handle_lease_renew message_id saved now a sender correlation_id q =
    settle a (renew_checks message_id saved a sender correlation_id now q)

-- release.go. What the release finds: a recorded offer, or one that a tombstone stands for.
pub data Found : Type 0 where
  live : OfferRecord → Found
  buried : Tombstone → Found

unfoldable pub find_offer : Allocator → Bytes → Option Found
find_offer a id = elim (get id a.offers) [
  | some o ↦ some (live o)
  | none ↦ elim (get id a.tombstones) [ none ↦ none | some t ↦ some (buried t) ]
]

abbrev found_client : Found → Bytes
found_client (live o) = o.client
found_client (buried t) = t.client

abbrev found_request : Found → Bytes
found_request (live o) = o.offer.request_id
found_request (buried t) = t.request_id

-- The status of an outstanding offer after its release.
abbrev pub released_status : ℕ → OfferRecord → OfferStatus
released_status now o =
    if ltb now (as_time o.offer.expires_at) then OfferStatus.released else OfferStatus.expired

abbrev pub release_outcome : OfferStatus → OfferReleaseOutcome
release_outcome OfferStatus.outstanding = OfferReleaseOutcome.released
release_outcome OfferStatus.released = OfferReleaseOutcome.released
release_outcome OfferStatus.expired = OfferReleaseOutcome.expired
release_outcome OfferStatus.assigned = OfferReleaseOutcome.assigned

abbrev pub release_ack :
    Bytes → Allocator → Bytes → ℕ → ExecutionOfferRelease → OfferReleaseOutcome → Envelope
release_ack message_id a correlation_id now q outcome =
    envelope_of a message_id correlation_id now (
      execution_offer_release_ack
        (some (record { request_id = q.request_id; offer_id = q.offer_id; outcome = outcome })))

-- `_ = a.capacity.reserve(class)`
abbrev pub try_reserve : CapacityLedger → Bytes → CapacityLedger
try_reserve l class = elim (Ledger.reserve l class) [ err e ↦ l | ok m ↦ m ]

-- An outstanding offer gives its slot back; a failed Save takes it again.
unfoldable pub commit_release :
    Bytes → Bool → Allocator → Bytes → ℕ → OfferRecord → ExecutionOfferRelease → Outcome
commit_release message_id saved a correlation_id now o q =
    let status = released_status now o in
    let class = o.offer.resource_class in
    let given : Allocator = record (put_offer q.offer_id (record o { status = status }) a) {
      capacity = Ledger.release a.capacity class;
    } in
    commit saved given (release_ack message_id a correlation_id now q (release_outcome status) ∷ [])
      (record (put_offer q.offer_id o given) { capacity = try_reserve given.capacity class })

unfoldable pub release_found :
    Bytes → Bool → Allocator → Bytes → ℕ → Found → ExecutionOfferRelease → Outcome
unfolding commit_release
release_found message_id saved a correlation_id now (buried t) q =
    answer a (release_ack message_id a correlation_id now q OfferReleaseOutcome.expired ∷ [])
release_found message_id saved a correlation_id now (live o) q = elim o.status [
  | OfferStatus.outstanding ↦ commit_release message_id saved a correlation_id now o q
  | other ↦ answer a (release_ack message_id a correlation_id now q (release_outcome other) ∷ [])
]

unfoldable pub release_checks :
    Bytes → Bool → Allocator → Bytes → Bytes → ℕ → ExecutionOfferRelease → Checked Err Outcome
unfolding find_offer release_found
release_checks message_id saved a sender correlation_id now q = do
  found ← present (find_offer a q.offer_id) (offer_not_found ∷ [])
  stop_if (not (beq (found_client found) sender)) (unauthorized ∷ [])
  stop_if (not (beq (found_request found) q.request_id)) (execution_conflict ∷ [])
  stop_if (is_empty message_id) (invalid_config ∷ [])
  ok (release_found message_id saved a correlation_id now found q)

unfoldable pub handle_offer_release :
    Bytes → Bool → ℕ → Allocator → Bytes → Bytes → ExecutionOfferRelease → Outcome
unfolding release_checks
handle_offer_release message_id saved now a sender correlation_id q =
    settle a (release_checks message_id saved a sender correlation_id now q)
