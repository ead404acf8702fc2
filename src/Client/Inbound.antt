-- ===== src/Client/Inbound.antt =====
-- inbound.go, feedback.go, logs.go and tunnel.go of internal/client: what the client takes from an
-- allocator. proto.Equal is a parameter for each message compared, sha256 one of the validation.
use r1s.Base.{
  ℕ, ◌&&◌, ◌||◌, not, Bool, true, false, Option, none, some, List, [], ◌∷◌, Bytes, Assoc, get, put,
  map, length, beq, ltb, ◌==◌, is_empty, is_none, if◌then◌else◌, Checked, ok, err, ◌>>=◌, ◌>>◌,
  stop_if, present,
}
use r1s.Protocol.Messages.{
  Envelope, Payload, NodeCapabilities, ExecutionOffer, ExecutionState, ExecutionLogsResponse,
  ExecutionLogsRequest, ExecutionTunnelOpenAck, CommandError, execution_logs_response,
  command_error, execution_offer, execution_state, execution_offer_release_ack,
  execution_lease_renew_ack, execution_tunnel_open_ack, as_time, terminal,
}
use r1s.Protocol.Validate.{validate_envelope}
use r1s.Client.State.{
  ClientError, request_not_found, execution_not_found, conflict, unauthorized, unsupported_message,
  invalid_message, Allocator, OfferRecord, RequestRecord, ExecutionRecord, Client, put_execution,
  put_request,
}
use r1s.Client.Catalog.{lookup, put_allocator}
use r1s.Client.Selection.{new_release, handle_release_ack}
use r1s.Client.Leases.{is_lost_lease_state, handle_renew_ack, mark_renewal_failure}

-- The client after a message, and the error that the handler returns.
pub record Handled : Type 0 where
  pub client : Client
  pub error : Option ClientError

abbrev pub accepted : Client → Handled
accepted c = record { client = c; error = none }

abbrev pub refused : Client → ClientError → Handled
refused c e = record { client = c; error = some e }

-- A handler that changes nothing where it fails.
abbrev pub handled : Client → Checked ClientError Client → Handled
handled c (ok after) = accepted after
handled c (err e) = refused c e

-- slices.Equal
abbrev same_list : List Bytes → List Bytes → Bool
same_list [] [] = true
same_list (x ∷ xs) (y ∷ ys) = beq x y && same_list xs ys
same_list _ _ = false

-- A missing label reads as the empty string.
abbrev label_of : Bytes → Assoc Bytes → Bytes
label_of k m = elim (get k m) [ none ↦ [] | some v ↦ v ]

unfoldable pub labels_in : Assoc Bytes → Assoc Bytes → Bool
labels_in [] right = true
labels_in ((k, v) ∷ left) right = beq (label_of k right) v && labels_in left right

-- placement.go
unfoldable pub capabilities_equal : Option NodeCapabilities → Option NodeCapabilities → Bool
unfolding labels_in
capabilities_equal none none = true
capabilities_equal (some l) (some r) =
    beq l.os r.os
    && beq l.arch r.arch
    && beq l.runtime r.runtime
    && same_list l.devices r.devices
    && same_list l.resource_profiles r.resource_profiles
    && same_list l.cached_images r.cached_images
    && (length l.labels == length r.labels)
    && labels_in l.labels r.labels
capabilities_equal _ _ = false

-- The offer's node replaces a different one in the catalog.
abbrev pub refresh : Client → Allocator → ExecutionOffer → Client
refresh c a offer =
    if is_none offer.node || capabilities_equal a.node offer.node
    then c
    else record c { allocators = put_allocator c.allocators (record a { node = offer.node }) }

-- A new offer for a request that has its selection is a loser from the start.
unfoldable pub late_offer :
    Bytes → ℕ → Client → RequestRecord → Envelope → OfferRecord → Checked ClientError OfferRecord
unfolding new_release
late_offer release_id now c r envelope new_offer =
    if is_empty r.execution_id then ok new_offer else do
      selected ← present (get r.execution_id c.executions) execution_not_found
      stop_if
          (beq selected.offer_id new_offer.offer.offer_id
            && beq selected.allocator_id envelope.sender)
          conflict
      intent ← new_release c.allocators release_id now new_offer
      ok (record new_offer { release = some intent })

unfoldable pub handle_offer :
    (ExecutionOffer → ExecutionOffer → Bool)
    → Bytes
    → ℕ
    → Client
    → Envelope
    → ExecutionOffer
    → Handled
unfolding lookup put_allocator capabilities_equal late_offer
handle_offer same release_id now c envelope offer = elim (get offer.request_id c.requests) [
  | none ↦ refused c request_not_found
  | some r ↦
      if not (beq r.message_id envelope.correlation_id)
        || not (beq offer.resource_class r.request.resource_class)
      then refused c conflict
      else elim (lookup c.allocators envelope.sender) [
        | none ↦ refused c unauthorized
        | some a ↦
            let fresh : Client = refresh c a offer in
            let new_offer : OfferRecord = record {
              offer = offer;
              allocator_id = envelope.sender;
              received_at = now;
              release = none;
            } in
            elim (get offer.offer_id r.offers) [
              | some existing ↦
                  if beq existing.allocator_id envelope.sender && same existing.offer offer
                  then accepted fresh
                  else refused fresh conflict
              | none ↦ handled fresh (
                  late_offer release_id now fresh r envelope new_offer >>= (λ o. ok (
                    put_request fresh offer.request_id
                      (record r { offers = put offer.offer_id o r.offers }))))
            ]
      ]
]

-- What becomes of a state next to the one that was observed.
pub data Verdict : Type 0 where
  newer stale contradicts : Verdict

-- By revision where either has one, else by time.
unfoldable pub order_of :
    (ExecutionState → ExecutionState → Bool) → ExecutionState → ExecutionState → Verdict
order_of same old state =
    let by = λ (o n : ℕ).
      if ltb n o
      then stale
      else if o == n
      then (if same old state then stale else contradicts)
      else newer in
    if ltb 0 old.revision || ltb 0 state.revision
    then by old.revision state.revision
    else by (as_time old.occurred_at) (as_time state.occurred_at)

unfoldable pub judge :
    (ExecutionState → ExecutionState → Bool) → Option ExecutionState → ExecutionState → Verdict
unfolding order_of
judge same none state = newer
judge same (some old) state = elim (order_of same old state) [
  | newer ↦ if terminal old.phase && not (same old state) then contradicts else newer
  | stale ↦ stale
  | contradicts ↦ contradicts
]

-- The record with a state observed.
abbrev pub observe : ExecutionState → ExecutionRecord → ExecutionRecord
observe state r =
    let seen : ExecutionRecord = record r { state = some state } in
    if terminal state.phase && is_lost_lease_state state
    then record seen { lease_lost = true; lease_renew_message_id = [] }
    else seen

unfoldable pub handle_state :
    (ExecutionState → ExecutionState → Bool) → Client → Envelope → ExecutionState → Handled
unfolding judge
handle_state same c envelope state = elim (get state.execution_id c.executions) [
  | none ↦ refused c execution_not_found
  | some r ↦
      if not (beq r.allocator_id envelope.sender)
      then refused c unauthorized
      else elim (judge same r.state state) [
        | stale ↦ accepted c
        | contradicts ↦ refused c conflict
        | newer ↦ accepted (put_execution c state.execution_id (observe state r))
      ]
]

unfoldable pub log_authority : Client → Envelope → Bool
log_authority c e = elim c.log_request [
  | none ↦ false
  | some q ↦
      if not (beq e.correlation_id c.log_message_id)
      then false
      else elim (get q.execution_id c.executions) [
        | none ↦ false
        | some r ↦ beq r.allocator_id e.sender
      ]
]

abbrev pub answers : ExecutionLogsRequest → ExecutionLogsResponse → Bool
answers q r =
    beq r.execution_id q.execution_id
    && beq r.stream q.stream
    && (r.offset == q.offset)
    && not (ltb q.max_bytes (length r.contents))

unfoldable pub handle_logs : Client → Envelope → ExecutionLogsResponse → Option ClientError
unfolding log_authority
handle_logs c e r = if not (log_authority c e) then some unauthorized else elim c.log_request [
  | none ↦ some unauthorized
  | some q ↦ if answers q r then none else some conflict
]

abbrev pub pending_on : Envelope → ExecutionRecord → Bool
pending_on e r =
    beq r.allocator_id e.sender
    && (beq e.correlation_id r.assignment_message_id
        || beq e.correlation_id r.inspect_message_id
        || beq e.correlation_id r.cancel_message_id
        || beq e.correlation_id r.lease_renew_message_id)

abbrev pub about_lease : Envelope → ExecutionRecord → Bool
about_lease e r =
    beq e.correlation_id r.lease_renew_message_id || beq e.correlation_id r.inspect_message_id

-- An execution that the error is about may have lost its lease.
abbrev pub blame : Envelope → Bytes → ExecutionRecord → ExecutionRecord
blame e code r = if pending_on e r && about_lease e r then mark_renewal_failure code r else r

abbrev releases_on : Envelope → OfferRecord → Bool
releases_on e o = elim o.release [
  | none ↦ false
  | some intent ↦ beq intent.message_id e.correlation_id && beq o.allocator_id e.sender
]

-- One request after another: its own message ID decides anew, a release of one of its offers grants.
unfoldable pub requests_authorize : Client → Envelope → Bool → Assoc RequestRecord → Bool
unfolding lookup
requests_authorize c e before [] = before
requests_authorize c e before ((key, r) ∷ requests) =
    let own : Bool =
      if beq r.message_id e.correlation_id
      then not (is_none (lookup c.allocators e.sender))
      else before in
    requests_authorize c e (r1s.Base.any (λ o. releases_on e o.1) r.offers || own) requests

unfoldable pub handle_error : Client → Envelope → CommandError → Handled
unfolding requests_authorize log_authority mark_renewal_failure
handle_error c e failure =
    let after : Client = record c {
      executions = map (λ entry. (entry.0, blame e failure.code entry.1)) c.executions;
    } in
    if requests_authorize c e (log_authority c e) c.requests
      || r1s.Base.any (λ entry. pending_on e entry.1) c.executions
    then accepted after
    else refused after unauthorized

unfoldable pub handle_tunnel_open_ack :
    Client → Envelope → ExecutionTunnelOpenAck → Option ClientError
handle_tunnel_open_ack c envelope ack = elim (get ack.execution_id c.executions) [
  | none ↦ some execution_not_found
  | some r ↦ if beq r.allocator_id envelope.sender then none else some unauthorized
]

abbrev only : Client → Option ClientError → Handled
only c e = record { client = c; error = e }

-- The payload of a valid envelope is not nil, so its nil messages are not met.
module _ (same_offer : ExecutionOffer → ExecutionOffer → Bool)
    (same_state : ExecutionState → ExecutionState → Bool) (sha256 : Bytes → Bytes) where
  unfoldable pub route : Bytes → ℕ → Client → Envelope → Payload → Handled
  unfolding handle_offer handle_state handle_logs handle_error handle_tunnel_open_ack
  route release_id now c e (execution_logs_response (some r)) = only c (handle_logs c e r)
  route release_id now c e (command_error (some failure)) = handle_error c e failure
  route release_id now c e (execution_offer (some offer)) =
      handle_offer same_offer release_id now c e offer
  route release_id now c e (execution_state (some state)) = handle_state same_state c e state
  route release_id now c e (execution_offer_release_ack (some ack)) =
      handled c (handle_release_ack c e ack)
  route release_id now c e (execution_lease_renew_ack (some ack)) =
      handled c (handle_renew_ack now c e ack)
  route release_id now c e (execution_tunnel_open_ack (some ack)) =
      only c (handle_tunnel_open_ack c e ack)
  route release_id now c e _ = refused c unsupported_message

  unfoldable pub handle : Bytes → ℕ → Client → Envelope → Handled
  unfolding route
  handle release_id now c e = elim (validate_envelope sha256 e) [
    | some problem ↦ refused c (invalid_message problem)
    | none ↦ route release_id now c e e.payload
  ]
