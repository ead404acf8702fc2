-- ===== src/Client/Selection.antt =====
-- envelopes.go, selection.go and release.go of internal/client: the choice of an offer, and the
-- releases of the others. `new_id n` is the ID that the n-th call of newID in one operation gives.
use r1s.Base.{
  ℕ, suc, ◌&&◌, ◌||◌, not, Bool, true, false, Option, none, some, List, [], ◌∷◌, ◌++◌, Bytes, Assoc,
  get, put, beq, ltb, is_empty, is_none, if◌then◌else◌, Checked, ok, err, ◌>>=◌, ◌>>◌, stop_if,
  present,
}
use r1s.Protocol.Messages.{
  Envelope, ExecutionRequest, ExecutionOfferReleaseAck, OfferReleaseOutcome, execution_request,
  execution_assign, execution_offer_release, Workload, as_time, stamp,
}
use r1s.Client.State.{
  ClientError, invalid_config, invalid_allocator, request_not_found, no_offer, conflict,
  unauthorized, ReleaseIntent, OfferRecord, RequestRecord, ExecutionRecord, new_execution, Client,
  put_execution, put_request, Allocator,
}
use r1s.Client.Catalog.{lookup, choose}

abbrev pub request_envelope : Client → ExecutionRequest → Bytes → ℕ → Envelope
request_envelope c request message_id sent_at = record {
  message_id = message_id;
  sender = c.identity;
  correlation_id = [];
  sent_at = stamp sent_at;
  payload = execution_request (some request);
}

abbrev pub assignment_envelope : Client → ExecutionRecord → Envelope
assignment_envelope c r = record {
  message_id = r.assignment_message_id;
  sender = c.identity;
  correlation_id = [];
  sent_at = stamp r.assignment_sent_at;
  payload =
      execution_assign
        (some (record { request_id = r.request_id; offer_id = r.offer_id; execution_id = r.id }));
}

-- A command and where it goes.
pub record Command : Type 0 where
  pub destination : Bytes
  pub envelope : Envelope

abbrev pub unique_execution_id : Client → Bytes → Bytes
unique_execution_id c value = if is_none (get value c.executions) then value else []

unfoldable pub new_release :
    Assoc Allocator → Bytes → ℕ → OfferRecord → Checked ClientError ReleaseIntent
unfolding lookup
new_release catalog message_id now offer = do
  allocator ← present (lookup catalog offer.allocator_id) invalid_allocator
  stop_if (is_empty allocator.destination) invalid_allocator
  stop_if (is_empty message_id) invalid_config
  ok (record {
    message_id = message_id;
    sent_at = now;
    destination = allocator.destination;
    acknowledged = false;
  })

-- Every offer but the selected one gets a release, unless it has one; all of them or none.
unfoldable pub release_losers :
    Assoc Allocator
    → (ℕ → Bytes)
    → ℕ
    → ℕ
    → Bytes
    → Assoc OfferRecord
    → Checked ClientError (Assoc OfferRecord)
unfolding new_release
release_losers catalog new_id n now selected [] = ok []
release_losers catalog new_id n now selected ((key, offer) ∷ offers) =
    if beq key selected || not (is_none offer.release)
    then release_losers catalog new_id n now selected offers >>= (λ rest. ok ((key, offer) ∷ rest))
    else new_release catalog (new_id n) now offer >>= (λ intent.
      release_losers catalog new_id (suc n) now selected offers
      >>= (λ rest. ok ((key, record offer { release = some intent }) ∷ rest)))

abbrev image_of : Option Workload → Bytes
image_of none = []
image_of (some w) = w.image

-- The selection of a request that has none yet.
unfoldable pub select_new :
    (ℕ → Bytes) → ℕ → Client → Bytes → RequestRecord → Checked ClientError (Client × Command)
unfolding choose release_losers
select_new new_id now c request_id r = do
  chosen ←
      present (choose c.allocators r.offers now r.request.constraints (image_of r.request.workload))
        no_offer
  let execution_id : Bytes = unique_execution_id c (new_id 0)
  stop_if (is_empty execution_id || is_empty (new_id 1)) invalid_config
  offers ← release_losers c.allocators new_id 2 now chosen.key r.offers
  let execution : ExecutionRecord =
      new_execution execution_id request_id chosen.held.offer.offer_id chosen.held.allocator_id
        chosen.allocator.destination (new_id 1) now
  let selected : Client =
      put_execution
        (put_request c request_id (record r { offers = offers; execution_id = execution_id }))
        execution_id execution
  ok (
    selected,
    record {
      destination = execution.destination;
      envelope = assignment_envelope selected execution;
    },
  )

-- Every execution ID of a request is an execution's, so the last branch is not met.
unfoldable pub select : (ℕ → Bytes) → ℕ → Client → Bytes → Checked ClientError (Client × Command)
unfolding select_new
select new_id now c request_id = elim (get request_id c.requests) [
  | none ↦ err request_not_found
  | some r ↦
      if is_empty r.execution_id
      then select_new new_id now c request_id r
      else elim (get r.execution_id c.executions) [
        | some e ↦
            ok (c, record { destination = e.destination; envelope = assignment_envelope c e })
        | none ↦ err request_not_found
      ]
]

abbrev pub release_envelope : Client → RequestRecord → OfferRecord → ReleaseIntent → Envelope
release_envelope c r o intent = record {
  message_id = intent.message_id;
  sender = c.identity;
  correlation_id = [];
  sent_at = stamp intent.sent_at;
  payload =
      execution_offer_release
        (some (record { request_id = r.request.request_id; offer_id = o.offer.offer_id }));
}

-- A release that is neither acknowledged nor moot.
abbrev pub is_pending : ℕ → OfferRecord → ReleaseIntent → Bool
is_pending now o intent = not intent.acknowledged && ltb now (as_time o.offer.expires_at)

unfoldable pub releases_of : Client → ℕ → RequestRecord → Assoc OfferRecord → List Command
releases_of c now r [] = []
releases_of c now r ((key, o) ∷ offers) =
    let rest : List Command = releases_of c now r offers in
    elim o.release [
      | none ↦ rest
      | some intent ↦
          if is_pending now o intent
          then record { destination = intent.destination; envelope = release_envelope c r o intent }
            ∷ rest
          else rest
    ]

-- PendingReleases; the order by message ID is left out.
unfoldable pub pending_releases : Client → ℕ → Assoc RequestRecord → List Command
unfolding releases_of
pending_releases c now [] = []
pending_releases c now ((key, r) ∷ requests) =
    releases_of c now r r.offers ++ pending_releases c now requests

abbrev pub is_assigned : OfferReleaseOutcome → Bool
is_assigned OfferReleaseOutcome.assigned = true
is_assigned _ = false

unfoldable pub handle_release_ack :
    Client → Envelope → ExecutionOfferReleaseAck → Checked ClientError Client
handle_release_ack c envelope ack = do
  r ← present (get ack.request_id c.requests) request_not_found
  o ← present (get ack.offer_id r.offers) conflict
  intent ← present o.release conflict
  stop_if (not (beq o.allocator_id envelope.sender)) unauthorized
  stop_if (not (beq intent.message_id envelope.correlation_id)) conflict
  stop_if (is_assigned ack.outcome) conflict
  let acknowledged : OfferRecord = record o {
    release = some (record intent { acknowledged = true });
  }
  ok (put_request c ack.request_id (record r { offers = put ack.offer_id acknowledged r.offers }))
