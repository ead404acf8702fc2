-- ===== src/Client/State.antt =====
-- client.go, errors.go and snapshots.go of internal/client: the records of one client. A pointer to
-- a record is its key in the map that owns it; the IDs that newID gives are arguments of the calls.
use r1s.Base.{
  ℕ, Bool, false, Option, none, some, List, [], Bytes, Assoc, get, put, length, is_empty, map,
  if◌then◌else◌, Checked, ok, err,
}
use r1s.Protocol.Messages.{
  ℤ, pos, NodeCapabilities, ExecutionOffer, ExecutionRequest, ExecutionState, ExecutionLogsRequest,
}
use r1s.Protocol.Placement.{Invalid}

pub data ClientError : Type 0 where
  invalid_config invalid_allocator unsupported_message request_not_found : ClientError
  execution_not_found no_offer conflict unauthorized : ClientError
  -- What protocol.ValidateEnvelope or ValidateTunnelTargets refuses.
  invalid_message : Invalid → ClientError

pub record Allocator : Type 0 where
  pub identity : Bytes
  pub destination : Bytes
  pub hops : ℕ
  pub capacity : Option (Assoc ℕ)
  pub node : Option NodeCapabilities
  pub tunnel_host : Bytes
  pub tunnel_port : ℕ
  pub tunnel_destination : Bytes

-- release.go
pub record ReleaseIntent : Type 0 where
  pub message_id : Bytes
  pub sent_at : ℕ
  pub destination : Bytes
  pub acknowledged : Bool

pub record OfferRecord : Type 0 where
  pub offer : ExecutionOffer
  pub allocator_id : Bytes
  pub received_at : ℕ
  pub release : Option ReleaseIntent

pub record RequestRecord : Type 0 where
  pub request : ExecutionRequest
  pub message_id : Bytes
  pub created_at : ℕ
  pub offers : Assoc OfferRecord
  pub execution_id : Bytes

pub record ExecutionRecord : Type 0 where
  pub id : Bytes
  pub request_id : Bytes
  pub offer_id : Bytes
  pub allocator_id : Bytes
  pub destination : Bytes
  pub assignment_message_id : Bytes
  pub assignment_sent_at : ℕ
  pub inspect_message_id : Bytes
  pub inspect_sent_at : ℕ
  pub cancel_message_id : Bytes
  pub cancel_sent_at : ℕ
  pub cancel_reason : Bytes
  pub state : Option ExecutionState
  pub lease_duration : ℤ
  pub lease_allocators : List Bytes
  pub lease_lost : Bool
  pub lease_renewed_at : ℕ
  pub lease_renew_message_id : Bytes
  pub lease_expires_at : ℕ

-- A record as Select makes it, every field that it leaves out at its zero value.
abbrev pub new_execution : Bytes → Bytes → Bytes → Bytes → Bytes → Bytes → ℕ → ExecutionRecord
new_execution id request_id offer_id allocator_id destination message_id now = record {
  id = id;
  request_id = request_id;
  offer_id = offer_id;
  allocator_id = allocator_id;
  destination = destination;
  assignment_message_id = message_id;
  assignment_sent_at = now;
  inspect_message_id = [];
  inspect_sent_at = 0;
  cancel_message_id = [];
  cancel_sent_at = 0;
  cancel_reason = [];
  state = none;
  lease_duration = pos 0;
  lease_allocators = [];
  lease_lost = false;
  lease_renewed_at = 0;
  lease_renew_message_id = [];
  lease_expires_at = 0;
}

-- The allocators are keyed by the hex text of their identity.
pub record Client : Type 0 where
  pub log_message_id : Bytes
  pub log_request : Option ExecutionLogsRequest
  pub identity : Bytes
  pub allocators : Assoc Allocator
  pub requests : Assoc RequestRecord
  pub executions : Assoc ExecutionRecord

unfoldable pub new : Bytes → Checked ClientError Client
new identity =
    if is_empty identity
    then err invalid_config
    else ok (record {
      log_message_id = [];
      log_request = none;
      identity = identity;
      allocators = [];
      requests = [];
      executions = [];
    })

pub record RequestSnapshot : Type 0 where
  pub request : ExecutionRequest
  pub created_at : ℕ
  pub offer_count : ℕ
  pub execution_id : Bytes

pub record ExecutionSnapshot : Type 0 where
  pub execution_id : Bytes
  pub request_id : Bytes
  pub offer_id : Bytes
  pub allocator : Bytes
  pub destination : Bytes
  pub state : Option ExecutionState

-- The order by creation time is left out.
unfoldable pub requests_snapshot : Client → List RequestSnapshot
requests_snapshot c =
    map
      (λ e. record {
        request = e.1.request;
        created_at = e.1.created_at;
        offer_count = length e.1.offers;
        execution_id = e.1.execution_id;
      })
      c.requests

unfoldable pub snapshot_execution : ExecutionRecord → ExecutionSnapshot
snapshot_execution r = record {
  execution_id = r.id;
  request_id = r.request_id;
  offer_id = r.offer_id;
  allocator = r.allocator_id;
  destination = r.destination;
  state = r.state;
}

unfoldable pub execution : Client → Bytes → Option ExecutionSnapshot
unfolding snapshot_execution
execution c execution_id = elim (get execution_id c.executions) [
  | none ↦ none
  | some r ↦ some (snapshot_execution r)
]

abbrev pub put_execution : Client → Bytes → ExecutionRecord → Client
put_execution c id r = record c { executions = put id r c.executions }

abbrev pub put_request : Client → Bytes → RequestRecord → Client
put_request c id r = record c { requests = put id r c.requests }
