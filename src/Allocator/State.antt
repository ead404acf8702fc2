-- ===== src/Allocator/State.antt =====
-- allocator.go, config.go, state_schema.go and persistLocked of state.go: the state of an allocator,
-- under its lock, and its durable snapshot. Times are nanoseconds since the Unix epoch, durations are
-- nanoseconds. The external store is seen by the outcome of one Save, an argument `saved`.
use r1s.Base.{
  ℕ, ◌*◌, Bool, true, false, ◌&&◌, not, Option, some, List, [], ◌∷◌, map, Bytes, Assoc,
  if◌then◌else◌,
}
use r1s.Protocol.Messages.{
  ℤ, ExecutionPhase, ExecutionRequest, ExecutionOffer, NodeCapabilities, Envelope, nanoseconds,
}
use r1s.Tunnel.Contract.{Endpoint}
use r1s.Tunnel.Registry.{Registry}
use r1s.Allocator.Errors.{Err, store, nil, classify_error}
use r1s.Allocator.Ledger.{CapacityLedger}

-- runtime/resources.go
pub record Resources : Type 0 where
  pub memory_bytes : ℕ
  pub cpu_milli : ℕ
  pub pids : ℕ

pub record Quota : Type 0 where
  pub offers : ℕ
  pub executions : ℕ

-- `none` for a nil AllowedClients, which admits every client.
pub record AdmissionPolicy : Type 0 where
  pub profiles : Assoc Resources
  pub allowed_clients : Option (List Bytes)
  pub default_quota : Quota
  pub client_quotas : Assoc Quota

pub data OfferStatus : Type 0 where
  outstanding assigned expired released : OfferStatus

pub record OfferRecord : Type 0 where
  pub offer : ExecutionOffer
  pub request : ExecutionRequest
  pub client : Bytes
  pub status : OfferStatus
  pub execution : Bytes
  pub resources : Resources

pub record ExecutionRecord : Type 0 where
  pub id : Bytes
  pub offer_id : Bytes
  pub client : Bytes
  pub resource_class : Bytes
  pub request : ExecutionRequest
  pub phase : ExecutionPhase
  pub detail : Bytes
  pub exit_code : Option ℤ
  pub occurred_at : ℕ
  pub started_at : ℕ
  pub released : Bool
  pub retain_until : ℕ
  pub lease_until : ℕ
  pub revision : ℕ
  pub resources : Resources

pub record Tombstone : Type 0 where
  pub client : Bytes
  pub request_id : Bytes
  pub offer_id : Bytes
  pub execution_id : Bytes
  pub expires_at : ℕ
  pub cleanup_pending : Bool

-- replay.go; `completed` is whether the done channel is closed.
pub record ReplayEntry : Type 0 where
  pub seen_at : ℕ
  pub completed : Bool
  pub envelope : Envelope
  pub responses : List Envelope
  pub error : Err

pub record ReplayCache : Type 0 where
  pub ttl : ℕ
  pub capacity : ℕ
  pub entries : Assoc ReplayEntry

pub record TunnelConfig : Type 0 where
  pub enabled : Bool
  pub endpoint : Endpoint

-- persistedReplay. The text of the error, which nothing tests but for being there, is left out.
pub record SavedReplay : Type 0 where
  pub key : Bytes
  pub seen_at : ℕ
  pub envelope : Envelope
  pub complete : Bool
  pub responses : List Envelope
  pub failed : Bool
  pub error_code : Bytes

-- What the store holds after a Save.
pub record Snapshot : Type 0 where
  pub identity : Bytes
  pub high_water : ℕ
  pub tombstones : Assoc Tombstone
  pub offers : List OfferRecord
  pub executions : List ExecutionRecord
  pub replay : List SavedReplay

pub record Allocator : Type 0 where
  pub max_records : ℕ
  pub high_water : ℕ
  pub tombstones : Assoc Tombstone
  pub identity : Bytes
  pub capacity : CapacityLedger
  pub offer_ttl : ℕ
  pub lease_ttl : ℕ
  pub retention : ℕ
  pub has_store : Bool
  pub disk : Option Snapshot
  pub admission : AdmissionPolicy
  pub node : Option NodeCapabilities
  pub offers : Assoc OfferRecord
  pub requests : Assoc Bytes
  pub executions : Assoc ExecutionRecord
  pub replay : ReplayCache
  pub tunnels : Registry
  pub tunnel_config : TunnelConfig

-- retention_policy.go and allocator.go: seven days, also the longest lease.
abbrev pub command_horizon : ℕ
command_horizon = 604800 * nanoseconds

abbrev pub max_lease_ttl : ℕ
max_lease_ttl = command_horizon

abbrev values {ℓ} : {V : Type ℓ} → Assoc V → List V
values = map (λ e. e.1)

abbrev pub is_nil : Err → Bool
is_nil [] = true
is_nil (s ∷ e) = false

-- The responses and the error of an entry are saved once it is complete.
unfoldable pub saved_replay : Bytes × ReplayEntry → SavedReplay
unfolding classify_error
saved_replay (key, e) = record {
  key = key;
  seen_at = e.seen_at;
  envelope = e.envelope;
  complete = e.completed;
  responses = if e.completed then e.responses else [];
  failed = e.completed && not (is_nil e.error);
  error_code = if e.completed && not (is_nil e.error) then classify_error e.error else [];
}

unfoldable pub snapshot : Allocator → Snapshot
unfolding saved_replay
snapshot a = record {
  identity = a.identity;
  high_water = a.high_water;
  tombstones = a.tombstones;
  offers = values a.offers;
  executions = values a.executions;
  replay = map saved_replay a.replay.entries;
}

-- persistLocked: the error, and the state with what the store now holds.
unfoldable pub persist_error : Bool → Allocator → Err
persist_error saved a = if a.has_store then (if saved then nil else store ∷ []) else nil

unfoldable pub persist : Bool → Allocator → Allocator
persist saved a =
    if a.has_store then (if saved then record a { disk = some (snapshot a) } else a) else a

abbrev pub is_outstanding : OfferStatus → Bool
is_outstanding OfferStatus.outstanding = true
is_outstanding _ = false

abbrev pub is_cancelling : ExecutionPhase → Bool
is_cancelling ExecutionPhase.cancelling = true
is_cancelling _ = false

abbrev pub is_starting : ExecutionPhase → Bool
is_starting ExecutionPhase.starting = true
is_starting _ = false

-- What a handler returns, with the state that it leaves.
pub record Outcome : Type 0 where
  pub state : Allocator
  pub responses : List Envelope
  pub error : Err

-- `return nil, err`
abbrev pub refuse : Allocator → Err → Outcome
refuse a e = record { state = a; responses = []; error = e }

abbrev pub answer : Allocator → List Envelope → Outcome
answer a rs = record { state = a; responses = rs; error = nil }

-- A change that a Save makes durable: `next` with its responses, or `undone` with the error.
unfoldable pub commit : Bool → Allocator → List Envelope → Allocator → Outcome
commit saved next responses undone =
    if is_nil (persist_error saved next)
    then answer (persist saved next) responses
    else refuse undone (persist_error saved next)
