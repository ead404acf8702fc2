-- ===== src/Protocol/Messages.antt =====
-- The control messages of api/gen/r1s/v1/control.pb.go and internal/protocol/terminal.go. A message
-- pointer is an `Option`; Protobuf's timestamps and durations carry what its CheckValid, AsTime and
-- AsDuration give. A time is in nanoseconds since the Unix epoch, the zero time.Time is 0.
use r1s.Base.{ℕ, suc, ◌+◌, ◌-◌, Bool, true, false, Option, none, some, List, Bytes, Assoc}

-- `negsuc n` is -(n + 1).
pub data ℤ : Type 0 where
  pos : ℕ → ℤ
  negsuc : ℕ → ℤ

pub record Timestamp : Type 0 where
  pub check_valid : Bool
  pub as_time : ℕ

pub record Duration : Type 0 where
  pub check_valid : Bool
  pub as_duration : ℤ

pub data ExecutionPhase : Type 0 where
  unspecified starting running cancelling cancelled completed failed : ExecutionPhase

pub data OfferReleaseOutcome : Type 0 where
  unspecified released expired assigned : OfferReleaseOutcome

pub record Workload : Type 0 where
  pub image : Bytes
  pub command : List Bytes
  pub args : List Bytes
  pub environment : Assoc Bytes
  pub working_directory : Bytes

pub record ExecutionPolicy : Type 0 where

pub record NodeCapabilities : Type 0 where
  pub os : Bytes
  pub arch : Bytes
  pub runtime : Bytes
  pub resource_profiles : List Bytes
  pub devices : List Bytes
  pub labels : Assoc Bytes
  pub cached_images : List Bytes

pub record PlacementConstraints : Type 0 where
  pub os : Bytes
  pub arch : Bytes
  pub runtime : Bytes
  pub labels : Assoc Bytes
  pub devices : List Bytes

pub record ExecutionRequest : Type 0 where
  pub request_id : Bytes
  pub workload : Option Workload
  pub policy : Option ExecutionPolicy
  pub resource_class : Bytes
  pub constraints : Option PlacementConstraints
  pub run_id : Bytes
  pub attempt : ℕ

pub record ExecutionOffer : Type 0 where
  pub offer_id : Bytes
  pub request_id : Bytes
  pub resource_class : Bytes
  pub expires_at : Option Timestamp
  pub node : Option NodeCapabilities

pub record ExecutionAssign : Type 0 where
  pub request_id : Bytes
  pub offer_id : Bytes
  pub execution_id : Bytes

pub record ExecutionOfferRelease : Type 0 where
  pub request_id : Bytes
  pub offer_id : Bytes

pub record ExecutionOfferReleaseAck : Type 0 where
  pub request_id : Bytes
  pub offer_id : Bytes
  pub outcome : OfferReleaseOutcome

pub record ExecutionCancel : Type 0 where
  pub execution_id : Bytes
  pub reason : Bytes

pub record ExecutionInspect : Type 0 where
  pub execution_id : Bytes

pub record ExecutionState : Type 0 where
  pub execution_id : Bytes
  pub phase : ExecutionPhase
  pub occurred_at : Option Timestamp
  pub detail : Bytes
  pub exit_code : Option ℤ
  pub revision : ℕ

pub record CommandError : Type 0 where
  pub code : Bytes
  pub detail : Bytes
  pub retryable : Bool

pub record ExecutionLogsRequest : Type 0 where
  pub execution_id : Bytes
  pub stream : Bytes
  pub offset : ℕ
  pub max_bytes : ℕ

pub record ExecutionLogsResponse : Type 0 where
  pub execution_id : Bytes
  pub stream : Bytes
  pub offset : ℕ
  pub contents : Bytes
  pub next_offset : ℕ
  pub eof : Bool
  pub truncated : Bool
  pub sha256 : Bytes

pub record ExecutionLeaseRenew : Type 0 where
  pub execution_id : Bytes
  pub lease_duration : Option Duration

pub record ExecutionLeaseRenewAck : Type 0 where
  pub execution_id : Bytes
  pub expires_at : Option Timestamp

pub record TunnelTarget : Type 0 where
  pub port : ℕ

pub record ExecutionTunnelOpen : Type 0 where
  pub execution_id : Bytes
  pub ygg_peer_pubkey : Bytes
  pub targets : List TunnelTarget

pub record ExecutionTunnelOpenAck : Type 0 where
  pub execution_id : Bytes
  pub allocator_endpoint : Bytes
  pub allocator_endpoint_pubkey : Bytes
  pub targets : List TunnelTarget

-- The oneof; each member holds a message pointer.
pub data Payload : Type 0 where
  execution_request : Option ExecutionRequest → Payload
  execution_offer : Option ExecutionOffer → Payload
  execution_assign : Option ExecutionAssign → Payload
  execution_cancel : Option ExecutionCancel → Payload
  execution_state : Option ExecutionState → Payload
  execution_inspect : Option ExecutionInspect → Payload
  execution_offer_release : Option ExecutionOfferRelease → Payload
  execution_offer_release_ack : Option ExecutionOfferReleaseAck → Payload
  command_error : Option CommandError → Payload
  execution_logs_request : Option ExecutionLogsRequest → Payload
  execution_logs_response : Option ExecutionLogsResponse → Payload
  execution_lease_renew : Option ExecutionLeaseRenew → Payload
  execution_lease_renew_ack : Option ExecutionLeaseRenewAck → Payload
  execution_tunnel_open : Option ExecutionTunnelOpen → Payload
  execution_tunnel_open_ack : Option ExecutionTunnelOpenAck → Payload
  absent : Payload

pub record Envelope : Type 0 where
  pub message_id : Bytes
  pub sender : Bytes
  pub correlation_id : Bytes
  pub sent_at : Option Timestamp
  pub payload : Payload

-- timestamppb.New of a time in Protobuf's range.
abbrev pub stamp : ℕ → Option Timestamp
stamp t = some (record { check_valid = true; as_time = t })

-- AsTime of a nil timestamp is the Unix epoch.
abbrev pub as_time : Option Timestamp → ℕ
as_time none = 0
as_time (some t) = t.as_time

-- time.Time.Add; times before the epoch are outside the model.
abbrev pub add_time : ℕ → ℤ → ℕ
add_time t (pos d) = t + d
add_time t (negsuc d) = t - suc d

-- terminal.go
abbrev pub terminal : ExecutionPhase → Bool
terminal ExecutionPhase.cancelled = true
terminal ExecutionPhase.completed = true
terminal ExecutionPhase.failed = true
terminal _ = false

abbrev pub nanoseconds : ℕ
nanoseconds = 1_000_000_000
