-- ===== src/Protocol/Validate.antt =====
-- base.go, contract.go, lease.go, tunnel.go, targets.go, feedback.go and release.go: ValidateEnvelope
-- and what it calls. `none` is a nil error. SHA-256 is the parameter `sha256`.
use r1s.Base.{
  ℕ, ◌-◌, ◌*◌, Bool, true, false, ◌&&◌, ◌||◌, not, Option, none, some, List, [], ◌∷◌, map, String,
  Bytes, ascii, beq, blank, is_hex, is_empty, length, ltb, leb, ◌==◌, any, all, keys, Checked, ok,
  err, ◌>>=◌, ◌>>◌, stop_if,
}
use r1s.Tunnel.Contract.{Target, max_peer_key_size}
use r1s.Protocol.Messages.{
  ℤ, pos, negsuc, Timestamp, ExecutionPhase, OfferReleaseOutcome, Workload, ExecutionRequest,
  ExecutionOffer, ExecutionAssign, ExecutionOfferRelease, ExecutionOfferReleaseAck, ExecutionCancel,
  ExecutionInspect, ExecutionState, CommandError, ExecutionLogsRequest, ExecutionLogsResponse,
  ExecutionLeaseRenew, ExecutionLeaseRenewAck, TunnelTarget, ExecutionTunnelOpen,
  ExecutionTunnelOpenAck, Payload, execution_request, execution_offer, execution_assign,
  execution_cancel, execution_state, execution_inspect, execution_offer_release,
  execution_offer_release_ack, command_error, execution_logs_request, execution_logs_response,
  execution_lease_renew, execution_lease_renew_ack, execution_tunnel_open,
  execution_tunnel_open_ack, absent, Envelope, as_time,
}
use r1s.Protocol.Placement.{
  Invalid, invalid, reject_if, ◌orelse◌, validate_constraints, validate_capabilities, contains,
}

abbrev required : String
required = "is required"

abbrev needs : Bytes → String → Option Invalid
needs value f = reject_if (blank value) f required

unfoldable pub valid_timestamp : String → Option Timestamp → Option Invalid
valid_timestamp f none = invalid f required
valid_timestamp f (some t) = reject_if (not t.check_valid) f "invalid timestamp"

abbrev run_id_bytes : ℕ
run_id_bytes = 16

abbrev is_upper : ℕ → Bool
is_upper c = leb b'A' c && leb c b'Z'

-- Of the right length, unchanged by ToLower, and accepted by hex.DecodeString (which refuses every
-- byte outside ASCII, so ToLower matters for ASCII alone).
unfoldable pub valid_run_id : Bytes → Bool
valid_run_id value =
    length value == run_id_bytes * 2 && not (any is_upper value) && all is_hex value

unfoldable pub validate_workload : Option Workload → Option Invalid
validate_workload none = invalid "execution_request.workload" required
validate_workload (some w) =
    needs w.image "execution_request.workload.image"
    orelse reject_if (any blank (keys w.environment)) "execution_request.workload.environment"
        "contains an empty key"

unfoldable pub validate_request : Option ExecutionRequest → Option Invalid
unfolding valid_run_id validate_workload
validate_request none = invalid "execution_request" required
validate_request (some q) =
    needs q.request_id "execution_request.request_id"
    orelse reject_if (not (valid_run_id q.run_id)) "execution_request.run_id"
        "must be 32 lowercase hexadecimal characters"
    orelse reject_if (q.attempt == 0) "execution_request.attempt" "must be positive"
    orelse needs q.resource_class "execution_request.resource_class"
    orelse validate_constraints q.constraints
    orelse validate_workload q.workload
    orelse elim q.policy [ none ↦ invalid "execution_request.policy" required | some p ↦ none ]

unfoldable pub validate_offer : Envelope → Option ExecutionOffer → Option Invalid
unfolding valid_timestamp
validate_offer e none = invalid "execution_offer" required
validate_offer e (some o) =
    needs o.offer_id "execution_offer.offer_id"
    orelse needs o.request_id "execution_offer.request_id"
    orelse needs o.resource_class "execution_offer.resource_class"
    orelse valid_timestamp "execution_offer.expires_at" o.expires_at
    orelse reject_if (not (ltb (as_time e.sent_at) (as_time o.expires_at)))
        "execution_offer.expires_at" "must be after sent_at"
    orelse validate_capabilities o.node

unfoldable pub validate_assign : Option ExecutionAssign → Option Invalid
validate_assign none = invalid "execution_assign" required
validate_assign (some q) =
    needs q.request_id "execution_assign.request_id"
    orelse needs q.offer_id "execution_assign.offer_id"
    orelse needs q.execution_id "execution_assign.execution_id"

unfoldable pub validate_cancel : Option ExecutionCancel → Option Invalid
validate_cancel none = invalid "execution_cancel" required
validate_cancel (some q) = needs q.execution_id "execution_cancel.execution_id"

unfoldable pub validate_inspect : Option ExecutionInspect → Option Invalid
validate_inspect none = invalid "execution_inspect" required
validate_inspect (some q) = needs q.execution_id "execution_inspect.execution_id"

abbrev known_phase : ExecutionPhase → Bool
known_phase ExecutionPhase.unspecified = false
known_phase _ = true

unfoldable pub validate_state : Option ExecutionState → Option Invalid
unfolding valid_timestamp
validate_state none = invalid "execution_state" required
validate_state (some s) =
    needs s.execution_id "execution_state.execution_id"
    orelse reject_if (not (known_phase s.phase)) "execution_state.phase"
        "is required and must be known"
    orelse valid_timestamp "execution_state.occurred_at" s.occurred_at

-- lease.go
abbrev is_positive : ℤ → Bool
is_positive (pos n) = ltb 0 n
is_positive (negsuc n) = false

unfoldable pub validate_lease_renew : Option ExecutionLeaseRenew → Option Invalid
validate_lease_renew none = invalid "execution_lease_renew" required
validate_lease_renew (some q) =
    needs q.execution_id "execution_lease_renew.execution_id" orelse elim q.lease_duration [
      | none ↦ invalid "execution_lease_renew.lease_duration" required
      | some d ↦
          reject_if (not d.check_valid) "execution_lease_renew.lease_duration" "invalid duration"
          orelse reject_if (not (is_positive d.as_duration)) "execution_lease_renew.lease_duration"
              "must be positive"
    ]

unfoldable pub validate_lease_renew_ack : Option ExecutionLeaseRenewAck → Option Invalid
unfolding valid_timestamp
validate_lease_renew_ack none = invalid "execution_lease_renew_ack" required
validate_lease_renew_ack (some a) =
    needs a.execution_id "execution_lease_renew_ack.execution_id"
    orelse valid_timestamp "execution_lease_renew_ack.expires_at" a.expires_at

-- targets.go
unfoldable pub target_problem : TunnelTarget → Checked Invalid Target
target_problem t = do
  stop_if (t.port == 0) (record { field = "tunnel target"; problem = "port must be positive" })
  stop_if (ltb 0xFFFF t.port) (record { field = "tunnel target"; problem = "port too large" })
  ok (record { port = t.port })

unfoldable pub convert_targets : List TunnelTarget → Checked Invalid (List Target)
convert_targets [] = ok []
convert_targets (t ∷ ts) = do
  target ← target_problem t
  targets ← convert_targets ts
  ok (target ∷ targets)

unfoldable pub validate_tunnel_targets : List TunnelTarget → Checked Invalid (List Target)
unfolding convert_targets
validate_tunnel_targets [] =
    err (record { field = "tunnel targets"; problem = "no tunnel targets supplied" })
validate_tunnel_targets (t ∷ ts) = convert_targets (t ∷ ts)

unfoldable pub targets_to_proto : List Target → List TunnelTarget
targets_to_proto = map (λ t. record { port = t.port })

-- tunnel.go
abbrev problem_of {ℓ} : {A : Type ℓ} → Checked Invalid A → Option Invalid
problem_of (ok a) = none
problem_of (err e) = some e

unfoldable pub validate_tunnel_open : Option ExecutionTunnelOpen → Option Invalid
validate_tunnel_open none = invalid "execution_tunnel_open" required
validate_tunnel_open (some o) =
    needs o.execution_id "execution_tunnel_open.execution_id"
    orelse reject_if (is_empty o.ygg_peer_pubkey) "execution_tunnel_open.ygg_peer_pubkey" required
    orelse reject_if (ltb max_peer_key_size (length o.ygg_peer_pubkey))
        "execution_tunnel_open.ygg_peer_pubkey" "is too large"
    orelse reject_if (is_empty o.targets) "execution_tunnel_open.targets" required
    orelse problem_of (validate_tunnel_targets o.targets)

unfoldable pub validate_tunnel_open_ack : Option ExecutionTunnelOpenAck → Option Invalid
validate_tunnel_open_ack none = invalid "execution_tunnel_open_ack" required
validate_tunnel_open_ack (some a) = needs a.execution_id "execution_tunnel_open_ack.execution_id"

-- release.go
unfoldable pub validate_offer_release : Option ExecutionOfferRelease → Option Invalid
validate_offer_release none = invalid "execution_offer_release" required
validate_offer_release (some q) =
    reject_if (blank q.request_id || blank q.offer_id) "execution_offer_release"
      "request_id and offer_id are required"

abbrev known_outcome : OfferReleaseOutcome → Bool
known_outcome OfferReleaseOutcome.unspecified = false
known_outcome _ = true

unfoldable pub validate_offer_release_ack :
    Envelope → Option ExecutionOfferReleaseAck → Option Invalid
validate_offer_release_ack e none = invalid "execution_offer_release_ack" required
validate_offer_release_ack e (some a) =
    reject_if (blank e.correlation_id) "correlation_id"
      "is required for offer release acknowledgement"
    orelse reject_if (blank a.request_id || blank a.offer_id) "execution_offer_release_ack"
        "request_id and offer_id are required"
    orelse reject_if (not (known_outcome a.outcome)) "execution_offer_release_ack.outcome"
        "is not supported"

-- feedback.go
abbrev pub max_log_bytes : ℕ
max_log_bytes = 65536

abbrev pub error_codes : List Bytes
error_codes =
    ascii "INVALID_REQUEST"
    ∷ ascii "CAPACITY"
    ∷ ascii "NOT_FOUND"
    ∷ ascii "CONFLICT"
    ∷ ascii "EXPIRED"
    ∷ ascii "UNAVAILABLE"
    ∷ ascii "DENIED"
    ∷ ascii "INTERNAL"
    ∷ ascii "OUTCOME_UNKNOWN"
    ∷ ascii "INCOMPATIBLE"
    ∷ []

unfoldable pub validate_error : Envelope → Option CommandError → Option Invalid
validate_error e none =
    invalid "command_error" "requires a known code, correlation, and bounded detail"
validate_error e (some failure) =
    reject_if
      (not (contains error_codes failure.code)
        || blank e.correlation_id
        || ltb 256 (length failure.detail))
      "command_error" "requires a known code, correlation, and bounded detail"

abbrev pub known_stream : Bytes → Bool
known_stream s = beq s (ascii "stdout") || beq s (ascii "stderr")

unfoldable pub validate_logs_request : Option ExecutionLogsRequest → Option Invalid
validate_logs_request none =
    invalid "execution_logs_request" "requires execution, stdout/stderr, and 1..65536 bytes"
validate_logs_request (some q) =
    reject_if
      (blank q.execution_id
        || not (known_stream q.stream)
        || q.max_bytes == 0
        || ltb max_log_bytes q.max_bytes)
      "execution_logs_request" "requires execution, stdout/stderr, and 1..65536 bytes"

-- The difference of the offsets is taken only where it is not negative.
unfoldable pub validate_logs_response :
    (Bytes → Bytes) → Envelope → Option ExecutionLogsResponse → Option Invalid
validate_logs_response sha256 e none =
    invalid "execution_logs_response" "invalid range or correlation"
validate_logs_response sha256 e (some r) =
    reject_if
      (is_empty e.correlation_id
        || is_empty r.execution_id
        || not (known_stream r.stream)
        || ltb max_log_bytes (length r.contents)
        || ltb r.next_offset r.offset
        || not (r.next_offset - r.offset == length r.contents))
      "execution_logs_response" "invalid range or correlation"
    orelse reject_if (not (beq (sha256 r.contents) r.sha256)) "execution_logs_response.sha256"
        "checksum mismatch"

unfoldable pub validate_payload : (Bytes → Bytes) → Envelope → Payload → Option Invalid
validate_payload sha256 e (command_error m) = validate_error e m
validate_payload sha256 e (execution_logs_request m) = validate_logs_request m
validate_payload sha256 e (execution_logs_response m) = validate_logs_response sha256 e m
validate_payload sha256 e (execution_request m) = validate_request m
validate_payload sha256 e (execution_offer m) = validate_offer e m
validate_payload sha256 e (execution_assign m) = validate_assign m
validate_payload sha256 e (execution_cancel m) = validate_cancel m
validate_payload sha256 e (execution_state m) = validate_state m
validate_payload sha256 e (execution_inspect m) = validate_inspect m
validate_payload sha256 e (execution_offer_release m) = validate_offer_release m
validate_payload sha256 e (execution_lease_renew m) = validate_lease_renew m
validate_payload sha256 e (execution_lease_renew_ack m) = validate_lease_renew_ack m
validate_payload sha256 e (execution_tunnel_open m) = validate_tunnel_open m
validate_payload sha256 e (execution_tunnel_open_ack m) = validate_tunnel_open_ack m
validate_payload sha256 e (execution_offer_release_ack m) = validate_offer_release_ack e m
validate_payload sha256 e absent = invalid "payload" required

unfoldable pub validate_envelope : (Bytes → Bytes) → Envelope → Option Invalid
unfolding valid_timestamp
validate_envelope sha256 e =
    needs e.message_id "message_id"
    orelse reject_if (is_empty e.sender) "sender" required
    orelse valid_timestamp "sent_at" e.sent_at
    orelse validate_payload sha256 e e.payload
