-- ===== src/Allocator/Errors.antt =====
-- errors.go, durable_errors.go and feedback.go: the sentinel errors, their durable codes, and the
-- CommandError that a client gets for them.
use r1s.Base.{
  ℕ, Bool, true, false, ◌||◌, none, some, List, [], ◌∷◌, ◌++◌, String, Bytes, ascii, any, get, ◌==◌,
  if◌then◌else◌,
}
use r1s.Protocol.Messages.{CommandError}

pub data Sentinel : Type 0 where
  offer_released invalid_config unsupported_message capacity_exhausted : Sentinel
  offer_not_found offer_expired offer_already_assigned execution_not_found : Sentinel
  execution_conflict unauthorized invalid_transition runtime_start runtime_stop : Sentinel
  id_collision replay_capacity replay_conflict lease_too_long store : Sentinel
  recovery_unsupported admission result_expired command_expired : Sentinel
  tunnel_disabled tunnel_no_endpoint invalid_envelope : Sentinel
  -- ErrIncompatible, wrapped with the conflict details.
  incompatible : Bytes → Sentinel
  -- An error of other code that wraps none of the above.
  other : Sentinel

-- The sentinels that an error wraps, in order; nil wraps none. errors.Join appends.
abbrev pub Err : Type 0
Err = List Sentinel

abbrev pub nil : Err
nil = []

tag : Sentinel → ℕ
tag offer_released = 0
tag invalid_config = 1
tag unsupported_message = 2
tag capacity_exhausted = 3
tag offer_not_found = 4
tag offer_expired = 5
tag offer_already_assigned = 6
tag execution_not_found = 7
tag execution_conflict = 8
tag unauthorized = 9
tag invalid_transition = 10
tag runtime_start = 11
tag runtime_stop = 12
tag id_collision = 13
tag replay_capacity = 14
tag replay_conflict = 15
tag lease_too_long = 16
tag store = 17
tag recovery_unsupported = 18
tag admission = 19
tag result_expired = 20
tag command_expired = 21
tag tunnel_disabled = 22
tag tunnel_no_endpoint = 23
tag invalid_envelope = 24
tag (incompatible details) = 25
tag other = 26

-- errors.Is
unfoldable pub is : Err → Sentinel → Bool
unfolding tag
is e s = any (λ t. tag t == tag s) e

-- The text of an error that wraps ErrIncompatible.
abbrev text_of : Sentinel → Bytes
text_of (incompatible details) = ascii "node does not satisfy placement constraints: " ++ details
text_of _ = []

unfoldable pub error_text : Err → Bytes
error_text [] = []
error_text (s ∷ e) = text_of s ++ error_text e

abbrev failure : String → String → Bool → CommandError
failure code detail retryable = record {
  code = ascii code;
  detail = ascii detail;
  retryable = retryable;
}

-- The CommandError of errorResponse.
unfoldable pub command_failure : Err → CommandError
command_failure e =
    if is e admission
    then failure "DENIED" "identity is not admitted by local policy" false
    else if is e store
    then failure "OUTCOME_UNKNOWN" "state commit failed; inspect the same allocator" true
    else if is e unauthorized || is e offer_not_found || is e execution_not_found
    then failure "NOT_FOUND" "resource unavailable to this identity" false
    else if is e capacity_exhausted || is e replay_capacity
    then failure "CAPACITY" "allocator capacity or command queue exhausted" true
    else if is e (incompatible [])
    then record { code = ascii "INCOMPATIBLE"; detail = error_text e; retryable = false }
    else if is e offer_expired || is e offer_released || is e result_expired || is e command_expired
    then failure "EXPIRED" "reservation or retained result expired" false
    else if is e execution_conflict || is e replay_conflict || is e offer_already_assigned
    then failure "CONFLICT" "command conflicts with durable state" false
    else if is e tunnel_disabled
    then failure "TUNNEL" "direct-access tunnels are disabled on this allocator" false
    else if is e tunnel_no_endpoint
    then failure "TUNNEL" "tunnel endpoint is not ready on this allocator" true
    else if is e invalid_transition
    then failure "CONFLICT" "command conflicts with the current execution phase" false
    else if is e invalid_envelope || is e unsupported_message || is e lease_too_long
    then failure "INVALID_REQUEST" "invalid or unsupported command" false
    else if is e runtime_start || is e runtime_stop
    then failure "UNAVAILABLE" "runtime operation failed; inspect the same allocator" true
    else failure "INTERNAL" "allocator could not process command" false

-- durableErrors; the Go map is searched in no fixed order, here in the order of the literal.
abbrev pub durable_errors : List (Bytes × Sentinel)
durable_errors =
    (ascii "result_expired", result_expired)
    ∷ (ascii "command_expired", command_expired)
    ∷ (ascii "admission", admission)
    ∷ (ascii "offer_released", offer_released)
    ∷ (ascii "unsupported_message", unsupported_message)
    ∷ (ascii "capacity_exhausted", capacity_exhausted)
    ∷ (ascii "offer_not_found", offer_not_found)
    ∷ (ascii "offer_expired", offer_expired)
    ∷ (ascii "offer_assigned", offer_already_assigned)
    ∷ (ascii "execution_not_found", execution_not_found)
    ∷ (ascii "execution_conflict", execution_conflict)
    ∷ (ascii "unauthorized", unauthorized)
    ∷ (ascii "invalid_transition", invalid_transition)
    ∷ (ascii "runtime_start", runtime_start)
    ∷ (ascii "runtime_stop", runtime_stop)
    ∷ (ascii "id_collision", id_collision)
    ∷ (ascii "replay_capacity", replay_capacity)
    ∷ (ascii "replay_conflict", replay_conflict)
    ∷ (ascii "store", store)
    ∷ []

first_code : Err → List (Bytes × Sentinel) → Bytes
first_code e [] = []
first_code e ((code, sentinel) ∷ rest) = if is e sentinel then code else first_code e rest

unfoldable pub classify_error : Err → Bytes
unfolding first_code
classify_error e = first_code e durable_errors

-- An error with an unknown code keeps its text alone.
unfoldable pub restore_error : Bytes → Err
restore_error code = elim (get code durable_errors) [ none ↦ other ∷ [] | some s ↦ s ∷ [] ]
