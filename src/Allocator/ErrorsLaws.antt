-- ===== src/Allocator/ErrorsLaws.antt =====
-- feedback.go against protocol/feedback.go: whether a client takes the CommandError that it is sent.
use r1s.Base.{
  String, ascii, beq, ◌≡◌, ◌≤◌, refl, Bool, true, false, ◌||◌, none, some, [], blank, leb, length,
  arith, if_rule,
}
use r1s.Protocol.Messages.{Envelope, CommandError}
use r1s.Protocol.Placement.{contains}
use r1s.Protocol.Validate.{validate_error, error_codes}
use r1s.Allocator.Errors.{
  Err, admission, store, unauthorized, offer_not_found, execution_not_found, capacity_exhausted,
  replay_capacity, incompatible, offer_expired, offer_released, result_expired, command_expired,
  execution_conflict, replay_conflict, offer_already_assigned, tunnel_disabled, tunnel_no_endpoint,
  invalid_transition, invalid_envelope, unsupported_message, lease_too_long, runtime_start,
  runtime_stop, is, error_text, command_failure,
}

abbrev Accepted : Envelope → CommandError → Type 0
Accepted e f = validate_error e (some f) ≡ none

accepted :
    (e : Envelope) (f : CommandError)
    → blank e.correlation_id ≡ false
    → contains error_codes f.code ≡ true
    → length f.detail ≤ 256
    → Accepted e f
unfolding validate_error
accepted e f correlated known short = ground (arith, correlated, known)

-- The same for a code and a detail that are given as texts.
fixed :
    (e : Envelope) (code detail : String) (retryable : Bool)
    → blank e.correlation_id ≡ false
    → contains error_codes (ascii code) ≡ true
    → leb (length (ascii detail)) 256 ≡ true
    → Accepted e (record { code = ascii code; detail = ascii detail; retryable = retryable })
fixed e code detail retryable correlated known short =
    accepted e _ correlated known (ground (arith, short))

module _ (e : Envelope) (error : Err) (correlated : blank e.correlation_id ≡ false) where
  -- A client takes the CommandError that an allocator answers with, if it has a correlation, unless
  -- the error is one of the two tunnel errors, or a text of more than 256 bytes.
  pub command_failure-Accepted :
      is error tunnel_disabled ≡ false
      → is error tunnel_no_endpoint ≡ false
      → length (error_text error) ≤ 256
      → Accepted e (command_failure error)
  unfolding command_failure contains beq
  command_failure-Accepted enabled ready short =
      if_rule (Accepted e) (is error admission)
        (λ _.
          fixed e "DENIED" "identity is not admitted by local policy" false correlated refl refl)
        λ _.
          if_rule (Accepted e) (is error store)
            (λ _.
              fixed e "OUTCOME_UNKNOWN" "state commit failed; inspect the same allocator" true
                correlated refl refl)
            λ _.
              if_rule (Accepted e)
                (is error unauthorized || is error offer_not_found || is error execution_not_found)
                (λ _.
                  fixed e "NOT_FOUND" "resource unavailable to this identity" false correlated refl
                    refl)
                λ _.
                  if_rule (Accepted e) (is error capacity_exhausted || is error replay_capacity)
                    (λ _.
                      fixed e "CAPACITY" "allocator capacity or command queue exhausted" true
                        correlated refl refl)
                    λ _.
                      if_rule (Accepted e) (is error (incompatible []))
                        (λ _. accepted e _ correlated refl short)
                        λ _.
                          if_rule (Accepted e)
                            (is error offer_expired
                              || is error offer_released
                              || is error result_expired
                              || is error command_expired)
                            (λ _.
                              fixed e "EXPIRED" "reservation or retained result expired" false
                                correlated refl refl)
                            λ _.
                              if_rule (Accepted e)
                                (is error execution_conflict
                                  || is error replay_conflict
                                  || is error offer_already_assigned)
                                (λ _.
                                  fixed e "CONFLICT" "command conflicts with durable state" false
                                    correlated refl refl)
                                λ _.
                                  if_rule (Accepted e) (is error tunnel_disabled) (λ on. cc)
                                    λ _.
                                      if_rule (Accepted e) (is error tunnel_no_endpoint) (λ on. cc)
                                        λ _.
                                          if_rule (Accepted e) (is error invalid_transition)
                                            (λ _.
                                              fixed e "CONFLICT"
                                                "command conflicts with the current execution phase"
                                                false correlated refl refl)
                                            λ _.
                                              if_rule (Accepted e)
                                                (is error invalid_envelope
                                                  || is error unsupported_message
                                                  || is error lease_too_long)
                                                (λ _.
                                                  fixed e "INVALID_REQUEST"
                                                    "invalid or unsupported command" false
                                                    correlated refl refl)
                                                λ _.
                                                  if_rule (Accepted e)
                                                    (is error runtime_start
                                                      || is error runtime_stop)
                                                    (λ _.
                                                      fixed e "UNAVAILABLE"
                                                        "runtime operation failed; inspect the same allocator"
                                                        true correlated refl refl)
                                                    λ _.
                                                      fixed e "INTERNAL"
                                                        "allocator could not process command" false
                                                        correlated refl refl
