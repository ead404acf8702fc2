-- ===== src/Client/Evolution.antt =====
-- inbound.go, feedback.go and lease_ack.go: how a message changes what the client knows of an
-- execution.
use r1s.Base.{
  ℕ, ◌≡◌, ◌≢◌, ◌⊎◌, inl, inr, refl, subst, ◌&&◌, ◌||◌, not, Bool, true, false, none, some, [], ◌∷◌,
  Bytes, Assoc, map, get, put, get-put, beq, beq_iff, blank, is_empty, arith, Bool-cases,
  option_rule, if_rule, Checked, ok, err, Ensures, present_rule, stop_if_rule,
}
use r1s.Protocol.Messages.{
  Envelope, Payload, ExecutionOffer, ExecutionState, ExecutionLeaseRenewAck,
  ExecutionOfferReleaseAck, CommandError, as_time,
}
use r1s.Protocol.Messages.{
  execution_logs_response, command_error, execution_offer, execution_state,
  execution_offer_release_ack, execution_lease_renew_ack, execution_tunnel_open_ack,
}
use r1s.Protocol.Validate.{validate_envelope, validate_payload, validate_error}
use r1s.Client.State.{ClientError, OfferRecord, RequestRecord, ExecutionRecord, Client, Allocator}
use r1s.Client.Selection.{handle_release_ack}
use r1s.Client.Leases.{handle_renew_ack, mark_renewal_failure}
use r1s.Client.Inbound.{
  Handled, accepted, refused, handled, handle_offer, newer, stale, contradicts, judge, observe,
  handle_state, pending_on, about_lease, blame, handle_error, route, handle,
}

-- The record as a renewal's acknowledgement leaves it.
abbrev pub renewed : ℕ → ExecutionLeaseRenewAck → ExecutionRecord → ExecutionRecord
renewed now ack r = record r {
  lease_renew_message_id = [];
  lease_renewed_at = now;
  lease_expires_at = as_time ack.expires_at;
}

-- What the handler of an acknowledgement refuses as unauthorized.
abbrev pub wrong_renewal : Envelope → ExecutionRecord → Bool
wrong_renewal e s =
    is_empty s.lease_renew_message_id
    || not (beq s.allocator_id e.sender)
    || not (beq s.lease_renew_message_id e.correlation_id)

-- What a message may make of an execution's record.
pub data Evolves (same : ExecutionState → ExecutionState → Bool) (now : ℕ) (e : Envelope)
    (r : ExecutionRecord) : ExecutionRecord → Type 0 where
  unchanged : Evolves same now e r r
  -- A newer state from the execution's own allocator.
  observed :
      (state : ExecutionState)
      → e.payload ≡ execution_state (some state)
      → r.allocator_id ≡ e.sender
      → judge same r.state state ≡ newer
      → Evolves same now e r (observe state r)
  -- Its allocator's answer to the pending renewal of a lease that is not lost.
  acknowledged :
      (ack : ExecutionLeaseRenewAck)
      → e.payload ≡ execution_lease_renew_ack (some ack)
      → r.allocator_id ≡ e.sender
      → r.lease_renew_message_id ≢ []
      → r.lease_renew_message_id ≡ e.correlation_id
      → r.lease_lost ≡ false
      → Evolves same now e r (renewed now ack r)
  -- Its allocator's error, with the message ID of its last renewal or inspection.
  failed :
      (failure : CommandError)
      → e.payload ≡ command_error (some failure)
      → r.allocator_id ≡ e.sender
      → blank e.correlation_id ≡ false
      → (e.correlation_id ≡ r.lease_renew_message_id) ⊎ (e.correlation_id ≡ r.inspect_message_id)
      → Evolves same now e r (mark_renewal_failure failure.code r)

get-map :
    (f : ExecutionRecord → ExecutionRecord) (k : Bytes) (r : ExecutionRecord)
    (m : Assoc ExecutionRecord)
    → get k m ≡ some r
    → get k (map (λ entry. (entry.0, f entry.1)) m) ≡ some (f r)
unfolding get
get-map f k r [] h = cc
get-map f k r ((j, s) ∷ m) h = elim (Bool-cases (beq j k)) [
  | inl e ↦ let same : s ≡ r = ground arith in rw (e, same) refl
  | inr n ↦ rw n (get-map f k r m (rw n at h))
]

module _ (same : ExecutionState → ExecutionState → Bool) (now : ℕ) (c : Client) (e : Envelope)
    (id : Bytes) (r : ExecutionRecord) (h : get id c.executions ≡ some r) where
  -- The record after a change of the client.
  abbrev pub Becomes : Client → Type 0
  Becomes after =
      (r' : ExecutionRecord) × ((get id after.executions ≡ some r') × Evolves same now e r r')

  still : (after : Client) → after.executions ≡ c.executions → Becomes after
  still after eq = (r, (rw eq h, unchanged))

  -- One record of the client is replaced.
  replaced :
      (key : Bytes) (old new : ExecutionRecord)
      → get key c.executions ≡ some old
      → Evolves same now e old new
      → Becomes (record c { executions = put key new c.executions })
  replaced key old new found evolves = elim (Bool-cases (beq key id)) [
    | inl here ↦
        let same_record : old ≡ r = ground (arith, (beq_iff key id).0 here) in
        (
          new,
          (
            rw (get-put key id new c.executions, here) refl,
            subst (λ x. Evolves same now e x new) same_record evolves,
          ),
        )
    | inr there ↦ (r, (rw (get-put key id new c.executions, there) h, unchanged))
  ]

  own_allocator :
      (s : ExecutionRecord) → not (beq s.allocator_id e.sender) ≡ false → s.allocator_id ≡ e.sender
  own_allocator s own = (beq_iff s.allocator_id e.sender).0 (ground (arith, own))

  handled-Evolves :
      (m : Checked ClientError Client) → Ensures Becomes m → Becomes (handled c m).client
  handled-Evolves (ok after) k = k
  handled-Evolves (err problem) k = still c refl

  handle_state-Evolves :
      (state : ExecutionState)
      → e.payload ≡ execution_state (some state)
      → Becomes (handle_state same c e state).client
  unfolding handle_state
  handle_state-Evolves state told =
      let P : Handled → Type 0 = λ (x : Handled). Becomes x.client in
      option_rule P (get state.execution_id c.executions) (λ _. still c refl)
        (λ s found.
          if_rule P (not (beq s.allocator_id e.sender)) (λ _. still c refl)
            (λ own.
              elim (judge same s.state state)
                  as (λ v.
                    judge same s.state state ≡ v
                    → P (elim v [
                      | stale ↦ accepted c
                      | contradicts ↦ refused c r1s.Client.State.conflict
                      | newer ↦ accepted (record c {
                        executions = put state.execution_id (observe state s) c.executions;
                      })
                    ])) [
                      | stale ↦ λ _. still c refl
                      | contradicts ↦ λ _. still c refl
                      | newer ↦ λ verdict.
                          replaced state.execution_id s (observe state s) found
                            (observed state told (own_allocator s own) verdict)
                    ]
                refl))

  right_renewal :
      (s : ExecutionRecord)
      → wrong_renewal e s ≡ false
      → (s.allocator_id ≡ e.sender)
        × (s.lease_renew_message_id ≢ [])
        × (s.lease_renew_message_id ≡ e.correlation_id)
  right_renewal s mine = (
    (beq_iff s.allocator_id e.sender).0 (ground (arith, mine)),
    ground (arith, mine),
    (beq_iff s.lease_renew_message_id e.correlation_id).0 (ground (arith, mine)),
  )

  handle_renew_ack-Evolves :
      (ack : ExecutionLeaseRenewAck)
      → e.payload ≡ execution_lease_renew_ack (some ack)
      → Ensures Becomes (handle_renew_ack now c e ack)
  unfolding handle_renew_ack
  handle_renew_ack-Evolves ack told =
      present_rule Becomes (get ack.execution_id c.executions) _ _ (λ s found.
        stop_if_rule Becomes (wrong_renewal e s) _ _ (λ mine.
          stop_if_rule Becomes s.lease_lost _ _ (λ live.
            let ours = right_renewal s mine in
            replaced ack.execution_id s (renewed now ack s) found
              (acknowledged ack told ours.0 ours.1 ours.2 live))))

  handle_release_ack-executions :
      (ack : ExecutionOfferReleaseAck)
      → (handled c (handle_release_ack c e ack)).client.executions ≡ c.executions
  unfolding handle_release_ack
  handle_release_ack-executions ack = ground arith

  handle_offer-executions :
      (same_offer : ExecutionOffer → ExecutionOffer → Bool) (release_id : Bytes)
      (offer : ExecutionOffer)
      → (handle_offer same_offer release_id now c e offer).client.executions ≡ c.executions
  unfolding handle_offer
  handle_offer-executions same_offer release_id offer = ground arith

  about_request :
      about_lease e r ≡ true
      → (e.correlation_id ≡ r.lease_renew_message_id) ⊎ (e.correlation_id ≡ r.inspect_message_id)
  about_request asked = elim (Bool-cases (beq e.correlation_id r.lease_renew_message_id)) [
    | inl renewal ↦ inl ((beq_iff e.correlation_id r.lease_renew_message_id).0 renewal)
    | inr other ↦
        inr ((beq_iff e.correlation_id r.inspect_message_id).0 (ground (arith, asked, other)))
  ]

  blame-Evolves :
      (failure : CommandError)
      → e.payload ≡ command_error (some failure)
      → blank e.correlation_id ≡ false
      → Evolves same now e r (blame e failure.code r)
  blame-Evolves failure told correlated =
      if_rule (λ (s : ExecutionRecord). Evolves same now e r s) (pending_on e r && about_lease e r)
        (λ blamed.
          failed failure told ((beq_iff r.allocator_id e.sender).0 (ground (arith, blamed)))
            correlated (about_request (ground (arith, blamed))))
        (λ _. unchanged)

  handle_error-executions :
      (failure : CommandError)
      → (handle_error c e failure).client.executions
        ≡ map (λ entry. (entry.0, blame e failure.code entry.1)) c.executions
  unfolding handle_error
  handle_error-executions failure = ground arith

  handle_error-Evolves :
      (failure : CommandError)
      → e.payload ≡ command_error (some failure)
      → blank e.correlation_id ≡ false
      → Becomes (handle_error c e failure).client
  handle_error-Evolves failure told correlated = (
    blame e failure.code r,
    (
      rw (handle_error-executions failure) (get-map (blame e failure.code) id r c.executions h),
      blame-Evolves failure told correlated,
    ),
  )

  module _ (same_offer : ExecutionOffer → ExecutionOffer → Bool) (sha256 : Bytes → Bytes)
      (release_id : Bytes) where
    error_correlated :
        (m : CommandError)
        → validate_payload sha256 e (command_error (some m)) ≡ none
        → blank e.correlation_id ≡ false
    unfolding validate_payload validate_error
    error_correlated m valid = ground (arith, valid)

    envelope-payload :
        validate_envelope sha256 e ≡ none → validate_payload sha256 e e.payload ≡ none
    unfolding validate_envelope
    envelope-payload valid = ground (arith, valid)

    route-Evolves :
        (p : Payload)
        → e.payload ≡ p
        → validate_payload sha256 e p ≡ none
        → Becomes (route same_offer same sha256 release_id now c e p).client
    unfolding route
    route-Evolves (execution_logs_response (some m)) told valid = still c refl
    route-Evolves (command_error (some m)) told valid =
        handle_error-Evolves m told (error_correlated m valid)
    route-Evolves (execution_offer (some m)) told valid =
        still (handle_offer same_offer release_id now c e m).client
          (handle_offer-executions same_offer release_id m)
    route-Evolves (execution_state (some m)) told valid = handle_state-Evolves m told
    route-Evolves (execution_offer_release_ack (some m)) told valid =
        still (handled c (handle_release_ack c e m)).client (handle_release_ack-executions m)
    route-Evolves (execution_lease_renew_ack (some m)) told valid =
        handled-Evolves (handle_renew_ack now c e m) (handle_renew_ack-Evolves m told)
    route-Evolves (execution_tunnel_open_ack (some m)) told valid = still c refl
    route-Evolves _ told valid = still c refl

    -- Whatever message comes in, an execution that the client knows stays known, and its record either
    -- stays the same or changes in one of three ways, each by a message of the allocator that the execution
    -- was assigned to: it takes over a state that is judged newer, its lease is renewed by an
    -- acknowledgement with the ID of its pending renewal, or its lease may be lost by an error with the
    -- ID, which is not blank, of its pending renewal or of its last inspection.
    pub handle-Evolves : Becomes (handle same_offer same sha256 release_id now c e).client
    unfolding handle
    handle-Evolves =
        option_rule (λ (x : Handled). Becomes x.client) (validate_envelope sha256 e)
          (λ valid. route-Evolves e.payload refl (envelope-payload valid)) (λ _ _. still c refl)
