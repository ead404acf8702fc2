-- ===== src/Client/SettledInbound.antt =====
-- inbound.go, release.go and lease_ack.go: messages keep the requests settled.
use r1s.Base.{
  ℕ, ◌≡◌, ◌≢◌, ◌⊎◌, inl, inr, refl, sym, subst, ap, ◌∙◌, ◌||◌, ◌&&◌, not, Bool, true, false, Option,
  none, some, List, [], ◌∷◌, Bytes, Assoc, All, Values-get, map, get, put, beq, beq_iff, is_empty,
  is_none, if◌then◌else◌, arith, Bool-cases, Option-cases, option_rule, if_rule, Checked, ok, err,
  ◌>>=◌, Ensures, present_rule, stop_if_rule, bind_rule,
}
use r1s.Protocol.Messages.{
  Envelope, Payload, ExecutionOffer, ExecutionState, ExecutionLeaseRenewAck,
  ExecutionOfferReleaseAck, CommandError, execution_logs_response, command_error, execution_offer,
  execution_state, execution_offer_release_ack, execution_lease_renew_ack,
  execution_tunnel_open_ack,
}
use r1s.Protocol.Validate.{validate_envelope}
use r1s.Client.State.{
  ClientError, ReleaseIntent, OfferRecord, RequestRecord, ExecutionRecord, Client, Allocator,
  put_execution, put_request,
}
use r1s.Client.Catalog.{lookup}
use r1s.Client.Selection.{new_release, is_assigned, handle_release_ack}
use r1s.Client.Leases.{handle_renew_ack, mark_renewal_failure}
use r1s.Client.Inbound.{
  Handled, accepted, refused, handled, refresh, late_offer, handle_offer, newer, stale, contradicts,
  judge, observe, handle_state, blame, pending_on, handle_error, capabilities_equal, route, handle,
}
use r1s.Client.Settled.{
  offer_of, choice, Fits, has_selected, IsSettled, IsConsistent, IsConsistent-put,
  IsConsistent-executions, IsConsistent-offer, All-get,
}

observe-offer_id :
    (state : ExecutionState) (r : ExecutionRecord) → (observe state r).offer_id ≡ r.offer_id
observe-offer_id state r = ground arith

blame-offer_id :
    (e : Envelope) (code : Bytes) (r : ExecutionRecord) → (blame e code r).offer_id ≡ r.offer_id
unfolding mark_renewal_failure
blame-offer_id e code r = ground arith

choice-map :
    (f : ExecutionRecord → ExecutionRecord) (m : Assoc ExecutionRecord)
    → ((r : ExecutionRecord) → (f r).offer_id ≡ r.offer_id)
    → (id : Bytes) → choice (map (λ entry. (entry.0, f entry.1)) m) id ≡ choice m id
unfolding get
choice-map f [] same id = refl
choice-map f ((j, r) ∷ m) same id = elim (Bool-cases (beq j id)) [
  | inl e ↦ rw e (ap some (same r))
  | inr n ↦ rw n (choice-map f m same id)
]

module _ (c : Client) (k : IsConsistent c) (e : Envelope) where
  handled-IsConsistent :
      (m : Checked ClientError Client) → Ensures IsConsistent m → IsConsistent (handled c m).client
  handled-IsConsistent (ok after) h = h
  handled-IsConsistent (err problem) h = k

  handle_state-IsConsistent :
      (same : ExecutionState → ExecutionState → Bool) (state : ExecutionState)
      → IsConsistent (handle_state same c e state).client
  unfolding handle_state
  handle_state-IsConsistent same state =
      let P : Handled → Type 0 = λ (x : Handled). IsConsistent x.client in
      option_rule P (get state.execution_id c.executions) (λ _. k)
        (λ s found.
          if_rule P (not (beq s.allocator_id e.sender)) (λ _. k)
            (λ _.
              elim (judge same s.state state)
                as (λ v. P (elim v [
                  | stale ↦ accepted c
                  | contradicts ↦ refused c r1s.Client.State.conflict
                  | newer ↦ accepted (put_execution c state.execution_id (observe state s))
                ])) [
                  | stale ↦ k
                  | contradicts ↦ k
                  | newer ↦
                      IsConsistent-put c state.execution_id s (observe state s) found
                        (observe-offer_id state s) k
                ]))

  handle_renew_ack-IsConsistent :
      (now : ℕ) (ack : ExecutionLeaseRenewAck) → Ensures IsConsistent (handle_renew_ack now c e ack)
  unfolding handle_renew_ack
  handle_renew_ack-IsConsistent now ack =
      present_rule IsConsistent (get ack.execution_id c.executions) _ _ (λ s found.
        stop_if_rule IsConsistent (is_empty s.lease_renew_message_id || _ || _) _ _ (λ _.
          stop_if_rule IsConsistent s.lease_lost _ _
            (λ _. IsConsistent-put c ack.execution_id s _ found refl k)))

  -- A release stays a release.
  Fits-acknowledged :
      (sel : Option Bytes) (key : Bytes) (o : OfferRecord) (intent intent' : ReleaseIntent)
      → o.release ≡ some intent
      → Fits sel (key, o)
      → Fits sel (key, record o { release = some intent' })
  Fits-acknowledged none key o intent intent' h fit = ground (arith, h, fit.1)
  Fits-acknowledged (some s) key o intent intent' h fit = (fit.0, ground (arith, h, fit.1))

  handle_release_ack-IsConsistent :
      (ack : ExecutionOfferReleaseAck) → Ensures IsConsistent (handle_release_ack c e ack)
  unfolding handle_release_ack
  handle_release_ack-IsConsistent ack =
      present_rule IsConsistent (get ack.request_id c.requests) _ _ (λ r found.
        present_rule IsConsistent (get ack.offer_id r.offers) _ _ (λ o stored.
          present_rule IsConsistent o.release _ _ (λ intent released.
            stop_if_rule IsConsistent (not (beq o.allocator_id e.sender)) _ _ (λ _.
              stop_if_rule IsConsistent (not (beq intent.message_id e.correlation_id)) _ _ (λ _.
                stop_if_rule IsConsistent (is_assigned ack.outcome) _ _ (λ _.
                  let s =
                    Values-get (IsSettled c.executions) ack.request_id c.requests k.settled found in
                  let sel = choice c.executions r.execution_id in
                  IsConsistent-offer c ack.request_id r ack.offer_id _ k found (
                    Fits-acknowledged sel ack.offer_id o intent _ released
                      (All-get (Fits sel) ack.offer_id o r.offers s.fits stored))))))))

  handle_error-IsConsistent :
      (failure : CommandError) → IsConsistent (handle_error c e failure).client
  unfolding handle_error
  handle_error-IsConsistent failure =
      let after : Client = record c {
        executions = map (λ entry. (entry.0, blame e failure.code entry.1)) c.executions;
      } in
      let settled : IsConsistent after =
        IsConsistent-executions c after.executions
          (choice-map (blame e failure.code) c.executions (blame-offer_id e failure.code)) k in
      let P : Handled → Type 0 = λ (x : Handled). IsConsistent x.client in
      if_rule P
        (r1s.Client.Inbound.requests_authorize c e (r1s.Client.Inbound.log_authority c e) c.requests
          || r1s.Base.any (λ entry. pending_on e entry.1) c.executions)
        {x = accepted after} {y = refused after r1s.Client.State.unauthorized} (λ _. settled)
        (λ _. settled)

refresh-same :
    (c : Client) (a : Allocator) (offer : ExecutionOffer)
    → ((refresh c a offer).executions ≡ c.executions) × ((refresh c a offer).requests ≡ c.requests)
refresh-same c a offer = (ground arith, ground arith)

refresh-IsConsistent :
    (c : Client) (a : Allocator) (offer : ExecutionOffer)
    → IsConsistent c
    → IsConsistent (refresh c a offer)
refresh-IsConsistent c a offer k =
    if_rule IsConsistent (is_none offer.node || capabilities_equal a.node offer.node) (λ _. k)
      (λ _. record { unnamed = k.unnamed; settled = k.settled })

-- The selected offer of a request is known, so a new one is another.
late_offer-Fits :
    (release_id : Bytes) (now : ℕ) (c : Client) (r : RequestRecord) (e : Envelope) (o : OfferRecord)
    → IsConsistent c
    → IsSettled c.executions r
    → get o.offer.offer_id r.offers ≡ none
    → o.release ≡ none
    → Ensures
        (λ (o' : OfferRecord). Fits (choice c.executions r.execution_id) (o.offer.offer_id, o'))
        (late_offer release_id now c r e o)
unfolding late_offer
late_offer-Fits release_id now c r e o k s new bare =
    let sel = choice c.executions r.execution_id in
    let P : OfferRecord → Type 0 = λ (o' : OfferRecord). Fits sel (o.offer.offer_id, o') in
    if_rule (Ensures P) (is_empty r.execution_id)
      (λ empty.
        let at : r.execution_id ≡ [] = ground (arith, empty) in
        let unsettled : sel ≡ none = ap (choice c.executions) at ∙ k.unnamed in
        subst (λ (x : Option Bytes). Fits x (o.offer.offer_id, o)) (sym unsettled) (refl, bare))
      (λ _. present_rule P (get r.execution_id c.executions) _ _ (λ chosen found.
        stop_if_rule P (beq chosen.offer_id o.offer.offer_id && beq chosen.allocator_id e.sender) _
          _
          (λ _. bind_rule P (new_release c.allocators release_id now o) _ (λ intent _.
            let picked : sel ≡ some chosen.offer_id = ap offer_of found in
            let held : has_selected (some chosen.offer_id) r.offers ≡ true =
              subst (λ (x : Option Bytes). has_selected x r.offers ≡ true) picked s.selected in
            subst
              (λ (x : Option Bytes). Fits x (o.offer.offer_id, record o { release = some intent }))
              (sym picked)
              (refl, ground (arith, held, new, beq_iff o.offer.offer_id chosen.offer_id))))))

handle_offer-IsConsistent :
    (same : ExecutionOffer → ExecutionOffer → Bool) (release_id : Bytes) (now : ℕ) (c : Client)
    (e : Envelope) (offer : ExecutionOffer)
    → IsConsistent c
    → IsConsistent (handle_offer same release_id now c e offer).client
unfolding handle_offer
handle_offer-IsConsistent same release_id now c e offer k =
    let P : Handled → Type 0 = λ (x : Handled). IsConsistent x.client in
    option_rule P (get offer.request_id c.requests) (λ _. k)
      (λ r found.
        if_rule P
          (not (beq r.message_id e.correlation_id)
            || not (beq offer.resource_class r.request.resource_class))
          (λ _. k)
          (λ _.
            option_rule P (lookup c.allocators e.sender) (λ _. k)
              (λ a _.
                let fresh : Client = refresh c a offer in
                let same_parts = refresh-same c a offer in
                let kept : IsConsistent fresh = refresh-IsConsistent c a offer k in
                let there : get offer.request_id fresh.requests ≡ some r = rw same_parts.1 found in
                let s : IsSettled fresh.executions r =
                  Values-get (IsSettled fresh.executions) offer.request_id fresh.requests
                    kept.settled there in
                let bare : OfferRecord = record {
                  offer = offer;
                  allocator_id = e.sender;
                  received_at = now;
                  release = none;
                } in
                option_rule P (get offer.offer_id r.offers)
                  (λ new. handled-IsConsistent fresh kept e _ (
                    bind_rule IsConsistent (late_offer release_id now fresh r e bare) _ (λ o late.
                      IsConsistent-offer fresh offer.request_id r offer.offer_id o kept there (
                        subst
                          (Ensures (λ (x : OfferRecord).
                            Fits (choice fresh.executions r.execution_id) (offer.offer_id, x)))
                          late (late_offer-Fits release_id now fresh r e bare kept s new refl)))))
                  (λ old _.
                    if_rule P (beq old.allocator_id e.sender && same old.offer offer) (λ _. kept)
                      (λ _. kept)))))

module _ (same_offer : ExecutionOffer → ExecutionOffer → Bool)
    (same : ExecutionState → ExecutionState → Bool) (sha256 : Bytes → Bytes) (release_id : Bytes)
    (now : ℕ) (c : Client) (e : Envelope) (k : IsConsistent c) where
  route-IsConsistent :
      (p : Payload) → IsConsistent (route same_offer same sha256 release_id now c e p).client
  unfolding route
  route-IsConsistent (execution_logs_response (some m)) = k
  route-IsConsistent (command_error (some m)) = handle_error-IsConsistent c k e m
  route-IsConsistent (execution_offer (some m)) =
      handle_offer-IsConsistent same_offer release_id now c e m k
  route-IsConsistent (execution_state (some m)) = handle_state-IsConsistent c k e same m
  route-IsConsistent (execution_offer_release_ack (some m)) =
      handled-IsConsistent c k e (handle_release_ack c e m)
        (handle_release_ack-IsConsistent c k e m)
  route-IsConsistent (execution_lease_renew_ack (some m)) =
      handled-IsConsistent c k e (handle_renew_ack now c e m)
        (handle_renew_ack-IsConsistent c k e now m)
  route-IsConsistent (execution_tunnel_open_ack (some m)) = k
  route-IsConsistent _ = k

  pub handle-IsConsistent : IsConsistent (handle same_offer same sha256 release_id now c e).client
  unfolding handle
  handle-IsConsistent =
      option_rule (λ (x : Handled). IsConsistent x.client) (validate_envelope sha256 e)
        (λ _. route-IsConsistent e.payload) (λ _ _. k)
