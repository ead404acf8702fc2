-- ===== src/Allocator/Repeat.antt =====
-- A request that is sent again gets the offer that it got before (handleRequest of offers.go).
use r1s.Base.{
  subst, ℕ, ◌≡◌, ◌<◌, refl, Bool, true, false, some, [], ◌∷◌, Bytes, is_empty, Checked, ok, err,
  Ensures, arith,
}
use r1s.Protocol.Messages.{ExecutionRequest, ExecutionOffer, Envelope, execution_offer, as_time}
use r1s.Allocator.Errors.{Err}
use r1s.Allocator.State.{OfferStatus, OfferRecord, Allocator, Outcome, answer}
use r1s.Allocator.Views.{expire_offers, due, offer_envelope, authority_key, envelope_of}
use r1s.Allocator.Offers.{
  Fresh, settle, repeat_request, existing_offer, request_checks, handle_request, has_status,
}
use r1s.Allocator.Recorded.{Offered, Records, existing-expire, request_checks-Records}

settle-Records :
    (eq : ExecutionRequest → ExecutionRequest → Bool) (key : Bytes) (q : ExecutionRequest)
    (offer : ExecutionOffer) (a : Allocator) (m : Checked Err Outcome)
    → Ensures (Records eq key q offer) m
    → Records eq key q offer (settle a m)
settle-Records eq key q offer a (ok o) h = h
settle-Records eq key q offer a (err e) h = λ r same p. cc

repeat_request-answers :
    (eq : ExecutionRequest → ExecutionRequest → Bool) (fresh : Fresh) (saved : Bool) (a : Allocator)
    (o : OfferRecord) (cid : Bytes) (now : ℕ) (q : ExecutionRequest)
    → is_empty fresh.message_id ≡ false
    → has_status o.status OfferStatus.expired ≡ false
    → eq o.request q ≡ true
    → has_status o.status OfferStatus.released ≡ false
    → repeat_request eq fresh saved a o cid now q
      ≡ ok (answer a (envelope_of a fresh.message_id cid now (execution_offer (some o.offer)) ∷ []))
unfolding repeat_request offer_envelope
repeat_request-answers eq fresh saved a o cid now q id usable alike kept =
    rw (usable, alike, kept, id) refl

request_checks_recorded :
    (eq : ExecutionRequest → ExecutionRequest → Bool) (fresh : Fresh) (saved : Bool) (a : Allocator)
    (sender cid : Bytes) (now : ℕ) (q : ExecutionRequest) (o : OfferRecord)
    → existing_offer a (authority_key sender q.request_id) ≡ some o
    → request_checks eq fresh saved a sender cid now q ≡ repeat_request eq fresh saved a o cid now q
unfolding request_checks
request_checks_recorded eq fresh saved a sender cid now q o h = rw (request_checks, h) refl

module _ (eq : ExecutionRequest → ExecutionRequest → Bool) (fresh again : Fresh)
    (saved saved_again : Bool) (q : ExecutionRequest) (offer : ExecutionOffer) where
  handle_request_recorded :
      (later : ℕ) (b : Allocator) (sender cid_again : Bytes)
      → Offered eq b (authority_key sender q.request_id) q offer
      → later < as_time offer.expires_at
      → is_empty again.message_id ≡ false
      → handle_request eq again saved_again later b sender cid_again q
        ≡ answer (expire_offers later b) (
            envelope_of
              (expire_offers later b)
              again.message_id
              cid_again
              later
              (execution_offer (some offer))
            ∷ [])
  unfolding handle_request
  handle_request_recorded later b sender cid_again o soon id =
      let key = authority_key sender q.request_id in
      let alive : due later o.stored ≡ false = ground (arith, o.same_offer) in
      rw
        (
          request_checks_recorded eq again saved_again (expire_offers later b) sender cid_again
              later q o.stored (existing-expire later b key o.stored o.found alive),
          repeat_request-answers eq again saved_again (expire_offers later b) o.stored cid_again
              later q id o.not_expired o.same_request o.not_released,
          o.same_offer,
        )
        refl

  -- A request that was answered with an offer, whether new or recorded before: the same request
  -- from the same client, sent again to the state that is left and before the offer's time is
  -- over, is answered with the same offer, and nothing changes but that due offers expire. So no
  -- second offer is made and no second slot is taken. The equality of requests has to hold of the
  -- request with itself, and newID has to return a message id.
  pub handle_request-again :
      (now later : ℕ) (a b : Allocator) (sender cid cid_again : Bytes) (r : Envelope)
      → eq q q ≡ true
      → handle_request eq fresh saved now a sender cid q ≡ answer b (r ∷ [])
      → r.payload ≡ execution_offer (some offer)
      → later < as_time offer.expires_at
      → is_empty again.message_id ≡ false
      → handle_request eq again saved_again later b sender cid_again q
        ≡ answer (expire_offers later b) (
            envelope_of
              (expire_offers later b)
              again.message_id
              cid_again
              later
              (execution_offer (some offer))
            ∷ [])
  unfolding handle_request
  handle_request-again now later a b sender cid cid_again r self h payload soon id =
      let offered : Offered eq b (authority_key sender q.request_id) q offer =
        subst (Records eq (authority_key sender q.request_id) q offer) h
          (settle-Records eq (authority_key sender q.request_id) q offer (expire_offers now a) _ (
            request_checks-Records eq fresh saved q self offer (expire_offers now a) sender cid
              now))
          r refl payload in
      handle_request_recorded later b sender cid_again offered soon id
