-- ===== src/Allocator/Recorded.antt =====
-- What a request that was answered with an offer leaves on record (handleRequest of offers.go).
use r1s.Base.{
  get-put_same, stop_if_rule, not, ◌∙◌, ℕ, ◌≡◌, refl, Bool, true, false, some, List, [], ◌∷◌, Bytes,
  Assoc, inl, inr, get, Checked, ok, err, Ensures, bind_rule, Option-cases, Bool-cases, arith,
}
use r1s.Protocol.Messages.{ExecutionRequest, ExecutionOffer, Envelope, execution_offer}
use r1s.Allocator.Errors.{Err}
use r1s.Allocator.Ledger
use r1s.Allocator.Ledger.{CapacityLedger}
use r1s.Allocator.State.{
  is_nil, OfferStatus, OfferRecord, Allocator, Outcome, commit, persist, persist_error,
}
use r1s.Allocator.Views.{expire_offers, expire_records, due, offer_envelope, authority_key}
use r1s.Allocator.Offers.{
  Fresh, repeat_request, publish_with, publish, new_record, request_guards, existing_offer, minted,
  new_request, request_checks, has_status, inserted, undo_insert,
}

get-expire_records :
    (now : ℕ) (m : Assoc OfferRecord) (id : Bytes) (o : OfferRecord)
    → get id m ≡ some o
    → due now o ≡ false
    → get id (expire_records now m) ≡ some o
unfolding get expire_records
get-expire_records now [] id o h alive = cc
get-expire_records now ((k, p) ∷ m) id o h alive = ground (arith, get-expire_records now m id o)

-- An offer that a request of this key and content can still get.
pub record Offered (eq : ExecutionRequest → ExecutionRequest → Bool) (b : Allocator) (key : Bytes)
    (q : ExecutionRequest) (offer : ExecutionOffer) : Type 0 where
  pub stored : OfferRecord
  pub found : existing_offer b key ≡ some stored
  pub same_offer : stored.offer ≡ offer
  pub same_request : eq stored.request q ≡ true
  pub not_expired : has_status stored.status OfferStatus.expired ≡ false
  pub not_released : has_status stored.status OfferStatus.released ≡ false

-- If the outcome is an answer with an offer, the state has it on record.
abbrev pub Records :
    (ExecutionRequest → ExecutionRequest → Bool)
    → Bytes
    → ExecutionRequest
    → ExecutionOffer
    → Outcome
    → Type 0
Records eq key q offer o =
    (r : Envelope)
    → o.responses ≡ r ∷ []
    → r.payload ≡ execution_offer (some offer)
    → Offered eq o.state key q offer

pub existing-expire :
    (now : ℕ) (b : Allocator) (key : Bytes) (o : OfferRecord)
    → existing_offer b key ≡ some o
    → due now o ≡ false
    → existing_offer (expire_offers now b) key ≡ some o
unfolding existing_offer expire_offers
existing-expire now b key o h alive = elim (Option-cases (get key b.requests)) [
  | inl e ↦ ground arith
  | inr (id, e) ↦ ground (arith, get-expire_records now b.offers id o)
]

existing-at :
    (b : Allocator) (key id : Bytes) (o : OfferRecord)
    → get key b.requests ≡ some id
    → get id b.offers ≡ some o
    → existing_offer b key ≡ some o
unfolding existing_offer
existing-at b key id o h k = ground arith

existing-persist :
    (saved : Bool) (b : Allocator) (key : Bytes)
    → existing_offer (persist saved b) key ≡ existing_offer b key
unfolding existing_offer persist
existing-persist saved b key = ground arith

envelope-payload :
    (message_id : Bytes) (a : Allocator) (o : ExecutionOffer) (cid : Bytes) (now : ℕ) (r : Envelope)
    → offer_envelope message_id a o cid now ≡ ok r
    → r.payload ≡ execution_offer (some o)
unfolding offer_envelope
envelope-payload message_id a o cid now r h = ground arith

offer_of_payload :
    (x y : ExecutionOffer) (r t : Envelope)
    → r ∷ [] ≡ t ∷ []
    → r.payload ≡ execution_offer (some x)
    → t.payload ≡ execution_offer (some y)
    → x ≡ y
offer_of_payload x y r t same h k = cc

commit_answered :
    (saved : Bool) (next undone : Allocator) (rs : List Envelope) (t : Envelope)
    → (commit saved next rs undone).responses ≡ t ∷ []
    → ((commit saved next rs undone).state ≡ persist saved next) × (rs ≡ t ∷ [])
unfolding commit
commit_answered saved next undone rs t h = elim (Bool-cases (is_nil (persist_error saved next))) [
  | inl e ↦ ground arith
  | inr e ↦ ground arith
]

module _ (eq : ExecutionRequest → ExecutionRequest → Bool) (fresh : Fresh) (saved : Bool)
    (q : ExecutionRequest) (self : eq q q ≡ true) (offer : ExecutionOffer) where
  repeat_request-Records :
      (a : Allocator) (o : OfferRecord) (cid key : Bytes) (now : ℕ)
      → existing_offer a key ≡ some o
      → Ensures (Records eq key q offer) (repeat_request eq fresh saved a o cid now q)
  unfolding repeat_request
  repeat_request-Records a o cid key now h =
      let P = Records eq key q offer in
      stop_if_rule P (has_status o.status OfferStatus.expired) _ _ λ usable.
        stop_if_rule P (not (eq o.request q)) _ _ λ alike.
          stop_if_rule P (has_status o.status OfferStatus.released) _ _ λ kept.
            bind_rule P (offer_envelope fresh.message_id a o.offer cid now) _ λ r e. λ t same p.
              record {
                stored = o;
                found = h;
                same_offer =
                    offer_of_payload o.offer offer r t same
                      (envelope-payload fresh.message_id a o.offer cid now r e) p;
                same_request = ground (arith, alike);
                not_expired = usable;
                not_released = kept;
              }

  existing-inserted :
      (a : Allocator) (sender key : Bytes) (now : ℕ) (l : CapacityLedger)
      → existing_offer (record (inserted eq fresh saved a sender key q now) { capacity = l }) key
        ≡ some (new_record eq fresh saved a sender q now)
  existing-inserted a sender key now l =
      let o = new_record eq fresh saved a sender q now in
      existing-at (record (inserted eq fresh saved a sender key q now) { capacity = l }) key
        fresh.offer_id o (get-put_same key fresh.offer_id a.requests)
        (get-put_same fresh.offer_id o a.offers)

  publish-Records :
      (a : Allocator) (sender key : Bytes) (now : ℕ) (r : Envelope)
      → r.payload ≡ execution_offer (some (minted eq fresh saved a q now))
      → (m : Checked Err CapacityLedger)
      → Records eq key q offer (publish_with eq fresh saved a sender key q now r m)
  unfolding publish_with
  publish-Records a sender key now r payload (err e) t h p = cc
  publish-Records a sender key now r payload (ok l) t h p =
      let b : Allocator = record (inserted eq fresh saved a sender key q now) { capacity = l } in
      let undone =
        undo_insert eq fresh saved key
          (record b { capacity = Ledger.release l q.resource_class }) in
      let (state, same) = commit_answered saved b undone (r ∷ []) t h in
      rw state record {
        stored = new_record eq fresh saved a sender q now;
        found = existing-persist saved b key ∙ existing-inserted a sender key now l;
        same_offer = offer_of_payload (minted eq fresh saved a q now) offer r t same payload p;
        same_request = self;
        not_expired = refl;
        not_released = refl;
      }

  pub request_checks-Records :
      (a : Allocator) (sender cid : Bytes) (now : ℕ)
      → Ensures
          (Records eq (authority_key sender q.request_id) q offer)
          (request_checks eq fresh saved a sender cid now q)
  unfolding request_checks new_request publish
  request_checks-Records a sender cid now =
      let key = authority_key sender q.request_id in
      elim (Option-cases (existing_offer a key)) [
        | inr (o, e) ↦ rw (e, request_checks) (repeat_request-Records a o cid key now e)
        | inl e ↦
            rw (e, request_checks)
              (bind_rule (Records eq key q offer) (request_guards eq fresh saved a sender q) _
                λ _ g.
                  bind_rule (Records eq key q offer)
                    (offer_envelope fresh.message_id a (minted eq fresh saved a q now) cid now) _
                    λ r made.
                      publish-Records a sender key now r
                        (envelope-payload fresh.message_id a (minted eq fresh saved a q now) cid now
                          r made)
                        _)
      ]
