-- ===== src/Allocator/Rollback.antt =====
-- A request whose Save fails leaves nothing behind (handleRequest of offers.go).
use r1s.Base.{
  ℕ, ◌≡◌, refl, Bool, true, false, none, List, [], ◌∷◌, Bytes, inl, inr, get, put, delete,
  delete-put, Checked, ok, err, bind_rule, Option-cases, arith, ◌<◌,
}
use r1s.Protocol.Messages.{ExecutionRequest, Envelope}
use r1s.Allocator.Errors.{Err}
use r1s.Allocator.Ledger
use r1s.Allocator.Ledger.{CapacityLedger, slots}
use r1s.Allocator.State.{OfferRecord, Allocator, persist_error, commit}
use r1s.Allocator.Views.{expire_offers, offer_envelope, authority_key}
use r1s.Allocator.Offers.{
  Fresh, repeat_request, publish_with, new_record, request_guards, existing_offer, minted,
  new_request, request_checks, handle_request, undo_insert, inserted,
}
use r1s.Allocator.Accounts.{release-reserve, release_due-limits}
use r1s.Allocator.Sound.{Leaves, settle_rule, request_guards-new}

-- Two states with the same offers, executions, slots and stored snapshot.
pub record Same (a b : Allocator) : Type 0 where
  pub offers : b.offers ≡ a.offers
  pub executions : b.executions ≡ a.executions
  pub slots_used : (c : Bytes) → slots c b.capacity.used ≡ slots c a.capacity.used
  pub disk : b.disk ≡ a.disk

itself : (a : Allocator) → Same a a
itself a = record { offers = refl; executions = refl; slots_used = λ c. refl; disk = refl }

unsaved :
    (a next undone : Allocator) (rs : List Envelope)
    → next.has_store ≡ true
    → (commit false next rs undone).state ≡ undone
unfolding commit persist_error
unsaved a next undone rs h = ground arith

module _ (eq : ExecutionRequest → ExecutionRequest → Bool) (fresh : Fresh) where
  repeat_request-Same :
      (a : Allocator) (o : OfferRecord) (cid : Bytes) (now : ℕ) (q : ExecutionRequest)
      → Leaves (Same a) (repeat_request eq fresh false a o cid now q)
  unfolding repeat_request offer_envelope
  repeat_request-Same a o cid now q = ground (arith, itself a)

  undo-Same :
      (a b : Allocator) (o : OfferRecord) (l : CapacityLedger)
      → get fresh.offer_id a.offers ≡ none
      → b.offers ≡ delete fresh.offer_id (put fresh.offer_id o a.offers)
      → b.executions ≡ a.executions
      → b.disk ≡ a.disk
      → ((c : Bytes) → slots c b.capacity.used ≡ slots c a.capacity.used)
      → Same a b
  undo-Same a b o l new offers executions disk used = record {
    offers = rw offers (delete-put fresh.offer_id o a.offers new);
    executions = executions;
    slots_used = used;
    disk = disk;
  }

  publish-Same :
      (a : Allocator) (sender key : Bytes) (q : ExecutionRequest) (now : ℕ) (r : Envelope)
      → a.has_store ≡ true
      → ((c : Bytes) → slots c a.capacity.limits < 4294967296)
      → get fresh.offer_id a.offers ≡ none
      → (m : Checked Err CapacityLedger) → Ledger.reserve a.capacity q.resource_class ≡ m
      → Same a (publish_with eq fresh false a sender key q now r m).state
  unfolding publish_with
  publish-Same a sender key q now r store small new (err e) h =
      undo-Same a _ (new_record eq fresh false a sender q now) a.capacity new refl refl refl
        (λ c. refl)
  publish-Same a sender key q now r store small new (ok l) h =
      let reserved : Allocator = record (inserted eq fresh false a sender key q now) {
        capacity = l;
      } in
      let undone =
        undo_insert eq fresh false key
          (record reserved { capacity = Ledger.release l q.resource_class }) in
      rw (unsaved a reserved undone (r ∷ []) store) (
        undo-Same a undone (new_record eq fresh false a sender q now) l new refl refl refl
          (λ c. (release-reserve a.capacity l q.resource_class c small h).0))

  new_request-Same :
      (a : Allocator) (sender cid key : Bytes) (now : ℕ) (q : ExecutionRequest)
      → a.has_store ≡ true
      → ((c : Bytes) → slots c a.capacity.limits < 4294967296)
      → Leaves (Same a) (new_request eq fresh false a sender cid now key q)
  unfolding new_request
  new_request-Same a sender cid key now q store small =
      bind_rule (λ o. Same a o.state) (request_guards eq fresh false a sender q) _
        λ _ g.
          bind_rule (λ o. Same a o.state)
            (offer_envelope fresh.message_id a (minted eq fresh false a q now) cid now) _
            λ r _.
              publish-Same a sender key q now r store small
                (request_guards-new eq fresh false a sender q g) _ refl

  request_checks-Same :
      (a : Allocator) (sender cid : Bytes) (now : ℕ) (q : ExecutionRequest)
      → a.has_store ≡ true
      → ((c : Bytes) → slots c a.capacity.limits < 4294967296)
      → Leaves (Same a) (request_checks eq fresh false a sender cid now q)
  unfolding request_checks
  request_checks-Same a sender cid now q store small =
      elim (Option-cases (existing_offer a (authority_key sender q.request_id))) [
        | inl e ↦ rw (e, request_checks) (new_request-Same a sender cid _ now q store small)
        | inr (o, e) ↦ rw (e, request_checks) (repeat_request-Same a o cid now q)
      ]

  -- With a store, and limits that fit uint32, a request whose Save fails leaves the offers, the
  -- executions, the slots in use and the stored snapshot as the expiry of due offers left them:
  -- the offer and its slot are taken back.
  pub handle_request-unsaved :
      (now : ℕ) (a : Allocator) (sender cid : Bytes) (q : ExecutionRequest)
      → a.has_store ≡ true
      → ((c : Bytes) → slots c a.capacity.limits < 4294967296)
      → Same (expire_offers now a) (handle_request eq fresh false now a sender cid q).state
  unfolding handle_request expire_offers
  handle_request-unsaved now a sender cid q store small =
      let b = expire_offers now a in
      settle_rule (Same b) b _ (itself b) (
        request_checks-Same b sender cid now q store
          (rw (release_due-limits now a.offers a.capacity) small))
