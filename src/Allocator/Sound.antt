-- ===== src/Allocator/Sound.antt =====
-- Every locked section keeps the ledger equal to the slots that the records hold.
use r1s.Base.{
  ℕ, ◌≡◌, refl, Bool, none, List, [], ◌∷◌, Bytes, inl, inr, get, put, delete, delete-put, arith,
  if_rule, Checked, ok, err, Ensures, bind_rule, Option-cases,
}
use r1s.Protocol.Messages.{ExecutionRequest, Envelope}
use r1s.Allocator.Errors.{Err}
use r1s.Allocator.Ledger
use r1s.Allocator.Ledger.{CapacityLedger}
use r1s.Allocator.State.{OfferRecord, Allocator, Outcome, persist, commit}
use r1s.Allocator.Views.{expire_offers, offer_envelope, authority_key}
use r1s.Allocator.Offers.{
  Fresh, settle, repeat_request, publish_with, new_record, request_guards, existing_offer, minted,
  new_request, request_checks, handle_request,
}
use r1s.Allocator.Accounts.{
  Accounts, IsSound, expire-IsSound, Accounts-publish, Accounts-same, release-reserve,
}

-- What holds of the state that a checked handler leaves.
abbrev pub Leaves : (Allocator → Type 0) → Checked Err Outcome → Type 0
Leaves P = Ensures (λ o. P o.state)

pub settle_rule :
    (P : Allocator → Type 0) (a : Allocator) (m : Checked Err Outcome)
    → P a
    → Leaves P m
    → P (settle a m).state
settle_rule P a (ok o) p h = h
settle_rule P a (err e) p h = p

pub persist-IsSound : (saved : Bool) (a : Allocator) → IsSound a → IsSound (persist saved a)
unfolding persist
persist-IsSound saved a s =
    if_rule IsSound a.has_store (λ _. if_rule IsSound saved (λ _. s) (λ _. s)) (λ _. s)

pub commit-IsSound :
    (saved : Bool) (next : Allocator) (responses : List Envelope) (undone : Allocator)
    → IsSound next
    → IsSound undone
    → IsSound (commit saved next responses undone).state
unfolding commit
commit-IsSound saved next responses undone s u = ground (arith, persist-IsSound saved next s)

module _ (eq : ExecutionRequest → ExecutionRequest → Bool) (fresh : Fresh) (saved : Bool) where
  repeat_request-IsSound :
      (a : Allocator) (o : OfferRecord) (cid : Bytes) (now : ℕ) (q : ExecutionRequest)
      → IsSound a
      → Leaves IsSound (repeat_request eq fresh saved a o cid now q)
  unfolding repeat_request offer_envelope
  repeat_request-IsSound a o cid now q s = ground arith

  undo-IsSound :
      (a : Allocator) (o : OfferRecord) (l : CapacityLedger)
      → get fresh.offer_id a.offers ≡ none
      → Accounts l a.offers a.executions
      → Accounts l (delete fresh.offer_id (put fresh.offer_id o a.offers)) a.executions
  undo-IsSound a o l new s = rw (delete-put fresh.offer_id o a.offers new) s

  publish-IsSound :
      (a : Allocator) (sender key : Bytes) (q : ExecutionRequest) (now : ℕ) (r : Envelope)
      → IsSound a
      → get fresh.offer_id a.offers ≡ none
      → (m : Checked Err CapacityLedger) → Ledger.reserve a.capacity q.resource_class ≡ m
      → IsSound (publish_with eq fresh saved a sender key q now r m).state
  unfolding publish_with
  publish-IsSound a sender key q now r s new (err e) h =
      undo-IsSound a (new_record eq fresh saved a sender q now) a.capacity new s
  publish-IsSound a sender key q now r s new (ok l) h =
      commit-IsSound saved _ (r ∷ []) _
        (Accounts-publish s fresh.offer_id (new_record eq fresh saved a sender q now) l new refl h)
        (undo-IsSound a (new_record eq fresh saved a sender q now)
          (Ledger.release l q.resource_class) new
          (Accounts-same _ (λ c. (release-reserve a.capacity l q.resource_class c s.bounded h).0)
            (release-reserve a.capacity l q.resource_class q.resource_class s.bounded h).1 s))

  pub request_guards-new :
      (a : Allocator) (sender : Bytes) (q : ExecutionRequest)
      → request_guards eq fresh saved a sender q ≡ ok tt
      → get fresh.offer_id a.offers ≡ none
  unfolding request_guards
  request_guards-new a sender q h = ground arith

  new_request-IsSound :
      (a : Allocator) (sender cid key : Bytes) (now : ℕ) (q : ExecutionRequest)
      → IsSound a
      → Leaves IsSound (new_request eq fresh saved a sender cid now key q)
  unfolding new_request
  new_request-IsSound a sender cid key now q s =
      bind_rule (λ o. IsSound o.state) (request_guards eq fresh saved a sender q) _
        λ _ g.
          bind_rule (λ o. IsSound o.state)
            (offer_envelope fresh.message_id a (minted eq fresh saved a q now) cid now) _
            λ r _. publish-IsSound a sender key q now r s (request_guards-new a sender q g) _ refl

  request_checks-IsSound :
      (a : Allocator) (sender cid : Bytes) (now : ℕ) (q : ExecutionRequest)
      → IsSound a
      → Leaves IsSound (request_checks eq fresh saved a sender cid now q)
  unfolding request_checks
  request_checks-IsSound a sender cid now q s =
      elim (Option-cases (existing_offer a (authority_key sender q.request_id))) [
        | inl e ↦ rw (e, request_checks) (new_request-IsSound a sender cid _ now q s)
        | inr (o, e) ↦ rw (e, request_checks) (repeat_request-IsSound a o cid now q s)
      ]

  -- A request leaves the ledger in balance, whether it is answered, refused or fails to be saved.
  pub handle_request-IsSound :
      (now : ℕ) (a : Allocator) (sender cid : Bytes) (q : ExecutionRequest)
      → IsSound a
      → IsSound (handle_request eq fresh saved now a sender cid q).state
  unfolding handle_request
  handle_request-IsSound now a sender cid q s =
      settle_rule IsSound (expire_offers now a) _ (expire-IsSound now a s)
        (request_checks-IsSound _ sender cid now q (expire-IsSound now a s))
