-- ===== src/Allocator/SoundCollect.antt =====
-- The collection pass of Sweep (retention.go) against the ledger.
use r1s.Base.{
  ℕ, ◌≡◌, ◌⊎◌, refl, ap, ◌∙◌, Bool, true, false, none, some, List, [], ◌∷◌, Bytes, Assoc, inl, inr,
  get, delete, get-delete, keys, Values, Values-get, Values-delete, IsMap, if_rule, arith, ltb,
}
use r1s.Protocol.Placement.{contains}
use r1s.Allocator.Ledger.{CapacityLedger}
use r1s.Allocator.Errors.{Err}
use r1s.Allocator.State.{
  OfferStatus, OfferRecord, ExecutionRecord, Allocator, persist, persist_error, is_nil,
  is_outstanding,
}
use r1s.Allocator.Views.{expire_offers, expire_records}
use r1s.Allocator.Offers.{has_status}
use r1s.Allocator.Eviction.{effective_now}
use r1s.Allocator.Retention.{
  busy_keys, eligible, collect_offer, collect_offers, expired_state, collected, collect, offer_key,
}
use r1s.Allocator.Accounts.{
  Accounts, Settled, IsSound, expire-IsSound, Accounts-delete, Accounts-same, release_due-limits,
}

-- An offer that is not assigned names no execution on record.
abbrev pub Unlinked : Assoc ExecutionRecord → OfferRecord → Type 0
Unlinked executions o =
    (has_status o.status OfferStatus.assigned ≡ true) ⊎ (get o.execution executions ≡ none)

-- The ledger is in balance, and only assigned offers name executions.
pub record TidyParts (l : CapacityLedger) (offers : Assoc OfferRecord)
    (executions : Assoc ExecutionRecord) : Type 0 where
  pub sound : Accounts l offers executions
  pub unlinked : Values (Unlinked executions) offers

abbrev pub Tidy : Allocator → Type 0
Tidy a = TidyParts a.capacity a.offers a.executions

Values-map {ℓ κ μ} :
    {V : Type ℓ} (P : V → Type κ) (Q : V → Type μ) (m : Assoc V)
    → ((v : V) → P v → Q v)
    → Values P m
    → Values Q m
Values-map P Q [] f h = tt
Values-map P Q ((k, v) ∷ m) f h = (f v h.0, Values-map P Q m f h.1)

expire-Unlinked :
    (now : ℕ) (executions : Assoc ExecutionRecord) (m : Assoc OfferRecord)
    → Values (Unlinked executions) m
    → Values (Unlinked executions) (expire_records now m)
unfolding expire_records
expire-Unlinked now executions [] h = tt
expire-Unlinked now executions ((id, o) ∷ m) h =
    (ground (arith, h.0), expire-Unlinked now executions m h.1)

delete-Unlinked :
    (id : Bytes) (executions : Assoc ExecutionRecord) (o : OfferRecord)
    → IsMap executions
    → Unlinked executions o
    → Unlinked (delete id executions) o
delete-Unlinked id executions o u (inl h) = inl h
delete-Unlinked id executions o u (inr h) =
    inr (rw (get-delete id o.execution executions u, h) (ground arith))

-- What may be collected holds no slot.
eligible-released :
    (now : ℕ) (a : Allocator) (o : OfferRecord) (e : ExecutionRecord)
    → IsSound a
    → Unlinked a.executions o
    → eligible now a.executions o ≡ true
    → get o.execution a.executions ≡ some e
    → e.released ≡ true
unfolding eligible
eligible-released now a o e s linked h found =
    ground (arith, linked, Values-get Settled o.execution a.executions s.settled found)

eligible-free :
    (now : ℕ) (executions : Assoc ExecutionRecord) (o : OfferRecord)
    → eligible now executions o ≡ true
    → is_outstanding o.status ≡ false
unfolding eligible
eligible-free now executions o h = ground arith

collect_offer-Tidy :
    (now : ℕ) (busy : List Bytes) (id : Bytes) (o : OfferRecord) (a : Allocator)
    → get id a.offers ≡ some o
    → Tidy a
    → Tidy (collect_offer now busy id o a)
unfolding collect_offer
collect_offer-Tidy now busy id o a h t =
    if_rule Tidy (contains busy (offer_key o)) (λ _. t)
      λ _. if_rule Tidy (eligible now a.executions o) (λ chosen. taken chosen) (λ _. t)
  where
    taken :
        eligible now a.executions o ≡ true
        → TidyParts a.capacity (delete id a.offers) (delete o.execution a.executions)
    taken chosen = record {
      sound =
          Accounts-delete t.sound id o.execution o h (eligible-free now a.executions o chosen) (λ e.
            eligible-released now a o e t.sound
              (Values-get (Unlinked a.executions) id a.offers t.unlinked h) chosen);
      unlinked = Values-delete (Unlinked (delete o.execution a.executions)) id a.offers (
          Values-map (Unlinked a.executions) (Unlinked (delete o.execution a.executions)) a.offers
            (λ p. delete-Unlinked o.execution a.executions p t.sound.unique) t.unlinked);
    }

collect_offers-Tidy :
    (now : ℕ) (busy : List Bytes) (ids : List Bytes) (a : Allocator)
    → Tidy a
    → Tidy (collect_offers now busy ids a)
unfolding collect_offers
collect_offers-Tidy now busy [] a t = t
collect_offers-Tidy now busy (id ∷ ids) a t =
    collect_offers-Tidy now busy ids
      (elim (get id a.offers) [ none ↦ a | some o ↦ collect_offer now busy id o a ])
      (elim (get id a.offers)
          as (λ x.
            get id a.offers ≡ x
            → Tidy (elim x [ none ↦ a | some o ↦ collect_offer now busy id o a ])) [
              | none ↦ λ e. t
              | some o ↦ λ e. collect_offer-Tidy now busy id o a e t
            ]
        refl)

collect_offers-capacity :
    (now : ℕ) (busy : List Bytes) (ids : List Bytes) (a : Allocator)
    → (collect_offers now busy ids a).capacity ≡ a.capacity
unfolding collect_offers collect_offer
collect_offers-capacity now busy [] a = refl
collect_offers-capacity now busy (id ∷ ids) a =
    collect_offers-capacity now busy ids
      (elim (get id a.offers) [ none ↦ a | some o ↦ collect_offer now busy id o a ])
    ∙ ground arith

expired_state-Tidy : (now : ℕ) (a : Allocator) → Tidy a → Tidy (expired_state now a)
unfolding effective_now expire_offers
expired_state-Tidy now a t =
    if_rule (λ (b : Allocator). Tidy (expire_offers b.high_water b)) (ltb a.high_water now)
      (λ _. ready now) (λ _. ready a.high_water)
  where
    ready : (clock : ℕ) → Tidy (expire_offers clock a)
    ready clock = record {
      sound = expire-IsSound clock a t.sound;
      unlinked = expire-Unlinked clock a.executions a.offers t.unlinked;
    }

collected-Tidy : (now : ℕ) (a : Allocator) → Tidy a → Tidy (collected now a)
unfolding collected
collected-Tidy now a t =
    let ready = expired_state now a in
    collect_offers-Tidy ready.high_water (busy_keys ready.executions ready.replay.entries)
      (keys ready.offers) ready (expired_state-Tidy now a t)

expired_state-limits :
    (now : ℕ) (a : Allocator) → (expired_state now a).capacity.limits ≡ a.capacity.limits
unfolding effective_now expire_offers
expired_state-limits now a = ground (
  arith,
  release_due-limits now a.offers a.capacity,
  release_due-limits a.high_water a.offers a.capacity,
)

collected-limits : (now : ℕ) (a : Allocator) → (collected now a).capacity.limits ≡ a.capacity.limits
unfolding collected
collected-limits now a =
    let ready = expired_state now a in
    ap (λ l. l.limits)
      (collect_offers-capacity ready.high_water (busy_keys ready.executions ready.replay.entries)
        (keys ready.offers) ready)
    ∙ expired_state-limits now a

persist-Tidy : (saved : Bool) (a : Allocator) → Tidy a → Tidy (persist saved a)
unfolding persist
persist-Tidy saved a t =
    if_rule Tidy a.has_store (λ _. if_rule Tidy saved (λ _. t) (λ _. t)) (λ _. t)

-- The collection pass, whether its Save succeeds or fails, keeps the slots in use equal to the
-- outstanding offers and unreleased executions and within the limits, provided that no offer but an
-- assigned one names an execution on record, which it keeps too.
pub collect-Tidy : (saved : Bool) (now : ℕ) (a : Allocator) → Tidy a → Tidy (collect saved now a).0
unfolding collect
collect-Tidy saved now a t =
    let done = collected now a in
    if_rule (λ (r : Allocator × Err). Tidy r.0) (is_nil (persist_error saved done))
      (λ _. persist-Tidy saved done (collected-Tidy now a t))
      (λ _. record {
        sound =
            Accounts-same (record done.capacity { used = a.capacity.used }) (λ c. refl)
              (collected-limits now a) t.sound;
        unlinked = t.unlinked;
      })
