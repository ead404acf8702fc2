-- ===== src/Client/CatalogLaws.antt =====
-- allocators.go: the choice among offers is the least of the ranking.
use r1s.Base.{
  ℕ, ◌≡◌, inl, inr, refl, subst, true, false, Option, none, some, List, [], ◌∷◌, Bytes, Assoc,
  IsMap, All, get, beq, beq_refl, beq_iff, arith, Bool-cases, option_rule, if_rule,
}
use r1s.Protocol.Messages.{PlacementConstraints}
use r1s.Client.State.{Allocator, OfferRecord}
use r1s.Client.Catalog.{
  lookup, Candidate, usable, candidates, ranks_before, less_bytes, first_ranked, head_ranked,
  choose,
}

some_inj : {x y : Candidate} → some x ≡ some y → x ≡ y
some_inj h = ground arith

less_bytes_irrefl : (a : Bytes) → less_bytes a a ≡ false
unfolding less_bytes
less_bytes_irrefl [] = refl
less_bytes_irrefl (x ∷ xs) = ground (arith, less_bytes_irrefl xs)

less_bytes_trans :
    (a b c : Bytes) → less_bytes a b ≡ true → less_bytes b c ≡ true → less_bytes a c ≡ true
unfolding less_bytes
less_bytes_trans [] [] c p q = cc
less_bytes_trans [] (y ∷ b) [] p q = cc
less_bytes_trans [] (y ∷ b) (z ∷ c) p q = refl
less_bytes_trans (x ∷ a) [] c p q = cc
less_bytes_trans (x ∷ a) (y ∷ b) [] p q = cc
less_bytes_trans (x ∷ a) (y ∷ b) (z ∷ c) p q = ground (arith, less_bytes_trans a b c)

ranks_before_irrefl : (image : Bytes) (x : Candidate) → ranks_before image x x ≡ false
unfolding ranks_before
ranks_before_irrefl image x =
    ground (arith, beq_refl x.held.allocator_id, less_bytes_irrefl x.held.offer.offer_id)

ranks_before_trans :
    (image : Bytes) (x y z : Candidate)
    → ranks_before image x y ≡ true
    → ranks_before image y z ≡ true
    → ranks_before image x z ≡ true
unfolding ranks_before
ranks_before_trans image x y z p q = ground (
  arith,
  beq_iff x.held.allocator_id y.held.allocator_id,
  beq_iff y.held.allocator_id z.held.allocator_id,
  beq_iff x.held.allocator_id z.held.allocator_id,
  less_bytes_trans x.held.allocator_id y.held.allocator_id z.held.allocator_id,
  less_bytes_trans x.held.offer.offer_id y.held.offer.offer_id z.held.offer.offer_id,
  less_bytes_irrefl x.held.allocator_id,
)

-- What is not ranked before the best so far is not ranked before the end result.
first_ranked-after :
    (image : Bytes) (y best : Candidate) (xs : List Candidate)
    → ranks_before image y best ≡ false
    → ranks_before image y (first_ranked image best xs) ≡ false
unfolding first_ranked
first_ranked-after image y best [] h = h
first_ranked-after image y best (x ∷ xs) h =
    if_rule (λ (c : Candidate). ranks_before image y (first_ranked image c xs) ≡ false)
      (ranks_before image x best)
      (λ less.
        first_ranked-after image y x xs
          (ground (arith, less, h, ranks_before_trans image y x best)))
      (λ _. first_ranked-after image y best xs h)

first_ranked-least :
    (image : Bytes) (best : Candidate) (xs : List Candidate)
    → All (λ y. ranks_before image y (first_ranked image best xs) ≡ false) (best ∷ xs)
unfolding first_ranked
first_ranked-least image best [] = (ranks_before_irrefl image best, tt)
first_ranked-least image best (x ∷ xs) =
    if_rule
      (λ (c : Candidate).
        All (λ y. ranks_before image y (first_ranked image c xs) ≡ false) (best ∷ x ∷ xs))
      (ranks_before image x best)
      (λ less. (
        first_ranked-after image best x xs (
            ground
              (arith, less, ranks_before_trans image best x best, ranks_before_irrefl image best)),
        first_ranked-least image x xs,
      ))
      (λ more.
        let rest = first_ranked-least image best xs in
        (rest.0, (first_ranked-after image x best xs more, rest.1)))

first_ranked-All :
    (P : Candidate → Type 0) (image : Bytes) (best : Candidate) (xs : List Candidate)
    → All P (best ∷ xs)
    → P (first_ranked image best xs)
unfolding first_ranked
first_ranked-All P image best [] all = all.0
first_ranked-All P image best (x ∷ xs) all =
    if_rule (λ (c : Candidate). P (first_ranked image c xs)) (ranks_before image x best)
      (λ _. first_ranked-All P image x xs all.1)
      (λ _. first_ranked-All P image best xs (all.0, all.1.1))

-- A candidate is a live offer of the request from a known allocator that fits.
pub record IsCandidate (catalog : Assoc Allocator) (now : ℕ)
    (constraints : Option PlacementConstraints) (offers : Assoc OfferRecord) (x : Candidate)
    : Type 0 where
  pub stored : get x.key offers ≡ some x.held
  pub known : lookup catalog x.held.allocator_id ≡ some x.allocator
  pub fits : usable now constraints x.held x.allocator ≡ true

module _ (catalog : Assoc Allocator) (now : ℕ) (constraints : Option PlacementConstraints) where
  IsCandidate-cons :
      (key : Bytes) (o : OfferRecord) (offers : Assoc OfferRecord)
      → get key offers ≡ none
      → (xs : List Candidate) → All (IsCandidate catalog now constraints offers) xs
      → All (IsCandidate catalog now constraints ((key, o) ∷ offers)) xs
  unfolding get
  IsCandidate-cons key o offers fresh [] all = tt
  IsCandidate-cons key o offers fresh (x ∷ xs) (p, all) = (
    record {
      stored = ground (arith, p.stored, fresh, beq_iff key x.key);
      known = p.known;
      fits = p.fits;
    },
    IsCandidate-cons key o offers fresh xs all,
  )

  candidates-IsCandidate :
      (offers : Assoc OfferRecord)
      → IsMap offers
      → All (IsCandidate catalog now constraints offers) (candidates catalog now constraints offers)
  unfolding candidates get
  candidates-IsCandidate [] m = tt
  candidates-IsCandidate ((key, o) ∷ offers) m =
      let P : List Candidate → Type 0 =
        All (IsCandidate catalog now constraints ((key, o) ∷ offers)) in
      let rest : P (candidates catalog now constraints offers) =
        IsCandidate-cons key o offers m.0 (candidates catalog now constraints offers)
          (candidates-IsCandidate offers m.1) in
      option_rule P (lookup catalog o.allocator_id) (λ _. rest)
        (λ a known.
          if_rule P (usable now constraints o a)
            (λ fits. (record { stored = rw (beq_refl key) refl; known = known; fits = fits }, rest))
            (λ _. rest))

  candidates-head :
      (key : Bytes) (o : OfferRecord) (a : Allocator) (offers : Assoc OfferRecord)
      → lookup catalog o.allocator_id ≡ some a
      → usable now constraints o a ≡ true
      → candidates catalog now constraints ((key, o) ∷ offers)
        ≡ record { key = key; held = o; allocator = a } ∷ candidates catalog now constraints offers
  unfolding candidates
  candidates-head key o a offers known fits = ground (arith, known, fits)

  candidates-tail :
      (P : Candidate → Type 0) (key : Bytes) (o : OfferRecord) (offers : Assoc OfferRecord)
      → All P (candidates catalog now constraints ((key, o) ∷ offers))
      → All P (candidates catalog now constraints offers)
  unfolding candidates
  candidates-tail P key o offers =
      let rest : List Candidate = candidates catalog now constraints offers in
      let Q : List Candidate → Type 0 = λ (xs : List Candidate). All P xs → All P rest in
      option_rule Q (lookup catalog o.allocator_id) (λ _ all. all)
        (λ a _. if_rule Q (usable now constraints o a) (λ _ all. all.1) (λ _ all. all))

  -- And every such offer is one.
  candidates-complete :
      (P : Candidate → Type 0) (offers : Assoc OfferRecord) (k : Bytes) (o : OfferRecord)
      (a : Allocator)
      → get k offers ≡ some o
      → lookup catalog o.allocator_id ≡ some a
      → usable now constraints o a ≡ true
      → All P (candidates catalog now constraints offers)
      → P (record { key = k; held = o; allocator = a })
  unfolding get
  candidates-complete P [] k o a h known fits all = cc
  candidates-complete P ((key, p) ∷ offers) k o a h known fits all = elim (Bool-cases (beq key k)) [
    | inl here ↦
        let same : p ≡ o = ground arith in
        let at : key ≡ k = (beq_iff key k).0 here in
        (rw (candidates-head k o a offers known fits) at (rw (same, at) at all)).0
    | inr there ↦
        candidates-complete P offers k o a (rw there at h) known fits
          (candidates-tail P key p offers all)
  ]

  -- The chosen offer of a request is a live one of a known allocator that satisfies the constraints, and
  -- no other such offer is ranked before it. There is no choice only if there is no such offer.
  pub choose_lem :
      (image : Bytes) (offers : Assoc OfferRecord) (k : Bytes) (o : OfferRecord) (a : Allocator)
      → IsMap offers
      → get k offers ≡ some o
      → lookup catalog o.allocator_id ≡ some a
      → usable now constraints o a ≡ true
      → (x : Candidate) × ((choose catalog offers now constraints image ≡ some x)
          × IsCandidate catalog now constraints offers x
          × (ranks_before image (record { key = k; held = o; allocator = a }) x ≡ false))
  unfolding choose
  choose_lem image offers k o a m h known fits =
      let chosen : List Candidate → Type 0 = λ (xs : List Candidate).
        (x : Candidate) × ((head_ranked image xs ≡ some x)
          × IsCandidate catalog now constraints offers x
          × (ranks_before image (record { key = k; held = o; allocator = a }) x ≡ false)) in
      elim (candidates catalog now constraints offers)
          as (λ xs.
            candidates catalog now constraints offers ≡ xs
            → All (IsCandidate catalog now constraints offers) xs
            → chosen xs) [
              | [] ↦ λ e _. candidates-complete (λ _. chosen []) offers k o a h known fits (rw e tt)
              | x ∷ xs ↦ λ e all. (
                first_ranked image x xs,
                (
                  refl,
                  first_ranked-All (IsCandidate catalog now constraints offers) image x xs all,
                  candidates-complete (λ y. ranks_before image y (first_ranked image x xs) ≡ false)
                      offers k o a h known fits (rw e (first_ranked-least image x xs)),
                ),
              )
            ]
        refl (candidates-IsCandidate offers m)

  pub choose-IsCandidate :
      (image : Bytes) (offers : Assoc OfferRecord) (x : Candidate)
      → IsMap offers
      → choose catalog offers now constraints image ≡ some x
      → IsCandidate catalog now constraints offers x
  unfolding choose
  choose-IsCandidate image offers x m =
      let P : Candidate → Type 0 = IsCandidate catalog now constraints offers in
      elim (candidates catalog now constraints offers)
          as (λ xs. All P xs → head_ranked image xs ≡ some x → P x) [
            | [] ↦ λ _ h. cc
            | y ∷ ys ↦ λ all h. subst P (some_inj h) (first_ranked-All P image y ys all)
          ]
        (candidates-IsCandidate offers m)
