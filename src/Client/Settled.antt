-- ===== src/Client/Settled.antt =====
-- selection.go and release.go: the selected offer of a request has no release, every other one has.
use r1s.Base.{
  ◌≡◌, ◌≢◌, ◌⊎◌, inl, inr, refl, sym, subst, ap, ◌∙◌, not, Bool, true, Option, none, some, List, [],
  ◌∷◌, Bytes, Assoc, IsMap, All, Values, Values-get, Values-put, get, put, get-put, put-IsMap, beq,
  beq_iff, is_none, arith, Bool-cases,
}
use r1s.Client.State.{OfferRecord, RequestRecord, ExecutionRecord, Client, put_request}

-- The offer that an execution was assigned.
abbrev pub offer_of : Option ExecutionRecord → Option Bytes
offer_of none = none
offer_of (some e) = some e.offer_id

abbrev pub choice : Assoc ExecutionRecord → Bytes → Option Bytes
choice m id = offer_of (get id m)

-- An offer stands under its own ID; it has a release if and only if another one is selected.
abbrev pub Fits : Option Bytes → Bytes × OfferRecord → Type 0
Fits none (k, o) = (k ≡ o.offer.offer_id) × (o.release ≡ none)
Fits (some s) (k, o) = (k ≡ o.offer.offer_id) × (is_none o.release ≡ beq k s)

-- The selected offer is among the offers.
abbrev pub has_selected : Option Bytes → Assoc OfferRecord → Bool
has_selected none offers = true
has_selected (some s) offers = not (is_none (get s offers))

pub record IsSettled (m : Assoc ExecutionRecord) (r : RequestRecord) : Type 0 where
  pub backed : (r.execution_id ≡ []) ⊎ (choice m r.execution_id ≢ none)
  pub fits : All (Fits (choice m r.execution_id)) r.offers
  pub selected : has_selected (choice m r.execution_id) r.offers ≡ true
  pub unique : IsMap r.offers

pub record IsConsistent (c : Client) : Type 0 where
  pub unnamed : choice c.executions [] ≡ none
  pub settled : Values (IsSettled c.executions) c.requests

choice-put :
    (k : Bytes) (r r' : ExecutionRecord) (m : Assoc ExecutionRecord)
    → get k m ≡ some r
    → r'.offer_id ≡ r.offer_id
    → (id : Bytes) → choice (put k r' m) id ≡ choice m id
choice-put k r r' m h same id = ap offer_of (get-put k id r' m) ∙ elim (Bool-cases (beq k id)) [
  | inl here ↦ let at : k ≡ id = (beq_iff k id).0 here in rw (here, ← at, h, same) refl
  | inr there ↦ rw there refl
]

pub All-map :
    {A : Type 0} (P Q : A → Type 0) (xs : List A) → ((x : A) → P x → Q x) → All P xs → All Q xs
All-map P Q [] f all = tt
All-map P Q (x ∷ xs) f (p, all) = (f x p, All-map P Q xs f all)

pub IsSettled-choices :
    (m m' : Assoc ExecutionRecord) (r : RequestRecord)
    → choice m' r.execution_id ≡ choice m r.execution_id
    → IsSettled m r
    → IsSettled m' r
IsSettled-choices m m' r same k = record {
  backed = rw same k.backed;
  fits = rw same k.fits;
  selected = rw same k.selected;
  unique = k.unique;
}

pub IsConsistent-executions :
    (c : Client) (m' : Assoc ExecutionRecord)
    → ((id : Bytes) → choice m' id ≡ choice c.executions id)
    → IsConsistent c
    → IsConsistent (record c { executions = m' })
IsConsistent-executions c m' same k = record {
  unnamed = same [] ∙ k.unnamed;
  settled =
      All-map (λ e. IsSettled c.executions e.1) (λ e. IsSettled m' e.1) c.requests
        (λ e s. IsSettled-choices c.executions m' e.1 (same e.1.execution_id) s) k.settled;
}

-- One record is replaced by one with the same offer.
pub IsConsistent-put :
    (c : Client) (k : Bytes) (r r' : ExecutionRecord)
    → get k c.executions ≡ some r
    → r'.offer_id ≡ r.offer_id
    → IsConsistent c
    → IsConsistent (record c { executions = put k r' c.executions })
IsConsistent-put c k r r' h same =
    IsConsistent-executions c (put k r' c.executions) (choice-put k r r' c.executions h same)

pub All-put :
    (P : Bytes × OfferRecord → Type 0) (k : Bytes) (o : OfferRecord) (offers : Assoc OfferRecord)
    → P (k, o)
    → All P offers
    → All P (put k o offers)
unfolding put
All-put P k o [] p all = (p, tt)
All-put P k o ((j, q) ∷ offers) p (first, all) = elim (Bool-cases (beq j k)) [
  | inl e ↦ rw e (subst (λ (x : Bytes). P (x, o)) (sym ((beq_iff j k).0 e)) p, all)
  | inr n ↦ rw n (first, All-put P k o offers p all)
]

pub has_selected-put :
    (s : Option Bytes) (k : Bytes) (o : OfferRecord) (offers : Assoc OfferRecord)
    → has_selected s offers ≡ true
    → has_selected s (put k o offers) ≡ true
has_selected-put none k o offers h = refl
has_selected-put (some s) k o offers h = ground (arith, h, get-put k s o offers)

-- An offer is added to a request or replaced.
pub IsConsistent-offer :
    (c : Client) (request_id : Bytes) (r : RequestRecord) (k : Bytes) (o : OfferRecord)
    → IsConsistent c
    → get request_id c.requests ≡ some r
    → Fits (choice c.executions r.execution_id) (k, o)
    → IsConsistent (put_request c request_id (record r { offers = put k o r.offers }))
IsConsistent-offer c request_id r k o consistent found fit =
    let P : RequestRecord → Type 0 = IsSettled c.executions in
    let s : P r = Values-get P request_id c.requests consistent.settled found in
    record {
      unnamed = consistent.unnamed;
      settled = Values-put P request_id _ c.requests consistent.settled (record {
        backed = s.backed;
        fits = All-put (Fits (choice c.executions r.execution_id)) k o r.offers fit s.fits;
        selected = has_selected-put (choice c.executions r.execution_id) k o r.offers s.selected;
        unique = put-IsMap k o r.offers s.unique;
      });
    }

-- What holds of every offer holds of one that is looked up.
pub All-get :
    (P : Bytes × OfferRecord → Type 0) (k : Bytes) (o : OfferRecord) (offers : Assoc OfferRecord)
    → All P offers
    → get k offers ≡ some o
    → P (k, o)
unfolding get
All-get P k o [] all h = cc
All-get P k o ((j, p) ∷ offers) (first, all) h = elim (Bool-cases (beq j k)) [
  | inl e ↦
      let same : p ≡ o = ground arith in
      let at : j ≡ k = (beq_iff j k).0 e in (rw (same, at) at first)
  | inr n ↦ All-get P k o offers all (rw n at h)
]
