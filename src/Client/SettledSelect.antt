-- ===== src/Client/SettledSelect.antt =====
-- selection.go: a selection settles its request.
use r1s.Base.{
  ℕ, suc, ◌≡◌, ◌≢◌, ◌⊎◌, inl, inr, refl, sym, subst, ap, ◌∙◌, ◌||◌, not, true, false, Option, none,
  some, [], ◌∷◌, Bytes, Assoc, IsMap, All, Values-get, Values-put, get, put, get-put, get-put_same,
  beq, beq_iff, is_empty, is_none, arith, Bool-cases, Option-cases, option_rule, if_rule, Checked,
  ok, Ensures, present_rule, stop_if_rule, bind_rule,
}
use r1s.Client.State.{
  ClientError, OfferRecord, RequestRecord, ExecutionRecord, Client, Allocator, put_execution,
  put_request,
}
use r1s.Client.Selection.{
  Command, new_release, release_losers, select_new, select, unique_execution_id,
}
use r1s.Client.Catalog.{choose}
use r1s.Client.CatalogLaws.{choose-IsCandidate}
use r1s.Client.Settled.{
  offer_of, choice, Fits, has_selected, All-get, IsSettled, IsConsistent, All-map,
  IsSettled-choices,
}

-- The offers after the releases: the same keys, and all settled.
record Released (selected : Bytes) (offers out : Assoc OfferRecord) : Type 0 where
  fits : All (Fits (some selected)) out
  unique : IsMap offers → IsMap out
  same_keys : (j : Bytes) → is_none (get j out) ≡ is_none (get j offers)

Released-cons :
    (selected key : Bytes) (o o' : OfferRecord) (offers out : Assoc OfferRecord)
    → Fits (some selected) (key, o')
    → Released selected offers out
    → Released selected ((key, o) ∷ offers) ((key, o') ∷ out)
unfolding get
Released-cons selected key o o' offers out fit k = record {
  fits = (fit, k.fits);
  unique = λ m. (ground (arith, m.0, k.same_keys key), k.unique m.1);
  same_keys = λ j. ground (arith, k.same_keys j);
}

of_ok :
    {A : Type 0} (P : A → Type 0) {m : Checked ClientError A} {a : A} → Ensures P m → m ≡ ok a → P a
of_ok P k e = subst (Ensures P) e k

release_losers-Released :
    (catalog : Assoc Allocator) (new_id : ℕ → Bytes) (n now : ℕ) (selected : Bytes)
    (offers : Assoc OfferRecord)
    → All (Fits none) offers
    → Ensures (Released selected offers) (release_losers catalog new_id n now selected offers)
unfolding release_losers
release_losers-Released catalog new_id n now selected [] all = record {
  fits = tt;
  unique = λ m. tt;
  same_keys = λ j. refl;
}
release_losers-Released catalog new_id n now selected ((key, o) ∷ offers) (fit, all) =
    let P : Assoc OfferRecord → Type 0 = Released selected ((key, o) ∷ offers) in
    let settled =
      λ (i : ℕ) (rest : Assoc OfferRecord)
          (e : release_losers catalog new_id i now selected offers ≡ ok rest).
        of_ok (Released selected offers)
          (release_losers-Released catalog new_id i now selected offers all) e in
    if_rule (Ensures P) (beq key selected || not (is_none o.release))
      (λ kept. bind_rule P (release_losers catalog new_id n now selected offers) _ (λ rest e.
        Released-cons selected key o o offers rest (fit.0, ground (arith, fit.1, kept))
          (settled n rest e)))
      (λ lost. bind_rule P (new_release catalog (new_id n) now o) _ (λ intent _.
        bind_rule P (release_losers catalog new_id (suc n) now selected offers) _ (λ rest e.
          Released-cons selected key o _ offers rest (fit.0, ground (arith, lost))
            (settled (suc n) rest e))))

-- A new execution, under an ID that was not taken.
module _ (c : Client) (k : IsConsistent c) (id : Bytes) (e : ExecutionRecord)
    (free : get id c.executions ≡ none) (named : id ≢ []) where
  choice-new :
      (j : Bytes)
      → (j ≡ []) ⊎ (choice c.executions j ≢ none)
      → choice (put id e c.executions) j ≡ choice c.executions j
  choice-new j backed = ap offer_of (get-put id j e c.executions) ∙ elim (Bool-cases (beq id j)) [
    | inl here ↦
        let at : id ≡ j = (beq_iff id j).0 here in
        elim backed [
          | inl empty ↦ elim (named (at ∙ empty)) [ ]
          | inr taken ↦ elim (taken (ap offer_of (rw at at free))) [ ]
        ]
    | inr there ↦ rw there refl
  ]

  new_execution-IsConsistent :
      (request_id : Bytes) (r : RequestRecord)
      → r.execution_id ≡ id
      → All (Fits (some e.offer_id)) r.offers
      → has_selected (some e.offer_id) r.offers ≡ true
      → IsMap r.offers
      → IsConsistent (put_execution (put_request c request_id r) id e)
  new_execution-IsConsistent request_id r at fits selected unique =
      let chosen : choice (put id e c.executions) r.execution_id ≡ some e.offer_id =
        rw at (ap offer_of (get-put_same id e c.executions)) in
      record {
        unnamed = choice-new [] (inl refl) ∙ k.unnamed;
        settled =
            Values-put (IsSettled (put id e c.executions)) request_id r c.requests
              (All-map (λ x. IsSettled c.executions x.1)
                (λ x. IsSettled (put id e c.executions) x.1) c.requests
                (λ x s.
                  IsSettled-choices c.executions (put id e c.executions) x.1
                    (choice-new x.1.execution_id s.backed) s)
                k.settled)
              (record {
                backed =
                    subst (λ (x : Option Bytes). (r.execution_id ≡ []) ⊎ (x ≢ none)) (sym chosen)
                      (inr (λ no. cc));
                fits = subst (λ (x : Option Bytes). All (Fits x) r.offers) (sym chosen) fits;
                selected =
                    subst (λ (x : Option Bytes). has_selected x r.offers ≡ true) (sym chosen)
                      selected;
                unique = unique;
              });
      }

unique_execution_id-free :
    (c : Client) (value : Bytes)
    → is_empty (unique_execution_id c value) ≡ false
    → (get (unique_execution_id c value) c.executions ≡ none) × (unique_execution_id c value ≢ [])
unique_execution_id-free c value h = elim (Option-cases (get value c.executions)) [
  | inl free ↦
      let same : unique_execution_id c value ≡ value = rw free refl in
      rw same (free, ground (arith, rw same at h))
  | inr (e, taken) ↦ ground (arith, taken)
]

select_new-IsConsistent :
    (new_id : ℕ → Bytes) (now : ℕ) (c : Client) (request_id : Bytes) (r : RequestRecord)
    → IsConsistent c
    → get request_id c.requests ≡ some r
    → r.execution_id ≡ []
    → Ensures (λ (x : Client × Command). IsConsistent x.0) (select_new new_id now c request_id r)
unfolding select_new
select_new-IsConsistent new_id now c request_id r k found fresh =
    let P : Client × Command → Type 0 = λ (x : Client × Command). IsConsistent x.0 in
    let s : IsSettled c.executions r =
      Values-get (IsSettled c.executions) request_id c.requests k.settled found in
    let unsettled : All (Fits none) r.offers =
      subst (λ (x : Option Bytes). All (Fits x) r.offers)
        (ap (choice c.executions) fresh ∙ k.unnamed) s.fits in
    present_rule P (choose c.allocators r.offers now r.request.constraints _) _ _ (λ chosen picked.
      let id : Bytes = unique_execution_id c (new_id 0) in
      stop_if_rule P (is_empty id || is_empty (new_id 1)) _ _ (λ named.
        let free = unique_execution_id-free c (new_id 0) (ground (arith, named)) in
        bind_rule P (release_losers c.allocators new_id 2 now chosen.key r.offers) _
          (λ offers released.
            let done =
              of_ok (Released chosen.key r.offers)
                (release_losers-Released c.allocators new_id 2 now chosen.key r.offers unsettled)
                released in
            let is =
              choose-IsCandidate c.allocators now r.request.constraints _ r.offers chosen s.unique
                picked in
            let own = (All-get (Fits none) chosen.key chosen.held r.offers unsettled is.stored).0 in
            new_execution-IsConsistent c k id _ free.0 free.1 request_id _ refl
              (subst (λ (x : Bytes). All (Fits (some x)) offers) own done.fits)
              (subst (λ (x : Bytes). has_selected (some x) offers ≡ true) own
                (ground (arith, done.same_keys chosen.key, is.stored)))
              (done.unique s.unique))))

pub select-IsConsistent :
    (new_id : ℕ → Bytes) (now : ℕ) (c : Client) (request_id : Bytes)
    → IsConsistent c
    → Ensures (λ (x : Client × Command). IsConsistent x.0) (select new_id now c request_id)
unfolding select
select-IsConsistent new_id now c request_id k =
    let P : Checked ClientError (Client × Command) → Type 0 =
      Ensures (λ (x : Client × Command). IsConsistent x.0) in
    option_rule P (get request_id c.requests) (λ _. tt)
      (λ r found.
        if_rule P (is_empty r.execution_id)
          (λ fresh.
            select_new-IsConsistent new_id now c request_id r k found (ground (arith, fresh)))
          (λ _. option_rule P (get r.execution_id c.executions) (λ _. tt) (λ _ _. k)))
