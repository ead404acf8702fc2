-- ===== src/Logstore/Budget.antt =====
-- internal/logstore/store.go: the reservations of all executions stay within the total budget.
use r1s.Base.{
  ℕ, ◌+◌, ◌-◌, ◌*◌, ◌≤◌, ◌≡◌, ap, subst, ◌∙◌, ◌||◌, true, false, none, some, List, [], ◌∷◌, Bytes,
  Assoc, get, put, delete, beq, ltb, is_empty, if◌then◌else◌, Checked, ok, err, arith, if_rule,
  option_rule, Ensures, Bool-cases, Option-cases, inl, inr, ltb→ge, All, max,
}
use r1s.Logstore.Store.{
  LogError, Directory, Store, max_stream_bytes, new_store, valid_metadata, read_metadata, reserved,
  fresh_directory, reserve, remove, identity_conflict,
}

-- What goes on between a store's calls: reservations and removals, in any order.
pub data Call : Type 0 where
  reserves removes : Bytes → Call

-- A reservation that fails changes nothing.
abbrev pub after_reserve : Store → Checked LogError (Store × ℕ) → Store
after_reserve s (ok x) = x.0
after_reserve s (err e) = s

module _ (directory : Bytes → Bytes) where
  unfoldable pub step : Call → Store → Store
  unfolding reserve remove
  step (reserves id) s = after_reserve s (reserve directory s id)
  step (removes id) s = remove directory s id

  unfoldable pub run : List Call → Store → Store
  unfolding step
  run [] s = s
  run (call ∷ calls) s = run calls (step call s)

-- Every reservation is valid, and together they are within a bound.
pub record IsWithin (bound : ℕ) (s : Store) : Type 0 where
  pub sum : ℕ
  pub all_valid : reserved s.directories ≡ some sum
  pub within : sum ≤ bound
  pub total_bounded : s.total_bytes ≤ bound
  pub pair_fits : 2 * s.stream_bytes ≤ s.total_bytes
  pub stream_valid : (ltb s.stream_bytes 1 || ltb max_stream_bytes s.stream_bytes) ≡ false

reserved-cons :
    (j : Bytes) (e : Directory) (m : Assoc Directory) (n : ℕ)
    → reserved ((j, e) ∷ m) ≡ some n
    → (rest : ℕ) × ((reserved m ≡ some rest)
        × (valid_metadata e.metadata ≡ true)
        × (n ≡ 2 * e.metadata.limit + rest))
unfolding reserved
reserved-cons j e m n h = elim (Option-cases (reserved m)) [
  | inl bad ↦ ground (arith, h, bad)
  | inr (rest, good) ↦ (rest, (good, ground (arith, h, good), ground (arith, h, good)))
]

cons-reserved :
    (j : Bytes) (e : Directory) (m : Assoc Directory) (n : ℕ)
    → valid_metadata e.metadata ≡ true
    → reserved m ≡ some n
    → reserved ((j, e) ∷ m) ≡ some (2 * e.metadata.limit + n)
unfolding reserved
cons-reserved j e m n valid h = ground (arith, h, valid)

some_of : {m n : ℕ} → m ≡ n → some m ≡ some n
some_of e = ap some e

reserved-put :
    (k : Bytes) (d : Directory) (m : Assoc Directory) (n : ℕ)
    → get k m ≡ none
    → valid_metadata d.metadata ≡ true
    → reserved m ≡ some n
    → reserved (put k d m) ≡ some (n + 2 * d.metadata.limit)
unfolding get put
reserved-put k d [] n h valid sum = cons-reserved k d [] n valid sum ∙ some_of (omega arith)
reserved-put k d ((j, e) ∷ m) n h valid sum = elim (Bool-cases (beq j k)) [
  | inl here ↦ cc (rw here at h)
  | inr there ↦
      let (rest, (good, fine, eq)) = reserved-cons j e m n sum in
      let tail : reserved (put k d m) ≡ some (rest + 2 * d.metadata.limit) =
        reserved-put k d m rest (rw there at h) valid good in
      rw there (cons-reserved j e (put k d m) _ fine tail ∙ some_of (omega (arith, eq)))
]

reserved-delete :
    (k : Bytes) (m : Assoc Directory) (n : ℕ)
    → reserved m ≡ some n
    → (less : ℕ) × ((reserved (delete k m) ≡ some less) × (less ≤ n))
unfolding delete
reserved-delete k [] n sum = (n, (sum, omega arith))
reserved-delete k ((j, e) ∷ m) n sum =
    let (rest, (good, fine, eq)) = reserved-cons j e m n sum in
    elim (Bool-cases (beq j k)) [
      | inl here ↦ rw here (rest, (good, omega (arith, eq)))
      | inr there ↦
          let (less, (lower, bound)) = reserved-delete k m rest good in
          rw there (
            2 * e.metadata.limit + less,
            (cons-reserved j e (delete k m) less fine lower, omega (arith, eq, bound)),
          )
    ]

-- A call for an execution with an ID; an empty ID would write metadata that is not valid.
abbrev pub Named : Call → Type 0
Named (reserves id) = is_empty id ≡ false
Named (removes id) = Unit

module _ (bound : ℕ) (directory : Bytes → Bytes) where
  reserve-IsWithin :
      (s : Store) (id : Bytes)
      → IsWithin bound s
      → is_empty id ≡ false
      → Ensures (λ (x : Store × ℕ). IsWithin bound x.0) (reserve directory s id)
  unfolding reserve read_metadata
  reserve-IsWithin s id k named =
      let Q : Checked LogError (Store × ℕ) → Type 0 =
        Ensures (λ (x : Store × ℕ). IsWithin bound x.0) in
      option_rule Q (get (directory id) s.directories)
        (λ new.
          option_rule Q (reserved s.directories) (λ _. tt)
            (λ n sum.
              if_rule Q (ltb (s.total_bytes - 2 * s.stream_bytes) n) (λ _. tt)
                (λ room. record {
                  sum = n + 2 * s.stream_bytes;
                  all_valid =
                      reserved-put (directory id) (fresh_directory id s.stream_bytes) s.directories
                        n new (ground (arith, named, k.stream_valid)) sum;
                  within = omega (
                    arith,
                    ltb→ge (s.total_bytes - 2 * s.stream_bytes) n room,
                    k.pair_fits,
                    k.total_bounded,
                  );
                  total_bounded = k.total_bounded;
                  pair_fits = k.pair_fits;
                  stream_valid = k.stream_valid;
                })))
        (λ d _.
          elim (read_metadata d)
            as (λ m. Q (elim m [
              | err e ↦ err e
              | ok m ↦ if beq m.execution id then ok (s, m.limit) else err identity_conflict
            ])) [ err e ↦ tt | ok m ↦ if_rule Q (beq m.execution id) (λ _. k) (λ _. tt) ])

  after_reserve-IsWithin :
      (s : Store) (m : Checked LogError (Store × ℕ))
      → IsWithin bound s
      → Ensures (λ (x : Store × ℕ). IsWithin bound x.0) m
      → IsWithin bound (after_reserve s m)
  after_reserve-IsWithin s (ok x) k h = h
  after_reserve-IsWithin s (err e) k h = k

  step-IsWithin :
      (call : Call) (s : Store)
      → IsWithin bound s
      → Named call
      → IsWithin bound (step directory call s)
  unfolding step remove
  step-IsWithin (reserves id) s k named =
      after_reserve-IsWithin s (reserve directory s id) k (reserve-IsWithin s id k named)
  step-IsWithin (removes id) s k named =
      let (less, (valid, lower)) = reserved-delete (directory id) s.directories k.sum k.all_valid in
      record {
        sum = less;
        all_valid = valid;
        within = omega (arith, lower, k.within);
        total_bounded = k.total_bounded;
        pair_fits = k.pair_fits;
        stream_valid = k.stream_valid;
      }

  run_from-IsWithin :
      (calls : List Call) (s : Store)
      → IsWithin bound s
      → All Named calls
      → IsWithin bound (run directory calls s)
  unfolding run
  run_from-IsWithin [] s k named = k
  run_from-IsWithin (call ∷ calls) s k (named, rest) =
      run_from-IsWithin calls (step directory call s) (step-IsWithin call s k named) rest

-- The reservations that a store may come to: its total, or what stood in its root if that is more.
abbrev pub budget : ℕ → ℕ → ℕ
budget total standing = max total standing

new_store-IsWithin :
    (root : Bytes) (stream total standing : ℕ) (found : Assoc Directory)
    → reserved found ≡ some standing
    → Ensures (IsWithin (budget total standing)) (new_store root stream total found)
unfolding new_store
new_store-IsWithin root stream total standing found sum =
    if_rule (Ensures (IsWithin (budget total standing)))
      (is_empty root || ltb stream 1 || ltb max_stream_bytes stream || ltb total (2 * stream))
      (λ _. tt)
      (λ fine. record {
        sum = standing;
        all_valid = sum;
        within = ground arith;
        total_bounded = ground arith;
        pair_fits = ground (arith, fine);
        stream_valid = ground (arith, fine);
      })

-- A store is opened over a root in which valid reservations of `standing` bytes stand already, as after
-- a restart; none stand in a new root. Whatever reservations, for executions with an ID, and removals
-- are then made, in any order and whichever of them fail: every reservation is valid, and all of them
-- together, two streams of its limit each, are at most the total that the store was given, or at most
-- `standing` if that is more.
pub run-IsWithin :
    (directory : Bytes → Bytes) (root : Bytes) (stream total standing : ℕ) (found : Assoc Directory)
    (s : Store) (calls : List Call)
    → reserved found ≡ some standing
    → new_store root stream total found ≡ ok s
    → All Named calls
    → IsWithin (budget total standing) (run directory calls s)
run-IsWithin directory root stream total standing found s calls sum h named =
    run_from-IsWithin (budget total standing) directory calls s
      (subst (Ensures (IsWithin (budget total standing))) h
        (new_store-IsWithin root stream total standing found sum))
      named
