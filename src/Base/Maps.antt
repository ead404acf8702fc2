-- ===== src/Base/Maps.antt =====
-- Go maps with string keys, as association lists. `put` changes the entry of a key in place and
-- never adds a second, so `delete` has at most one to take out.
use Prim.Native.Nat.{ℕ, suc, ◌+◌, ◌≤◌}
use mathlib.Core.Path.{◌≡◌, refl, ap, subst}
use mathlib.Core.Logic.{inl, inr}
use mathlib.Core.Bool.{Bool}
use mathlib.Core.List.{List, [], ◌∷◌, map}
use mathlib.Core.Option.{Option, none, some}
use native.Mathlib.Omega.{arith}
use r1s.Base.Tests.{if◌then◌else◌, Bool-cases, bit, length, All}
use r1s.Base.Strings.{Bytes, beq, beq_iff, beq_refl}

abbrev pub Assoc {ℓ} : Type ℓ → Type ℓ
Assoc V = List (Bytes × V)

module _ {ℓ} {V : Type ℓ} where
  unfoldable pub get : Bytes → Assoc V → Option V
  get k [] = none
  get k ((j, v) ∷ m) = if beq j k then some v else get k m

  unfoldable pub put : Bytes → V → Assoc V → Assoc V
  put k v [] = (k, v) ∷ []
  put k v ((j, w) ∷ m) = if beq j k then (j, v) ∷ m else (j, w) ∷ put k v m

  unfoldable pub delete : Bytes → Assoc V → Assoc V
  delete k [] = []
  delete k ((j, w) ∷ m) = if beq j k then m else (j, w) ∷ delete k m

  abbrev pub keys : Assoc V → List Bytes
  keys = map (λ e. e.0)

  -- How many values pass a test.
  unfoldable pub count : (V → Bool) → Assoc V → ℕ
  count p [] = 0
  count p ((j, w) ∷ m) = bit (p w) + count p m

  -- What one lookup adds to a count.
  abbrev pub count_of : (V → Bool) → Option V → ℕ
  count_of p none = 0
  count_of p (some v) = bit (p v)

  -- Every value satisfies a predicate.
  abbrev pub Values {κ} : (V → Type κ) → Assoc V → Type κ
  Values P = All (λ e. P e.1)

  pub get-put :
      (k j : Bytes) (v : V) (m : Assoc V)
      → get j (put k v m) ≡ (if beq k j then some v else get j m)
  unfolding get put
  get-put k j v [] = refl
  get-put k j v ((i, w) ∷ m) =
      ground (arith, beq_iff k j, beq_iff i k, beq_iff i j, get-put k j v m)

  pub get-put_same : (k : Bytes) (v : V) (m : Assoc V) → get k (put k v m) ≡ some v
  get-put_same k v m = rw (get-put k k v m, beq_refl k) refl

  pub delete-put : (k : Bytes) (v : V) (m : Assoc V) → get k m ≡ none → delete k (put k v m) ≡ m
  unfolding get put delete
  delete-put k v [] h = rw (beq_refl k)
  delete-put k v ((i, w) ∷ m) h = elim (Bool-cases (beq i k)) [
    | inl e ↦ cc (rw e at h)
    | inr n ↦ rw (n, delete, n) (ap (◌∷◌ (i, w)) (delete-put k v m (rw n at h)))
  ]

  pub put-put : (k : Bytes) (v w : V) (m : Assoc V) → put k v (put k w m) ≡ put k v m
  unfolding put
  put-put k v w [] = rw (beq_refl k)
  put-put k v w ((i, u) ∷ m) = elim (Bool-cases (beq i k)) [
    | inl e ↦ rw (e, put, e)
    | inr n ↦ rw (n, put, n) (ap (◌∷◌ (i, u)) (put-put k v w m))
  ]

  -- Writing back what is there.
  pub put-get : (k : Bytes) (v : V) (m : Assoc V) → get k m ≡ some v → put k v m ≡ m
  unfolding get put
  put-get k v [] h = cc
  put-get k v ((i, u) ∷ m) h = elim (Bool-cases (beq i k)) [
    | inl e ↦ let same : u ≡ v = ground arith in rw (e, same)
    | inr n ↦ rw n (ap (◌∷◌ (i, u)) (put-get k v m (rw n at h)))
  ]

  pub count-put :
      (p : V → Bool) (k : Bytes) (v : V) (m : Assoc V)
      → count p (put k v m) + count_of p (get k m) ≡ count p m + bit (p v)
  unfolding get put count
  count-put p k v [] = omega arith
  count-put p k v ((i, w) ∷ m) = elim (Bool-cases (beq i k)) [
    | inl e ↦ rw (e, count) (omega arith)
    | inr n ↦ rw (n, count) (omega (arith, count-put p k v m))
  ]

  pub count-delete :
      (p : V → Bool) (k : Bytes) (m : Assoc V)
      → count p (delete k m) + count_of p (get k m) ≡ count p m
  unfolding get delete count
  count-delete p k [] = omega arith
  count-delete p k ((i, w) ∷ m) = elim (Bool-cases (beq i k)) [
    | inl e ↦ rw (e, count) (omega arith)
    | inr n ↦ rw (n, count) (omega (arith, count-delete p k m))
  ]

  pub length-put_le : (k : Bytes) (v : V) (m : Assoc V) → length (put k v m) ≤ length m + 1
  unfolding put
  length-put_le k v [] = omega arith
  length-put_le k v ((i, w) ∷ m) = elim (Bool-cases (beq i k)) [
    | inl e ↦ rw e (omega arith)
    | inr n ↦ rw n (omega (arith, length-put_le k v m))
  ]

  pub length-put_old :
      (k : Bytes) (v w : V) (m : Assoc V) → get k m ≡ some w → length (put k v m) ≡ length m
  unfolding get put
  length-put_old k v w [] h = cc
  length-put_old k v w ((i, u) ∷ m) h = elim (Bool-cases (beq i k)) [
    | inl e ↦ rw e
    | inr n ↦ rw n (ap suc (length-put_old k v w m (rw n at h)))
  ]

  pub length-delete_le : (k : Bytes) (m : Assoc V) → length (delete k m) ≤ length m
  unfolding delete
  length-delete_le k [] = omega arith
  length-delete_le k ((i, u) ∷ m) = elim (Bool-cases (beq i k)) [
    | inl e ↦ rw e (omega arith)
    | inr n ↦ rw n (omega (arith, length-delete_le k m))
  ]

  pub length-delete_found :
      (k : Bytes) (w : V) (m : Assoc V) → get k m ≡ some w → length (delete k m) + 1 ≡ length m
  unfolding get delete
  length-delete_found k w [] h = cc
  length-delete_found k w ((i, u) ∷ m) h = elim (Bool-cases (beq i k)) [
    | inl e ↦ rw e (omega arith)
    | inr n ↦ rw n (omega (arith, length-delete_found k w m (rw n at h)))
  ]

  -- No key twice, as in every map that `put` and `delete` make.
  abbrev pub IsMap : Assoc V → Type ℓ
  IsMap [] = Unit
  IsMap ((j, w) ∷ m) = (get j m ≡ none) × IsMap m

  pub put-IsMap : (k : Bytes) (v : V) (m : Assoc V) → IsMap m → IsMap (put k v m)
  unfolding get put
  put-IsMap k v [] h = (refl, tt)
  put-IsMap k v ((i, w) ∷ m) h = elim (Bool-cases (beq i k)) [
    | inl e ↦ rw e h
    | inr n ↦ rw n (ground (arith, get-put k i v m, beq_iff k i, beq_iff i k), put-IsMap k v m h.1)
  ]

  pub get-delete :
      (k j : Bytes) (m : Assoc V)
      → IsMap m
      → get j (delete k m) ≡ (if beq k j then none else get j m)
  unfolding get delete
  get-delete k j [] h = ground arith
  get-delete k j ((i, w) ∷ m) h =
      ground (arith, beq_iff k j, beq_iff i k, beq_iff i j, get-delete k j m h.1)

  pub delete-IsMap : (k : Bytes) (m : Assoc V) → IsMap m → IsMap (delete k m)
  unfolding get delete
  delete-IsMap k [] h = tt
  delete-IsMap k ((i, w) ∷ m) h = elim (Bool-cases (beq i k)) [
    | inl e ↦ rw e h.1
    | inr n ↦ rw n (rw (get-delete k i m h.1) (ground arith), delete-IsMap k m h.1)
  ]

module _ {ℓ κ} {V : Type ℓ} (P : V → Type κ) where
  pub Values-get : (k : Bytes) {v : V} (m : Assoc V) → Values P m → get k m ≡ some v → P v
  unfolding get
  Values-get k [] all h = cc
  Values-get k {v} ((i, u) ∷ m) all h = elim (Bool-cases (beq i k)) [
    | inl e ↦ let same : u ≡ v = ground arith in subst P same all.0
    | inr n ↦ Values-get k m all.1 (rw n at h)
  ]

  pub Values-put : (k : Bytes) (v : V) (m : Assoc V) → Values P m → P v → Values P (put k v m)
  unfolding put
  Values-put k v [] all p = (p, tt)
  Values-put k v ((i, u) ∷ m) all p = elim (Bool-cases (beq i k)) [
    | inl e ↦ rw e (p, all.1)
    | inr n ↦ rw n (all.0, Values-put k v m all.1 p)
  ]

  pub Values-delete : (k : Bytes) (m : Assoc V) → Values P m → Values P (delete k m)
  unfolding delete
  Values-delete k [] all = tt
  Values-delete k ((i, u) ∷ m) all = elim (Bool-cases (beq i k)) [
    | inl e ↦ rw e all.1
    | inr n ↦ rw n (all.0, Values-delete k m all.1)
  ]
