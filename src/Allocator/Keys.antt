-- ===== src/Allocator/Keys.antt =====
-- authorityKey of views.go: the keys of requests and of replay entries.
use r1s.Base.{◌≡◌, ◌≢◌, ◌⊎◌, refl, subst, inl, inr, [], ◌∷◌, ◌++◌, Bytes, length, All, arith}
use r1s.Allocator.Views.{authority_key}

-- No byte is the separator.
abbrev pub ZeroFree : Bytes → Type 0
ZeroFree = All (λ b. b ≢ 0)

zero_inside : (front back : Bytes) → ZeroFree (front ++ (0 ∷ back)) → ⊥
zero_inside [] back h = h.0 refl
zero_inside (b ∷ front) back h = zero_inside front back h.1

-- What tells two keys apart: identities of one length, or IDs without a zero byte.
abbrev pub Separable : Bytes → Bytes → Bytes → Bytes → Type 0
Separable client other id other_id =
    (length client ≡ length other) ⊎ (ZeroFree id × ZeroFree other_id)

split-same :
    (client other : Bytes) (id other_id : Bytes)
    → length client ≡ length other
    → authority_key client id ≡ authority_key other other_id
    → (client ≡ other) × (id ≡ other_id)
unfolding authority_key
split-same [] [] id other_id same h = ground arith
split-same [] (y ∷ ys) id other_id same h = ground arith
split-same (x ∷ xs) [] id other_id same h = ground arith
split-same (x ∷ xs) (y ∷ ys) id other_id same h = ground (arith, split-same xs ys id other_id)

split-ZeroFree :
    (client other : Bytes) (id other_id : Bytes)
    → ZeroFree id
    → ZeroFree other_id
    → authority_key client id ≡ authority_key other other_id
    → (client ≡ other) × (id ≡ other_id)
unfolding authority_key
split-ZeroFree [] [] id other_id p q h = ground arith
split-ZeroFree [] (y ∷ ys) id other_id p q h =
    let inside : id ≡ ys ++ (0 ∷ other_id) = ground arith in
    absurd (zero_inside ys other_id (subst ZeroFree inside p))
split-ZeroFree (x ∷ xs) [] id other_id p q h =
    let inside : other_id ≡ xs ++ (0 ∷ id) = ground arith in
    absurd (zero_inside xs id (subst ZeroFree inside q))
split-ZeroFree (x ∷ xs) (y ∷ ys) id other_id p q h =
    ground (arith, split-ZeroFree xs ys id other_id p q)

-- If the identities of two clients have the same length, or if neither ID has a zero byte, then a key
-- belongs to one client and one ID only, so no client can name the request or the command of another.
pub authority_key-injective :
    (client other : Bytes) (id other_id : Bytes)
    → Separable client other id other_id
    → authority_key client id ≡ authority_key other other_id
    → (client ≡ other) × (id ≡ other_id)
authority_key-injective client other id other_id (inl same) h =
    split-same client other id other_id same h
authority_key-injective client other id other_id (inr (p, q)) h =
    split-ZeroFree client other id other_id p q h
