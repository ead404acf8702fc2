-- ===== src/Base/Checks.antt =====
-- A chain of checks that stops at the first that fails: `if bad { return err }`.
use mathlib.Core.Path.{◌≡◌, refl}
use mathlib.Core.Bool.{Bool, true, false}
use mathlib.Core.Logic.{◌⊎◌, inl, inr}
use mathlib.Core.Option.{Option, none, some}

pub data Checked {ℓ κ} (E : Type ℓ) (A : Type κ) : Type (ℓ ⊔ κ) where
  ok : A → Checked E A
  err : E → Checked E A

infixl 5 ◌>>◌ ◌>>=◌
abbrev pub ◌>>=◌ {ℓ κ μ} :
    {E : Type ℓ} {A : Type κ} {B : Type μ} → Checked E A → (A → Checked E B) → Checked E B
err failed >>= next = err failed
ok value >>= next = next value

-- A check has no value to pass on.
abbrev pub ◌>>◌ {ℓ μ} : {E : Type ℓ} {B : Type μ} → Checked E (Unit {0}) → Checked E B → Checked E B
check >> next = check >>= (λ done. next)

-- Go on only if the test fails to hold.
abbrev pub stop_if {ℓ} : {E : Type ℓ} → Bool → E → Checked E (Unit {0})
stop_if true e = err e
stop_if false e = ok tt

-- A lookup that must find something.
abbrev pub present {ℓ κ} : {E : Type ℓ} {A : Type κ} → Option A → E → Checked E A
present none e = err e
present (some a) e = ok a

-- What holds of the value, if there is one.
abbrev pub Ensures {ℓ κ μ} : {E : Type ℓ} {A : Type κ} → (A → Type μ) → Checked E A → Type μ
Ensures P (ok a) = P a
Ensures P (err e) = Unit

pub stop_if_rule {ℓ κ μ} :
    {E : Type ℓ} {A : Type κ} (P : A → Type μ) (b : Bool) (e : E) (k : Checked E A)
    → (b ≡ false → Ensures P k)
    → Ensures P (stop_if b e >> k)
stop_if_rule P true e k h = tt
stop_if_rule P false e k h = h refl

pub present_rule {ℓ κ μ ν} :
    {E : Type ℓ} {A : Type κ} {B : Type ν} (P : B → Type μ) (o : Option A) (e : E)
    (k : A → Checked E B)
    → ((a : A) → o ≡ some a → Ensures P (k a))
    → Ensures P (present o e >>= k)
present_rule P none e k h = tt
present_rule P (some a) e k h = h a refl

-- Inversion of a successful chain.
pub >>=-eq-ok {ℓ κ μ} :
    {E : Type ℓ} {A : Type κ} {B : Type μ} (m : Checked E A) (next : A → Checked E B) {last : B}
    → (m >>= next) ≡ ok last
    → (value : A) × (m ≡ ok value) × (next value ≡ ok last)
>>=-eq-ok (err failed) next h = cc
>>=-eq-ok (ok value) next h = (value, refl, h)

pub Checked-cases {ℓ κ} :
    {E : Type ℓ} {A : Type κ} (m : Checked E A) → ((a : A) × (m ≡ ok a)) ⊎ ((e : E) × (m ≡ err e))
Checked-cases (ok a) = inl (a, refl)
Checked-cases (err e) = inr (e, refl)

pub bind_rule {ℓ κ μ ν} :
    {E : Type ℓ} {A : Type κ} {B : Type ν} (P : B → Type μ) (m : Checked E A) (k : A → Checked E B)
    → ((a : A) → m ≡ ok a → Ensures P (k a))
    → Ensures P (m >>= k)
bind_rule P (ok a) k h = h a refl
bind_rule P (err e) k h = tt
