-- ===== src/Base/Strings.antt =====
-- Go strings and byte slices: lists of bytes, compared by their contents.
use Prim.Native.Nat.{ℕ, zero, suc, ◌+◌, ◌-◌, ◌/◌, ◌%◌}
use Prim.Native.Char.{code}
use Prim.Native.String.{String}
use mathlib.Core.Path.{◌≡◌, refl, ap₂}
use mathlib.Core.Logic.{◌↔◌, inl, inr}
use mathlib.Core.Bool.{Bool, true, false, ◌&&◌, ◌||◌}
use mathlib.Core.List.{List, [], ◌∷◌}
use mathlib.Core.Option.{Option, none, some}
use r1s.Base.Tests.{◌==◌, leb, ==_iff, if◌then◌else◌, Bool-cases}

abbrev pub Bytes : Type 0
Bytes = List ℕ

-- The bytes of an ASCII literal.
abbrev pub ascii : String → Bytes
ascii String.[] = []
ascii (String.◌∷◌ c s) = code c ∷ ascii s

-- `==` on strings, bytes.Equal on slices.
unfoldable pub beq : Bytes → Bytes → Bool
beq [] [] = true
beq (x ∷ xs) (y ∷ ys) = (x == y) && beq xs ys
beq _ _ = false

pub beq_refl : (a : Bytes) → beq a a ≡ true
unfolding beq
beq_refl [] = refl
beq_refl (x ∷ xs) = rw ((==_iff x x).1 refl) (beq_refl xs)

pub beq→eq : (a b : Bytes) → beq a b ≡ true → a ≡ b
unfolding beq
beq→eq [] [] h = refl
beq→eq [] (y ∷ ys) h = cc
beq→eq (x ∷ xs) [] h = cc
beq→eq (x ∷ xs) (y ∷ ys) h = elim (Bool-cases (x == y)) [
  | inl e ↦ ap₂ ◌∷◌ ((==_iff x y).0 e) (beq→eq xs ys (rw e at h))
  | inr n ↦ cc (rw n at h)
]

pub beq_iff : (a b : Bytes) → (beq a b ≡ true) ↔ (a ≡ b)
beq_iff a b = (beq→eq a b, λ e. rw e (beq_refl b))

-- strings.TrimSpace(s) == "": every rune is white space. A number names what of a rune is read: 0
-- nothing, 1 the lead byte 0xc2, 2 and 3 the bytes 0xe1 and 0xe1 0x9a, 4 to 6 the byte 0xe2 alone
-- and with 0x80 or 0x81, 7 and 8 the bytes 0xe3 and 0xe3 0x80.
space_next : ℕ → ℕ → Option ℕ
space_next zero c =
    if (leb 9 c && leb c 13) || c == 32
    then some 0
    else if c == 0xC2
    then some 1
    else if c == 0xE1
    then some 2
    else if c == 0xE2
    then some 4
    else if c == 0xE3
    then some 7
    else none
space_next (suc zero) c = if c == 0x85 || c == 0xA0 then some 0 else none
space_next (suc (suc zero)) c = if c == 0x9A then some 3 else none
space_next (suc (suc (suc zero))) c = if c == 0x80 then some 0 else none
space_next (suc (suc (suc (suc zero)))) c =
    if c == 0x80 then some 5 else if c == 0x81 then some 6 else none
space_next (suc (suc (suc (suc (suc zero))))) c =
    if (leb 0x80 c && leb c 0x8A) || c == 0xA8 || c == 0xA9 || c == 0xAF then some 0 else none
space_next (suc (suc (suc (suc (suc (suc zero)))))) c = if c == 0x9F then some 0 else none
space_next (suc (suc (suc (suc (suc (suc (suc zero))))))) c = if c == 0x80 then some 8 else none
space_next (suc (suc (suc (suc (suc (suc (suc (suc n)))))))) c = if c == 0x80 then some 0 else none

spaces_from : ℕ → Bytes → Bool
spaces_from state [] = state == 0
spaces_from state (c ∷ s) = elim (space_next state c) [
  | none ↦ false
  | some next ↦ spaces_from next s
]

unfoldable pub blank : Bytes → Bool
unfolding space_next spaces_from
blank = spaces_from 0

-- hex.EncodeToString, in lower case.
abbrev hex_digit : ℕ → ℕ
hex_digit n = if leb n 9 then b'0' + n else b'a' + n - 10

unfoldable pub hex_encode : Bytes → Bytes
hex_encode [] = []
hex_encode (b ∷ bs) = hex_digit (b / 16) ∷ hex_digit (b % 16) ∷ hex_encode bs

abbrev pub is_hex : ℕ → Bool
is_hex c = (leb b'0' c && leb c b'9') || (leb b'a' c && leb c b'f') || (leb b'A' c && leb c b'F')
