-- ===== src/Allocator/Ledger.antt =====
-- capacity.go: the ledger of slots for each resource class. Slots are uint32.
use r1s.Base.{
  ℕ, ◌+◌, ◌-◌, ◌%◌, ◌<◌, ◌≡◌, Bool, true, false, ◌||◌, none, some, [], ◌∷◌, Bytes, Assoc, get, put,
  get-put, blank, is_empty, ltb, leb, ◌==◌, any, beq, beq_iff, if◌then◌else◌, arith, Checked, ok,
  ◌>>◌, stop_if,
}
use r1s.Allocator.Errors.{Err, invalid_config, capacity_exhausted}

pub record CapacityLedger : Type 0 where
  pub limits : Assoc ℕ
  pub used : Assoc ℕ

abbrev pub u32 : ℕ → ℕ
u32 n = n % 4294967296

-- Reading a map at a missing key gives 0.
unfoldable pub slots : Bytes → Assoc ℕ → ℕ
slots class m = elim (get class m) [ none ↦ 0 | some n ↦ n ]

pub slots-put :
    (k c : Bytes) (n : ℕ) (m : Assoc ℕ) → slots c (put k n m) ≡ (if beq k c then n else slots c m)
unfolding slots
slots-put k c n m = ground (arith, get-put k c n m)

abbrev bad_class : Bytes × ℕ → Bool
bad_class e = blank e.0 || e.1 == 0

copy_limits : Assoc ℕ → Assoc ℕ → Assoc ℕ
copy_limits limits [] = limits
copy_limits limits ((class, n) ∷ rest) = copy_limits (put class n limits) rest

unfoldable pub new_capacity_ledger : Assoc ℕ → Checked Err CapacityLedger
unfolding copy_limits
new_capacity_ledger configured = do
  stop_if (is_empty configured) (invalid_config ∷ [])
  stop_if (any bad_class configured) (invalid_config ∷ [])
  ok (record { limits = copy_limits [] configured; used = [] })

-- `_, ok := l.limits[class]`
abbrev unknown : Bytes → Assoc ℕ → Bool
unknown class m = elim (get class m) [ none ↦ true | some n ↦ false ]

unfoldable pub reserve : CapacityLedger → Bytes → Checked Err CapacityLedger
reserve l class = do
  stop_if (unknown class l.limits || leb (slots class l.limits) (slots class l.used))
      (capacity_exhausted ∷ [])
  ok (record l { used = put class (u32 (slots class l.used + 1)) l.used })

unfoldable pub release : CapacityLedger → Bytes → CapacityLedger
release l class =
    if ltb 0 (slots class l.used)
    then record l { used = put class (slots class l.used - 1) l.used }
    else l

unfoldable pub available : CapacityLedger → Bytes → ℕ
available l class =
    if leb (slots class l.limits) (slots class l.used)
    then 0
    else slots class l.limits - slots class l.used

-- `restore(snapshot())`
abbrev pub restore : CapacityLedger → Assoc ℕ → CapacityLedger
restore l used = record l { used = used }

-- A successful reservation takes one slot of its class and no other, and only below the limit.
pub reserve_lem :
    (l m : CapacityLedger) (class : Bytes)
    → ((c : Bytes) → slots c l.limits < 4294967296)
    → reserve l class ≡ ok m
    → (slots class l.used < slots class l.limits)
      × (m.limits ≡ l.limits)
      × (m.used ≡ put class (slots class l.used + 1) l.used)
unfolding reserve
reserve_lem l m class small h = ground (arith, small class)

pub release-used :
    (l : CapacityLedger) (class c : Bytes)
    → slots c (release l class).used ≡ (if beq class c then slots c l.used - 1 else slots c l.used)
unfolding release
release-used l class c =
    ground (arith, slots-put class c (slots class l.used - 1) l.used, beq_iff class c)

pub release-limits : (l : CapacityLedger) (class : Bytes) → (release l class).limits ≡ l.limits
unfolding release
release-limits l class = ground arith

known_class : (class : Bytes) (m : Assoc ℕ) → 0 < slots class m → unknown class m ≡ false
unfolding slots
known_class class m h = ground arith

-- Below the limit a reservation succeeds.
pub reserve_room :
    (l : CapacityLedger) (class : Bytes)
    → slots class l.used < slots class l.limits
    → slots class l.limits < 4294967296
    → reserve l class ≡ ok (record l { used = put class (slots class l.used + 1) l.used })
unfolding reserve
reserve_room l class room small = ground (arith, known_class class l.limits)
