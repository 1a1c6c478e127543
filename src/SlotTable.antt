-- ===== src/SlotTable.antt =====
-- The flat array of slots with a count that OrderManager and PositionTracker each keep, with the
-- linear search by an eight-byte name. A `T*` into the array is an index.
-- Children: Lookup (the search), Upsert (a write to a found or new entry), Distinct (names that occur
-- once), Images (entries changed without their names), Everywhere
-- (what all entries have).
pub mod Lookup
pub mod Upsert
pub mod Distinct
pub mod Images
pub mod Everywhere
use hft_order_book.Base.{
  ℕ, zero, suc, Bool, true, false, Option, none, some, List, [], ◌∷◌, leb, if◌then◌else◌, get_elem?,
  set, modify, replicate,
}
use hft_order_book.Base.Bytes.{Bytes, StringView, strncpy, strncmp_eq}

pub record Table {ℓ} (A : Type ℓ) : Type ℓ where
  pub slots : List A
  pub count : ℕ

module _ {ℓ} {A : Type ℓ} (name : A → Bytes) where
  -- The loop `for (i = 0; i < count_; ++i)`, with the rounds left.
  unfoldable pub find_from : ℕ → List A → Bytes → Option ℕ
  find_from zero xs k = none
  find_from (suc n) [] k = none
  find_from (suc n) (x ∷ xs) k =
      if strncmp_eq (name x) k 8
      then some 0
      else elim (find_from n xs k) [ none ↦ none | some i ↦ some (suc i) ]

  unfoldable pub find : Table A → StringView → Option ℕ
  unfolding find_from
  find t v = find_from t.count t.slots v.data_bytes

  unfoldable pub get : Table A → StringView → Option A
  unfolding find
  get t v = elim (find t v) [ none ↦ none | some i ↦ get_elem? t.slots i ]

  -- A fresh slot is cleared and named: `blank` is the slot after `memset` and `strncpy`.
  unfoldable pub get_or_create : ℕ → (Bytes → A) → Table A → StringView → Option ℕ × Table A
  unfolding find strncpy
  get_or_create capacity blank t v = elim (find t v) [
    | some i ↦ (some i, t)
    | none ↦ if leb capacity t.count then (none, t) else (
      some t.count,
      record { slots = set t.slots t.count (blank (strncpy v.data_bytes 8)); count = suc t.count },
    )
  ]

-- Writes through a pointer; `if (!p) return` on a null one.
unfoldable pub update_at {ℓ} : {A : Type ℓ} → (A → A) → Option ℕ → Table A → Table A
update_at f none t = t
update_at f (some i) t = record t { slots = modify t.slots i f }

-- `memset` of the array, and a count of 0.
unfoldable pub clear {ℓ} : {A : Type ℓ} → ℕ → A → Table A
unfolding replicate
clear capacity zero_slot = record { slots = replicate capacity zero_slot; count = 0 }

-- `if (T* p = get_or_create(v)) *p = f(*p)`.
abbrev pub upsert {ℓ} :
    {A : Type ℓ} → (A → Bytes) → ℕ → (Bytes → A) → (A → A) → Table A → StringView → Table A
upsert name capacity blank f t v =
    let (p, t') = get_or_create name capacity blank t v in update_at f p t'

-- `for (i = 0; i < count_; ++i) fn(slots_[i])`, where `fn` updates the state that it captures.
for_each_from {ℓ κ} : {A : Type ℓ} {S : Type κ} → (S → A → S) → ℕ → List A → S → S
for_each_from fn zero xs s = s
for_each_from fn (suc n) [] s = s
for_each_from fn (suc n) (x ∷ xs) s = for_each_from fn n xs (fn s x)

unfoldable pub for_each {ℓ κ} : {A : Type ℓ} {S : Type κ} → (S → A → S) → Table A → S → S
unfolding for_each_from
for_each fn t s = for_each_from fn t.count t.slots s
