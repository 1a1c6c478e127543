-- ===== src/SlotTable/Lookup.antt =====
-- The array and its count, seen as the list of the slots in use: search and writes through a found
-- pointer are operations on that list.
use hft_order_book.Base.{
  ℕ, zero, suc, ◌≤◌, ◌≡◌, refl, ◌∙◌, inl, inr, Option, none, some, List, [], ◌∷◌, if◌then◌else◌,
  length, get_elem?, modify, take, length-modify, arith, Option-cases, length-replicate,
}
use hft_order_book.Base.Bytes.{Bytes, StringView, strncmp_eq}
use hft_order_book.SlotTable.{
  Table, find_from, find, get, update_at, clear, for_each_from, for_each,
}

-- The slots in use.
abbrev pub entries {ℓ} : {A : Type ℓ} → Table A → List A
entries t = take t.count t.slots

pub record IsTable {ℓ} {A : Type ℓ} (capacity : ℕ) (t : Table A) : Type ℓ where
  pub sized : length t.slots ≡ capacity
  pub within : t.count ≤ capacity

pub clear-IsTable {ℓ} :
    {A : Type ℓ} (capacity : ℕ) (zero_slot : A) → IsTable capacity (clear capacity zero_slot)
unfolding clear
clear-IsTable {A} capacity zero_slot = record {
  sized = length-replicate capacity zero_slot;
  within = omega arith;
}

pub update_at-IsTable {ℓ} :
    {A : Type ℓ} (capacity : ℕ) (f : A → A) (p : Option ℕ) (t : Table A)
    → IsTable capacity t
    → IsTable capacity (update_at f p t)
unfolding update_at
update_at-IsTable capacity f none t h = h
update_at-IsTable capacity f (some i) t h = record {
  sized = length-modify t.slots i f ∙ h.sized;
  within = h.within;
}

module _ {ℓ} {A : Type ℓ} (name : A → Bytes) where
  -- The first entry of that name.
  unfoldable pub first : Bytes → List A → Option A
  first k [] = none
  first k (x ∷ xs) = if strncmp_eq (name x) k 8 then some x else first k xs

  -- A change of the first entry of that name.
  unfoldable pub change : Bytes → (A → A) → List A → List A
  change k f [] = []
  change k f (x ∷ xs) = if strncmp_eq (name x) k 8 then f x ∷ xs else x ∷ change k f xs

  find_from-first :
      (n : ℕ) (xs : List A) (k : Bytes)
      → (elim (find_from name n xs k) [ none ↦ none | some i ↦ get_elem? xs i ])
        ≡ first k (take n xs)
  unfolding find_from first
  find_from-first zero xs k = refl
  find_from-first (suc n) [] k = refl
  find_from-first (suc n) (x ∷ xs) k = ground (arith, find_from-first n xs k)

  -- `get` searches the entries.
  pub get-entries : (t : Table A) (v : StringView) → get name t v ≡ first v.data_bytes (entries t)
  unfolding get find
  get-entries t v = find_from-first t.count t.slots v.data_bytes

  pub find_from-none :
      (n : ℕ) (xs : List A) (k : Bytes)
      → find_from name n xs k ≡ none
      → (first k (take n xs) ≡ none)
  unfolding find_from first
  find_from-none zero xs k h = refl
  find_from-none (suc n) [] k h = refl
  find_from-none (suc n) (x ∷ xs) k h = ground (arith, find_from-none n xs k)

  pub find_from-some :
      (n : ℕ) (xs : List A) (k : Bytes) (i : ℕ)
      → find_from name n xs k ≡ some i
      → (x : A) × (first k (take n xs) ≡ some x)
  unfolding find_from first
  find_from-some zero xs k i h = cc
  find_from-some (suc n) [] k i h = cc
  find_from-some (suc n) (x ∷ xs) k zero h = (x, ground arith)
  find_from-some (suc n) (x ∷ xs) k (suc i) h =
      let r = find_from-some n xs k i (ground arith) in (r.0, ground (arith, r.1))

  pub take-modify :
      (n : ℕ) (xs : List A) (k : Bytes) (f : A → A) (i : ℕ)
      → find_from name n xs k ≡ some i
      → take n (modify xs i f) ≡ change k f (take n xs)
  unfolding find_from change
  take-modify zero xs k f i h = refl
  take-modify (suc n) [] k f i h = refl
  take-modify (suc n) (x ∷ xs) k f zero h = ground arith
  take-modify (suc n) (x ∷ xs) k f (suc i) h = ground (arith, take-modify n xs k f i)

  change_absent : (k : Bytes) (f : A → A) (xs : List A) → first k xs ≡ none → change k f xs ≡ xs
  unfolding first change
  change_absent k f [] h = refl
  change_absent k f (x ∷ xs) h = ground (arith, change_absent k f xs)

  -- A write through what `find` returns changes the first entry of that name, if there is one.
  pub entries-update_at :
      (t : Table A) (v : StringView) (f : A → A)
      → entries (update_at f (find name t v) t) ≡ change v.data_bytes f (entries t)
  unfolding update_at find
  entries-update_at t v f = elim (Option-cases (find_from name t.count t.slots v.data_bytes)) [
    | inl e ↦
        rw (e, update_at)
          (ground (
            arith,
            change_absent v.data_bytes f (entries t)
                (find_from-none t.count t.slots v.data_bytes e),
          ))
    | inr (i, e) ↦ rw (e, update_at) (take-modify t.count t.slots v.data_bytes f i e)
  ]

abbrev pub foldl {ℓ κ} : {A : Type ℓ} {S : Type κ} → (S → A → S) → S → List A → S
foldl fn s [] = s
foldl fn s (x ∷ xs) = foldl fn (fn s x) xs

for_each_from-foldl {ℓ κ} :
    {A : Type ℓ} {S : Type κ} (fn : S → A → S) (n : ℕ) (xs : List A) (s : S)
    → for_each_from fn n xs s ≡ foldl fn s (take n xs)
unfolding for_each_from
for_each_from-foldl fn zero xs s = refl
for_each_from-foldl fn (suc n) [] s = refl
for_each_from-foldl fn (suc n) (x ∷ xs) s = for_each_from-foldl fn n xs (fn s x)

-- A loop over the slots visits the entries in order.
pub for_each-entries {ℓ κ} :
    {A : Type ℓ} {S : Type κ} (fn : S → A → S) (t : Table A) (s : S)
    → for_each fn t s ≡ foldl fn s (entries t)
unfolding for_each
for_each-entries fn t s = for_each_from-foldl fn t.count t.slots s
