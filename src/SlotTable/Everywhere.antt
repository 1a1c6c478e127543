-- ===== src/SlotTable/Everywhere.antt =====
-- What all entries of a table have is kept by writes that keep it.
use hft_order_book.Base.{
  ℕ, Option, none, some, List, [], ◌∷◌, ◌++◌, leb, if◌then◌else◌, if_has, All,
}
use hft_order_book.Base.Bytes.{Bytes, StringView, strncpy, strncmp_eq}
use hft_order_book.SlotTable.{Table, find, upsert, update_at}
use hft_order_book.SlotTable.Lookup.{entries, IsTable, first, change, entries-update_at}
use hft_order_book.SlotTable.Upsert.{entries-upsert}

module _ {ℓ κ} {A : Type ℓ} (P : A → Type κ) where
  All-append : (xs ys : List A) → All P xs → All P ys → All P (xs ++ ys)
  All-append [] ys h k = k
  All-append (x ∷ xs) ys (h, hs) k = (h, All-append xs ys hs k)

  module _ (name : A → Bytes) (f : A → A) (keeps : (x : A) → P x → P (f x)) where
    All-change : (k : Bytes) (xs : List A) → All P xs → All P (change name k f xs)
    unfolding change
    All-change k [] h = h
    All-change k (x ∷ xs) (h, hs) =
        if_has (All P) (strncmp_eq (name x) k 8) (f x ∷ xs) (x ∷ change name k f xs) (keeps x h, hs)
          (h, All-change k xs hs)

    pub All-update_at :
        (t : Table A) (v : StringView)
        → All P (entries t)
        → All P (entries (update_at f (find name t v) t))
    All-update_at t v h = rw (entries-update_at name t v f) (All-change v.data_bytes (entries t) h)

    pub All-upsert :
        (capacity : ℕ) (blank : Bytes → A) (t : Table A) (v : StringView)
        → P (blank (strncpy v.data_bytes 8))
        → IsTable capacity t
        → All P (entries t)
        → All P (entries (upsert name capacity blank f t v))
    All-upsert capacity blank t v new table h =
        rw (entries-upsert name capacity blank f t v table)
          (cases (first name v.data_bytes (entries t)))
      where
        cases :
            (o : Option A)
            → All P (elim o [
              | some x ↦ change name v.data_bytes f (entries t)
              | none ↦
                  if leb capacity t.count
                  then entries t
                  else entries t ++ f (blank (strncpy v.data_bytes 8)) ∷ []
            ])
        cases (some x) = All-change v.data_bytes (entries t) h
        cases none =
            if_has (All P) (leb capacity t.count) (entries t) _ h
              (All-append (entries t) _ h (keeps _ new, tt))
