-- ===== src/SlotTable/Distinct.antt =====
-- No two slots in use have the same name, and a table never outgrows its array.
use hft_order_book.Base.{
  set, ℕ, ◌+◌, ◌≤◌, ◌≡◌, refl, inl, inr, false, none, some, List, [], ◌∷◌, ◌++◌, All, arith,
  Bool-cases, Option-cases, length-set, length-modify,
}
use hft_order_book.Base.Bytes.{
  Bytes, StringView, strncpy, strncmp_eq, strncmp_eq-strncpy, strncmp_eq_sym, strncmp_eq_refl,
}
use hft_order_book.SlotTable.{Table, find_from, find, get_or_create, update_at, upsert, clear}
use hft_order_book.SlotTable.Lookup.{entries, IsTable, first, change, entries-update_at}
use hft_order_book.SlotTable.Upsert.{first-append, first-change, entries-upsert}

module _ {ℓ} {A : Type ℓ} (name : A → Bytes) where
  -- No entry has the name of one behind it.
  abbrev pub Distinct : List A → Type ℓ
  Distinct [] = Unit
  Distinct (x ∷ xs) = (first name (name x) xs ≡ none) × Distinct xs

  pub change-Distinct :
      (k : Bytes) (f : A → A) (xs : List A)
      → ((x : A) → name (f x) ≡ name x)
      → Distinct xs
      → Distinct (change name k f xs)
  unfolding change
  change-Distinct k f [] keeps d = d
  change-Distinct k f (x ∷ xs) keeps d = ground (
    arith,
    keeps x,
    change-Distinct k f xs keeps d.1,
    first-change name k (name x) f xs keeps,
    strncmp_eq_sym (name x) k 8,
  )

  pub append-Distinct :
      (xs : List A) (x : A) → first name (name x) xs ≡ none → Distinct xs → Distinct (xs ++ x ∷ [])
  unfolding first
  append-Distinct [] x e d = (refl, tt)
  append-Distinct (y ∷ xs) x e d = ground (
    arith,
    append-Distinct xs x,
    first-append name (name y) xs x,
    strncmp_eq_sym (name x) (name y) 8,
  )

  pub first-strncpy : (k : Bytes) (xs : List A) → first name (strncpy k 8) xs ≡ first name k xs
  unfolding first
  first-strncpy k [] = refl
  first-strncpy k (x ∷ xs) = ground (
    arith,
    first-strncpy k xs,
    strncmp_eq_sym (name x) k 8,
    strncmp_eq_sym (name x) (strncpy k 8) 8,
    strncmp_eq-strncpy k (name x) 8,
  )

  pub upsert-IsTable :
      (capacity : ℕ) (blank : Bytes → A) (f : A → A) (t : Table A) (v : StringView)
      → IsTable capacity t
      → IsTable capacity (upsert name capacity blank f t v)
  unfolding get_or_create find update_at
  upsert-IsTable capacity blank f t v h =
      elim (Option-cases (find_from name t.count t.slots v.data_bytes)) [
        | inl e ↦
            rw (e, get_or_create)
              (ground (
                arith,
                length-set t.slots t.count (blank (strncpy v.data_bytes 8)),
                length-modify (set t.slots t.count (blank (strncpy v.data_bytes 8))) t.count f,
              ))
        | inr (i, e) ↦ rw (e, get_or_create) (ground (arith, length-modify t.slots i f))
      ]

  pub upsert-count-le :
      (capacity : ℕ) (blank : Bytes → A) (f : A → A) (t : Table A) (v : StringView)
      → (upsert name capacity blank f t v).count ≤ t.count + 1
  unfolding get_or_create find update_at
  upsert-count-le capacity blank f t v =
      elim (Option-cases (find_from name t.count t.slots v.data_bytes)) [
        | inl e ↦ rw (e, get_or_create) (ground arith)
        | inr (i, e) ↦ rw (e, get_or_create) (omega arith)
      ]

  pub upsert-count-ge :
      (capacity : ℕ) (blank : Bytes → A) (f : A → A) (t : Table A) (v : StringView)
      → t.count ≤ (upsert name capacity blank f t v).count
  unfolding get_or_create find update_at
  upsert-count-ge capacity blank f t v =
      elim (Option-cases (find_from name t.count t.slots v.data_bytes)) [
        | inl e ↦ rw (e, get_or_create) (ground arith)
        | inr (i, e) ↦ rw (e, get_or_create) (omega arith)
      ]

  pub upsert-Distinct :
      (capacity : ℕ) (blank : Bytes → A) (f : A → A) (t : Table A) (v : StringView)
      → ((x : A) → name (f x) ≡ name x)
      → ((k : Bytes) → name (blank k) ≡ k)
      → IsTable capacity t
      → Distinct (entries t)
      → Distinct (entries (upsert name capacity blank f t v))
  upsert-Distinct capacity blank f t v keeps named h d =
      rw (entries-upsert name capacity blank f t v h)
        (elim (Option-cases (first name k (entries t))) [
          | inl e ↦ rw e (
              ground (
                arith,
                e,
                append-Distinct (entries t) (f b),
                keeps b,
                named (strncpy k 8),
                first-strncpy k (entries t),
              ))
          | inr (x, e) ↦ rw e (change-Distinct k f (entries t) keeps d)
        ])
    where
      k : Bytes
      k = v.data_bytes

      b : A
      b = blank (strncpy k 8)

  pub update_at-Distinct :
      (f : A → A) (t : Table A) (v : StringView)
      → ((x : A) → name (f x) ≡ name x)
      → Distinct (entries t)
      → Distinct (entries (update_at f (find name t v) t))
  update_at-Distinct f t v keeps d =
      rw (entries-update_at name t v f) (change-Distinct v.data_bytes f (entries t) keeps d)

  pub clear-Distinct :
      (capacity : ℕ) (zero_slot : A) → Distinct (entries (clear capacity zero_slot))
  unfolding clear
  clear-Distinct capacity zero_slot = tt

  missing-All :
      (k : Bytes) (xs : List A)
      → first name k xs ≡ none
      → All (λ (y : A). strncmp_eq (name y) k 8 ≡ false) xs
  unfolding first
  missing-All k [] h = tt
  missing-All k (x ∷ xs) h = elim (Bool-cases (strncmp_eq (name x) k 8)) [
    | inl same ↦ absurd (cc (rw same at h))
    | inr other ↦ (other, missing-All k xs (rw other at h))
  ]

  first-past :
      (x : A) (ys zs : List A)
      → All (λ (y : A). strncmp_eq (name y) (name x) 8 ≡ false) ys
      → All (λ (y : A). first name (name y) zs ≡ some y) ys
      → All (λ (y : A). first name (name y) (x ∷ zs) ≡ some y) ys
  unfolding first
  first-past x [] zs others found = tt
  first-past x (y ∷ ys) zs (other, others) (here, found) =
      (rw (strncmp_eq_sym (name x) (name y) 8, other) here, first-past x ys zs others found)

  -- Every entry is found under its name.
  pub first-All : (xs : List A) → Distinct xs → All (λ (y : A). first name (name y) xs ≡ some y) xs
  unfolding first
  first-All [] d = tt
  first-All (x ∷ xs) (fresh, d) = (
    rw (strncmp_eq_refl (name x) 8) refl,
    first-past x xs xs (missing-All (name x) xs fresh) (first-All xs d),
  )
