-- ===== src/SlotTable/Upsert.antt =====
-- What `get` finds after a write through a found pointer and after a write to a found or new slot.
use hft_order_book.Base.{
  sym, ℕ, ◌≤◌, ◌<◌, ◌≡◌, refl, ◌∙◌, inl, inr, Bool, true, false, Option, none, some, List, [], ◌∷◌,
  ◌++◌, leb, if◌then◌else◌, take-set, modify-set, arith, Option-cases, Bool-cases,
}
use mathlib.Core.Option
use hft_order_book.Base.Bytes.{
  Bytes, StringView, strncpy, strncmp_eq, strncmp_eq-strncpy, strncmp_eq_trans, strncmp_eq_sym,
}
use hft_order_book.SlotTable.{Table, find_from, find, get, get_or_create, update_at, upsert}
use hft_order_book.SlotTable.Lookup.{
  entries, IsTable, first, change, get-entries, entries-update_at, find_from-none, find_from-some,
  take-modify,
}

-- What becomes of the entry of the written name: it is changed, or made and changed unless the
-- table is full.
abbrev pub upsert_entry {ℓ} : {A : Type ℓ} → (A → A) → A → Bool → Option A → Option A
upsert_entry f new full (some x) = some (f x)
upsert_entry f new full none = if full then none else some (f new)

module _ {ℓ} {A : Type ℓ} (name : A → Bytes) where
  pub first-append :
      (k : Bytes) (xs : List A) (x : A)
      → first name k (xs ++ x ∷ []) ≡ (elim (first name k xs) [
        | some y ↦ some y
        | none ↦ if strncmp_eq (name x) k 8 then some x else none
      ])
  unfolding first
  first-append k [] x = refl
  first-append k (y ∷ xs) x = ground (arith, first-append k xs x)

  pub first-change :
      (k j : Bytes) (f : A → A) (xs : List A)
      → ((x : A) → name (f x) ≡ name x)
      → first name j (change name k f xs)
        ≡ (if strncmp_eq k j 8 then Option.map f (first name j xs) else first name j xs)
  unfolding first change
  first-change k j f [] h = ground arith
  first-change k j f (x ∷ xs) h = ground (
    arith,
    h x,
    first-change k j f xs h,
    strncmp_eq_trans (name x) k j 8,
    strncmp_eq_trans k j (name x) 8,
    strncmp_eq_sym (name x) k 8,
    strncmp_eq_sym (name x) j 8,
  )

  pub first_congr :
      (k j : Bytes) (xs : List A) → strncmp_eq k j 8 ≡ true → first name k xs ≡ first name j xs
  unfolding first
  first_congr k j [] h = refl
  first_congr k j (x ∷ xs) h = ground (
    arith,
    first_congr k j xs h,
    strncmp_eq_trans k j (name x) 8 h,
    strncmp_eq_sym (name x) k 8,
    strncmp_eq_sym (name x) j 8,
  )

  -- After a write to the found or new slot: the found entry is changed, or a full table is left
  -- alone, or a new entry ends the list.
  pub entries-upsert :
      (capacity : ℕ) (blank : Bytes → A) (f : A → A) (t : Table A) (v : StringView)
      → IsTable capacity t
      → entries (upsert name capacity blank f t v) ≡ (elim (first name v.data_bytes (entries t)) [
        | some x ↦ change name v.data_bytes f (entries t)
        | none ↦
            if leb capacity t.count
            then entries t
            else entries t ++ f (blank (strncpy v.data_bytes 8)) ∷ []
      ])
  unfolding get_or_create find update_at
  entries-upsert capacity blank f t v h =
      elim (Option-cases (find_from name t.count t.slots v.data_bytes)) [
        | inl e ↦
            rw (e, get_or_create)
              (rw (find_from-none name t.count t.slots v.data_bytes e)
                (elim (Bool-cases (leb capacity t.count)) [
                  | inl full ↦ rw (full, update_at)
                  | inr room ↦
                      rw (room, update_at)
                        (ground (
                          arith,
                          h.sized,
                          modify-set t.slots t.count (blank (strncpy v.data_bytes 8)) f,
                          take-set t.count t.slots (f (blank (strncpy v.data_bytes 8))),
                        ))
                ]))
        | inr (i, e) ↦
            let (x, found) = find_from-some name t.count t.slots v.data_bytes i e in
            rw (e, get_or_create) (rw found (take-modify name t.count t.slots v.data_bytes f i e))
      ]

  -- A full table takes no new name.
  pub upsert_full :
      (capacity : ℕ) (blank : Bytes → A) (f : A → A) (t : Table A) (v : StringView)
      → get name t v ≡ none
      → capacity ≤ t.count
      → upsert name capacity blank f t v ≡ t
  unfolding get_or_create find update_at
  upsert_full capacity blank f t v absent full =
      elim (Option-cases (find_from name t.count t.slots v.data_bytes)) [
        | inl e ↦ rw (e, get_or_create) (ground arith)
        | inr (i, e) ↦
            let (x, found) = find_from-some name t.count t.slots v.data_bytes i e in
            cc (get-entries name t v, absent, found)
      ]

  -- A new name in a table with room.
  pub entries-upsert_new :
      (capacity : ℕ) (blank : Bytes → A) (f : A → A) (t : Table A) (v : StringView)
      → IsTable capacity t
      → get name t v ≡ none
      → t.count < capacity
      → entries (upsert name capacity blank f t v)
        ≡ entries t ++ f (blank (strncpy v.data_bytes 8)) ∷ []
  entries-upsert_new capacity blank f t v h absent room =
      entries-upsert capacity blank f t v h ∙ rw (missing, not_full)
    where
      missing : first name v.data_bytes (entries t) ≡ none
      missing = sym (get-entries name t v) ∙ absent

      not_full : leb capacity t.count ≡ false
      not_full = ground arith

  -- What is then found under any name: the written slot under that one, the old under the others.
  pub get-upsert :
      (capacity : ℕ) (blank : Bytes → A) (f : A → A) (t : Table A) (v w : StringView)
      → ((x : A) → name (f x) ≡ name x)
      → ((k : Bytes) → name (blank k) ≡ k)
      → IsTable capacity t
      → get name (upsert name capacity blank f t v) w ≡ (
          if strncmp_eq v.data_bytes w.data_bytes 8
          then upsert_entry f (blank (strncpy v.data_bytes 8)) (leb capacity t.count) (get name t w)
          else get name t w)
  get-upsert capacity blank f t v w keeps named h =
      rw
        (
          get-entries name (upsert name capacity blank f t v) w,
          get-entries name t w,
          entries-upsert capacity blank f t v h,
        )
        (elim (Option-cases (first name k (entries t))) [
          | inl e ↦ rw e (
              ground (
                arith,
                e,
                first_congr k w.data_bytes (entries t),
                first-append w.data_bytes (entries t) (f b),
                keeps b,
                named (strncpy k 8),
                strncmp_eq-strncpy k w.data_bytes 8,
              ))
          | inr (x, e) ↦ rw e (
              ground (
                arith,
                e,
                first_congr k w.data_bytes (entries t),
                first-change k w.data_bytes f (entries t) keeps,
              ))
        ])
    where
      k : Bytes
      k = v.data_bytes

      b : A
      b = blank (strncpy k 8)

  -- A write through a found pointer.
  pub get-update_at :
      (f : A → A) (t : Table A) (v w : StringView)
      → ((x : A) → name (f x) ≡ name x)
      → get name (update_at f (find name t v) t) w ≡ (
          if strncmp_eq v.data_bytes w.data_bytes 8
          then Option.map f (get name t w)
          else get name t w)
  get-update_at f t v w keeps =
      rw
        (
          get-entries name (update_at f (find name t v) t) w,
          entries-update_at name t v f,
          get-entries name t w,
        )
        (first-change v.data_bytes w.data_bytes f (entries t) keeps)
