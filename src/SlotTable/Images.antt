-- ===== src/SlotTable/Images.antt =====
-- A table seen through a map of its slots that keeps their names: search finds the same slots, and
-- writes are writes of the images.
use hft_order_book.Base.{
  ℕ, zero, suc, ◌≡◌, refl, ap, ◌∙◌, inl, inr, Option, none, some, List, [], ◌∷◌, map, set, modify,
  get_elem?, leb, Option-cases, Bool-cases,
}
use mathlib.Core.Option
use hft_order_book.Base.Bytes.{Bytes, StringView, strncpy}
use hft_order_book.SlotTable.{Table, find_from, find, get, get_or_create, update_at, upsert}

-- Every slot replaced by its image.
abbrev pub image {ℓ} : {A : Type ℓ} → (A → A) → Table A → Table A
image g t = record { slots = map g t.slots; count = t.count }

module _ {ℓ} {A : Type ℓ} (g : A → A) where
  map-set : (xs : List A) (i : ℕ) (v : A) → map g (set xs i v) ≡ set (map g xs) i (g v)
  map-set [] i v = refl
  map-set (x ∷ xs) zero v = refl
  map-set (x ∷ xs) (suc i) v = ap (◌∷◌ (g x)) (map-set xs i v)

  -- A change of a slot, where the image of the result depends on the image of the slot alone.
  map-modify :
      (f f' : A → A) (xs : List A) (i : ℕ)
      → ((x : A) → g (f x) ≡ f' (g x))
      → map g (modify xs i f) ≡ modify (map g xs) i f'
  map-modify f f' [] i h = refl
  map-modify f f' (x ∷ xs) zero h = ap (λ y. y ∷ map g xs) (h x)
  map-modify f f' (x ∷ xs) (suc i) h = ap (◌∷◌ (g x)) (map-modify f f' xs i h)

  pub image-update_at :
      (f f' : A → A) (p : Option ℕ) (t : Table A)
      → ((x : A) → g (f x) ≡ f' (g x))
      → image g (update_at f p t) ≡ update_at f' p (image g t)
  unfolding update_at
  image-update_at f f' none t h = refl
  image-update_at f f' (some i) t h =
      ap (λ xs. record t { slots = xs }) (map-modify f f' t.slots i h)

  module _ (name : A → Bytes) (keeps : (x : A) → name (g x) ≡ name x) where
    find_from-map :
        (n : ℕ) (xs : List A) (k : Bytes) → find_from name n (map g xs) k ≡ find_from name n xs k
    unfolding find_from
    find_from-map zero xs k = refl
    find_from-map (suc n) [] k = refl
    find_from-map (suc n) (x ∷ xs) k = rw (keeps x, find_from-map n xs k)

    pub find-image : (t : Table A) (v : StringView) → find name (image g t) v ≡ find name t v
    unfolding find
    find-image t v = find_from-map t.count t.slots v.data_bytes

    get_elem?-map : (xs : List A) (i : ℕ) → get_elem? (map g xs) i ≡ Option.map g (get_elem? xs i)
    get_elem?-map [] i = refl
    get_elem?-map (x ∷ xs) zero = refl
    get_elem?-map (x ∷ xs) (suc i) = get_elem?-map xs i

    -- What is found is the image of what was found.
    pub get-image :
        (t : Table A) (v : StringView) → get name (image g t) v ≡ Option.map g (get name t v)
    unfolding get find
    get-image t v = elim (Option-cases (find_from name t.count t.slots v.data_bytes)) [
      | inl e ↦ rw (find_from-map t.count t.slots v.data_bytes, e, get)
      | inr (i, e) ↦
          rw (find_from-map t.count t.slots v.data_bytes, e, get) (get_elem?-map t.slots i)
    ]

    pub image-upsert :
        (capacity : ℕ) (blank : Bytes → A) (f f' : A → A) (t : Table A) (v : StringView)
        → ((k : Bytes) → g (blank k) ≡ blank k)
        → ((x : A) → g (f x) ≡ f' (g x))
        → image g (upsert name capacity blank f t v) ≡ upsert name capacity blank f' (image g t) v
    unfolding get_or_create find update_at
    image-upsert capacity blank f f' t v blanks h =
        elim (Option-cases (find_from name t.count t.slots v.data_bytes)) [
          | inl e ↦
              rw (find_from-map t.count t.slots v.data_bytes, e, get_or_create)
                (elim (Bool-cases (leb capacity t.count)) [
                  | inl full ↦ rw (full, update_at)
                  | inr room ↦
                      rw (room, update_at)
                        (ap (λ xs. record { slots = xs; count = suc t.count }) written)
                ])
          | inr (i, e) ↦
              rw (find_from-map t.count t.slots v.data_bytes, e, get_or_create)
                (image-update_at f f' (some i) t h)
        ]
      where
        new : A
        new = blank (strncpy v.data_bytes 8)

        written :
            map g (modify (set t.slots t.count new) t.count f)
            ≡ modify (set (map g t.slots) t.count new) t.count f'
        written =
            map-modify f f' (set t.slots t.count new) t.count h
            ∙ ap (λ xs. modify xs t.count f')
                (map-set t.slots t.count new ∙ ap (set (map g t.slots) t.count) (blanks _))
