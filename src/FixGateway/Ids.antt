-- ===== src/FixGateway/Ids.antt =====
-- The order ids in their eight bytes: distinct up to ORD99999, and shared from there on.
use hft_order_book.Base.{
  ℕ, zero, suc, ◌+◌, ◌/◌, ◌%◌, ◌≤◌, ◌<◌, ◌≡◌, refl, ap, ◌∙◌, true, [], ◌∷◌, ◌++◌, length, All,
  arith,
}
use hft_order_book.Base.Bytes.{Bytes, strncpy, strncmp_eq}
use hft_order_book.Base.Decimal.{to_string, to_string-injective}
use hft_order_book.Base.Digits.{
  length-to_string-le, le-length-to_string, to_string-All, to_string-last,
}
use hft_order_book.FixGateway.{Gateway, order_prefix, next_order_id}

-- The id that a count gives.
abbrev pub numbered : ℕ → Bytes
numbered n = order_prefix ++ to_string n

pub next_order_id-numbered : (g : Gateway) → (next_order_id g).0 ≡ numbered g.order_counter
unfolding next_order_id
next_order_id-numbered g = refl

-- Texts without NUL that fit in `n` bytes are equal if they compare so.
eq_of_strncmp_eq :
    (s t : Bytes) (n : ℕ)
    → All (λ d. 48 ≤ d) s
    → All (λ d. 48 ≤ d) t
    → length s ≤ n
    → length t ≤ n
    → strncmp_eq s t n ≡ true
    → s ≡ t
unfolding strncmp_eq
eq_of_strncmp_eq [] [] n a b h k e = refl
eq_of_strncmp_eq [] (d ∷ t) zero a b h k e = elim k [ ]
eq_of_strncmp_eq [] (d ∷ t) (suc n) a b h k e = ground arith
eq_of_strncmp_eq (c ∷ s) t zero a b h k e = elim h [ ]
eq_of_strncmp_eq (c ∷ s) [] (suc n) a b h k e = ground arith
eq_of_strncmp_eq (c ∷ s) (d ∷ t) (suc n) a b h k e =
    ground (arith, eq_of_strncmp_eq s t n a.1 b.1 (omega arith) (omega arith))

-- A copy of `n` bytes of a text that has them does not see what follows.
strncpy-append : (s t : Bytes) (n : ℕ) → n ≤ length s → strncpy (s ++ t) n ≡ strncpy s n
unfolding strncpy
strncpy-append s t zero h = refl
strncpy-append [] t (suc n) h = elim h [ ]
strncpy-append (c ∷ s) t (suc n) h = ground (arith, strncpy-append s t n (omega arith))

-- Below 100000 different counts give ids that differ in their first eight bytes.
pub numbered-injective :
    (m n : ℕ) → m < 100_000 → n < 100_000 → strncmp_eq (numbered m) (numbered n) 8 ≡ true → m ≡ n
unfolding strncmp_eq
numbered-injective m n h k e = to_string-injective m n (
    eq_of_strncmp_eq (to_string m) (to_string n) 5 (to_string-All m) (to_string-All n)
      (length-to_string-le 4 m h) (length-to_string-le 4 n k) e)

-- From 100000 on an id has the first eight bytes of an earlier one, that of a tenth of the count.
pub numbered_shared : (n : ℕ) → 100_000 ≤ n → strncpy (numbered n) 8 ≡ strncpy (numbered (n / 10)) 8
unfolding strncpy
numbered_shared n h =
    ap (λ s. strncpy (order_prefix ++ s) 8) (to_string-last n (omega arith))
    ∙ ap (λ s. b'O' ∷ b'R' ∷ b'D' ∷ s)
        (strncpy-append (to_string (n / 10)) ((b'0' + n % 10) ∷ []) 5
          (le-length-to_string 4 (n / 10) (omega arith)))

-- Gateways with different counters below 100000 give ids that differ in the eight bytes that are
-- stored of them.
pub next_order_id-injective :
    (g g' : Gateway)
    → g.order_counter < 100_000
    → g'.order_counter < 100_000
    → strncmp_eq (next_order_id g).0 (next_order_id g').0 8 ≡ true
    → g.order_counter ≡ g'.order_counter
unfolding next_order_id
next_order_id-injective g g' h k e = numbered-injective g.order_counter g'.order_counter h k e

-- From the counter 100000 on, what is stored of the next id is what was stored of the id at a tenth of
-- the counter.
pub next_order_id_shared :
    (g : Gateway)
    → 100_000 ≤ g.order_counter
    → strncpy (next_order_id g).0 8
      ≡ strncpy (next_order_id (record g { order_counter = g.order_counter / 10 })).0 8
unfolding next_order_id
next_order_id_shared g h = numbered_shared g.order_counter h
