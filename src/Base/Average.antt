-- ===== src/Base/Average.antt =====
-- The truncating quotient: how far it is from the exact one, and weighted means.
use Prim.Native.Nat.{ℕ, suc, ◌+◌, ◌*◌, ◌≤◌, ◌<◌}
use mathlib.Core.Path.{ap, ◌∙◌}
use native.Mathlib.Omega.{arith}
use hft_order_book.Base.Int.{
  ℤ, pos, negsuc, pos_part, neg_part, ◌+ℤ◌, ◌-ℤ◌, neg, ◌*ℤ◌, ◌/ℤ◌, ◌≤ℤ◌, ◌<ℤ◌, int_laws, ring_laws,
  parts_of_eq,
}
use hft_order_book.Base.Ring.{*ℤ-add_left, *ℤ-zero, *ℤ_mono, *ℤ_comm, ℤ-trichotomy}
use mathlib.Core.Logic.{inl, inr}

-- What a truncating division leaves is smaller than the divisor, either way.
pub remainder_bounds :
    (c n : ℤ) → pos 0 <ℤ n → (neg n <ℤ c -ℤ (c /ℤ n) *ℤ n) × (c -ℤ (c /ℤ n) *ℤ n <ℤ n)
unfolding ◌/ℤ◌ ◌*ℤ◌ ◌-ℤ◌ neg
remainder_bounds (pos m) (pos n) h = ground arith
remainder_bounds (negsuc m) (pos n) h = ground arith
remainder_bounds (pos m) (negsuc n) h = absurd (omega arith)
remainder_bounds (negsuc m) (negsuc n) h = absurd (omega arith)

cancel_factor : (x y n : ℕ) → x * n < suc y * n → x ≤ y
cancel_factor x y n h = grind arith

-- A quotient lies between bounds that hold of the exact one.
pub div_bounds :
    (lo hi c n : ℤ) → pos 0 <ℤ n → lo *ℤ n ≤ℤ c → c ≤ℤ hi *ℤ n → (lo ≤ℤ c /ℤ n) × (c /ℤ n ≤ℤ hi)
div_bounds lo hi c (pos n) h l u =
    let (below, above) = remainder_bounds c (pos n) h in
    let q : ℤ = c /ℤ pos n in
    (
      cancel_factor (pos_part lo + neg_part q) (pos_part q + neg_part lo) n
          (omega (ring_laws, below, above)),
      cancel_factor (pos_part q + neg_part hi) (pos_part hi + neg_part q) n
          (omega (ring_laws, below, above)),
    )
div_bounds lo hi c (negsuc n) h l u = absurd (omega arith)

le_weighted : (lo a n : ℤ) → pos 0 ≤ℤ n → (pos 0 <ℤ n → lo ≤ℤ a) → lo *ℤ n ≤ℤ a *ℤ n
le_weighted lo a n h k = elim (ℤ-trichotomy n) [
  | inl below ↦ absurd (omega arith)
  | inr (inl zero_weight) ↦ omega (
    int_laws,
    parts_of_eq (ap (◌*ℤ◌ lo) zero_weight ∙ *ℤ-zero lo),
    parts_of_eq (ap (◌*ℤ◌ a) zero_weight ∙ *ℤ-zero a),
  )
  | inr (inr above) ↦ *ℤ_mono lo a n (k above) h
]

-- The truncated mean of two prices, weighted by quantities, lies between bounds of both; a price of
-- no weight need not be within them.
pub mean_bounds :
    (lo hi a x n q : ℤ)
    → pos 0 ≤ℤ n
    → pos 0 ≤ℤ q
    → pos 0 <ℤ n +ℤ q
    → (pos 0 <ℤ n → (lo ≤ℤ a) × (a ≤ℤ hi))
    → (lo ≤ℤ x) × (x ≤ℤ hi)
    → (lo ≤ℤ (a *ℤ n +ℤ x *ℤ q) /ℤ (n +ℤ q)) × ((a *ℤ n +ℤ x *ℤ q) /ℤ (n +ℤ q) ≤ℤ hi)
mean_bounds lo hi a x n q hn hq h old new =
    div_bounds lo hi (a *ℤ n +ℤ x *ℤ q) (n +ℤ q) h
      (omega (
        int_laws,
        parts_of_eq (*ℤ-add_left lo n q),
        le_weighted lo a n hn (λ w. (old w).0),
        *ℤ_mono lo x q new.0 hq,
      ))
      (omega (
        int_laws,
        parts_of_eq (*ℤ-add_left hi n q),
        le_weighted a hi n hn (λ w. (old w).1),
        *ℤ_mono x hi q new.1 hq,
      ))

-- A product of a price within bounds and a quantity, unless the quantity is 0.
pub weighted_bounds :
    (lo hi a n : ℤ)
    → pos 0 ≤ℤ lo
    → pos 0 ≤ℤ n
    → (pos 0 <ℤ n → (lo ≤ℤ a) × (a ≤ℤ hi))
    → (pos 0 ≤ℤ a *ℤ n) × (a *ℤ n ≤ℤ hi *ℤ n)
weighted_bounds lo hi a n low h k = elim (ℤ-trichotomy n) [
  | inl below ↦ absurd (omega arith)
  | inr (inl is_zero) ↦
      let first = parts_of_eq (ap (◌*ℤ◌ a) is_zero ∙ *ℤ-zero a) in
      let second = parts_of_eq (ap (◌*ℤ◌ hi) is_zero ∙ *ℤ-zero hi) in
      (omega int_laws, omega int_laws)
  | inr (inr above) ↦
      let (ge, le) = k above in
      let from_zero = *ℤ_mono (pos 0) a n (omega int_laws) h in
      let no_part = parts_of_eq (*ℤ_comm (pos 0) n ∙ *ℤ-zero n) in
      (omega int_laws, *ℤ_mono a hi n le h)
]
