-- ===== src/Base/Ring.antt =====
-- The ring laws of the integers that the proofs about products need.
use hft_order_book.Base.Int.{
  ℤ, pos, negsuc, pos_part, neg_part, ◌+ℤ◌, ◌-ℤ◌, neg, ◌*ℤ◌, ring_laws, +ℤ_parts, -ℤ_parts,
  neg_parts, ◌≤ℤ◌, ◌<ℤ◌,
}
use mathlib.Core.Path.{◌≡◌, refl, ap, ap₂, ◌∙◌}
use Prim.Native.Nat.{ℕ, zero, suc, ◌+◌, ◌*◌, ◌≤◌}
use mathlib.Core.Logic.{◌⊎◌, inl, inr}
use native.Mathlib.Omega.{arith}

pub *ℤ_comm : (a b : ℤ) → a *ℤ b ≡ b *ℤ a
*ℤ_comm a b = omega ring_laws

pub *ℤ-sub_right : (a b c : ℤ) → (a -ℤ b) *ℤ c ≡ a *ℤ c -ℤ b *ℤ c
*ℤ-sub_right a b c = omega (
  ring_laws,
  ap (λ (t : ℕ). t * pos_part c) (-ℤ_parts a b),
  ap (λ (t : ℕ). t * neg_part c) (-ℤ_parts a b),
)

pub *ℤ-add_right : (a b c : ℤ) → (a +ℤ b) *ℤ c ≡ a *ℤ c +ℤ b *ℤ c
*ℤ-add_right a b c = omega (
  ring_laws,
  ap (λ (t : ℕ). t * pos_part c) (+ℤ_parts a b),
  ap (λ (t : ℕ). t * neg_part c) (+ℤ_parts a b),
)

pub *ℤ-neg_right : (a b : ℤ) → a *ℤ neg b ≡ neg (a *ℤ b)
*ℤ-neg_right a b = omega (
  ring_laws,
  ap (λ (t : ℕ). pos_part a * t) (neg_parts b),
  ap (λ (t : ℕ). neg_part a * t) (neg_parts b),
)

pub *ℤ-sub_left : (a b c : ℤ) → a *ℤ (b -ℤ c) ≡ a *ℤ b -ℤ a *ℤ c
*ℤ-sub_left a b c = *ℤ_comm a (b -ℤ c) ∙ *ℤ-sub_right b c a ∙ ap₂ ◌-ℤ◌ (*ℤ_comm b a) (*ℤ_comm c a)

pub *ℤ-add_left : (a b c : ℤ) → a *ℤ (b +ℤ c) ≡ a *ℤ b +ℤ a *ℤ c
*ℤ-add_left a b c = *ℤ_comm a (b +ℤ c) ∙ *ℤ-add_right b c a ∙ ap₂ ◌+ℤ◌ (*ℤ_comm b a) (*ℤ_comm c a)

mul_mono : (x y n : ℕ) → x ≤ y → x * n ≤ y * n
mul_mono x y n h = grind arith

pub *ℤ_mono : (a b c : ℤ) → a ≤ℤ b → pos 0 ≤ℤ c → a *ℤ c ≤ℤ b *ℤ c
*ℤ_mono a b (pos n) h k =
    omega (ring_laws, mul_mono (pos_part a + neg_part b) (pos_part b + neg_part a) n h)
*ℤ_mono a b (negsuc n) h k = absurd (omega arith)

pub *ℤ-zero : (a : ℤ) → a *ℤ pos 0 ≡ pos 0
*ℤ-zero a = omega ring_laws

pub ℤ-trichotomy : (a : ℤ) → (a <ℤ pos 0) ⊎ ((a ≡ pos 0) ⊎ (pos 0 <ℤ a))
ℤ-trichotomy (pos zero) = inr (inl refl)
ℤ-trichotomy (pos (suc n)) = inr (inr (omega arith))
ℤ-trichotomy (negsuc n) = inl (omega arith)
