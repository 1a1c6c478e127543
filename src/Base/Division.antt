-- ===== src/Base/Division.antt =====
-- A quotient by a positive divisor stays within the type of the dividend.
use hft_order_book.Base.Tests.{if◌then◌else◌, Bool-cases}
use mathlib.Core.Logic.{inl, inr}
use hft_order_book.Base.Int.{ℤ, pos, negsuc, ltb_ℤ, ◌/ℤ◌, ◌<ℤ◌}
use hft_order_book.Base.Word.{Fits64}
use Prim.Native.Nat.{suc}
use native.Mathlib.Nat.{div-le_self}
use native.Mathlib.Omega.{arith}

pub div-Fits64 : (a n : ℤ) → pos 0 <ℤ n → Fits64 a → Fits64 (a /ℤ n)
unfolding ◌/ℤ◌
div-Fits64 (pos m) (pos n) h f = ground (arith, div-le_self m n)
div-Fits64 (pos m) (negsuc n) h f = ground arith
div-Fits64 (negsuc m) (pos n) h f = ground (arith, div-le_self (suc m) n)
div-Fits64 (negsuc m) (negsuc n) h f = ground arith

-- A mean over a count that may be 0 or below.
pub mean-Fits64 : (cost n : ℤ) → Fits64 cost → Fits64 (if ltb_ℤ (pos 0) n then cost /ℤ n else pos 0)
mean-Fits64 cost n h = elim (Bool-cases (ltb_ℤ (pos 0) n)) [
  | inl some_counted ↦ rw some_counted (div-Fits64 cost n (ground arith) h)
  | inr none_counted ↦ rw none_counted (ground arith)
]
