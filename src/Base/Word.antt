-- ===== src/Base/Word.antt =====
-- `int32_t` and `int64_t`: the two's complement value that a result is reduced to. Signed overflow
-- is undefined in C++; the model takes the wrapped value, which the machine's arithmetic gives.
use hft_order_book.Base.Tests.{ltb, if◌then◌else◌}
use hft_order_book.Base.Int.{ℤ, pos, negsuc, pos_part, neg_part, ◌+ℤ◌, ◌-ℤ◌, ◌≤ℤ◌, neg}
use Prim.Native.Nat.{ℕ, ◌-◌, ◌%◌, ◌^◌, ◌≤◌, ◌<◌}
use mathlib.Core.Path.{◌≡◌}
use native.Mathlib.Omega.{arith}

-- The value of a bit pattern.
abbrev pub signed32 : ℕ → ℤ
signed32 w = if ltb w (2 ^ 31) then pos w else negsuc (2 ^ 32 - w - 1)

abbrev pub signed64 : ℕ → ℤ
signed64 w = if ltb w (2 ^ 63) then pos w else negsuc (2 ^ 64 - w - 1)

unfoldable pub wrap32 : ℤ → ℤ
wrap32 (pos n) = signed32 (n % 2 ^ 32)
wrap32 (negsuc n) = signed32 (2 ^ 32 - 1 - n % 2 ^ 32)

unfoldable pub wrap64 : ℤ → ℤ
wrap64 (pos n) = signed64 (n % 2 ^ 64)
wrap64 (negsuc n) = signed64 (2 ^ 64 - 1 - n % 2 ^ 64)

abbrev pub Fits32 : ℤ → Type 0
Fits32 a = (pos_part a < 2 ^ 31) × (neg_part a ≤ 2 ^ 31)

abbrev pub Fits64 : ℤ → Type 0
Fits64 a = (pos_part a < 2 ^ 63) × (neg_part a ≤ 2 ^ 63)

pub wrap32_id : (a : ℤ) → Fits32 a → wrap32 a ≡ a
unfolding wrap32
wrap32_id (pos n) h = ground arith
wrap32_id (negsuc n) h = ground arith

pub wrap64_id : (a : ℤ) → Fits64 a → wrap64 a ≡ a
unfolding wrap64
wrap64_id (pos n) h = ground arith
wrap64_id (negsuc n) h = ground arith

pub wrap32-Fits32 : (a : ℤ) → Fits32 (wrap32 a)
unfolding wrap32
wrap32-Fits32 (pos n) = ground arith
wrap32-Fits32 (negsuc n) = ground arith

pub wrap64-Fits64 : (a : ℤ) → Fits64 (wrap64 a)
unfolding wrap64
wrap64-Fits64 (pos n) = ground arith
wrap64-Fits64 (negsuc n) = ground arith

pub signed64-Fits64 : (n : ℕ) → Fits64 (signed64 (n % 2 ^ 64))
signed64-Fits64 n = ground arith

-- Reducing a summand first changes nothing.
pub wrap64-+ℤ : (a b : ℤ) → wrap64 (wrap64 a +ℤ b) ≡ wrap64 (a +ℤ b)
unfolding wrap64 ◌+ℤ◌
wrap64-+ℤ (pos m) (pos n) = ground arith
wrap64-+ℤ (pos m) (negsuc n) = ground arith
wrap64-+ℤ (negsuc m) (pos n) = ground arith
wrap64-+ℤ (negsuc m) (negsuc n) = ground arith

pub wrap32-+ℤ : (a b : ℤ) → wrap32 (wrap32 a +ℤ b) ≡ wrap32 (a +ℤ b)
unfolding wrap32 ◌+ℤ◌
wrap32-+ℤ (pos m) (pos n) = ground arith
wrap32-+ℤ (pos m) (negsuc n) = ground arith
wrap32-+ℤ (negsuc m) (pos n) = ground arith
wrap32-+ℤ (negsuc m) (negsuc n) = ground arith

pub wrap32-neg : (a : ℤ) → wrap32 (neg (wrap32 a)) ≡ wrap32 (neg a)
unfolding wrap32 neg
wrap32-neg (pos n) = ground arith
wrap32-neg (negsuc n) = ground arith

pub wrap64-neg : (a : ℤ) → wrap64 (neg (wrap64 a)) ≡ wrap64 (neg a)
unfolding wrap64 neg
wrap64-neg (pos n) = ground arith
wrap64-neg (negsuc n) = ground arith

-- The lower 32 bits of the lower 64.
pub wrap32-wrap64 : (a : ℤ) → wrap32 (wrap64 a) ≡ wrap32 a
unfolding wrap32 wrap64
wrap32-wrap64 (pos n) = ground arith
wrap32-wrap64 (negsuc n) = ground arith

-- What lies between 0 and a value that fits.
pub Fits64-le : (a b : ℤ) → pos 0 ≤ℤ a → a ≤ℤ b → Fits64 b → Fits64 a
Fits64-le (pos n) (pos m) low le fits = omega arith
Fits64-le (negsuc n) b low le fits = absurd (omega arith)
Fits64-le (pos n) (negsuc m) low le fits = absurd (omega arith)

pub Fits32-le : (a b : ℤ) → pos 0 ≤ℤ a → a ≤ℤ b → Fits32 b → Fits32 a
Fits32-le (pos n) (pos m) low le fits = omega arith
Fits32-le (negsuc n) b low le fits = absurd (omega arith)
Fits32-le (pos n) (negsuc m) low le fits = absurd (omega arith)

pub Fits32-sub : (a b : ℤ) → pos 0 ≤ℤ a → pos 0 ≤ℤ b → Fits32 a → Fits32 b → Fits32 (a -ℤ b)
unfolding ◌-ℤ◌ neg
Fits32-sub (pos n) (pos m) low_a low_b fits_a fits_b = ground arith
Fits32-sub (negsuc n) b low_a low_b fits_a fits_b = absurd (omega arith)
Fits32-sub (pos n) (negsuc m) low_a low_b fits_a fits_b = absurd (omega arith)
