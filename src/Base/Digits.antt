-- ===== src/Base/Digits.antt =====
-- How many digits a number has, and that the last one is written last.
use Prim.Native.Nat.{ℕ, zero, suc, ◌+◌, ◌*◌, ◌/◌, ◌%◌, ◌≤◌, ◌<◌}
use mathlib.Core.Path.{◌≡◌, refl, ap, ◌∙◌}
use mathlib.Core.Bool.{false}
use mathlib.Core.List.{[], ◌∷◌, ◌++◌}
use native.Mathlib.Omega.{arith}
use hft_order_book.Base.Tests.{ltb}
use hft_order_book.Base.Lists.{length, All}
use hft_order_book.Base.Bytes.{Bytes}
use hft_order_book.Base.Decimal.{digits_onto, to_string}

-- Powers of ten.
abbrev pub power_of_ten : ℕ → ℕ
power_of_ten zero = 1
power_of_ten (suc k) = 10 * power_of_ten k

length-digits-le :
    (f k n : ℕ) (acc : Bytes)
    → n < f
    → n < power_of_ten (suc k)
    → length (digits_onto f n acc) ≤ suc k + length acc
unfolding digits_onto
length-digits-le zero k n acc h b = elim h [ ]
length-digits-le (suc f) zero n acc h b = ground arith
length-digits-le (suc f) (suc k) n acc h b =
    ground (arith, length-digits-le f k (n / 10) ((b'0' + n % 10) ∷ acc))

length-acc-le-digits : (f n : ℕ) (acc : Bytes) → length acc ≤ length (digits_onto f n acc)
unfolding digits_onto
length-acc-le-digits zero n acc = omega arith
length-acc-le-digits (suc f) n acc =
    ground (arith, length-acc-le-digits f (n / 10) ((b'0' + n % 10) ∷ acc))

power_of_ten_pos : (k : ℕ) → 0 < power_of_ten k
power_of_ten_pos zero = omega arith
power_of_ten_pos (suc k) = omega (arith, power_of_ten_pos k)

le-length-digits :
    (f k n : ℕ) (acc : Bytes)
    → n < f
    → power_of_ten k ≤ n
    → suc k + length acc ≤ length (digits_onto f n acc)
unfolding digits_onto
le-length-digits zero k n acc h b = elim h [ ]
le-length-digits (suc f) zero n acc h b =
    ground (arith, length-acc-le-digits f (n / 10) ((b'0' + n % 10) ∷ acc))
le-length-digits (suc f) (suc k) n acc h b =
    ground (arith, power_of_ten_pos k, le-length-digits f k (n / 10) ((b'0' + n % 10) ∷ acc))

digits_onto-append :
    (f n : ℕ) (acc more : Bytes) → digits_onto f n (acc ++ more) ≡ digits_onto f n acc ++ more
unfolding digits_onto
digits_onto-append zero n acc more = refl
digits_onto-append (suc f) n acc more =
    ground (arith, digits_onto-append f (n / 10) ((b'0' + n % 10) ∷ acc) more)

-- Any fuel above the number gives the same digits.
digits_onto_fuel :
    (f g n : ℕ) (acc : Bytes) → n < f → n < g → digits_onto f n acc ≡ digits_onto g n acc
unfolding digits_onto
digits_onto_fuel zero g n acc h k = elim h [ ]
digits_onto_fuel (suc f) zero n acc h k = elim k [ ]
digits_onto_fuel (suc f) (suc g) n acc h k =
    ground (arith, digits_onto_fuel f g (n / 10) ((b'0' + n % 10) ∷ acc))

digits-All :
    (f n : ℕ) (acc : Bytes) → All (λ d. 48 ≤ d) acc → All (λ d. 48 ≤ d) (digits_onto f n acc)
unfolding digits_onto
digits-All zero n acc h = h
digits-All (suc f) n acc h = ground (arith, digits-All f (n / 10) ((b'0' + n % 10) ∷ acc))

-- A number below the power has at most that many digits, one from the power on has more.
pub length-to_string-le : (k n : ℕ) → n < power_of_ten (suc k) → length (to_string n) ≤ suc k
unfolding to_string
length-to_string-le k n h = omega (arith, length-digits-le (n + 1) k n [])

pub le-length-to_string : (k n : ℕ) → power_of_ten k ≤ n → suc k ≤ length (to_string n)
unfolding to_string
le-length-to_string k n h = omega (arith, le-length-digits (n + 1) k n [])

-- No digit is NUL.
pub to_string-All : (n : ℕ) → All (λ d. 48 ≤ d) (to_string n)
unfolding to_string
to_string-All n = digits-All (n + 1) n [] tt

-- The last digit ends the digits of the rest.
pub to_string-last : (n : ℕ) → 10 ≤ n → to_string n ≡ to_string (n / 10) ++ (b'0' + n % 10) ∷ []
unfolding to_string digits_onto
to_string-last n h =
    ap (λ f. digits_onto f n []) {y = suc n} (omega arith)
    ∙ rw not_one (
        digits_onto_fuel n (n / 10 + 1) (n / 10) ((b'0' + n % 10) ∷ []) (omega arith) (omega arith)
        ∙ digits_onto-append (n / 10 + 1) (n / 10) [] ((b'0' + n % 10) ∷ []))
  where
    not_one : ltb n 10 ≡ false
    not_one = ground arith
