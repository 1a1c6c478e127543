-- ===== src/Base/Decimal.antt =====
-- `std::to_string` of an unsigned number: its decimal digits in ASCII.
use Prim.Native.Nat.{ℕ, zero, suc, ◌+◌, ◌-◌, ◌*◌, ◌/◌, ◌%◌, ◌<◌}
use mathlib.Core.Path.{◌≡◌, sym, ap, ◌∙◌}
use mathlib.Core.List.{[], ◌∷◌}
use native.Mathlib.Omega.{arith}
use hft_order_book.Base.Tests.{ltb, if◌then◌else◌}
use hft_order_book.Base.Bytes.{Bytes}

-- The digits of `n` before those in `acc`.
unfoldable pub digits_onto : ℕ → ℕ → Bytes → Bytes
digits_onto zero n acc = acc
digits_onto (suc f) n acc =
    let more = digits_onto f (n / 10) ((b'0' + n % 10) ∷ acc) in
    if ltb n 10 then (b'0' + n) ∷ acc else more

-- `n + 1` rounds are enough, as `n / 10` is below `n` from 10 on.
unfoldable pub to_string : ℕ → Bytes
unfolding digits_onto
to_string n = digits_onto (n + 1) n []

-- The number that digits stand for, read after `v`.
abbrev pub read_onto : ℕ → Bytes → ℕ
read_onto v [] = v
read_onto v (d ∷ ds) = read_onto (v * 10 + (d - b'0')) ds

read-digits_onto :
    (f n : ℕ) (acc : Bytes) → n < f → read_onto 0 (digits_onto f n acc) ≡ read_onto n acc
unfolding digits_onto
read-digits_onto zero n acc h = elim h [ ]
read-digits_onto (suc f) n acc h = ground (
  arith,
  read-digits_onto f (n / 10) ((b'0' + n % 10) ∷ acc),
  ap (λ (v : ℕ). read_onto v acc) (last_digit n),
  ap (λ (v : ℕ). read_onto v acc) (only_digit n),
)
  where
    last_digit : (m : ℕ) → m / 10 * 10 + (b'0' + m % 10 - b'0') ≡ m
    last_digit m = omega arith

    only_digit : (m : ℕ) → 0 * 10 + (b'0' + m - b'0') ≡ m
    only_digit m = omega arith

-- The digits read back give the number.
pub read-to_string : (n : ℕ) → read_onto 0 (to_string n) ≡ n
unfolding to_string
read-to_string n = read-digits_onto (n + 1) n [] (omega arith)

-- So different numbers have different digits.
pub to_string-injective : (m n : ℕ) → to_string m ≡ to_string n → m ≡ n
to_string-injective m n h = sym (read-to_string m) ∙ ap (read_onto 0) h ∙ read-to_string n
