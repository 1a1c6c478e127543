-- ===== src/Base/Bytes.antt =====
-- Bytes in memory, and the functions of <cstring> that the program calls on them. A list is the
-- memory from a pointer on; past its end a read gives NUL, as at the end of a C string.
use Prim.Native.Nat.{ℕ, zero, suc}
use mathlib.Core.Path.{◌≡◌, refl}
use mathlib.Core.Bool.{Bool, true, false}
use mathlib.Core.List.{List, [], ◌∷◌}
use native.Mathlib.Omega.{arith}
use hft_order_book.Base.Tests.{◌==◌, if◌then◌else◌}
use hft_order_book.Base.Lists.{length, replicate, length-replicate}

abbrev pub Bytes : Type 0
Bytes = List ℕ

-- `std::string_view`. The program passes `data()` on to <cstring> and never reads `size()` there.
pub record StringView : Type 0 where
  pub data_bytes : Bytes
  pub size : ℕ

abbrev pub first_byte : Bytes → ℕ
first_byte [] = 0
first_byte (c ∷ s) = c

abbrev pub rest_bytes : Bytes → Bytes
rest_bytes [] = []
rest_bytes (c ∷ s) = s

unfoldable pub strnlen : Bytes → ℕ → ℕ
strnlen s zero = 0
strnlen s (suc n) = if first_byte s == 0 then 0 else suc (strnlen (rest_bytes s) n)

-- What `strncpy(dst, src, n)` leaves in `dst`.
unfoldable pub strncpy : Bytes → ℕ → Bytes
unfolding replicate
strncpy s zero = []
strncpy s (suc n) =
    if first_byte s == 0 then replicate (suc n) 0 else first_byte s ∷ strncpy (rest_bytes s) n

-- `strncmp(s, t, n) == 0`.
unfoldable pub strncmp_eq : Bytes → Bytes → ℕ → Bool
strncmp_eq s t zero = true
strncmp_eq s t (suc n) =
    if first_byte s == first_byte t
    then (if first_byte s == 0 then true else strncmp_eq (rest_bytes s) (rest_bytes t) n)
    else false

pub length-strncpy : (s : Bytes) (n : ℕ) → length (strncpy s n) ≡ n
unfolding strncpy replicate
length-strncpy s zero = refl
length-strncpy s (suc n) =
    ground (arith, length-strncpy (rest_bytes s) n, length-replicate {A = ℕ} (suc n) 0)

pub strncmp_eq_refl : (s : Bytes) (n : ℕ) → strncmp_eq s s n ≡ true
unfolding strncmp_eq
strncmp_eq_refl s zero = refl
strncmp_eq_refl s (suc n) = ground (arith, strncmp_eq_refl (rest_bytes s) n)

-- Equality up to `n` bytes or NUL is symmetric and transitive.
pub strncmp_eq_sym : (s t : Bytes) (n : ℕ) → strncmp_eq s t n ≡ strncmp_eq t s n
unfolding strncmp_eq
strncmp_eq_sym s t zero = refl
strncmp_eq_sym s t (suc n) = ground (arith, strncmp_eq_sym (rest_bytes s) (rest_bytes t) n)

pub strncmp_eq_trans :
    (s t u : Bytes) (n : ℕ) → strncmp_eq s t n ≡ true → strncmp_eq s u n ≡ strncmp_eq t u n
unfolding strncmp_eq
strncmp_eq_trans s t u zero h = refl
strncmp_eq_trans s t u (suc n) h =
    ground (arith, strncmp_eq_trans (rest_bytes s) (rest_bytes t) (rest_bytes u) n)

-- A copy compares as its source does.
pub strncmp_eq-strncpy : (s t : Bytes) (n : ℕ) → strncmp_eq (strncpy s n) t n ≡ strncmp_eq s t n
unfolding strncmp_eq strncpy replicate
strncmp_eq-strncpy s t zero = refl
strncmp_eq-strncpy s t (suc n) = ground (arith, strncmp_eq-strncpy (rest_bytes s) (rest_bytes t) n)

-- Two sources compare equal exactly when their copies are the same bytes.
pub strncpy-eq_of_strncmp_eq :
    (s t : Bytes) (n : ℕ) → strncmp_eq s t n ≡ true → strncpy s n ≡ strncpy t n
unfolding strncmp_eq strncpy replicate
strncpy-eq_of_strncmp_eq s t zero h = refl
strncpy-eq_of_strncmp_eq s t (suc n) h =
    ground (arith, strncpy-eq_of_strncmp_eq (rest_bytes s) (rest_bytes t) n)
