-- ===== src/Base/Decimal.antt =====
-- strconv: the decimal notation of integers, and Atoi with the range of 64 bits.
use Prim.Native.Nat.{ℕ, zero, suc, ◌+◌, ◌-◌, ◌*◌, ◌/◌, ◌%◌, ◌^◌, ◌<◌}
use mathlib.Core.Path.{◌≡◌, refl, ap}
use mathlib.Core.Bool.{false, ◌&&◌}
use mathlib.Core.Option.{Option, none, some}
use mathlib.Core.List.{[], ◌∷◌, ◌++◌}
use native.Mathlib.Omega.{arith}
use mathlib.Core.Logic.{◌≢◌, inl, inr}
use xray_checker_tg_bot.Base.Tests.{ltb, leb, ◌==◌, if◌then◌else◌, Bool-cases}
use xray_checker_tg_bot.Base.Strings.{Text, has_char, has_char-append}
use xray_checker_tg_bot.Base.Int.{ℤ, pos, negsuc}

digits : ℕ → ℕ → Text
digits zero n = []
digits (suc fuel) n =
    let front = digits fuel (n / 10) in
    if ltb n 10 then (48 + n) ∷ [] else front ++ ((48 + n % 10) ∷ [])

-- Itoa of a number that is not negative; a number is more than its count of digits.
unfoldable pub print_nat : ℕ → Text
unfolding digits
print_nat n = digits (suc n) n

-- Itoa, FormatInt in base 10, and the verb %d
unfoldable pub print_int : ℤ → Text
unfolding print_nat
print_int (pos n) = print_nat n
print_int (negsuc n) = b'-' ∷ print_nat (suc n)

-- The value of a text of digits that follow the ones with the value `acc`.
unfoldable pub read_digits : ℕ → Text → Option ℕ
read_digits acc [] = some acc
read_digits acc (c ∷ s) =
    let rest = read_digits (acc * 10 + (c - 48)) s in if leb 48 c && leb c 57 then rest else none

unfoldable pub read_nat : Text → Option ℕ
unfolding read_digits
read_nat [] = none
read_nat (c ∷ s) = read_digits 0 (c ∷ s)

positive : Option ℕ → Option ℤ
positive none = none
positive (some n) = if ltb n (2 ^ 63) then some (pos n) else none

negative : Option ℕ → Option ℤ
negative none = none
negative (some zero) = some (pos 0)
negative (some (suc n)) = if ltb n (2 ^ 63) then some (negsuc n) else none

-- Atoi and ParseInt with 64 bits: `none` is an error of syntax or range.
unfoldable pub atoi : Text → Option ℤ
unfolding read_nat positive negative
atoi [] = none
atoi (c ∷ s) =
    if c == b'-'
    then negative (read_nat s)
    else if c == b'+'
    then positive (read_nat s)
    else positive (read_nat (c ∷ s))

read_digits-append :
    (acc : ℕ) (s t : Text) (n : ℕ)
    → read_digits acc s ≡ some n
    → read_digits acc (s ++ t) ≡ read_digits n t
unfolding read_digits
read_digits-append acc [] t n h = ground arith
read_digits-append acc (c ∷ s) t n h =
    ground (arith, read_digits-append (acc * 10 + (c - 48)) s t n)

read_digits-digit : (acc d : ℕ) → d < 10 → read_digits acc ((48 + d) ∷ []) ≡ some (acc * 10 + d)
unfolding read_digits
read_digits-digit acc d h = ground arith

read_digits-digits : (fuel n : ℕ) → n < fuel → read_digits 0 (digits fuel n) ≡ some n
unfolding digits
read_digits-digits zero n h = absurd (omega arith)
read_digits-digits (suc fuel) n h = elim (Bool-cases (ltb n 10)) [
  | inl small ↦ rw small (ground (arith, read_digits-digit 0 n))
  | inr large ↦
      let front = digits fuel (n / 10) in
      let last = (48 + n % 10) ∷ [] in
      let e : n / 10 * 10 + n % 10 ≡ n = omega arith in
      rw large (
        ground (
          arith,
          e,
          read_digits-append 0 front last (n / 10)
              (read_digits-digits fuel (n / 10) (ground arith)),
          read_digits-digit (n / 10) (n % 10) (omega arith),
        ))
]

has_char-digits :
    (c fuel n : ℕ) → (leb 48 c && leb c 57) ≡ false → has_char c (digits fuel n) ≡ false
unfolding digits has_char
has_char-digits c zero n h = refl
has_char-digits c (suc fuel) n h = ground (
  arith,
  has_char-digits c fuel (n / 10) h,
  has_char-append c (digits fuel (n / 10)) ((48 + n % 10) ∷ []),
  (let r : n % 10 < 10 = omega arith in r),
)

-- A character that is no digit does not stand in a number.
pub has_char-print_nat :
    (c n : ℕ) → (leb 48 c && leb c 57) ≡ false → has_char c (print_nat n) ≡ false
unfolding print_nat
has_char-print_nat c n h = has_char-digits c (suc n) n h

read_nat-some : (s : Text) {n : ℕ} → s ≢ [] → read_digits 0 s ≡ some n → read_nat s ≡ some n
unfolding read_nat
read_nat-some [] ne h = absurd (ne refl)
read_nat-some (c ∷ s) ne h = h

not-nil-append : (s : Text) (c : ℕ) → s ++ (c ∷ []) ≢ []
not-nil-append [] c = λ e. cc
not-nil-append (d ∷ s) c = λ e. cc

pub print_nat-not-nil : (n : ℕ) → print_nat n ≢ []
unfolding print_nat
print_nat-not-nil n = ground (arith, not-nil-append (digits n (n / 10)) (48 + n % 10))

-- A printed number is read back.
pub read_nat-print_nat : (n : ℕ) → read_nat (print_nat n) ≡ some n
unfolding print_nat
read_nat-print_nat n =
    read_nat-some (print_nat n) (print_nat-not-nil n) (read_digits-digits (suc n) n (omega arith))

atoi_unsigned :
    (s : Text) → has_char b'-' s ≡ false → has_char b'+' s ≡ false → atoi s ≡ positive (read_nat s)
unfolding atoi has_char
atoi_unsigned [] h k = refl
atoi_unsigned (c ∷ s) h k = ground arith

-- Atoi reads back the numbers that fit into 64 bits.
pub atoi-print_nat : (n : ℕ) → n < 2 ^ 63 → atoi (print_nat n) ≡ some (pos n)
unfolding positive
atoi-print_nat n h = ground (
  arith,
  atoi_unsigned (print_nat n) (has_char-print_nat b'-' n refl) (has_char-print_nat b'+' n refl),
  read_nat-print_nat n,
)

print_nat-injective : (m n : ℕ) → print_nat m ≡ print_nat n → m ≡ n
print_nat-injective m n h = ground (arith, read_nat-print_nat m, read_nat-print_nat n)

-- Different integers print differently.
pub print_int-injective : (a b : ℤ) → print_int a ≡ print_int b → a ≡ b
unfolding print_int has_char
print_int-injective (pos m) (pos n) h = ap pos (print_nat-injective m n h)
print_int-injective (pos m) (negsuc n) h =
    ground (arith, has_char-print_nat b'-' m refl, ap (has_char b'-') h)
print_int-injective (negsuc m) (pos n) h =
    ground (arith, has_char-print_nat b'-' n refl, ap (has_char b'-') h)
print_int-injective (negsuc m) (negsuc n) h = ground (arith, print_nat-injective (suc m) (suc n))

-- A printed integer holds digits and a minus sign only.
pub has_char-print_int :
    (c : ℕ) (z : ℤ) → (leb 48 c && leb c 57) ≡ false → c ≢ b'-' → has_char c (print_int z) ≡ false
unfolding print_int has_char
has_char-print_int c (pos n) h ne = has_char-print_nat c n h
has_char-print_int c (negsuc n) h ne = ground (arith, has_char-print_nat c (suc n) h)
