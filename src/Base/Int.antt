-- ===== src/Base/Int.antt =====
-- Go's `int`, `int64` and `time.Duration` over the native numbers: ℤ with the wrap-around of
-- 64 bits written out, and the saturating difference of two times.
use Prim.Native.Nat.{ℕ, suc, ◌+◌, ◌-◌, ◌*◌, ◌^◌, ◌%◌, ◌<◌}
use mathlib.Core.Path.{◌≡◌}
use mathlib.Core.Bool.{Bool, true, false}
use mathlib.Core.Logic.{◌↔◌}
use native.Mathlib.Omega.{arith}
use xray_checker_tg_bot.Base.Tests.{◌==◌, ltb, leb, if◌then◌else◌}

-- `negsuc n` is -(n + 1).
pub data ℤ : Type 0 where
  pos : ℕ → ℤ
  negsuc : ℕ → ℤ

abbrev pub sub_ℕ : ℕ → ℕ → ℤ
sub_ℕ a b = if leb b a then pos (a - b) else negsuc (b - a - 1)

-- a < b
unfoldable pub ltz : ℤ → ℤ → Bool
ltz (pos a) (pos b) = ltb a b
ltz (pos a) (negsuc b) = false
ltz (negsuc a) (pos b) = true
ltz (negsuc a) (negsuc b) = ltb b a

-- k * a + b
unfoldable pub scale_add : ℕ → ℕ → ℤ → ℤ
scale_add k b (pos n) = pos (k * n + b)
scale_add k b (negsuc n) = sub_ℕ b (k * suc n)

-- The two's complement of 64 bits.
unfoldable pub signed64 : ℕ → ℤ
signed64 p = if ltb p (2 ^ 63) then pos p else negsuc (2 ^ 64 - 1 - p)

unfoldable pub wrap64 : ℤ → ℤ
unfolding signed64
wrap64 (pos n) = signed64 (n % 2 ^ 64)
wrap64 (negsuc n) = signed64 (2 ^ 64 - 1 - n % 2 ^ 64)

-- t.Sub(u) of package time saturates.
unfoldable pub sub_time : ℕ → ℕ → ℤ
sub_time t u =
    if leb u t
    then (if ltb (t - u) (2 ^ 63) then pos (t - u) else pos (2 ^ 63 - 1))
    else (if leb (u - t) (2 ^ 63) then negsuc (u - t - 1) else negsuc (2 ^ 63 - 1))

pub wrap64_of_lt : (n : ℕ) → n < 2 ^ 63 → wrap64 (pos n) ≡ pos n
unfolding wrap64
wrap64_of_lt n h = ground arith

-- Boolean equality
unfoldable pub eqz : ℤ → ℤ → Bool
eqz (pos m) (pos n) = m == n
eqz (negsuc m) (negsuc n) = m == n
eqz _ _ = false

pub eqz_iff : (a b : ℤ) → (eqz a b ≡ true) ↔ (a ≡ b)
unfolding eqz
eqz_iff (pos m) (pos n) = ground arith
eqz_iff (pos m) (negsuc n) = ground arith
eqz_iff (negsuc m) (pos n) = ground arith
eqz_iff (negsuc m) (negsuc n) = ground arith
