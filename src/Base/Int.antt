-- ===== src/Base/Int.antt =====
-- Integers over the native numbers, as far as durations need them. `negsuc n` is -(n + 1).
use Prim.Native.Nat.{ℕ, suc, ◌+◌, ◌-◌, ◌/◌, ◌%◌, ◌<◌}
use mathlib.Core.Path.{◌≡◌}
use native.Mathlib.Omega.{arith}
use stdgo.Base.Tests.{leb, ltb, if◌then◌else◌}

pub data ℤ : Type 0 where
  pos : ℕ → ℤ
  negsuc : ℕ → ℤ

abbrev pub pos_part : ℤ → ℕ
pos_part (pos n) = n
pos_part (negsuc n) = 0

abbrev pub neg_part : ℤ → ℕ
neg_part (pos n) = 0
neg_part (negsuc n) = suc n

-- a - b, as an integer.
abbrev pub sub_ℕ : ℕ → ℕ → ℤ
sub_ℕ a b = if leb b a then pos (a - b) else negsuc (b - a - 1)

infixl 65 ◌+ℤ◌
abbrev pub ◌+ℤ◌ : ℤ → ℤ → ℤ
a +ℤ b = sub_ℕ (pos_part a + pos_part b) (neg_part a + neg_part b)

abbrev signed : ℕ → ℤ
signed n = if ltb n 9_223_372_036_854_775_808 then pos n else sub_ℕ n 18_446_744_073_709_551_616

-- The value as an `int64`, which wraps around.
unfoldable pub int64 : ℤ → ℤ
int64 (pos n) = signed (n % 18_446_744_073_709_551_616)
int64 (negsuc n) = signed (18_446_744_073_709_551_615 - n % 18_446_744_073_709_551_616)

pub add_pos : (a b : ℕ) → pos a +ℤ pos b ≡ pos (a + b)
add_pos a b = ground arith

pub int64_small : (n : ℕ) → n < 9_223_372_036_854_775_808 → int64 (pos n) ≡ pos n
unfolding int64
int64_small n h = ground arith

-- Division that rounds towards zero, as Go's does.
abbrev pub quot : ℤ → ℕ → ℤ
quot (pos n) k = pos (n / k)
quot (negsuc n) k = sub_ℕ 0 (suc n / k)
