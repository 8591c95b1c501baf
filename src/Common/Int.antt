-- ===== src/Common/Int.antt =====
-- Signed integers over the native numbers, as `Display` of an `i128` or `i64` prints them.
use Prim.Native.Nat.{ℕ, zero, suc, ◌+◌, ◌-◌}
use mathlib.Core.List.{◌∷◌}
use adbc_spanner.Common.Tests.{leb, if◌then◌else◌}
use adbc_spanner.Common.Lists.{Str}
use adbc_spanner.Common.Digits.{display}

-- `negsuc n` is -(n + 1).
pub data ℤ : Type 0 where
  pos negsuc : ℕ → ℤ

-- `unsigned_abs`
abbrev pub unsigned_abs : ℤ → ℕ
unsigned_abs (pos n) = n
unsigned_abs (negsuc n) = suc n

abbrev pub neg : ℕ → ℤ
neg zero = pos zero
neg (suc n) = negsuc n

-- `to_string` of a number of at most `suc fuel` digits.
unfoldable pub to_string : ℕ → ℤ → Str
unfolding display
to_string fuel (pos n) = display fuel n
to_string fuel (negsuc n) = b'-' ∷ display fuel (suc n)

-- a - b, as an integer.
abbrev pub sub_ℕ : ℕ → ℕ → ℤ
sub_ℕ a b = if leb b a then pos (a - b) else negsuc (b - a - 1)

infixl 65 ◌+ℤ◌
abbrev pub ◌+ℤ◌ : ℤ → ℤ → ℤ
pos a +ℤ pos b = pos (a + b)
pos a +ℤ negsuc b = sub_ℕ a (suc b)
negsuc a +ℤ pos b = sub_ℕ b (suc a)
negsuc a +ℤ negsuc b = negsuc (suc (a + b))
