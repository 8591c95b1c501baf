-- ===== src/Common/Utf8.antt =====
-- `str::trim` of a text that is given by its bytes in UTF-8.
use Prim.Native.Nat.{ℕ, zero, suc}
use mathlib.Core.Bool.{Bool, ◌&&◌, ◌||◌}
use mathlib.Core.List.{[], ◌∷◌}
use adbc_spanner.Common.Tests.{◌==◌, if◌then◌else◌}
use adbc_spanner.Common.Chars.{within}
use adbc_spanner.Common.Lists.{Str, is_nil}

abbrev is_white1 : ℕ → Bool
is_white1 a = within 9 13 a || a == 32

-- U+0085 and U+00A0.
abbrev is_white2 : ℕ → ℕ → Bool
is_white2 a b = a == 0xc2 && (b == 0x85 || b == 0xa0)

-- U+1680, U+2000 to U+200A, U+2028, U+2029, U+202F, U+205F and U+3000.
abbrev is_white3 : ℕ → ℕ → ℕ → Bool
is_white3 a b c =
    (a == 0xe1 && (b == 0x9a && c == 0x80))
    || (a == 0xe2 && (b == 0x80 && (within 0x80 0x8a c || (within 0xa8 0xa9 c || c == 0xaf))))
    || (a == 0xe2 && (b == 0x81 && c == 0x9f))
    || (a == 0xe3 && (b == 0x80 && c == 0x80))

-- The number of bytes of the white space character in front, or 0.
unfoldable pub white_len : Str → ℕ
white_len [] = 0
white_len (a ∷ []) = if is_white1 a then 1 else 0
white_len (a ∷ b ∷ []) = if is_white1 a then 1 else if is_white2 a b then 2 else 0
white_len (a ∷ b ∷ c ∷ rest) =
    if is_white1 a then 1 else if is_white2 a b then 2 else if is_white3 a b c then 3 else 0

-- Behind the first `n` bytes, which are of a white space character.
unfoldable pub trim_from : ℕ → Str → Str
unfolding white_len
trim_from n [] = []
trim_from (suc n) (a ∷ rest) = trim_from n rest
trim_from zero (a ∷ rest) = elim (white_len (a ∷ rest)) [
  | zero ↦ a ∷ rest
  | suc n ↦ trim_from n rest
]

-- Where white space is all that is left, it ends there.
unfoldable pub trim_utf8_end : Str → Str
unfolding trim_from
trim_utf8_end [] = []
trim_utf8_end (a ∷ rest) =
    let kept = a ∷ trim_utf8_end rest in if is_nil (trim_from 0 (a ∷ rest)) then [] else kept

unfoldable pub trim_utf8 : Str → Str
unfolding trim_from trim_utf8_end
trim_utf8 s = trim_utf8_end (trim_from 0 s)
