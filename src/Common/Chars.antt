-- ===== src/Common/Chars.antt =====
-- The functions of Rust's `char` and `str` that the driver uses, on Unicode code points.
use Prim.Native.Nat.{ℕ, ◌+◌}
use mathlib.Core.Bool.{Bool, true, false, ◌&&◌, ◌||◌}
use mathlib.Core.List.{[], ◌∷◌, map, reverse}
use Prim.Native.Char.{code}
use Prim.Native.String.{String}
use adbc_spanner.Common.Tests.{leb, ◌==◌, if◌then◌else◌}
use adbc_spanner.Common.Lists.{Str}

-- A literal of the source as its characters.
abbrev pub codes : String → Str
codes String.[] = []
codes (String.◌∷◌ c s) = code c ∷ codes s

abbrev pub within : ℕ → ℕ → ℕ → Bool
within lo hi c = leb lo c && leb c hi

-- `is_ascii_alphabetic`, `is_ascii_digit`, `is_ascii_alphanumeric`
unfoldable pub is_ascii_alphabetic : ℕ → Bool
is_ascii_alphabetic c = within b'a' b'z' c || within b'A' b'Z' c

unfoldable pub is_ascii_digit : ℕ → Bool
is_ascii_digit c = within b'0' b'9' c

unfoldable pub is_ascii_alphanumeric : ℕ → Bool
unfolding is_ascii_alphabetic is_ascii_digit
is_ascii_alphanumeric c = is_ascii_alphabetic c || is_ascii_digit c

-- `is_control`: the general category Cc.
unfoldable pub is_control : ℕ → Bool
is_control c = leb c 0x1f || within 0x7f 0x9f c

-- `is_whitespace`: the property White_Space.
unfoldable pub is_whitespace : ℕ → Bool
is_whitespace c =
    within 0x9 0xd c
    || c == 0x20
    || c == 0x85
    || c == 0xa0
    || c == 0x1680
    || within 0x2000 0x200a c
    || c == 0x2028
    || c == 0x2029
    || c == 0x202f
    || c == 0x205f
    || c == 0x3000

unfoldable pub to_ascii_lower : ℕ → ℕ
to_ascii_lower c = if within b'A' b'Z' c then c + 32 else c

-- `to_ascii_lowercase` of a string.
unfoldable pub to_ascii_lowercase : Str → Str
unfolding to_ascii_lower
to_ascii_lowercase s = map to_ascii_lower s

-- `==` of strings.
unfoldable pub str_eq : Str → Str → Bool
str_eq [] [] = true
str_eq (x ∷ xs) (y ∷ ys) = x == y && str_eq xs ys
str_eq _ _ = false

unfoldable pub eq_ignore_ascii_case : Str → Str → Bool
unfolding str_eq to_ascii_lowercase
eq_ignore_ascii_case a b = str_eq (to_ascii_lowercase a) (to_ascii_lowercase b)

unfoldable pub trim_start : Str → Str
unfolding is_whitespace
trim_start [] = []
trim_start (c ∷ cs) = if is_whitespace c then trim_start cs else c ∷ cs

unfoldable pub trim_end : Str → Str
unfolding trim_start
trim_end s = reverse (trim_start (reverse s))

unfoldable pub trim : Str → Str
unfolding trim_end
trim s = trim_end (trim_start s)

-- `peek() == Some(&c)`
unfoldable pub peek_is : ℕ → Str → Bool
peek_is c [] = false
peek_is c (x ∷ xs) = x == c

-- `contains` of a character.
unfoldable pub contains : ℕ → Str → Bool
contains c [] = false
contains c (x ∷ xs) = x == c || contains c xs
