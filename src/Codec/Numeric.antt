-- ===== src/Codec/Numeric.antt =====
-- `NUMERIC` text: `parse_numeric_i128` of src/conversion.rs, and `numeric_string` and `numeric_scale`
-- of src/bind.rs. A text is the list of its bytes.
pub mod RoundTrip
use adbc_spanner.Common.{
  ℕ, ◌+◌, ◌-◌, ◌*◌, ◌/◌, ◌%◌, ◌^◌, Bool, true, false, List, [], ◌∷◌, ◌++◌, Option, none, some, ◌==◌,
  ltb, leb, if◌then◌else◌, Str, length, ◌||◌, is_nil, Result, ok, err, invalid_arguments, ten_pow,
  digit_of, padded, display, ℤ, pos, negsuc, unsigned_abs, neg, to_string, split_once,
}

-- The largest `i128` is `i128_end - 1`, and the smallest is `- i128_end`.
abbrev pub i128_end : ℕ
i128_end = 2 ^ 127

infixl 5 ◌>>=◌
abbrev pub ◌>>=◌ : {A B : Type 0} → Option A → (A → Option B) → Option B
none >>= next = none
some a >>= next = next a

-- `checked_mul` and `checked_add` of `i128` on operands that are not negative.
unfoldable pub checked : ℕ → Option ℕ
checked n = if ltb n i128_end then some n else none

-- The loop over `int_part`.
unfoldable pub int_value : ℕ → Str → Option ℕ
unfolding checked digit_of
int_value int_val [] = some int_val
int_value int_val (b ∷ bs) =
    if leb 10 (digit_of b)
    then none
    else (checked (int_val * 10) >>= λ scaled.
        checked (scaled + digit_of b) >>= λ v. int_value v bs)

-- The loop over `frac_part`.
unfoldable pub frac_value : ℕ → Str → Option ℕ
unfolding digit_of
frac_value frac_val [] = some frac_val
frac_value frac_val (b ∷ bs) =
    let rest = frac_value (frac_val * 10 + digit_of b) bs in
    if leb 10 (digit_of b) then none else rest

-- `split_first`, with the sign.
abbrev pub split_sign : Str → Bool × Str
split_sign [] = (false, [])
split_sign (b ∷ rest) = if b == b'-' then (true, rest) else (false, b ∷ rest)

-- `int_part` and `frac_part`: a point is followed by a digit at least.
abbrev pub split_point : Str → Option (Str × Str) → Option (Str × Str)
split_point bytes none = some (bytes, [])
split_point bytes (some (int_part, [])) = none
split_point bytes (some (int_part, b ∷ bs)) = some (int_part, b ∷ bs)

abbrev pub numeric_scale_max : ℕ
numeric_scale_max = 9

abbrev pub signed : Bool → ℕ → ℤ
signed true n = neg n
signed false n = pos n

unfoldable pub numeric_parts : Bool → Str → Str → Option ℤ
unfolding int_value frac_value ten_pow checked
numeric_parts negative int_part frac_part =
    if is_nil int_part || ltb numeric_scale_max (length frac_part) then none else do
      int_val ← int_value 0 int_part
      frac_val ← frac_value 0 frac_part
      scaled ← checked (int_val * 1000000000)
      unscaled ← checked (scaled + frac_val * ten_pow (9 - length frac_part))
      some (signed negative unscaled)

unfoldable pub parse_numeric_i128 : Str → Option ℤ
unfolding numeric_parts split_once
parse_numeric_i128 s =
    let (negative, bytes) = split_sign s in
    split_point bytes (split_once b'.' bytes) >>= λ parts. numeric_parts negative parts.0 parts.1

-- A scale is an `i8`.
unfoldable pub numeric_scale : ℤ → Result ℕ
numeric_scale (pos s) = if leb s 38 then ok s else err invalid_arguments
numeric_scale (negsuc s) = err invalid_arguments

-- `if negative { "-" } else { "" }`
abbrev pub sign_text : ℤ → Str
sign_text (pos n) = []
sign_text (negsuc n) = b'-' ∷ []

-- A `u128` has at most 39 digits.
unfoldable pub numeric_string : ℤ → ℕ → Str
unfolding to_string display padded ten_pow
numeric_string unscaled scale =
    if scale == 0
    then to_string 38 unscaled
    else sign_text unscaled
      ++ (display 38 (unsigned_abs unscaled / ten_pow scale)
          ++ b'.' ∷ padded scale (unsigned_abs unscaled % ten_pow scale))
