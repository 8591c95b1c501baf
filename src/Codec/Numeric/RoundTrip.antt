-- ===== src/Codec/Numeric/RoundTrip.antt =====
-- What `parse_numeric_i128` of src/conversion.rs reads, and the text that `numeric_string` of
-- src/bind.rs writes.
use adbc_spanner.Common.{
  ℕ, zero, suc, ◌+◌, ◌-◌, ◌*◌, ◌/◌, ◌%◌, ◌≤◌, ◌<◌, Bool, true, false, [], ◌∷◌, ◌++◌, Option, some,
  ◌==◌, ltb, leb, if◌then◌else◌, Str, length, All, arith, ◌≡◌, ◌≢◌, refl, sym, ap, subst, ◌∙◌,
  ten_pow, digit_of, padded, display, ℤ, pos, negsuc, unsigned_abs, neg, append-nil, split_once,
  digits_value, IsDigit, digits_value-ge, digits_value-padded, digits_value-display, ten_pow-pos,
  padded-IsDigit, length-padded, display-IsDigit, display-pos, split_once-append, split_once-none,
}
use native.Mathlib.Nat.{div-le_self}
use adbc_spanner.Codec.Numeric.{
  i128_end, checked, int_value, frac_value, split_sign, split_point, signed, numeric_parts,
  parse_numeric_i128, numeric_string, ◌>>=◌,
}

-- Decimal text spells the number that its digits stand for.
digit_below : (b : ℕ) → IsDigit b → leb 10 (digit_of b) ≡ false
unfolding digit_of
digit_below b h = ground arith

checked_lem : (n : ℕ) → n < i128_end → checked n ≡ some n
unfolding checked
checked_lem n h = ground arith

int_value_lem :
    (acc : ℕ) (xs : Str)
    → All IsDigit xs
    → digits_value acc xs < i128_end
    → int_value acc xs ≡ some (digits_value acc xs)
unfolding int_value digits_value
int_value_lem acc [] d h = refl
int_value_lem acc (x ∷ xs) (d, ds) h = rw (digit_below x d) (
    rw
      (
        checked_lem (acc * 10) (omega (arith, digits_value-ge (acc * 10 + digit_of x) xs)),
        checked_lem (acc * 10 + digit_of x)
            (omega (arith, digits_value-ge (acc * 10 + digit_of x) xs)),
      )
      (int_value_lem (acc * 10 + digit_of x) xs ds h))

pub frac_value_lem :
    (acc : ℕ) (xs : Str) → All IsDigit xs → frac_value acc xs ≡ some (digits_value acc xs)
unfolding frac_value digits_value
frac_value_lem acc [] d = refl
frac_value_lem acc (x ∷ xs) (d, ds) =
    rw (digit_below x d) (frac_value_lem (acc * 10 + digit_of x) xs ds)

-- The unscaled value of a number's digits before and after the point.
abbrev unscaled_value : Str → Str → ℕ
unscaled_value int_part frac_part =
    digits_value 0 int_part * 1000000000 + digits_value 0 frac_part * ten_pow (9 - length frac_part)

numeric_parts_lem :
    (negative : Bool) (int_part frac_part : Str)
    → 0 < length int_part
    → All IsDigit int_part
    → All IsDigit frac_part
    → length frac_part ≤ 9
    → unscaled_value int_part frac_part < i128_end
    → numeric_parts negative int_part frac_part
      ≡ some (signed negative (unscaled_value int_part frac_part))
unfolding numeric_parts
numeric_parts_lem negative [] fs some_digit dx df short h = absurd (omega arith)
numeric_parts_lem negative (x ∷ xs) fs some_digit dx df short h = rw (ltb_short short) (
    rw
      (
        int_value_lem 0 (x ∷ xs) dx (omega arith),
        frac_value_lem 0 fs df,
        checked_lem (digits_value 0 (x ∷ xs) * 1000000000) (omega arith),
        checked_lem (unscaled_value (x ∷ xs) fs) h,
      )
      refl)
  where
    ltb_short : length fs ≤ 9 → ltb 9 (length fs) ≡ false
    ltb_short k = ground arith

digits_ne : (c : ℕ) (xs : Str) → c < b'0' → All IsDigit xs → All (λ x. x ≢ c) xs
digits_ne c [] h d = tt
digits_ne c (x ∷ xs) h ((lo, hi), ds) = (λ e. absurd (omega arith), digits_ne c xs h ds)

ten_pow_eq : (a b : ℕ) → a ≡ b → ten_pow a ≡ ten_pow b
ten_pow_eq a b e = ap ten_pow e

ten_pow-add : (a b : ℕ) → ten_pow (a + b) ≡ ten_pow a * ten_pow b
unfolding ten_pow
ten_pow-add zero b = omega (arith, ten_pow_eq (0 + b) b (omega arith))
ten_pow-add (suc a) b =
    ten_pow_eq (suc a + b) (suc (a + b)) (omega arith) ∙ grind (arith, ten_pow-add a b)

-- What `parse_numeric_i128` does after the sign.
abbrev read_unsigned : Bool → Str → Option ℤ
read_unsigned negative bytes =
    split_point bytes (split_once b'.' bytes) >>= λ parts. numeric_parts negative parts.0 parts.1

abbrev unsigned_text : ℕ → ℕ → Str
unsigned_text m scale =
    if scale == 0
    then display 38 m
    else display 38 (m / ten_pow scale) ++ b'.' ∷ padded scale (m % ten_pow scale)

whole_lem :
    (negative : Bool) (m : ℕ)
    → m * 1000000000 < i128_end
    → read_unsigned negative (display 38 m) ≡ some (signed negative (m * 1000000000))
whole_lem negative m h =
    rw (split_once-none b'.' (display 38 m) (digits_ne b'.' _ (omega arith) (display-IsDigit 38 m)))
      (numeric_parts_lem negative (display 38 m) [] (display-pos 38 m) (display-IsDigit 38 m) tt
          (omega arith) (subst (λ k. k < i128_end) (sym value) h)
        ∙ ap (λ k. some (signed negative k)) value)
  where
    value : unscaled_value (display 38 m) [] ≡ m * 1000000000
    value = unfold digits_value ten_pow in omega (arith, digits_value-display 38 m (omega arith))

fraction_parts :
    (negative : Bool) (xs fs : Str)
    → All IsDigit xs
    → 0 < length fs
    → read_unsigned negative (xs ++ b'.' ∷ fs) ≡ numeric_parts negative xs fs
fraction_parts negative xs [] d h = absurd (omega arith)
fraction_parts negative xs (f ∷ fs) d h =
    rw (split_once-append b'.' xs (f ∷ fs) (digits_ne b'.' xs (omega arith) d)) refl

div_mod : (m k : ℕ) → m / ten_pow k * ten_pow k + m % ten_pow k ≡ m
div_mod m k = grind (arith, ten_pow-pos)

mod_lt : (m k : ℕ) → m % ten_pow k < ten_pow k
mod_lt m k = grind (arith, ten_pow-pos)

nines : (scale : ℕ) → scale ≤ 9 → ten_pow scale * ten_pow (9 - scale) ≡ 1000000000
nines scale h = sym (ten_pow-add scale (9 - scale)) ∙ ap ten_pow whole ∙ unfold ten_pow in refl
  where
    whole : scale + (9 - scale) ≡ 9
    whole = omega arith

regroup : (q r p t m : ℕ) → p * t ≡ 1000000000 → q * p + r ≡ m → q * 1000000000 + r * t ≡ m * t
regroup q r p t m e f = rw (← e) (rw (← f) (grind arith))

le_of_mul : (m t e : ℕ) → 0 < t → m * t < e → m < e
le_of_mul m t e p h = grind arith

fraction_value :
    (m scale : ℕ)
    → scale ≤ 9
    → m * ten_pow (9 - scale) < i128_end
    → unscaled_value (display 38 (m / ten_pow scale)) (padded scale (m % ten_pow scale))
      ≡ m * ten_pow (9 - scale)
fraction_value m scale h k =
    rw
      (
        digits_value-display 38 (m / ten_pow scale) (unfold ten_pow in omega (arith, quotient)),
        digits_value-padded 0 scale (m % ten_pow scale) (mod_lt m scale),
        length-padded scale (m % ten_pow scale),
      )
      (regroup (m / ten_pow scale) (0 * ten_pow scale + m % ten_pow scale) (ten_pow scale)
        (ten_pow (9 - scale)) m (nines scale h) (omega (arith, div_mod m scale)))
  where
    quotient : m / ten_pow scale < i128_end
    quotient = omega (
      arith,
      div-le_self m (ten_pow scale),
      le_of_mul m (ten_pow (9 - scale)) i128_end (ten_pow-pos (9 - scale)) k,
    )

fraction_lem :
    (negative : Bool) (m scale : ℕ)
    → 0 < scale
    → scale ≤ 9
    → m * ten_pow (9 - scale) < i128_end
    → read_unsigned negative
        (display 38 (m / ten_pow scale) ++ b'.' ∷ padded scale (m % ten_pow scale))
      ≡ some (signed negative (m * ten_pow (9 - scale)))
fraction_lem negative m scale p h k =
    fraction_parts negative xs fs (display-IsDigit 38 (m / ten_pow scale)) (omega (arith, len))
    ∙ numeric_parts_lem negative xs fs (display-pos 38 (m / ten_pow scale))
        (display-IsDigit 38 (m / ten_pow scale)) (padded-IsDigit scale (m % ten_pow scale))
        (omega (arith, len)) (subst (λ v. v < i128_end) (sym (fraction_value m scale h k)) k)
    ∙ ap (λ v. some (signed negative v)) (fraction_value m scale h k)
  where
    xs : Str
    xs = display 38 (m / ten_pow scale)

    fs : Str
    fs = padded scale (m % ten_pow scale)

    len : length fs ≡ scale
    len = length-padded scale (m % ten_pow scale)

suc-==-zero : (n : ℕ) → (suc n == 0) ≡ false
suc-==-zero n = ground arith

unsigned_lem :
    (negative : Bool) (m scale : ℕ)
    → scale ≤ 9
    → m * ten_pow (9 - scale) < i128_end
    → read_unsigned negative (unsigned_text m scale)
      ≡ some (signed negative (m * ten_pow (9 - scale)))
unsigned_lem negative m zero h k = unfold ten_pow in whole_lem negative m k
unsigned_lem negative m (suc scale) h k =
    rw (suc-==-zero scale) (fraction_lem negative m (suc scale) (omega arith) h k)

-- Text that starts with a digit has no sign.
no_sign : (xs ys : Str) → 0 < length xs → All IsDigit xs → split_sign (xs ++ ys) ≡ (false, xs ++ ys)
no_sign [] ys p d = absurd (omega arith)
no_sign (x ∷ xs) ys p ((lo, hi), ds) = ground arith

no_sign_unsigned :
    (m scale : ℕ) → split_sign (unsigned_text m scale) ≡ (false, unsigned_text m scale)
no_sign_unsigned m zero =
    subst (λ t. split_sign t ≡ (false, t)) (append-nil (display 38 m))
      (no_sign (display 38 m) [] (display-pos 38 m) (display-IsDigit 38 m))
no_sign_unsigned m (suc scale) = rw (suc-==-zero scale) (
    no_sign (display 38 (m / ten_pow (suc scale)))
      (b'.' ∷ padded (suc scale) (m % ten_pow (suc scale)))
      (display-pos 38 (m / ten_pow (suc scale))) (display-IsDigit 38 (m / ten_pow (suc scale))))

text_pos : (n scale : ℕ) → numeric_string (pos n) scale ≡ unsigned_text n scale
unfolding numeric_string
text_pos n zero = refl
text_pos n (suc scale) = rw (suc-==-zero scale) refl

text_negsuc : (n scale : ℕ) → numeric_string (negsuc n) scale ≡ b'-' ∷ unsigned_text (suc n) scale
unfolding numeric_string
text_negsuc n zero = refl
text_negsuc n (suc scale) = rw (suc-==-zero scale) refl

-- The value `u` at scale `scale`, at scale 9.
abbrev pub rescaled : ℤ → ℕ → ℤ
rescaled (pos n) scale = pos (n * ten_pow (9 - scale))
rescaled (negsuc n) scale = neg (suc n * ten_pow (9 - scale))

-- The text that is written for a decimal of scale 9 at most reads back as its value at scale 9, where
-- that value's magnitude is below 2 ^ 127.
pub parse_numeric_i128-numeric_string :
    (unscaled : ℤ) (scale : ℕ)
    → scale ≤ 9
    → unsigned_abs unscaled * ten_pow (9 - scale) < i128_end
    → parse_numeric_i128 (numeric_string unscaled scale) ≡ some (rescaled unscaled scale)
unfolding parse_numeric_i128
parse_numeric_i128-numeric_string (pos n) scale h k =
    rw (text_pos n scale, no_sign_unsigned n scale) (unsigned_lem false n scale h k)
parse_numeric_i128-numeric_string (negsuc n) scale h k =
    rw (text_negsuc n scale) (unsigned_lem true (suc n) scale h k)
