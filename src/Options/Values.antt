-- ===== src/Options/Values.antt =====
-- What the option parsers of src/options.rs accept and keep.
use adbc_spanner.Common.{
  ℕ, suc, ◌+◌, ◌*◌, ◌^◌, ◌<◌, ◌≤◌, true, false, [], ◌∷◌, Option, none, some, ◌==◌, leb, Str, length,
  All, trim_utf8, Result, ok, err, Status, >>=-ok, arith, ◌≡◌, refl, ℤ, pos, negsuc, digit_of,
  display, to_string, digits_value, IsDigit, digits_value-ge, digits_value-display, display-IsDigit,
  display-pos, ten_pow,
}
use adbc_spanner.Options.{
  OptionValue, RawParsed, set, stored, set_text, set_string, checked, f64_text,
  int_from_stored_string, parse_signed, parse_unsigned, parse_digits, some_digits, Floats, F64Range,
  f64_option, string_option, or_invalid,
}

digit_below : (b : ℕ) → IsDigit b → leb 10 (digit_of b) ≡ false
unfolding digit_of
digit_below b h = ground arith

parse_digits_lem :
    (end acc : ℕ) (xs : Str)
    → All IsDigit xs
    → digits_value acc xs < end
    → parse_digits end acc xs ≡ some (digits_value acc xs)
unfolding parse_digits digits_value
parse_digits_lem end acc [] d h = refl
parse_digits_lem end acc (x ∷ xs) (d, ds) h =
    rw
      (
        digit_below x d,
        not_past (acc * 10 + digit_of x) end
            (omega (arith, digits_value-ge (acc * 10 + digit_of x) xs)),
      )
      (parse_digits_lem end (acc * 10 + digit_of x) xs ds h)
  where
    not_past : (n e : ℕ) → n < e → leb e n ≡ false
    not_past n e k = ground arith

some_digits_lem :
    (end : ℕ) (xs : Str)
    → 0 < length xs
    → All IsDigit xs
    → digits_value 0 xs < end
    → some_digits end xs ≡ some (digits_value 0 xs)
some_digits_lem end [] p d h = absurd (omega arith)
some_digits_lem end (x ∷ xs) p d h = parse_digits_lem end 0 (x ∷ xs) d h

signed_digits :
    (end : ℕ) (xs : Str)
    → 0 < length xs
    → All IsDigit xs
    → digits_value 0 xs < end
    → parse_signed end xs ≡ some (pos (digits_value 0 xs))
unfolding parse_signed parse_unsigned
signed_digits end [] p d h = absurd (omega arith)
signed_digits end (x ∷ xs) p ((lo, hi), ds) h =
    rw (not_minus x lo, not_plus x lo, parse_digits_lem end 0 (x ∷ xs) ((lo, hi), ds) h) refl
  where
    not_minus : (b : ℕ) → b'0' ≤ b → (b == b'-') ≡ false
    not_minus b k = ground arith

    not_plus : (b : ℕ) → b'0' ≤ b → (b == b'+') ≡ false
    not_plus b k = ground arith

-- An `i64`.
abbrev pub IsI64 : ℤ → Type 0
IsI64 (pos n) = n < 2 ^ 63
IsI64 (negsuc n) = n < 2 ^ 63

-- An `i64` printed as an option's string is served unchanged by the integer getter.
pub int_from_stored_string-to_string :
    (i : ℤ) → IsI64 i → int_from_stored_string (ok (to_string 18 i)) ≡ ok i
unfolding int_from_stored_string to_string
int_from_stored_string-to_string (pos n) h =
    rw
      (
        signed_digits (2 ^ 63) (display 18 n) (display-pos 18 n) (display-IsDigit 18 n)
            (omega (arith, back n h)),
        back n h,
      )
      refl
  where
    back : (k : ℕ) → k < 2 ^ 63 → digits_value 0 (display 18 k) ≡ k
    back k b = digits_value-display 18 k (unfold ten_pow in omega arith)
int_from_stored_string-to_string (negsuc n) h =
    unfold parse_signed in
    rw
      (
        some_digits_lem (2 ^ 63 + 1) (display 18 (suc n)) (display-pos 18 (suc n))
            (display-IsDigit 18 (suc n)) (omega (arith, back n h)),
        back n h,
      )
      refl
  where
    back : (k : ℕ) → k < 2 ^ 63 → digits_value 0 (display 18 (suc k)) ≡ suc k
    back k b = digits_value-display 18 (suc k) (unfold ten_pow in omega arith)

-- The two halves of a `RawParsed` say the same, under the parser `parse`.
abbrev pub Agrees : {T : Type 0} → (Str → Result T) → Option Str → Option T → Type 0
Agrees parse none none = Unit {0}
Agrees parse (some raw) (some t) = parse raw ≡ ok t
Agrees parse _ _ = ⊥

module _ {T : Type 0} (parse : Str → Result T) where
  abbrev pub Holds : RawParsed T → Type 0
  Holds state = Agrees parse state.raw state.parsed

  stored-Holds :
      (state : RawParsed T) (s : Str) (r : Result T)
      → parse s ≡ r
      → Holds state
      → Holds (stored state s r).0
  stored-Holds state s (ok t) e h = e
  stored-Holds state s (err x) e h = h

  text_Holds : (state : RawParsed T) (s : Str) → Holds state → Holds (set_text state s parse).0
  text_Holds state [] h = tt
  text_Holds state (c ∷ cs) h = stored-Holds state (c ∷ cs) (parse (c ∷ cs)) refl h

  string_Holds :
      (state : RawParsed T) (r : Result Str) → Holds state → Holds (set_string state r parse).0
  string_Holds state (ok raw) h = text_Holds state (trim_utf8 raw) h
  string_Holds state (err x) h = h

  stored_rejected :
      (state : RawParsed T) (s : Str) (r : Result T) (e : Status)
      → (stored state s r).1 ≡ err e
      → (stored state s r).0 ≡ state
  stored_rejected state s (ok t) e h = cc
  stored_rejected state s (err x) e h = refl

  text_rejected :
      (state : RawParsed T) (s : Str) (e : Status)
      → (set_text state s parse).1 ≡ err e
      → (set_text state s parse).0 ≡ state
  text_rejected state [] e h = cc
  text_rejected state (c ∷ cs) e h = stored_rejected state (c ∷ cs) (parse (c ∷ cs)) e h

  string_rejected :
      (state : RawParsed T) (r : Result Str) (e : Status)
      → (set_string state r parse).1 ≡ err e
      → (set_string state r parse).0 ≡ state
  string_rejected state (ok raw) e h = text_rejected state (trim_utf8 raw) e h
  string_rejected state (err x) e h = refl

module _ {F T : Type 0} (parse : Str → Result T) where
  -- A `set` of any value keeps the two halves of a `RawParsed` together: the raw text parses to the
  -- parsed value, or neither is there.
  pub set-Holds :
      (state : RawParsed T) (value : OptionValue F)
      → Holds parse state
      → Holds parse (set state value parse).0
  unfolding set
  set-Holds state value h = string_Holds parse state (string_option value) h

  -- A `set` that is refused leaves the option as it was.
  pub set-refused :
      (state : RawParsed T) (value : OptionValue F) (e : Status)
      → (set state value parse).1 ≡ err e
      → (set state value parse).0 ≡ state
  unfolding set
  set-refused state value e h = string_rejected parse state (string_option value) e h

module _ (floats : Floats) where
  open floats use {F}

  -- What a range promises of a number that it accepts.
  abbrev pub InRange : F64Range → F → Type 0
  InRange F64Range.non_negative_seconds n =
      (floats.is_finite n ≡ true)
      × (floats.is_non_negative n ≡ true)
      × (floats.is_duration n ≡ true)
  InRange F64Range.positive_seconds n =
      (floats.is_finite n ≡ true) × (floats.is_positive n ≡ true) × (floats.is_duration n ≡ true)
  InRange F64Range.positive_factor n = (floats.is_finite n ≡ true) × (floats.is_positive n ≡ true)

  checked_lem :
      (range : F64Range) (m n : F) → checked floats range m ≡ ok (some n) → InRange range n
  checked_lem F64Range.non_negative_seconds m n h = ground arith
  checked_lem F64Range.positive_seconds m n h = ground arith
  checked_lem F64Range.positive_factor m n h = ground arith

  text_InRange :
      (range : F64Range) (s : Str) (n : F) → f64_text floats range s ≡ ok (some n) → InRange range n
  text_InRange range [] n h = cc
  text_InRange range (c ∷ cs) n h =
      let (m, reached, e) = >>=-ok (or_invalid (floats.parse (c ∷ cs))) (checked floats range) h in
      checked_lem range m n reached

  -- A number that `f64_option` accepts, whatever kind of value it came as, is finite and in the range,
  -- and where the range is of seconds a `Duration` holds it.
  pub f64_option-InRange :
      (value : OptionValue F) (range : F64Range) (n : F)
      → f64_option floats value range ≡ ok (some n)
      → InRange range n
  unfolding f64_option
  f64_option-InRange (OptionValue.string s) range n h = text_InRange range (trim_utf8 s) n h
  f64_option-InRange (OptionValue.double d) range n h = checked_lem range d n h
  f64_option-InRange (OptionValue.int i) range n h = checked_lem range (floats.of_int i) n h
  f64_option-InRange (OptionValue.bytes b) range n h = cc
