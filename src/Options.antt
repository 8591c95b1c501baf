-- ===== src/Options.antt =====
-- src/options.rs: the shapes of option values that every level of the driver accepts. A text is the list of
-- its bytes.
pub mod Values
use adbc_spanner.Common.{
  ℕ, ◌+◌, ◌-◌, ◌*◌, ◌^◌, Bool, true, false, not, ◌||◌, ◌&&◌, List, [], ◌∷◌, Option, none, some,
  ◌==◌, ltb, leb, if◌then◌else◌, Str, is_nil, codes, str_eq, trim_utf8, Result, ok, err,
  invalid_arguments, ◌>>=◌, Done, digit_of, ℤ, pos, negsuc, neg,
}

-- `OptionValue` of adbc_core, with the doubles as a type `F`.
pub data OptionValue (F : Type 0) : Type 0 where
  string bytes : Str → OptionValue F
  int : ℤ → OptionValue F
  double : F → OptionValue F

-- The digits that `from_str_radix` reads, below `end`.
unfoldable pub parse_digits : ℕ → ℕ → Str → Option ℕ
unfolding digit_of
parse_digits end acc [] = some acc
parse_digits end acc (b ∷ bs) =
    let rest = parse_digits end (acc * 10 + digit_of b) bs in
    if leb 10 (digit_of b) || leb end (acc * 10 + digit_of b) then none else rest

abbrev pub some_digits : ℕ → Str → Option ℕ
some_digits end s = if is_nil s then none else parse_digits end 0 s

-- `parse::<uN>()`, where `end` is 2 ^ N.
unfoldable pub parse_unsigned : ℕ → Str → Option ℕ
unfolding parse_digits
parse_unsigned end [] = none
parse_unsigned end (b ∷ bs) = if b == b'+' then some_digits end bs else parse_digits end 0 (b ∷ bs)

abbrev pub as_pos : Option ℕ → Option ℤ
as_pos none = none
as_pos (some n) = some (pos n)

abbrev pub as_neg : Option ℕ → Option ℤ
as_neg none = none
as_neg (some n) = some (neg n)

-- `parse::<iN>()`, where `end` is 2 ^ (N - 1).
unfoldable pub parse_signed : ℕ → Str → Option ℤ
unfolding parse_unsigned parse_digits
parse_signed end [] = none
parse_signed end (b ∷ bs) =
    if b == b'-' then as_neg (some_digits (end + 1) bs) else as_pos (parse_unsigned end (b ∷ bs))

-- `ok_or_else` and `map_err`, to `InvalidArguments`.
abbrev pub or_invalid {ℓ} : {A : Type ℓ} → Option A → Result A
or_invalid none = err invalid_arguments
or_invalid (some a) = ok a

abbrev pub positive : ℤ → Result ℕ
positive (pos n) = if ltb 0 n then ok n else err invalid_arguments
positive (negsuc n) = err invalid_arguments

module _ {F : Type 0} where
  unfoldable pub bool_option : OptionValue F → Result Bool
  unfolding str_eq
  bool_option (OptionValue.string s) =
      if str_eq s (codes "true")
      then ok true
      else if str_eq s (codes "false")
      then ok false
      else err invalid_arguments
  bool_option (OptionValue.bytes b) = err invalid_arguments
  bool_option (OptionValue.int i) = err invalid_arguments
  bool_option (OptionValue.double d) = err invalid_arguments

  unfoldable pub bool_option_unsettable : OptionValue F → Result Bool
  unfolding trim_utf8 bool_option
  bool_option_unsettable (OptionValue.string s) =
      if is_nil (trim_utf8 s) then ok false else bool_option (OptionValue.string s)
  bool_option_unsettable (OptionValue.bytes b) = bool_option (OptionValue.bytes b)
  bool_option_unsettable (OptionValue.int i) = bool_option (OptionValue.int i)
  bool_option_unsettable (OptionValue.double d) = bool_option (OptionValue.double d)

  unfoldable pub string_option : OptionValue F → Result Str
  string_option (OptionValue.string s) = ok s
  string_option (OptionValue.bytes b) = err invalid_arguments
  string_option (OptionValue.int i) = err invalid_arguments
  string_option (OptionValue.double d) = err invalid_arguments

  unfoldable pub non_empty_string_option : OptionValue F → Result (Option Str)
  unfolding string_option
  non_empty_string_option value = do s ← string_option value; ok (if is_nil s then none else some s)

  unfoldable pub positive_i64 : OptionValue F → Result ℕ
  unfolding parse_signed
  positive_i64 (OptionValue.int i) = positive i
  positive_i64 (OptionValue.string s) = or_invalid (parse_signed (2 ^ 63) s) >>= positive
  positive_i64 (OptionValue.bytes b) = err invalid_arguments
  positive_i64 (OptionValue.double d) = err invalid_arguments

  -- `usize` is of `width` bits.
  unfoldable pub positive_usize : ℕ → OptionValue F → Result ℕ
  unfolding positive_i64
  positive_usize width value = do
    n ← positive_i64 value
    if ltb n (2 ^ width) then ok n else err invalid_arguments

-- A raw option string kept beside its parsed form.
pub record RawParsed (T : Type 0) : Type 0 where
  pub raw : Option Str
  pub parsed : Option T

module _ {T : Type 0} where
  abbrev pub stored : RawParsed T → Str → Result T → RawParsed T × Result Done
  stored state trimmed (ok t) = (record { raw = some trimmed; parsed = some t }, ok tt)
  stored state trimmed (err e) = (state, err e)

  abbrev pub set_text : RawParsed T → Str → (Str → Result T) → RawParsed T × Result Done
  set_text state trimmed parse =
      if is_nil trimmed
      then (record { raw = none; parsed = none }, ok tt)
      else stored state trimmed (parse trimmed)

  abbrev pub set_string : RawParsed T → Result Str → (Str → Result T) → RawParsed T × Result Done
  set_string state (ok raw) parse = set_text state (trim_utf8 raw) parse
  set_string state (err e) parse = (state, err e)

module _ {F T : Type 0} where
  unfoldable pub set : RawParsed T → OptionValue F → (Str → Result T) → RawParsed T × Result Done
  unfolding trim_utf8 string_option
  set state value parse = set_string state (string_option value) parse

unfoldable pub int_from_stored_string : Result Str → Result ℤ
unfolding parse_signed
int_from_stored_string stored = do value ← stored; or_invalid (parse_signed (2 ^ 63) value)

-- `f64`, a parameter, with what the source uses of it.
pub record Floats : Type 1 where
  pub F : Type 0
  pub parse : Str → Option F
  pub of_int : ℤ → F
  pub to_string : F → Str
  -- `n > 0.0` and `n >= 0.0`
  pub is_positive : F → Bool
  pub is_non_negative : F → Bool
  pub is_finite : F → Bool
  -- `Duration::try_from_secs_f64(n).is_ok()`
  pub is_duration : F → Bool

pub data F64Range : Type 0 where
  positive_seconds non_negative_seconds positive_factor : F64Range

module _ (floats : Floats) where
  open floats use {F}

  abbrev pub in_range : F64Range → F → Bool
  in_range F64Range.non_negative_seconds n = floats.is_non_negative n
  in_range F64Range.positive_seconds n = floats.is_positive n
  in_range F64Range.positive_factor n = floats.is_positive n

  abbrev pub needs_duration : F64Range → Bool
  needs_duration F64Range.non_negative_seconds = true
  needs_duration F64Range.positive_seconds = true
  needs_duration F64Range.positive_factor = false

  abbrev pub checked : F64Range → F → Result (Option F)
  checked range n =
      if not (floats.is_finite n) || not (in_range range n)
      then err invalid_arguments
      else if needs_duration range && not (floats.is_duration n)
      then err invalid_arguments
      else ok (some n)

  abbrev pub f64_text : F64Range → Str → Result (Option F)
  f64_text range trimmed =
      if is_nil trimmed then ok none else (or_invalid (floats.parse trimmed) >>= checked range)

  unfoldable pub f64_option : OptionValue F → F64Range → Result (Option F)
  unfolding trim_utf8
  f64_option (OptionValue.string s) range = f64_text range (trim_utf8 s)
  f64_option (OptionValue.double d) range = checked range d
  f64_option (OptionValue.int i) range = checked range (floats.of_int i)
  f64_option (OptionValue.bytes b) range = err invalid_arguments

  unfoldable pub double_from_stored_string : Result Str → Result F
  double_from_stored_string stored = do value ← stored; or_invalid (floats.parse value)
