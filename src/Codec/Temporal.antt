-- ===== src/Codec/Temporal.antt =====
-- `DATE` and `TIMESTAMP` text: `parse_date_days`, `scan_timestamp_utc` and what they use, of
-- src/conversion.rs, and `date_string` and `date64_days` of src/bind.rs. A text is the list of its bytes.
-- The calendar, chrono's, is a parameter.
pub mod RoundTrip
pub mod Days
use adbc_spanner.Common.{
  ℕ, zero, suc, ◌+◌, ◌-◌, ◌*◌, ◌/◌, ◌^◌, ◌%◌, Bool, true, false, List, [], ◌∷◌, ◌++◌, Option, none,
  some, not, ◌==◌, ltb, leb, if◌then◌else◌, Str, length, drop, take, ◌||◌, ◌&&◌, is_nil, Result, ok,
  err, invalid_arguments, ten_pow, digit_of, ℤ, pos, negsuc, ◌+ℤ◌,
}
use adbc_spanner.Codec.Numeric.{◌>>=◌, frac_value}

-- What is used of chrono. A `DateTime` is a `NaiveDateTime`, read as UTC.
pub record Calendar : Type 1 where
  pub Date : Type 0
  pub DateTime : Type 0
  pub from_ymd_opt : ℕ → ℕ → ℕ → Option Date
  pub num_days_from_ce : Date → ℤ
  -- `checked_add_signed` of a number of days.
  pub add_days : Date → ℤ → Option Date
  -- `format("%Y-%m-%d")`
  pub format_ymd : Date → Str
  pub and_hms_nano_opt : Date → ℕ → ℕ → ℕ → ℕ → Option DateTime
  pub timestamp : DateTime → ℤ
  pub timestamp_subsec_micros : DateTime → ℕ
  pub timestamp_nanos_opt : DateTime → Option ℤ

-- `b[i]`. The guards on the length keep every index in bounds.
unfoldable pub byte_at : Str → ℕ → ℕ
byte_at [] i = 0
byte_at (x ∷ xs) zero = x
byte_at (x ∷ xs) (suc i) = byte_at xs i

-- The closure `digit` of `parse_date_days`.
unfoldable pub one_digit : Str → ℕ → Option ℕ
unfolding digit_of byte_at
one_digit b i = if ltb (digit_of (byte_at b i)) 10 then some (digit_of (byte_at b i)) else none

unfoldable pub two_digits : Str → ℕ → Option ℕ
unfolding digit_of byte_at
two_digits b off =
    let hi = digit_of (byte_at b off) in
    let lo = digit_of (byte_at b (off + 1)) in
    if ltb hi 10 && ltb lo 10 then some (hi * 10 + lo) else none

-- `i64` and `i32` hold `- 2 ^ (w - 1)` up to `2 ^ (w - 1) - 1`.
unfoldable pub fits : ℕ → ℤ → Bool
fits w (pos n) = ltb n (2 ^ (w - 1))
fits w (negsuc n) = ltb n (2 ^ (w - 1))

-- `div_euclid` by a positive number.
unfoldable pub div_euclid : ℤ → ℕ → ℤ
div_euclid (pos n) k = pos (n / k)
div_euclid (negsuc n) k = negsuc (n / k)

unfoldable pub date64_days : ℤ → Result ℤ
unfolding div_euclid fits
date64_days millis =
    let days = div_euclid millis 86400000 in if fits 32 days then ok days else err invalid_arguments

-- The digits of the fraction, at nanosecond resolution.
unfoldable pub scaled_nanos : Str → Option ℕ
unfolding frac_value ten_pow
scaled_nanos frac = frac_value 0 frac >>= λ nanos. some (nanos * ten_pow (9 - length frac))

-- `match b[19]`
unfoldable pub scan_nanos : Str → Option ℕ
unfolding byte_at scaled_nanos
scan_nanos b =
    let frac = take (length b - 1 - 20) (drop 20 b) in
    if byte_at b 19 == b'Z' && length b == 20
    then some 0
    else if byte_at b 19 == b'.' && ltb 20 (length b)
    then if not (byte_at b (length b - 1) == b'Z') || is_nil frac || ltb 9 (length frac)
      then none
      else scaled_nanos frac
    else none

module _ (calendar : Calendar) where
  open calendar use {Date, DateTime}

  unfoldable pub parse_date_days : Str → Option ℤ
  unfolding one_digit byte_at
  parse_date_days b =
      if not (length b == 10) || not (byte_at b 4 == b'-') || not (byte_at b 7 == b'-')
      then none
      else do
        y0 ← one_digit b 0
        y1 ← one_digit b 1
        y2 ← one_digit b 2
        y3 ← one_digit b 3
        m0 ← one_digit b 5
        m1 ← one_digit b 6
        d0 ← one_digit b 8
        d1 ← one_digit b 9
        date ←
            calendar.from_ymd_opt (y0 * 1000 + y1 * 100 + y2 * 10 + y3) (m0 * 10 + m1)
              (d0 * 10 + d1)
        some (calendar.num_days_from_ce date +ℤ negsuc 719162)

  abbrev added : Option Date → Result Str
  added (some date) = ok (calendar.format_ymd date)
  added none = err invalid_arguments

  -- `none` is the panic of `unwrap`.
  unfoldable pub date_string : ℤ → Option (Result Str)
  date_string days =
      calendar.from_ymd_opt 1970 1 1 >>= λ epoch. some (added (calendar.add_days epoch days))

  unfoldable pub scan_timestamp_utc : Str → Option DateTime
  unfolding two_digits scan_nanos byte_at
  scan_timestamp_utc b =
      if ltb (length b) 20
        || not (byte_at b 4 == b'-')
        || not (byte_at b 7 == b'-')
        || not (byte_at b 10 == b'T')
        || not (byte_at b 13 == b':')
        || not (byte_at b 16 == b':')
      then none
      else do
        century ← two_digits b 0
        year ← two_digits b 2
        month ← two_digits b 5
        day ← two_digits b 8
        hour ← two_digits b 11
        min ← two_digits b 14
        sec ← two_digits b 17
        nanos ← scan_nanos b
        date ← calendar.from_ymd_opt (century * 100 + year) month day
        calendar.and_hms_nano_opt date hour min sec nanos

  unfoldable pub parse_timestamp_nanos : Str → Option ℤ
  unfolding scan_timestamp_utc
  parse_timestamp_nanos s = scan_timestamp_utc s >>= calendar.timestamp_nanos_opt

  abbrev checked_i64 : ℤ → Option ℤ
  checked_i64 n = if fits 64 n then some n else none

  abbrev times : ℤ → ℕ → ℤ
  times (pos n) k = pos (n * k)
  times (negsuc n) k = negsuc (suc n * k - 1)

  unfoldable pub parse_timestamp_micros : Str → Option ℤ
  unfolding scan_timestamp_utc fits
  parse_timestamp_micros s = do
    dt ← scan_timestamp_utc s
    micros ← checked_i64 (times (calendar.timestamp dt) 1000000)
    checked_i64 (micros +ℤ pos (calendar.timestamp_subsec_micros dt))
