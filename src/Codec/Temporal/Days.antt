-- ===== src/Codec/Temporal/Days.antt =====
-- `date64_days` and `date_string` of src/bind.rs, with `parse_date_days` of src/conversion.rs.
use adbc_spanner.Common.{
  ℕ, suc, ◌*◌, ◌<◌, ◌≤◌, some, ok, arith, ◌≡◌, refl, ◌∙◌, ℤ, pos, negsuc, ◌+ℤ◌, ◌^◌,
}
use adbc_spanner.Codec.Temporal.{
  Calendar, date64_days, div_euclid, fits, date_string, parse_date_days,
}
use adbc_spanner.Codec.Temporal.RoundTrip.{date_text, parse_date_days-date_text}

-- The instant `millis` falls in the day `day`, of 86,400,000 ms each.
abbrev pub InDay : ℤ → ℤ → Type 0
InDay (pos q) (pos n) = (q * 86400000 ≤ n) × (n < suc q * 86400000)
InDay (negsuc q) (negsuc n) = (q * 86400000 < suc n) × (suc n ≤ suc q * 86400000)
InDay _ _ = ⊥

-- Whether an `i32` holds the number.
abbrev pub IsI32 : ℤ → Type 0
IsI32 (pos n) = n < 2 ^ 31
IsI32 (negsuc n) = suc n ≤ 2 ^ 31

-- A day that `date64_days` returns is the one that the instant falls in, also before 1970, and an `i32`
-- holds it.
pub date64_days-InDay :
    (millis day : ℤ) → date64_days millis ≡ ok day → InDay day millis × IsI32 day
unfolding date64_days div_euclid fits
date64_days-InDay (pos n) (pos q) e = ground arith
date64_days-InDay (pos n) (negsuc q) e = ground arith
date64_days-InDay (negsuc n) (pos q) e = ground arith
date64_days-InDay (negsuc n) (negsuc q) e = ground arith

sub_epoch : (days : ℤ) → ((days +ℤ pos 719163) +ℤ negsuc 719162) ≡ days
sub_epoch (pos n) = ground arith
sub_epoch (negsuc n) = ground arith

-- What chrono documents of its calendar: day 719163 of the common era is 1970-01-01, adding days moves
-- the day number, and a date of a year of four digits is printed by its year, month and day.
pub record IsCalendar (calendar : Calendar) : Type 0 where
  pub epoch : calendar.Date
  pub epoch_valid : calendar.from_ymd_opt 1970 1 1 ≡ some epoch
  pub epoch_day : calendar.num_days_from_ce epoch ≡ pos 719163
  pub added_day :
      (date later : calendar.Date) (days : ℤ)
      → calendar.add_days date days ≡ some later
      → calendar.num_days_from_ce later ≡ days +ℤ calendar.num_days_from_ce date
  pub fields :
      (y m d : ℕ) (date : calendar.Date)
      → calendar.from_ymd_opt y m d ≡ some date
      → (m < 100) × (d < 100)
  pub printed :
      (y m d : ℕ) (date : calendar.Date)
      → y < 10000
      → calendar.from_ymd_opt y m d ≡ some date
      → calendar.format_ymd date ≡ date_text y m d

-- Where `days` from 1970-01-01 is the date `y`-`m`-`d` of a year below 10000, `date_string` writes that
-- date's text, and `parse_date_days` reads it back as `days`.
pub parse_date_days-date_string :
    (calendar : Calendar) (laws : IsCalendar calendar) (days : ℤ) (y m d : ℕ) (date : calendar.Date)
    → y < 10000
    → calendar.from_ymd_opt y m d ≡ some date
    → calendar.add_days laws.epoch days ≡ some date
    → (date_string calendar days ≡ some (ok (date_text y m d)))
      × (parse_date_days calendar (date_text y m d) ≡ some days)
unfolding date_string
parse_date_days-date_string calendar laws days y m d date hy valid reached = (
  rw (laws.epoch_valid, reached, laws.printed y m d date hy valid) refl,
  parse_date_days-date_text calendar y m d hy (laws.fields y m d date valid).0
        (laws.fields y m d date valid).1
      ∙ rw (valid, laws.added_day laws.epoch date days reached, laws.epoch_day, sub_epoch days)
          refl,
)
