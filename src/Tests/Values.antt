-- ===== src/Tests/Values.antt =====
-- Runs of the value codecs and the option parsers of src/conversion.rs, src/bind.rs and src/options.rs.
use adbc_spanner.Common.{
  ℕ, ◌+◌, ◌-◌, ◌*◌, ◌/◌, ◌<◌, ◌&&◌, [], ◌++◌, Option, none, some, true, false, ◌≡◌, refl, arith,
  Str, length, codes, padded, ten_pow, ◌==◌, ltb, ◌^◌, ◌%◌, if◌then◌else◌, leb, Result, ok, err,
  invalid_arguments, ℤ, pos, negsuc, ◌+ℤ◌, is_nil,
}
use adbc_spanner.Codec.Numeric.{parse_numeric_i128, numeric_string}
use adbc_spanner.Codec.Numeric.RoundTrip.{rescaled, parse_numeric_i128-numeric_string}
use adbc_spanner.Codec.Temporal.{
  Calendar, parse_date_days, date_string, date64_days, scan_timestamp_utc, parse_timestamp_micros,
}
use adbc_spanner.Codec.Temporal.RoundTrip.{
  date_text, stamp_text, fraction_end, instant, scan_timestamp_utc-stamp_text,
}
use adbc_spanner.Codec.Temporal.Days.{
  IsCalendar, InDay, IsI32, date64_days-InDay, parse_date_days-date_string,
}
use adbc_spanner.Options.{OptionValue, RawParsed, set, Floats}

parse_numeric_i128-numeric_string_example :
    parse_numeric_i128 (numeric_string (negsuc 12344) 3) ≡ some (rescaled (negsuc 12344) 3)
unfolding ten_pow
parse_numeric_i128-numeric_string_example =
    parse_numeric_i128-numeric_string (negsuc 12344) 3 (omega arith) (omega arith)

numeric_run : parse_numeric_i128 (codes "-12.345") ≡ some (negsuc 12344999999)
unfolding parse_numeric_i128
numeric_run = refl

-- A calendar that ends with January 1970, a date as its day of the month.
abbrev later_in_january : ℕ → ℤ → Option ℕ
later_in_january date (pos n) = if leb (date + n) 31 then some (date + n) else none
later_in_january date (negsuc n) = none

abbrev in_january : ℕ → ℕ → ℕ → Option ℕ
in_january y m d = if y == 1970 && m == 1 && leb 1 d && leb d 31 then some d else none

abbrev january : Calendar
january = record {
  Date = ℕ;
  DateTime = ℕ;
  from_ymd_opt = in_january;
  num_days_from_ce = λ date. pos (719162 + date);
  add_days = later_in_january;
  format_ymd = λ date. date_text 1970 1 date;
  and_hms_nano_opt =
      λ date h mi s nanos. some ((((date - 1) * 24 + h) * 3600 + mi * 60 + s) * 1000000000 + nanos);
  timestamp = λ t. pos (t / 1000000000);
  timestamp_subsec_micros = λ t. t / 1000 % 1000000;
  timestamp_nanos_opt = λ t. some (pos t);
}

january_added :
    (date later : ℕ) (days : ℤ)
    → later_in_january date days ≡ some later
    → pos (719162 + later) ≡ days +ℤ pos (719162 + date)
january_added date later (pos n) h = ground arith
january_added date later (negsuc n) h = cc

january_fields : (y m d date : ℕ) → in_january y m d ≡ some date → (m < 100) × (d < 100)
january_fields y m d date h = ground arith

january_same : (y m d date : ℕ) → in_january y m d ≡ some date → (y ≡ 1970) × (m ≡ 1) × (d ≡ date)
january_same y m d date h = ground arith

january_laws : IsCalendar january
january_laws = record {
  epoch = 1;
  epoch_valid = refl;
  epoch_day = refl;
  added_day = january_added;
  fields = january_fields;
  printed =
      λ y m d date h valid. let (a, b, c) = january_same y m d date valid in rw (a, b, c) refl;
}

parse_date_days-date_string_example :
    (date_string january (pos 14) ≡ some (ok (date_text 1970 1 15)))
    × (parse_date_days january (date_text 1970 1 15) ≡ some (pos 14))
unfolding january_laws
parse_date_days-date_string_example =
    parse_date_days-date_string january january_laws (pos 14) 1970 1 15 15 (omega arith) refl refl

date_run : parse_date_days january (codes "1970-01-15") ≡ some (pos 14)
unfolding parse_date_days
date_run = refl

scan_timestamp_utc-stamp_text_example :
    scan_timestamp_utc january (stamp_text 1970 1 2 3 4 5 ++ fraction_end (padded 3 789))
    ≡ instant january 1970 1 2 3 4 5 (789 * ten_pow (9 - 3))
unfolding ten_pow
scan_timestamp_utc-stamp_text_example =
    scan_timestamp_utc-stamp_text january 1970 1 2 3 4 5 3 789
      (omega arith, omega arith, omega arith, omega arith, omega arith, omega arith) (omega arith)
      (omega arith) (omega arith)

stamp_run :
    parse_timestamp_micros january (codes "1970-01-02T03:04:05.789Z") ≡ some (pos 97445789000)
unfolding parse_timestamp_micros
stamp_run = refl

date64_days-InDay_example : InDay (negsuc 0) (negsuc 0) × IsI32 (negsuc 0)
date64_days-InDay_example = date64_days-InDay (negsuc 0) (negsuc 0) (unfold date64_days in refl)

-- A parser that accepts what is not empty, as its length.
abbrev length_of : Str → Result ℕ
length_of s = if is_nil s then err invalid_arguments else ok (length s)

abbrev unset : RawParsed ℕ
unset = record { raw = none; parsed = none }

abbrev padded_text : OptionValue ℕ
padded_text = OptionValue.string (codes "  15s ")

set_run : (set unset padded_text length_of).0 ≡ record { raw = some (codes "15s"); parsed = some 3 }
unfolding set
set_run = refl

-- Numbers of seconds, without fractions.
abbrev seconds : Floats
seconds = record {
  F = ℤ;
  parse = λ s. none;
  of_int = λ i. i;
  to_string = λ f. [];
  is_positive = λ f. elim f [ pos n ↦ ltb 0 n | negsuc n ↦ false ];
  is_non_negative = λ f. elim f [ pos n ↦ true | negsuc n ↦ false ];
  is_finite = λ f. true;
  is_duration = λ f. elim f [ pos n ↦ ltb n (2 ^ 64) | negsuc n ↦ false ];
}
