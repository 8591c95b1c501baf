-- ===== src/Codec/Temporal/RoundTrip.antt =====
-- What `parse_date_days` and `scan_timestamp_utc` of src/conversion.rs read.
use adbc_spanner.Common.{
  ℕ, zero, suc, ◌+◌, ◌-◌, ◌*◌, ◌/◌, ◌%◌, ◌<◌, ◌≤◌, ◌&&◌, false, ◌+◌, [], ◌∷◌, ◌++◌, Option, none,
  some, ltb, if◌then◌else◌, Str, length, drop, take, arith, ◌≡◌, refl, ap, ◌∙◌, subst, ten_pow,
  digit_of, padded, digit, digit_of-digit, negsuc, ◌+ℤ◌, digits_value-padded, length-padded,
  padded-IsDigit, length-append, append_assoc,
}
use adbc_spanner.Codec.Numeric.{◌>>=◌}
use adbc_spanner.Codec.Numeric.RoundTrip.{frac_value_lem}
use adbc_spanner.Codec.Temporal.{
  Calendar, byte_at, one_digit, two_digits, parse_date_days, scan_timestamp_utc, scan_nanos,
  scaled_nanos,
}

-- Text of a date as `YYYY-MM-DD`.
abbrev pub date_text : ℕ → ℕ → ℕ → Str
date_text y m d = padded 4 y ++ b'-' ∷ padded 2 m ++ b'-' ∷ padded 2 d

-- The same date and a time, as `YYYY-MM-DDTHH:MM:SS`.
abbrev pub stamp_text : ℕ → ℕ → ℕ → ℕ → ℕ → ℕ → Str
stamp_text y m d h mi s =
    date_text y m d ++ b'T' ∷ padded 2 h ++ b':' ∷ padded 2 mi ++ b':' ∷ padded 2 s

digit_back : (n : ℕ) → digit_of (digit (n % 10)) ≡ n % 10
digit_back n = digit_of-digit (n % 10) (omega arith)

one_lem :
    (n : ℕ)
    → (if ltb (digit_of (digit (n % 10))) 10 then some (digit_of (digit (n % 10))) else none)
      ≡ some (n % 10)
one_lem n = rw (digit_back n) (ground arith)

pair_lem :
    (hi lo : ℕ)
    → (if ltb (digit_of (digit (hi % 10))) 10 && ltb (digit_of (digit (lo % 10))) 10
        then some (digit_of (digit (hi % 10)) * 10 + digit_of (digit (lo % 10)))
        else none)
      ≡ some (hi % 10 * 10 + lo % 10)
pair_lem hi lo = rw (digit_back hi, digit_back lo) (ground arith)

two_back : (n : ℕ) → n < 100 → n / 10 % 10 * 10 + n % 10 ≡ n
two_back n h = omega arith

four_back :
    (n : ℕ)
    → n < 10000
    → n / 10 / 10 / 10 % 10 * 1000 + n / 10 / 10 % 10 * 100 + n / 10 % 10 * 10 + n % 10 ≡ n
four_back n h = omega arith

year_back :
    (n : ℕ)
    → n < 10000
    → (n / 10 / 10 / 10 % 10 * 10 + n / 10 / 10 % 10) * 100 + (n / 10 % 10 * 10 + n % 10) ≡ n
year_back n h = omega arith

take_exact : (n : ℕ) (xs ys : Str) → n ≡ length xs → take n (xs ++ ys) ≡ xs
take_exact n [] ys e = rw e refl
take_exact zero (x ∷ xs) ys e = absurd (omega arith)
take_exact (suc n) (x ∷ xs) ys e = ap (λ l. x ∷ l) (take_exact n xs ys (omega arith))

byte_at-append : (p q : Str) (c k : ℕ) → k ≡ length p → byte_at (p ++ c ∷ q) k ≡ c
unfolding byte_at
byte_at-append [] q c k e = rw e refl
byte_at-append (x ∷ p) q c zero e = absurd (omega arith)
byte_at-append (x ∷ p) q c (suc k) e = byte_at-append p q c k (omega arith)

drop_past : (p q : Str) (c k : ℕ) → k ≡ suc (length p) → drop k (p ++ c ∷ q) ≡ q
drop_past [] q c k e = rw e refl
drop_past (x ∷ p) q c zero e = absurd (omega arith)
drop_past (x ∷ p) q c (suc k) e = drop_past p q c k (omega arith)

-- `match b[19]` where a fraction stands between the point and the end.
scan_nanos_lem :
    (b frac : Str)
    → byte_at b 19 ≡ b'.'
    → 20 < length b
    → byte_at b (length b - 1) ≡ b'Z'
    → take (length b - 1 - 20) (drop 20 b) ≡ frac
    → 0 < length frac
    → length frac ≤ 9
    → scan_nanos b ≡ scaled_nanos frac
unfolding scan_nanos
scan_nanos_lem b [] e h last part some_digit short = absurd (omega arith)
scan_nanos_lem b (f ∷ fs) e h last part some_digit short = rw (e, last, part) (ground arith)

scaled_nanos-padded :
    (n f : ℕ) → f < ten_pow n → scaled_nanos (padded n f) ≡ some (f * ten_pow (9 - n))
unfolding scaled_nanos
scaled_nanos-padded n f h =
    rw
      (
        frac_value_lem 0 (padded n f) (padded-IsDigit n f),
        digits_value-padded 0 n f h,
        length-padded n f,
      )
      (ap (λ (k : ℕ). some (k * ten_pow (9 - n))) whole)
  where
    whole : 0 * ten_pow n + f ≡ f
    whole = omega arith

-- The end of a stamp with the fraction `xs`.
abbrev pub fraction_end : Str → Str
fraction_end xs = b'.' ∷ (xs ++ b'Z' ∷ [])

scan_nanos-fraction :
    (p xs : Str)
    → length p ≡ 19
    → 0 < length xs
    → length xs ≤ 9
    → scan_nanos (p ++ fraction_end xs) ≡ scaled_nanos xs
scan_nanos-fraction p xs len some_digit short =
    scan_nanos_lem (p ++ fraction_end xs) xs
      (byte_at-append p (xs ++ b'Z' ∷ []) b'.' 19 (omega arith)) (omega (arith, total))
      (subst (λ t. byte_at t (length (p ++ fraction_end xs) - 1) ≡ b'Z')
        (append_assoc p (b'.' ∷ xs) (b'Z' ∷ []))
        (byte_at-append (p ++ b'.' ∷ xs) [] b'Z' (length (p ++ fraction_end xs) - 1)
          (omega (arith, total, length-append p (b'.' ∷ xs)))))
      (ap (λ t. take (length (p ++ fraction_end xs) - 1 - 20) t)
          (drop_past p (xs ++ b'Z' ∷ []) b'.' 20 (omega arith))
        ∙ take_exact (length (p ++ fraction_end xs) - 1 - 20) xs (b'Z' ∷ []) (omega (arith, total)))
      some_digit short
  where
    total : length (p ++ fraction_end xs) ≡ 21 + length xs
    total = omega (arith, length-append p (fraction_end xs), length-append xs (b'Z' ∷ []))

scan_nanos-whole : (p : Str) → length p ≡ 19 → scan_nanos (p ++ b'Z' ∷ []) ≡ some 0
unfolding scan_nanos
scan_nanos-whole p len = rw (byte_at-append p [] b'Z' 19 (omega arith), total) refl
  where
    total : length (p ++ b'Z' ∷ []) ≡ 20
    total = omega (arith, length-append p (b'Z' ∷ []))

length-stamp_text : (y m d h mi s : ℕ) → length (stamp_text y m d h mi s) ≡ 19
unfolding padded
length-stamp_text y m d h mi s = refl

long_enough :
    (n : ℕ)
    → 0 < n
    → ltb
        (suc (
          suc (
            suc (
              suc (
                suc (
                  suc (
                    suc (
                      suc
                        (suc (suc (suc (suc (suc (suc (suc (suc (suc (suc (suc n)))))))))))))))))))
        20
      ≡ false
long_enough n h = ground arith

module _ (calendar : Calendar) where
  -- The date `y`-`m`-`d`, in text of four, two and two digits, reads as its day number counted from
  -- 1970-01-01, and as nothing where the calendar has no such date.
  pub parse_date_days-date_text :
      (y m d : ℕ)
      → y < 10000
      → m < 100
      → d < 100
      → parse_date_days calendar (date_text y m d) ≡ (
          calendar.from_ymd_opt y m d >>= λ date.
          some (calendar.num_days_from_ce date +ℤ negsuc 719162))
  unfolding parse_date_days one_digit byte_at padded
  parse_date_days-date_text y m d hy hm hd =
      rw
        (
          one_lem y,
          one_lem (y / 10),
          one_lem (y / 10 / 10),
          one_lem (y / 10 / 10 / 10),
          one_lem m,
          one_lem (m / 10),
          one_lem d,
          one_lem (d / 10),
        )
        (rw (four_back y hy, two_back m hm, two_back d hd) refl)

  abbrev pub instant : ℕ → ℕ → ℕ → ℕ → ℕ → ℕ → ℕ → Option calendar.DateTime
  instant y m d h mi s nanos =
      calendar.from_ymd_opt y m d >>= λ date. calendar.and_hms_nano_opt date h mi s nanos

  scan_fields :
      (y m d h mi s : ℕ) (rest : Str)
      → y < 10000
      → m < 100
      → d < 100
      → h < 100
      → mi < 100
      → s < 100
      → 0 < length rest
      → scan_timestamp_utc calendar (stamp_text y m d h mi s ++ rest)
        ≡ (scan_nanos (stamp_text y m d h mi s ++ rest) >>= instant y m d h mi s)
  unfolding scan_timestamp_utc two_digits byte_at padded
  scan_fields y m d h mi s rest hy hm hd hh hmi hs some_rest =
      rw (long_enough (length rest) some_rest) (
        rw
          (
            pair_lem (y / 10 / 10 / 10) (y / 10 / 10),
            pair_lem (y / 10) y,
            pair_lem (m / 10) m,
            pair_lem (d / 10) d,
            pair_lem (h / 10) h,
            pair_lem (mi / 10) mi,
            pair_lem (s / 10) s,
          )
          (rw
            (
              year_back y hy,
              two_back m hm,
              two_back d hd,
              two_back h hh,
              two_back mi hmi,
              two_back s hs,
            )
            refl))

  -- A stamp in UTC with `n` digits of a fraction, one to nine of them, is that instant, at nanosecond
  -- resolution.
  pub scan_timestamp_utc-stamp_text :
      (y m d h mi s n f : ℕ)
      → (y < 10000) × (m < 100) × (d < 100) × (h < 100) × (mi < 100) × (s < 100)
      → 0 < n
      → n ≤ 9
      → f < ten_pow n
      → scan_timestamp_utc calendar (stamp_text y m d h mi s ++ fraction_end (padded n f))
        ≡ instant y m d h mi s (f * ten_pow (9 - n))
  scan_timestamp_utc-stamp_text y m d h mi s n f (hy, hm, hd, hh, hmi, hs) some_digit short k =
      scan_fields y m d h mi s (fraction_end (padded n f)) hy hm hd hh hmi hs (omega arith)
      ∙ ap (λ o. o >>= instant y m d h mi s)
          (scan_nanos-fraction (stamp_text y m d h mi s) (padded n f)
              (length-stamp_text y m d h mi s) (omega (arith, length-padded n f))
              (omega (arith, length-padded n f))
            ∙ scaled_nanos-padded n f k)

  -- A stamp in UTC without a fraction is that instant.
  pub scan_timestamp_utc-whole :
      (y m d h mi s : ℕ)
      → (y < 10000) × (m < 100) × (d < 100) × (h < 100) × (mi < 100) × (s < 100)
      → scan_timestamp_utc calendar (stamp_text y m d h mi s ++ b'Z' ∷ []) ≡ instant y m d h mi s 0
  scan_timestamp_utc-whole y m d h mi s (hy, hm, hd, hh, hmi, hs) =
      scan_fields y m d h mi s (b'Z' ∷ []) hy hm hd hh hmi hs (omega arith)
      ∙ ap (λ o. o >>= instant y m d h mi s)
          (scan_nanos-whole (stamp_text y m d h mi s) (length-stamp_text y m d h mi s))
