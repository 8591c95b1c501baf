-- ===== src/Reads/Directed/Tokens.antt =====
-- Texts of visible ASCII characters, and of which a character is no part: what `trim`, `split_once` and `split`
-- make of them in src/directed_read.rs.
use adbc_spanner.Common.{
  ℕ, Bool, true, false, ◌&&◌, [], ◌∷◌, ◌++◌, Str, is_nil, split, contains, within, white_len,
  trim_from, trim_utf8_end, trim_utf8, All, ◌≡◌, refl, ap, arith, ◌≢◌,
}

-- Visible ASCII characters only.
unfoldable pub is_graphic : Str → Bool
is_graphic [] = true
is_graphic (c ∷ cs) = within 0x21 0x7e c && is_graphic cs

pub graphic-append :
    (xs ys : Str) → is_graphic xs ≡ true → is_graphic ys ≡ true → is_graphic (xs ++ ys) ≡ true
unfolding is_graphic
graphic-append [] ys h k = k
graphic-append (x ∷ xs) ys h k = ground (arith, graphic-append xs ys)

pub white_len-graphic : (a : ℕ) (rest : Str) → within 0x21 0x7e a ≡ true → white_len (a ∷ rest) ≡ 0
unfolding white_len
white_len-graphic a [] h = ground arith
white_len-graphic a (b ∷ []) h = ground arith
white_len-graphic a (b ∷ c ∷ rest) h = ground arith

pub trim_from-graphic : (s : Str) → is_graphic s ≡ true → trim_from 0 s ≡ s
unfolding is_graphic trim_from
trim_from-graphic [] h = refl
trim_from-graphic (a ∷ rest) h = rw (trim_from, white_len-graphic a rest (ground arith)) refl

pub trim_utf8_end-graphic : (s : Str) → is_graphic s ≡ true → trim_utf8_end s ≡ s
unfolding is_graphic trim_utf8_end
trim_utf8_end-graphic [] h = refl
trim_utf8_end-graphic (a ∷ rest) h =
    rw (trim_from-graphic (a ∷ rest) (unfold is_graphic in h))
      (ap (λ l. a ∷ l) (trim_utf8_end-graphic rest (ground arith)))

pub trim_utf8-graphic : (s : Str) → is_graphic s ≡ true → trim_utf8 s ≡ s
unfolding trim_utf8
trim_utf8-graphic s h = rw (trim_from-graphic s h) (trim_utf8_end-graphic s h)

pub contains_append :
    (c : ℕ) (xs ys : Str)
    → contains c xs ≡ false
    → contains c ys ≡ false
    → contains c (xs ++ ys) ≡ false
unfolding contains
contains_append c [] ys h k = k
contains_append c (x ∷ xs) ys h k = ground (arith, contains_append c xs ys)

pub no_char : (c : ℕ) (s : Str) → contains c s ≡ false → All (λ x. x ≢ c) s
unfolding contains
no_char c [] h = tt
no_char c (x ∷ xs) h = (λ e. ground arith, no_char c xs (ground arith))

pub is_nil-append : (xs ys : Str) (x : ℕ) → is_nil (xs ++ x ∷ ys) ≡ false
is_nil-append [] ys x = refl
is_nil-append (y ∷ xs) ys x = refl

pub split_whole : (c : ℕ) (s : Str) → contains c s ≡ false → split c s ≡ s ∷ []
unfolding contains split
split_whole c [] h = refl
split_whole c (x ∷ xs) h = ground (arith, split_whole c xs)

pub split_front :
    (c : ℕ) (xs ys : Str) → contains c xs ≡ false → split c (xs ++ c ∷ ys) ≡ xs ∷ split c ys
unfolding contains split
split_front c [] ys h = ground arith
split_front c (x ∷ xs) ys h = ground (arith, split_front c xs ys)
