-- ===== src/Common/Digits.antt =====
-- Decimal digits as ASCII text: Rust's `Display` of an unsigned integer, its zero padding, and the
-- reading of digits from the left.
use Prim.Native.Nat.{ℕ, zero, suc, ◌+◌, ◌-◌, ◌*◌, ◌/◌, ◌%◌, ◌≤◌, ◌<◌}
use mathlib.Core.Path.{◌≡◌, refl, ap, ◌∙◌}
use mathlib.Core.Logic.{inl, inr}
use mathlib.Core.List.{[], ◌∷◌, ◌++◌}
use native.Mathlib.Omega.{arith}
use adbc_spanner.Common.Tests.{ltb, if◌then◌else◌, Bool-cases}
use adbc_spanner.Common.Lists.{Str, length, All, length-append}

-- `10.pow(n)`
unfoldable pub ten_pow : ℕ → ℕ
ten_pow zero = 1
ten_pow (suc n) = ten_pow n * 10

-- `b.wrapping_sub(b'0')`, of a byte.
unfoldable pub digit_of : ℕ → ℕ
digit_of b = (b + 256 - b'0') % 256

-- The digit `d` as a byte.
abbrev pub digit : ℕ → ℕ
digit d = b'0' + d

-- Exactly `width` digits of `n`, the low ones.
unfoldable pub padded : ℕ → ℕ → Str
padded zero n = []
padded (suc width) n = padded width (n / 10) ++ digit (n % 10) ∷ []

-- `Display` of an unsigned integer of at most `suc fuel` digits.
unfoldable pub display : ℕ → ℕ → Str
display zero n = digit (n % 10) ∷ []
display (suc fuel) n =
    let rest = display fuel (n / 10) ++ digit (n % 10) ∷ [] in
    if ltb n 10 then digit n ∷ [] else rest

-- The number that digits stand for, after a first part of value `acc`.
unfoldable pub digits_value : ℕ → Str → ℕ
unfolding digit_of
digits_value acc [] = acc
digits_value acc (b ∷ bs) = digits_value (acc * 10 + digit_of b) bs

abbrev pub IsDigit : ℕ → Type 0
IsDigit b = (b'0' ≤ b) × (b ≤ b'9')

pub All-append {ℓ} : (P : ℕ → Type ℓ) (xs ys : Str) → All P xs → All P ys → All P (xs ++ ys)
All-append P [] ys p q = q
All-append P (x ∷ xs) ys (p, ps) q = (p, All-append P xs ys ps q)

pub ten_pow-pos : (n : ℕ) → 0 < ten_pow n
unfolding ten_pow
ten_pow-pos zero = omega arith
ten_pow-pos (suc n) = omega (arith, ten_pow-pos n)

pub digit_of-digit : (d : ℕ) → d < 10 → digit_of (digit d) ≡ d
unfolding digit_of
digit_of-digit d h = omega arith

pub digits_value-append :
    (acc : ℕ) (xs ys : Str) → digits_value acc (xs ++ ys) ≡ digits_value (digits_value acc xs) ys
unfolding digits_value
digits_value-append acc [] ys = refl
digits_value-append acc (x ∷ xs) ys = digits_value-append (acc * 10 + digit_of x) xs ys

pub digits_value-snoc :
    (acc : ℕ) (xs : Str) (d : ℕ)
    → d < 10
    → digits_value acc (xs ++ digit d ∷ []) ≡ digits_value acc xs * 10 + d
unfolding digits_value
digits_value-snoc acc xs d h =
    digits_value-append acc xs (digit d ∷ [])
    ∙ ap (λ k. digits_value acc xs * 10 + k) (digit_of-digit d h)

pub digits_value-ge : (acc : ℕ) (xs : Str) → acc ≤ digits_value acc xs
unfolding digits_value
digits_value-ge acc [] = omega arith
digits_value-ge acc (x ∷ xs) = omega (arith, digits_value-ge (acc * 10 + digit_of x) xs)

pub digits_value-padded :
    (acc width n : ℕ)
    → n < ten_pow width
    → digits_value acc (padded width n) ≡ acc * ten_pow width + n
unfolding padded ten_pow digits_value
digits_value-padded acc zero n h = omega arith
digits_value-padded acc (suc width) n h =
    digits_value-snoc acc (padded width (n / 10)) (n % 10) (omega arith)
    ∙ grind (arith, digits_value-padded acc width (n / 10) (omega arith))

pub padded-IsDigit : (width n : ℕ) → All IsDigit (padded width n)
unfolding padded
padded-IsDigit zero n = tt
padded-IsDigit (suc width) n =
    All-append IsDigit (padded width (n / 10)) (digit (n % 10) ∷ []) (padded-IsDigit width (n / 10))
      ((omega arith, omega arith), tt)

pub length-padded : (width n : ℕ) → length (padded width n) ≡ width
unfolding padded
length-padded zero n = refl
length-padded (suc width) n = omega (
  arith,
  length-padded width (n / 10),
  length-append (padded width (n / 10)) (digit (n % 10) ∷ []),
)

pub display-IsDigit : (fuel n : ℕ) → All IsDigit (display fuel n)
unfolding display
display-IsDigit zero n = ((omega arith, omega arith), tt)
display-IsDigit (suc fuel) n = elim (Bool-cases (ltb n 10)) [
  | inl t ↦ rw t ((omega arith, ground arith), tt)
  | inr f ↦ rw f (
      All-append IsDigit (display fuel (n / 10)) (digit (n % 10) ∷ [])
        (display-IsDigit fuel (n / 10)) ((omega arith, omega arith), tt))
]

pub display-pos : (fuel n : ℕ) → 0 < length (display fuel n)
unfolding display
display-pos zero n = omega arith
display-pos (suc fuel) n = elim (Bool-cases (ltb n 10)) [
  | inl t ↦ rw t (omega arith)
  | inr f ↦ rw f (omega (arith, length-append (display fuel (n / 10)) (digit (n % 10) ∷ [])))
]

pub digits_value-display :
    (fuel n : ℕ) → n < ten_pow (suc fuel) → digits_value 0 (display fuel n) ≡ n
unfolding display ten_pow
digits_value-display zero n h =
    digits_value-snoc 0 [] (n % 10) (omega arith) ∙ unfold digits_value in omega arith
digits_value-display (suc fuel) n h = elim (Bool-cases (ltb n 10)) [
  | inl t ↦ rw t (digits_value-snoc 0 [] n (ground arith) ∙ unfold digits_value in omega arith)
  | inr f ↦ rw f (
      digits_value-snoc 0 (display fuel (n / 10)) (n % 10) (omega arith)
      ∙ omega (arith, digits_value-display fuel (n / 10) (omega arith)))
]
