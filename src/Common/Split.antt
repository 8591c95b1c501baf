-- ===== src/Common/Split.antt =====
-- `split_once` and `split` of a `str` at a character.
use Prim.Native.Nat.{ℕ}
use mathlib.Core.Path.{◌≡◌, refl}
use mathlib.Core.Logic.{◌≢◌}
use mathlib.Core.Bool.{Bool, true, false}
use mathlib.Core.Option.{Option, none, some}
use mathlib.Core.List.{List, [], ◌∷◌, ◌++◌}
use native.Mathlib.Omega.{arith}
use adbc_spanner.Common.Tests.{◌==◌, if◌then◌else◌, ==_refl}
use adbc_spanner.Common.Lists.{Str, All}

abbrev pub cons_before : ℕ → Option (Str × Str) → Option (Str × Str)
cons_before x none = none
cons_before x (some (a, b)) = some (x ∷ a, b)

unfoldable pub split_once : ℕ → Str → Option (Str × Str)
split_once c [] = none
split_once c (x ∷ xs) = if x == c then some ([], xs) else cons_before x (split_once c xs)

abbrev pub add_piece : Bool → ℕ → List Str → List Str
add_piece true x pieces = [] ∷ pieces
add_piece false x [] = (x ∷ []) ∷ []
add_piece false x (p ∷ pieces) = (x ∷ p) ∷ pieces

-- The pieces between the separators, at least one.
unfoldable pub split : ℕ → Str → List Str
split c [] = [] ∷ []
split c (x ∷ xs) = add_piece (x == c) x (split c xs)

pub split_once-append :
    (c : ℕ) (xs ys : Str) → All (λ x. x ≢ c) xs → split_once c (xs ++ c ∷ ys) ≡ some (xs, ys)
unfolding split_once
split_once-append c [] ys h = rw (==_refl c) refl
split_once-append c (x ∷ xs) ys (h, hs) = ground (arith, split_once-append c xs ys hs)

pub split_once-none : (c : ℕ) (xs : Str) → All (λ x. x ≢ c) xs → split_once c xs ≡ none
unfolding split_once
split_once-none c [] h = refl
split_once-none c (x ∷ xs) (h, hs) = ground (arith, split_once-none c xs hs)
