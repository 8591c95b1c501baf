-- ===== src/Common/Slices.antt =====
-- Prefixes and slices of lists: `take`, and `drop` with it.
use Prim.Native.Nat.{ℕ, zero, suc, ◌-◌, ◌≤◌}
use mathlib.Core.Path.{◌≡◌, refl, sym, ap, ap₂, ◌∙◌}
use mathlib.Core.Logic.{◌⊎◌, inl, inr}
use mathlib.Core.List.{List, [], ◌∷◌, ◌++◌}
use native.Mathlib.Omega.{arith}
use adbc_spanner.Common.Lists.{length, drop}

module _ {A : Type 0} where
  abbrev pub take : ℕ → List A → List A
  take zero xs = []
  take (suc n) [] = []
  take (suc n) (x ∷ xs) = x ∷ take n xs

  pub take-nil : (n : ℕ) → take n [] ≡ []
  take-nil zero = refl
  take-nil (suc n) = refl

  pub take_all : (n : ℕ) (xs : List A) → length xs ≤ n → take n xs ≡ xs
  take_all zero [] h = refl
  take_all zero (x ∷ xs) h = absurd (omega arith)
  take_all (suc n) [] h = refl
  take_all (suc n) (x ∷ xs) h = ap (λ l. x ∷ l) (take_all n xs (omega arith))

  pub part_eq :
      (n n' d d' : ℕ) (ys : List A) → n ≡ n' → d ≡ d' → take n (drop d ys) ≡ take n' (drop d' ys)
  part_eq n n' d d' ys e f = ap₂ (λ k j. take k (drop j ys)) e f

  pub take_same :
      (n k : ℕ) (xs : List A)
      → (n ≡ k) ⊎ ((length xs ≤ n) × (length xs ≤ k))
      → take n xs ≡ take k xs
  take_same n k xs (inl e) = ap (λ j. take j xs) e
  take_same n k xs (inr (p, q)) = take_all n xs p ∙ sym (take_all k xs q)

  pub drop-nil : (d : ℕ) → drop {A = A} d [] ≡ []
  drop-nil zero = refl
  drop-nil (suc d) = refl

  pub take-append :
      (n : ℕ) (xs ys : List A) → take n (xs ++ ys) ≡ take n xs ++ take (n - length xs) ys
  take-append n [] ys =
      part_eq n (n - 0) 0 0 ys (omega arith) refl
      ∙ ap (λ l. l ++ take (n - 0) ys) (sym (take-nil n))
  take-append zero (x ∷ xs) ys = part_eq 0 (0 - suc (length xs)) 0 0 ys (omega arith) refl
  take-append (suc n) (x ∷ xs) ys =
      ap (λ l. x ∷ l)
        (take-append n xs ys
          ∙ ap (λ l. take n xs ++ l)
              (part_eq (n - length xs) (suc n - suc (length xs)) 0 0 ys (omega arith) refl))

  pub take-drop :
      (n d : ℕ) (xs ys : List A)
      → take n (drop d (xs ++ ys))
        ≡ take n (drop d xs) ++ take (n - (length xs - d)) (drop (d - length xs) ys)
  take-drop n zero xs ys =
      take-append n xs ys
      ∙ ap (λ l. take n xs ++ l)
          (part_eq (n - length xs) (n - (length xs - 0)) 0 (0 - length xs) ys (omega arith)
            (omega arith))
  take-drop n (suc d) [] ys =
      part_eq n (n - (0 - suc d)) (suc d) (suc d - 0) ys (omega arith) (omega arith)
      ∙ ap (λ l. l ++ take (n - (0 - suc d)) (drop (suc d - 0) ys)) (sym (take-nil n))
  take-drop n (suc d) (x ∷ xs) ys =
      take-drop n d xs ys
      ∙ ap (λ l. take n (drop d xs) ++ l)
          (part_eq (n - (length xs - d)) (n - (suc (length xs) - suc d)) (d - length xs)
            (suc d - suc (length xs)) ys (omega arith) (omega arith))
