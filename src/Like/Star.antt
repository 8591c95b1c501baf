-- ===== src/Like/Star.antt =====
-- The last `%` of the walk of src/metadata.rs, and the end of the value.
use adbc_spanner.Common.{
  ℕ, ◌≤◌, true, false, [], ◌∷◌, ◌++◌, none, some, ◌≡◌, ◌⊎◌, inl, inr, refl, sym, ap, ◌∙◌, subst,
  Str, length, length-append, append_assoc, arith, ◌==◌, ==_iff, Bool-cases,
}
use adbc_spanner.Like.{Star, all_percent}
use adbc_spanner.Like.Spec.{
  Matches, end, run, Matches-percent, Matches-char, percent-suffix, NoPercent, Matches-split,
  suffix_of_split,
}

-- What the last `%` can still do by taking more characters.
abbrev pub Alternative : Star → Type 0
Alternative none = ⊥
Alternative (some (sp, [])) = ⊥
Alternative (some (sp, x ∷ sv)) = Matches (b'%' ∷ sp) sv

-- Since the last `%` the walk has passed `lits` of the pattern and `seg` of the value.
pub record Since (sp sv pattern value : Str) (size bound : ℕ) : Type 0 where
  pub lits : Str
  pub seg : Str
  pub pattern_is : sp ≡ lits ++ pattern
  pub value_is : sv ≡ seg ++ value
  pub plain : NoPercent lits
  pub level : length seg ≡ length lits
  pub star_fits : length sp ≤ size
  pub bounded : length sv ≤ bound

abbrev pub Linked : Star → Str → Str → ℕ → ℕ → Type 0
Linked none pattern value size bound = length value ≤ bound
Linked (some (sp, sv)) pattern value size bound = Since sp sv pattern value size bound

pub value-le-bound :
    (star : Star) (pattern value : Str) (size bound : ℕ)
    → Linked star pattern value size bound
    → length value ≤ bound
value-le-bound none pattern value size bound h = h
value-le-bound (some (sp, sv)) pattern value size bound h =
    omega (arith, h.bounded, ap length h.value_is, length-append {0} h.seg value)

-- A match that the last `%` could still reach is reached from a later `%` too.
pub absorb :
    (star : Star) (p value : Str) (size bound : ℕ)
    → Linked star (b'%' ∷ p) value size bound
    → Alternative star
    → Matches (b'%' ∷ p) value
absorb none p value size bound h a = absurd a
absorb (some (sp, [])) p value size bound h a = absurd a
absorb (some (sp, x ∷ sv)) p value size bound h a =
    let (skipped, w, m, e) = Matches-percent a in
    let (y, b, e', len, m') =
      Matches-split h.lits h.plain (subst (λ q. Matches q w) h.pattern_is m) in
    let whole : ((x ∷ skipped) ++ y) ++ b ≡ h.seg ++ value =
      append_assoc (x ∷ skipped) y b
      ∙ ap (λ l. x ∷ (skipped ++ l)) (sym e')
      ∙ ap (λ l. x ∷ l) (sym e)
      ∙ h.value_is in
    let (t, e'') =
      suffix_of_split h.seg ((x ∷ skipped) ++ y) whole
        (omega (arith, h.level, len, length-append {0} (x ∷ skipped) y)) in
    subst (Matches (b'%' ∷ p)) (sym e'') (percent-suffix t m')

-- At the end of the value the last `%` has no characters left to give.
pub exhausted :
    (star : Star) (pattern : Str) (size bound : ℕ)
    → Linked star pattern [] size bound
    → ¬ Alternative star
exhausted none pattern size bound h a = a
exhausted (some (sp, [])) pattern size bound h a = a
exhausted (some (sp, x ∷ sv)) pattern size bound h a =
    let (skipped, w, m, e) = Matches-percent a in
    let (y, b, e', len, m') =
      Matches-split h.lits h.plain (subst (λ q. Matches q w) h.pattern_is m) in
    omega (
      arith,
      ap length e,
      ap length e',
      len,
      h.level,
      ap length h.value_is,
      length-append {0} skipped w,
      length-append {0} y b,
      length-append {0} h.seg [],
    )

pub percent_nil : {q : ℕ} {p : Str} → q ≡ b'%' → Matches (q ∷ p) [] → Matches p []
percent_nil {q} {p} e m =
    let (skipped, w, h, e') = Matches-percent (subst (λ q. Matches (q ∷ p) []) e m) in
    nothing skipped w h e'
  where
    nothing : (skipped w : Str) → Matches p w → [] ≡ skipped ++ w → Matches p []
    nothing [] w h e = subst (Matches p) (sym e) h
    nothing (x ∷ skipped) w h e = cc

pub all_percent-Matches :
    (p : Str)
    → ((all_percent p ≡ true) × Matches p []) ⊎ ((all_percent p ≡ false) × (¬ Matches p []))
unfolding all_percent
all_percent-Matches [] = inl (refl, end)
all_percent-Matches (q ∷ p) = elim (Bool-cases (q == b'%')) [
  | inl e ↦
      let e' = (==_iff q b'%').0 e in
      elim (all_percent-Matches p) [
        | inl (t, m) ↦ inl (rw (e, t) refl, run [] e' m refl)
        | inr (f, n) ↦ inr (rw (e, f) refl, λ m. n (percent_nil e' m))
      ]
  | inr e ↦ inr (
    rw e refl,
    λ m. let (c, w, h, _, _) = Matches-char q (λ e'. cc ((==_iff q b'%').1 e')) m in cc,
  )
]
