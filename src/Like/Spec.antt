-- ===== src/Like/Spec.antt =====
-- What a `LIKE` pattern of src/metadata.rs means: `%` is any run of characters, `_` is any one
-- character, and any other character is itself.
use adbc_spanner.Common.{
  ℕ, suc, ◌≤◌, [], ◌∷◌, ◌++◌, ◌≡◌, ◌≢◌, ◌⊎◌, inl, inr, refl, sym, ap, ◌∙◌, subst, Str, All, length,
  arith,
}

pub data Matches : Str → Str → Type 0 where
  end : Matches [] []
  run :
      {q : ℕ} (skipped : Str) {p v w : Str}
      → q ≡ b'%'
      → Matches p v
      → w ≡ skipped ++ v
      → Matches (q ∷ p) w
  one :
      {q : ℕ} (c : ℕ) {p v : Str}
      → q ≢ b'%'
      → (q ≡ b'_') ⊎ (q ≡ c)
      → Matches p v
      → Matches (q ∷ p) (c ∷ v)

pub Matches-nil : {v : Str} → Matches [] v → v ≡ []
Matches-nil end = refl

-- A match, by the first character of the pattern.
abbrev Shape : Str → Str → Type 0
Shape [] v = v ≡ []
Shape (q ∷ p) v =
    ((q ≡ b'%') × ((skipped w : Str) × Matches p w × (v ≡ skipped ++ w)))
    ⊎ ((q ≢ b'%') × ((c : ℕ) × (w : Str) × (v ≡ c ∷ w) × ((q ≡ b'_') ⊎ (q ≡ c)) × Matches p w))

shape : {p v : Str} → Matches p v → Shape p v
shape end = refl
shape (run skipped {p} {v} q m e) = inl (q, (skipped, v, m, e))
shape (one c {p} {v} ne h m) = inr (ne, (c, v, refl, h, m))

pub Matches-percent :
    {p v : Str} → Matches (b'%' ∷ p) v → (skipped w : Str) × Matches p w × (v ≡ skipped ++ w)
Matches-percent m = elim (shape m) [ inl (_, h) ↦ h | inr (ne, _) ↦ absurd (ne refl) ]

pub Matches-char :
    (q : ℕ) {p v : Str}
    → q ≢ b'%'
    → Matches (q ∷ p) v
    → (c : ℕ) × (w : Str) × (v ≡ c ∷ w) × ((q ≡ b'_') ⊎ (q ≡ c)) × Matches p w
Matches-char q ne m = elim (shape m) [ inl (e, _) ↦ absurd (ne e) | inr (_, h) ↦ h ]

-- `%` takes one more character, or none.
pub percent-more : (c : ℕ) {p v : Str} → Matches (b'%' ∷ p) v → Matches (b'%' ∷ p) (c ∷ v)
percent-more c m = let (s, w, h, e) = Matches-percent m in run (c ∷ s) refl h (ap (λ l. c ∷ l) e)

pub percent-suffix : (t : Str) {p v : Str} → Matches (b'%' ∷ p) v → Matches (b'%' ∷ p) (t ++ v)
percent-suffix [] m = m
percent-suffix (c ∷ t) m = percent-more c (percent-suffix t m)

pub percent-split :
    {c : ℕ} {p v : Str} → Matches (b'%' ∷ p) (c ∷ v) → Matches p (c ∷ v) ⊎ Matches (b'%' ∷ p) v
percent-split {c} {p} {v} m = let (s, w, h, e) = Matches-percent m in split s w h e
  where
    split : (s w : Str) → Matches p w → (c ∷ v) ≡ s ++ w → Matches p (c ∷ v) ⊎ Matches (b'%' ∷ p) v
    split [] w h e = inl (subst (Matches p) (sym e) h)
    split (x ∷ s) w h e = inr (run s refl h (cc e))

abbrev pub NoPercent : Str → Type 0
NoPercent = All (λ c. c ≢ b'%')

-- A part of the pattern with no `%` matches as many characters as it has.
pub Matches-split :
    (lits : Str) {q w : Str}
    → NoPercent lits
    → Matches (lits ++ q) w
    → (a b : Str) × (w ≡ a ++ b) × (length a ≡ length lits) × Matches q b
Matches-split [] {q} {w} n m = ([], w, refl, refl, m)
Matches-split (l ∷ lits) n m =
    let (c, v, e, _, h) = Matches-char l n.0 m in
    let (a, b, e', len, h') = Matches-split lits n.1 h in
    (c ∷ a, b, e ∙ ap (λ r. c ∷ r) e', ap suc len, h')

-- Two splits of one text: the later part of the later split is a suffix of the other's.
pub suffix_of_split :
    (seg y : Str) {v b : Str} → y ++ b ≡ seg ++ v → length seg ≤ length y → (t : Str) × (v ≡ t ++ b)
suffix_of_split [] y e h = (y, sym e)
suffix_of_split (s ∷ seg) [] e h = absurd (omega arith)
suffix_of_split (s ∷ seg) (c ∷ y) e h = suffix_of_split seg y (cc e) (omega arith)
