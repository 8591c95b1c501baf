-- ===== src/Like/Correct.antt =====
-- The walk of `LikeMatcher::matches` in src/metadata.rs decides the meaning of patterns.
use adbc_spanner.Common.{
  ℕ, zero, suc, ◌+◌, ◌*◌, ◌<◌, Bool, true, false, [], ◌∷◌, none, ◌≡◌, ◌⊎◌, inl, inr, sym, ap, subst,
  Str, length, arith,
}
use adbc_spanner.Like.{Star, Outcome, answer, resume, walk, enough, like_match}
use adbc_spanner.Like.Spec.{Matches}
use adbc_spanner.Like.Star.{exhausted, all_percent-Matches}
use adbc_spanner.Like.Rounds.{Inv, any_round}

abbrev pub Decides : Type 0 → Outcome Bool → Type 0
Decides G o = ((o ≡ answer true) × G) ⊎ ((o ≡ answer false) × (¬ G))

walk-Decides :
    (f : ℕ) (G : Type 0) (size bound : ℕ) (pattern value : Str) (star : Star)
    → Inv G size bound pattern value star
    → bound * suc size + length pattern < f
    → Decides G (walk f (record { pattern = pattern; value = value; star = star }))
unfolding walk
walk-Decides zero G size bound pattern value star v h = absurd (omega arith)
walk-Decides (suc f) G size bound pattern [] star v h = elim (all_percent-Matches pattern) [
  | inl (t, m) ↦ inl (ap answer t, v.now m)
  | inr (t, n) ↦ inr (
    ap answer t,
    λ g. elim (v.complete g) [ inl m ↦ n m | inr a ↦ exhausted star pattern size bound v.linked a ],
  )
]
walk-Decides (suc f) G size bound pattern (ch ∷ rest) star v h =
    elim (any_round G size bound ch rest star pattern v) [
      | inl c ↦
          subst (λ o. Decides G (resume o (walk f))) (sym c.steps)
            (walk-Decides f G size c.bound' c.next.pattern c.next.value c.next.star c.inv
              (omega (arith, c.saved)))
      | inr (e, n) ↦ inr (ap (λ o. resume o (walk f)) e, n)
    ]

-- The matcher returns an answer on every pattern and value, with no panic and within its fuel, and the
-- answer is whether the pattern matches the whole value.
pub like_match-Decides :
    (pattern value : Str) → Decides (Matches pattern value) (like_match pattern value)
unfolding like_match
like_match-Decides pattern value =
    walk-Decides (enough pattern value) (Matches pattern value) (length pattern) (length value)
      pattern value none
      (record {
        now = λ m. m;
        later = λ a. absurd a;
        complete = λ m. inl m;
        linked = omega arith;
        fits = omega arith;
      })
      (omega arith)
