-- ===== src/Like/Rounds.antt =====
-- One round of the walk of src/metadata.rs keeps the question.
use adbc_spanner.Common.{
  ℕ, zero, suc, ◌+◌, ◌-◌, ◌*◌, ◌≤◌, true, false, [], ◌∷◌, ◌++◌, none, some, ◌≡◌, ◌≢◌, ◌⊎◌, inl, inr,
  refl, sym, ◌∙◌, subst, Str, length, length-append, append_assoc, arith, ◌==◌, ==_iff, Bool-cases,
}
use adbc_spanner.Like.{Star, Cursor, at_match, answer, round, backtrack}
use adbc_spanner.Like.Spec.{
  Matches, run, one, Matches-nil, Matches-char, percent-suffix, percent-split, NoPercent,
}
use adbc_spanner.Like.Star.{Alternative, Linked, value-le-bound, absorb, percent_nil}

-- The question `G` is the question at the cursor.
pub record Inv (G : Type 0) (size bound : ℕ) (pattern value : Str) (star : Star) : Type 0 where
  pub now : Matches pattern value → G
  pub later : Alternative star → G
  pub complete : G → Matches pattern value ⊎ Alternative star
  pub linked : Linked star pattern value size bound
  pub fits : length pattern ≤ size

-- How a round goes on: the question at the new cursor is the same, and fuel is saved.
pub record Continues (G : Type 0) (size bound : ℕ) (c : Cursor) (ch : ℕ) : Type 0 where
  pub next : Cursor
  pub bound' : ℕ
  pub steps : round c ch ≡ answer (some next)
  pub inv : Inv G size bound' next.pattern next.value next.star
  pub saved : suc (bound' * suc size + length next.pattern) ≤ bound * suc size + length c.pattern

module _ (G : Type 0) (size bound : ℕ) (ch : ℕ) (rest : Str) (star : Star) where
  abbrev pub at : Str → Cursor
  at pattern = record { pattern = pattern; value = ch ∷ rest; star = star }

  percent_round :
      (q : ℕ) (p : Str)
      → q ≡ b'%'
      → Inv G size bound (q ∷ p) (ch ∷ rest) star
      → Continues G size bound (at (q ∷ p)) ch
  unfolding round
  percent_round q p e v =
      let v' = subst (λ q. Inv G size bound (q ∷ p) (ch ∷ rest) star) e v in
      record {
        next = record { pattern = p; value = ch ∷ rest; star = some (p, ch ∷ rest) };
        bound' = bound;
        steps = rw ((==_iff q b'%').1 e) refl;
        inv = record {
          now = λ m. v'.now (run [] refl m refl);
          later = λ m. v'.now (percent-suffix (ch ∷ []) m);
          complete = λ g. elim (v'.complete g) [
            | inl m ↦ percent-split m
            | inr a ↦ percent-split (absorb star p (ch ∷ rest) size bound v'.linked a)
          ];
          linked = record {
            lits = [];
            seg = [];
            pattern_is = refl;
            value_is = refl;
            plain = tt;
            level = refl;
            star_fits = omega (arith, v'.fits);
            bounded = value-le-bound star (b'%' ∷ p) (ch ∷ rest) size bound v'.linked;
          };
          fits = omega (arith, v'.fits);
        };
        saved = omega arith;
      }

  advance :
      (st : Star) (q : ℕ) (p : Str)
      → q ≢ b'%'
      → Linked st (q ∷ p) (ch ∷ rest) size bound
      → Linked st p rest size bound
  advance none q p ne h = omega arith
  advance (some (sp, sv)) q p ne h = record {
    lits = h.lits ++ q ∷ [];
    seg = h.seg ++ ch ∷ [];
    pattern_is = h.pattern_is ∙ sym (append_assoc h.lits (q ∷ []) p);
    value_is = h.value_is ∙ sym (append_assoc h.seg (ch ∷ []) rest);
    plain = All-snoc h.lits h.plain;
    level =
        omega
          (arith, h.level, length-append {0} h.lits (q ∷ []), length-append {0} h.seg (ch ∷ []));
    star_fits = h.star_fits;
    bounded = h.bounded;
  }
    where
      All-snoc : (lits : Str) → NoPercent lits → NoPercent (lits ++ q ∷ [])
      All-snoc [] n = (ne, tt)
      All-snoc (l ∷ lits) n = (n.0, All-snoc lits n.1)

  match_round :
      (q : ℕ) (p : Str)
      → q ≢ b'%'
      → (q ≡ b'_') ⊎ (q ≡ ch)
      → Inv G size bound (q ∷ p) (ch ∷ rest) star
      → Continues G size bound (at (q ∷ p)) ch
  unfolding round
  match_round q p ne h v = record {
    next = record { pattern = p; value = rest; star = star };
    bound' = bound;
    steps = ground arith;
    inv = record {
      now = λ m. v.now (one ch ne h m);
      later = v.later;
      complete = λ g. elim (v.complete g) [
        | inl m ↦ let (c, w, e, _, m') = Matches-char q ne m in inl (subst (Matches p) (cc e) m')
        | inr a ↦ inr a
      ];
      linked = advance star q p ne v.linked;
      fits = omega (arith, v.fits);
    };
    saved = omega arith;
  }

  abbrev pub Ends : Str → Type 0
  Ends pattern = (round (at pattern) ch ≡ answer none) × (¬ G)

append-ne-nil : (seg : Str) (c : ℕ) (rest : Str) → [] ≢ seg ++ c ∷ rest
append-ne-nil [] c rest e = cc
append-ne-nil (s ∷ seg) c rest e = cc

-- With no match at the cursor the last `%` takes one more character, or the answer is `false`. It
-- always has the character.
backtrack-round :
    (G : Type 0) (size bound : ℕ) (ch : ℕ) (rest : Str) (star : Star) (pattern : Str)
    → round (at G size bound ch rest star pattern) ch ≡ backtrack star
    → ¬ Matches pattern (ch ∷ rest)
    → Inv G size bound pattern (ch ∷ rest) star
    → Continues G size bound (at G size bound ch rest star pattern) ch
      ⊎ Ends G size bound ch rest star pattern
backtrack-round G size bound ch rest none pattern e miss v =
    inr (e, λ g. elim (v.complete g) [ inl m ↦ miss m | inr a ↦ a ])
backtrack-round G size bound ch rest (some (sp, [])) pattern e miss v =
    absurd (append-ne-nil v.linked.seg ch rest v.linked.value_is)
backtrack-round G size bound ch rest (some (sp, x ∷ sv)) pattern e miss v = inl (record {
  next = record { pattern = sp; value = sv; star = some (sp, sv) };
  bound' = bound - 1;
  steps = e;
  inv = record {
    now = λ m. v.later (run [] refl m refl);
    later = λ a. v.later (from_star sv a);
    complete = λ g. elim (v.complete g) [ inl m ↦ absurd (miss m) | inr a ↦ to_star sv a ];
    linked = record {
      lits = [];
      seg = [];
      pattern_is = refl;
      value_is = refl;
      plain = tt;
      level = refl;
      star_fits = v.linked.star_fits;
      bounded = omega (arith, v.linked.bounded);
    };
    fits = v.linked.star_fits;
  };
  saved =
      saving bound size (length sp) (length pattern) v.linked.star_fits
        (omega (arith, v.linked.bounded));
})
  where
    from_star : (sv : Str) → Alternative (some (sp, sv)) → Matches (b'%' ∷ sp) sv
    from_star [] a = absurd a
    from_star (y ∷ sv) a = percent-suffix (y ∷ []) a

    to_star : (sv : Str) → Matches (b'%' ∷ sp) sv → Matches sp sv ⊎ Alternative (some (sp, sv))
    to_star [] m = inl (percent_nil refl m)
    to_star (y ∷ sv) m = percent-split m

    saving : (b n s p : ℕ) → s ≤ n → 1 ≤ b → suc ((b - 1) * suc n + s) ≤ b * suc n + p
    saving zero n s p h k = absurd (omega arith)
    saving (suc b) n s p h k = let e : suc b - 1 ≡ b = omega arith in rw e (omega arith)

-- What a character of the pattern that is no `%` takes.
takes : (q ch : ℕ) → at_match (q ∷ []) ch ≡ true → (q ≡ b'_') ⊎ (q ≡ ch)
takes q ch h = ground arith

refuses : (q ch : ℕ) → at_match (q ∷ []) ch ≡ false → (q ≢ b'_') × (q ≢ ch)
refuses q ch h = (λ e. ground arith, λ e. ground arith)

round_refused :
    (c : Cursor) (q : ℕ) (p : Str) (ch : ℕ)
    → c.pattern ≡ q ∷ p
    → q ≢ b'%'
    → at_match (q ∷ []) ch ≡ false
    → round c ch ≡ backtrack c.star
unfolding round
round_refused c q p ch e ne h = ground arith

char_round :
    (G : Type 0) (size bound : ℕ) (ch : ℕ) (rest : Str) (star : Star) (q : ℕ) (p : Str)
    → q ≢ b'%'
    → Inv G size bound (q ∷ p) (ch ∷ rest) star
    → Continues G size bound (at G size bound ch rest star (q ∷ p)) ch
      ⊎ Ends G size bound ch rest star (q ∷ p)
char_round G size bound ch rest star q p ne v = elim (Bool-cases (at_match (q ∷ []) ch)) [
  | inl h ↦ inl (match_round G size bound ch rest star q p ne (takes q ch h) v)
  | inr h ↦
      backtrack-round G size bound ch rest star (q ∷ p)
        (round_refused (at G size bound ch rest star (q ∷ p)) q p ch refl ne h) (missed h) v
]
  where
    missed : at_match (q ∷ []) ch ≡ false → ¬ Matches (q ∷ p) (ch ∷ rest)
    missed h m =
        let (c, w, e, t, _) = Matches-char q ne m in
        let r = refuses q ch h in elim t [ inl u ↦ r.0 u | inr u ↦ r.1 (u ∙ sym (same c w e)) ]
      where
        same : (c : ℕ) (w : Str) → (ch ∷ rest) ≡ c ∷ w → ch ≡ c
        same c w e = cc

pub any_round :
    (G : Type 0) (size bound : ℕ) (ch : ℕ) (rest : Str) (star : Star) (pattern : Str)
    → Inv G size bound pattern (ch ∷ rest) star
    → Continues G size bound (at G size bound ch rest star pattern) ch
      ⊎ Ends G size bound ch rest star pattern
any_round G size bound ch rest star [] v =
    backtrack-round G size bound ch rest star [] (unfold round in refl) (λ m. cc (Matches-nil m)) v
any_round G size bound ch rest star (q ∷ p) v = elim (Bool-cases (q == b'%')) [
  | inl e ↦ inl (percent_round G size bound ch rest star q p ((==_iff q b'%').0 e) v)
  | inr e ↦ char_round G size bound ch rest star q p (λ e'. cc ((==_iff q b'%').1 e')) v
]
