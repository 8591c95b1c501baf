-- ===== src/Sql/Classify/Returning.antt =====
-- When `is_dml_returning` of src/sql.rs finds a clause.
use adbc_spanner.Common.{
  ℕ, Bool, true, false, ◌&&◌, ◌||◌, List, [], ◌∷◌, ◌++◌, ◌≡◌, ◌⊎◌, ◌↔◌, refl, sym, ap, ◌==◌, Str,
  codes, eq_ignore_ascii_case, arith, inl, inr, All, subst,
}
use adbc_spanner.Sql.Lexer.{Lexeme, lex}
use adbc_spanner.Sql.Classify.{depth_after, returning_from, is_dml_returning}

-- The nesting of `CASE` after some lexemes.
abbrev pub depth_of : ℕ → List Lexeme → ℕ
depth_of d [] = d
depth_of d (Lexeme.word w ∷ ls) = depth_of (depth_after w d) ls
depth_of d (l ∷ ls) = depth_of d ls

-- Neither a word nor quoted.
abbrev pub IsTransparent : Lexeme → Type 0
IsTransparent (Lexeme.comment s) = Unit {0}
IsTransparent (Lexeme.other c) = Unit {0}
IsTransparent _ = ⊥

-- What follows a `THEN` at depth `d` in a clause.
pub record ReturnFollows (d : ℕ) (ls : List Lexeme) : Type 0 where
  pub between : List Lexeme
  pub return_word : Str
  pub after : List Lexeme
  pub splits : ls ≡ between ++ Lexeme.word return_word ∷ after
  pub transparent : All IsTransparent between
  pub is_return : eq_ignore_ascii_case return_word (codes "RETURN") ≡ true
  pub at_top : d ≡ 0

-- A `THEN RETURN` at the top level, in lexemes that begin at depth `d`.
pub record HasClause (d : ℕ) (ls : List Lexeme) : Type 0 where
  pub before : List Lexeme
  pub then_word : Str
  pub rest : List Lexeme
  pub splits : ls ≡ before ++ Lexeme.word then_word ∷ rest
  pub is_then : eq_ignore_ascii_case then_word (codes "THEN") ≡ true
  pub follows : ReturnFollows (depth_of d (before ++ Lexeme.word then_word ∷ [])) rest

abbrev Found : Bool → ℕ → List Lexeme → Type 0
Found previous_was_then d ls = ((previous_was_then ≡ true) × ReturnFollows d ls) ⊎ HasClause d ls

-- A clause in the rest is a clause of the whole.
under :
    (d e : ℕ) (l : Lexeme) (ls : List Lexeme)
    → ((ms : List Lexeme) → depth_of d (l ∷ ms) ≡ depth_of e ms)
    → HasClause e ls
    → HasClause d (l ∷ ls)
under d e l ls same h = record {
  before = l ∷ h.before;
  then_word = h.then_word;
  rest = h.rest;
  splits = ap (λ ms. l ∷ ms) h.splits;
  is_then = h.is_then;
  follows =
      subst (λ n. ReturnFollows n h.rest) (sym (same (h.before ++ Lexeme.word h.then_word ∷ [])))
        h.follows;
}

past :
    (d : ℕ) (l : Lexeme) (ls : List Lexeme)
    → IsTransparent l
    → ReturnFollows d ls
    → ReturnFollows d (l ∷ ls)
past d l ls t r = record {
  between = l ∷ r.between;
  return_word = r.return_word;
  after = r.after;
  splits = ap (λ ms. l ∷ ms) r.splits;
  transparent = (t, r.transparent);
  is_return = r.is_return;
  at_top = r.at_top;
}

-- The step at a lexeme that carries no word.
found_past :
    (p : Bool) (d : ℕ) (l : Lexeme) (ls : List Lexeme)
    → IsTransparent l
    → ((ms : List Lexeme) → depth_of d (l ∷ ms) ≡ depth_of d ms)
    → Found p d ls
    → Found p d (l ∷ ls)
found_past p d l ls t same (inl (e, r)) = inl (e, past d l ls t r)
found_past p d l ls t same (inr h) = inr (under d d l ls same h)

found_word :
    (d : ℕ) (w : Str) (ls : List Lexeme)
    → Found (eq_ignore_ascii_case w (codes "THEN")) (depth_after w d) ls
    → HasClause d (Lexeme.word w ∷ ls)
found_word d w ls (inl (e, r)) = record {
  before = [];
  then_word = w;
  rest = ls;
  splits = refl;
  is_then = e;
  follows = r;
}
found_word d w ls (inr h) = under d (depth_after w d) (Lexeme.word w) ls (λ ms. refl) h

or-cases : (a b : Bool) → (a || b) ≡ true → (a ≡ true) ⊎ (b ≡ true)
or-cases true b h = inl refl
or-cases false b h = inr h

or-true : (a b : Bool) → b ≡ true → (a || b) ≡ true
or-true true b h = refl
or-true false b h = h

return_here :
    (p : Bool) (d : ℕ) (w : Str) (ls : List Lexeme)
    → (p && d == 0 && eq_ignore_ascii_case w (codes "RETURN")) ≡ true
    → (p ≡ true) × ReturnFollows d (Lexeme.word w ∷ ls)
return_here p d w ls h =
    let parts : (p ≡ true) × (eq_ignore_ascii_case w (codes "RETURN") ≡ true) × (d ≡ 0) =
      ground arith in
    (
      parts.0,
      record {
        between = [];
        return_word = w;
        after = ls;
        splits = refl;
        transparent = tt;
        is_return = parts.1;
        at_top = parts.2;
      },
    )

returning_from-sound :
    (ls : List Lexeme) (p : Bool) (d : ℕ) → returning_from p d ls ≡ true → Found p d ls
unfolding returning_from
returning_from-sound [] p d h = cc
returning_from-sound (Lexeme.word w ∷ ls) p d h = elim (or-cases _ _ h) [
  | inl now ↦ inl (return_here p d w ls now)
  | inr later ↦ inr (found_word d w ls (returning_from-sound ls _ (depth_after w d) later))
]
returning_from-sound (Lexeme.quoted s ∷ ls) p d h = elim (returning_from-sound ls false d h) [
  | inl (e, r) ↦ cc
  | inr c ↦ inr (under d d (Lexeme.quoted s) ls (λ ms. refl) c)
]
returning_from-sound (Lexeme.comment s ∷ ls) p d h =
    found_past p d (Lexeme.comment s) ls tt (λ ms. refl) (returning_from-sound ls p d h)
returning_from-sound (Lexeme.other c ∷ ls) p d h =
    found_past p d (Lexeme.other c) ls tt (λ ms. refl) (returning_from-sound ls p d h)

returning_from-return :
    (between : List Lexeme) (w : Str) (after : List Lexeme)
    → All IsTransparent between
    → eq_ignore_ascii_case w (codes "RETURN") ≡ true
    → returning_from true 0 (between ++ Lexeme.word w ∷ after) ≡ true
unfolding returning_from
returning_from-return [] w after t e = rw e refl
returning_from-return (Lexeme.comment s ∷ ls) w after t e = returning_from-return ls w after t.1 e
returning_from-return (Lexeme.other c ∷ ls) w after t e = returning_from-return ls w after t.1 e
returning_from-return (Lexeme.word s ∷ ls) w after t e = absurd t.0
returning_from-return (Lexeme.quoted s ∷ ls) w after t e = absurd t.0

returning_from-then :
    (before : List Lexeme) (w : Str) (rest : List Lexeme) (p : Bool) (d : ℕ)
    → eq_ignore_ascii_case w (codes "THEN") ≡ true
    → returning_from true (depth_of d (before ++ Lexeme.word w ∷ [])) rest ≡ true
    → returning_from p d (before ++ Lexeme.word w ∷ rest) ≡ true
unfolding returning_from
returning_from-then [] w rest p d e h =
    or-true (p && d == 0 && eq_ignore_ascii_case w (codes "RETURN")) _
      (subst (λ b. returning_from b (depth_after w d) rest ≡ true) (sym e) h)
returning_from-then (Lexeme.word v ∷ ls) w rest p d e h =
    or-true _ _ (returning_from-then ls w rest _ (depth_after v d) e h)
returning_from-then (Lexeme.quoted s ∷ ls) w rest p d e h =
    returning_from-then ls w rest false d e h
returning_from-then (Lexeme.comment s ∷ ls) w rest p d e h = returning_from-then ls w rest p d e h
returning_from-then (Lexeme.other c ∷ ls) w rest p d e h = returning_from-then ls w rest p d e h

returning_from_complete :
    (ls : List Lexeme) (p : Bool) (d : ℕ) → HasClause d ls → returning_from p d ls ≡ true
returning_from_complete ls p d h =
    let r = h.follows in
    subst (λ l. returning_from p d l ≡ true) (sym h.splits)
      (returning_from-then h.before h.then_word h.rest p d h.is_then (
        subst (λ n. returning_from true n h.rest ≡ true) (sym r.at_top)
          (subst (λ l. returning_from true 0 l ≡ true) (sym r.splits)
            (returning_from-return r.between r.return_word r.after r.transparent r.is_return))))

-- `is_dml_returning` holds exactly of the texts with a word `THEN` (in any case) that is followed by a
-- word `RETURN` with only comments, white space and punctuation in between, at depth 0 of `CASE`.
pub is_dml_returning_iff : (sql : Str) → (is_dml_returning sql ≡ true) ↔ HasClause 0 (lex sql)
unfolding is_dml_returning
is_dml_returning_iff sql = (
  λ h. elim (returning_from-sound (lex sql) false 0 h) [ inl (e, r) ↦ cc | inr c ↦ c ],
  returning_from_complete (lex sql) false 0,
)
