-- ===== src/Sql/Split/Segments.antt =====
-- What `split_statements` of src/sql.rs returns, stated of the lexemes alone.
use adbc_spanner.Common.{
  Bool, true, false, List, [], ◌∷◌, ◌++◌, ◌≡◌, refl, sym, ap, ap₂, ◌∙◌, if◌then◌else◌, Str, All,
  arith, Bool-cases, inl, inr, append_assoc, append-nil, map, trim, subst,
}
use adbc_spanner.Sql.Lexer.{Lexeme, text, lex}
use adbc_spanner.Sql.Lexer.Lossless.{texts}
use adbc_spanner.Sql.Split.{
  has_statement, push_statement, is_terminator, split_lexemes, split_statements, only,
  strip_trailing_terminators,
}

-- The lexemes before the first terminator, and those behind each terminator.
abbrev Groups : Type 0
Groups = List Lexeme × List (List Lexeme)

abbrev prepend : Bool → Lexeme → Groups → Groups
prepend true l (g, gs) = ([], g ∷ gs)
prepend false l (g, gs) = (l ∷ g, gs)

group : List Lexeme → Groups
group [] = ([], [])
group (l ∷ ls) = prepend (is_terminator l) l (group ls)

-- The groups behind a terminator each.
abbrev pub joined : List (List Lexeme) → List Lexeme
joined [] = []
joined (g ∷ gs) = Lexeme.other b';' ∷ (g ++ joined gs)

abbrev pub NoTerminator : List Lexeme → Type 0
NoTerminator = All (λ l. is_terminator l ≡ false)

-- The trimmed segments that carry a statement.
abbrev pub statements_in : List Str → List Str
statements_in [] = []
statements_in (s ∷ ss) =
    if has_statement (trim s) then trim s ∷ statements_in ss else statements_in ss

terminator-eq : (l : Lexeme) → is_terminator l ≡ true → l ≡ Lexeme.other b';'
terminator-eq (Lexeme.other c) h = ground arith
terminator-eq (Lexeme.word s) h = cc
terminator-eq (Lexeme.quoted s) h = cc
terminator-eq (Lexeme.comment s) h = cc

group-joined : (ls : List Lexeme) → (group ls).0 ++ joined (group ls).1 ≡ ls
unfolding group
group-joined [] = refl
group-joined (l ∷ ls) = elim (Bool-cases (is_terminator l)) [
  | inl t ↦ rw t (
      ap (λ r. Lexeme.other b';' ∷ r) (group-joined ls)
      ∙ ap (λ l. l ∷ ls) (sym (terminator-eq l t)))
  | inr f ↦ rw f (ap (λ r. l ∷ r) (group-joined ls))
]

group-NoTerminator : (ls : List Lexeme) → NoTerminator (group ls).0 × All NoTerminator (group ls).1
unfolding group
group-NoTerminator [] = (tt, tt)
group-NoTerminator (l ∷ ls) =
    let h = group-NoTerminator ls in
    elim (Bool-cases (is_terminator l)) [ inl t ↦ rw t (tt, h) | inr f ↦ rw f ((f, h.0), h.1) ]

push_statement-in :
    (out : List Str) (s : Str) (ss : List Str)
    → push_statement out s ++ statements_in ss ≡ out ++ statements_in (s ∷ ss)
unfolding push_statement
push_statement-in out s ss = elim (Bool-cases (has_statement (trim s))) [
  | inl t ↦ rw t (append_assoc out (trim s ∷ []) (statements_in ss))
  | inr f ↦ rw f refl
]

-- The result from a position on, with `out` pushed and `current` copied before it.
abbrev from_here : List Str → Str → Groups → List Str
from_here out current (g, gs) = out ++ statements_in ((current ++ texts g) ∷ map texts gs)

from_here-prepend :
    (b : Bool) (out : List Str) (current : Str) (l : Lexeme) (p : Groups)
    → (if b
        then from_here (push_statement out current) [] p
        else from_here out (current ++ text l) p)
      ≡ from_here out current (prepend b l p)
from_here-prepend true out current l (g, gs) =
    push_statement-in out current (texts g ∷ map texts gs)
    ∙ ap (λ c. out ++ statements_in (c ∷ texts g ∷ map texts gs)) (sym (append-nil current))
from_here-prepend false out current l (g, gs) =
    ap (λ c. out ++ statements_in (c ∷ map texts gs)) (append_assoc current (text l) (texts g))

split_lexemes-group :
    (ls : List Lexeme) (out : List Str) (current : Str)
    → split_lexemes out current ls ≡ from_here out current (group ls)
unfolding split_lexemes group
split_lexemes-group [] out current =
    sym (append-nil (push_statement out current))
    ∙ push_statement-in out current []
    ∙ ap (λ c. out ++ statements_in (c ∷ [])) (sym (append-nil current))
split_lexemes-group (l ∷ ls) out current =
    ap₂ (λ x y. if is_terminator l then x else y)
      (split_lexemes-group ls (push_statement out current) [])
      (split_lexemes-group ls out (current ++ text l))
    ∙ from_here-prepend (is_terminator l) out current l (group ls)

-- The lexemes of the input fall into groups between the top-level `;`, which are in none of them,
-- and `split_statements` returns the trimmed texts of those groups that carry a statement, in order.
pub split_statements-groups :
    (sql : Str)
    → (g : List Lexeme) × (gs : List (List Lexeme)) × (lex sql ≡ g ++ joined gs)
      × NoTerminator g
      × All NoTerminator gs
      × (split_statements sql ≡ statements_in (texts g ∷ map texts gs))
unfolding split_statements
split_statements-groups sql = (
  (group (lex sql)).0,
  (group (lex sql)).1,
  sym (group-joined (lex sql)),
  (group-NoTerminator (lex sql)).0,
  (group-NoTerminator (lex sql)).1,
  split_lexemes-group (lex sql) [] [],
)

statements_in-carry : (ss : List Str) → All (λ s. has_statement s ≡ true) (statements_in ss)
statements_in-carry [] = tt
statements_in-carry (s ∷ ss) = elim (Bool-cases (has_statement (trim s))) [
  | inl t ↦ rw t (t, statements_in-carry ss)
  | inr f ↦ rw f (statements_in-carry ss)
]

-- No statement that comes back is empty or only comments and white space.
pub split_statements-carry : (sql : Str) → All (λ s. has_statement s ≡ true) (split_statements sql)
split_statements-carry sql =
    let (g, gs, _, _, _, e) = split_statements-groups sql in
    subst (All (λ s. has_statement s ≡ true)) (sym e) (statements_in-carry (texts g ∷ map texts gs))

push_nothing : (out : List Str) → push_statement out [] ≡ out
unfolding push_statement lex trim
push_nothing out = refl

split_lexemes-trailing :
    (ls : List Lexeme) (out : List Str) (current : Str)
    → split_lexemes out current (ls ++ Lexeme.other b';' ∷ []) ≡ split_lexemes out current ls
unfolding split_lexemes
split_lexemes-trailing [] out current = push_nothing (push_statement out current)
split_lexemes-trailing (l ∷ ls) out current =
    ap₂ (λ x y. if is_terminator l then x else y)
      (split_lexemes-trailing ls (push_statement out current) [])
      (split_lexemes-trailing ls out (current ++ text l))

-- Where a `;` behind the input is a token of its own, it changes no statement; and if the input is
-- one statement, `strip_trailing_terminators` gives it with and without that `;`.
pub trailing_terminator_ignored :
    (sql q : Str)
    → lex (sql ++ b';' ∷ []) ≡ lex sql ++ Lexeme.other b';' ∷ []
    → split_statements sql ≡ q ∷ []
    → (split_statements (sql ++ b';' ∷ []) ≡ split_statements sql)
      × (strip_trailing_terminators sql ≡ q)
      × (strip_trailing_terminators (sql ++ b';' ∷ []) ≡ q)
unfolding strip_trailing_terminators
trailing_terminator_ignored sql q h e =
    let same = ap (split_lexemes [] []) h ∙ split_lexemes-trailing (lex sql) [] [] in
    (same, ap (λ l. only l sql) e, ap (λ l. only l (sql ++ b';' ∷ [])) (same ∙ e))
