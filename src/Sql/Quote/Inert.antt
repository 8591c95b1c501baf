-- ===== src/Sql/Quote/Inert.antt =====
-- A quoted identifier of src/sql.rs is one token, whatever text follows it.
use adbc_spanner.Common.{
  ℕ, false, [], ◌∷◌, ◌++◌, Option, none, some, Str, ok, ◌>>=◌, ◌≡◌, refl, sym, ap, subst, ◌≢◌, ◌∙◌,
  arith, append_assoc, >>=-ok,
}
use adbc_spanner.Sql.Lexer.{Lexeme, Scan, scan_quoted, next_from, lex}
use adbc_spanner.Sql.Lexer.Lossless.{lex-cons}
use adbc_spanner.Sql.Quote.{find_bad, quote_ident, named, qualify, qualified_table}

abbrev backtick : Str
backtick = b'`' ∷ []

-- With no bad character before it, the first backtick ends the scan.
scan_quoted-ident :
    (run : ℕ) (ident rest : Str)
    → find_bad ident ≡ none
    → scan_quoted b'`' false run (ident ++ b'`' ∷ rest) ≡ (ident ++ backtick, rest)
unfolding scan_quoted find_bad
scan_quoted-ident run [] [] h = refl
scan_quoted-ident run [] (r ∷ rest) h = refl
scan_quoted-ident run (c ∷ []) rest h = ground (arith, scan_quoted-ident 0 [] rest refl)
scan_quoted-ident run (c ∷ d ∷ ident) rest h = ground (arith, scan_quoted-ident 0 (d ∷ ident) rest)

pub quote_ident-ok :
    (ident q : Str)
    → quote_ident ident ≡ ok q
    → (q ≡ b'`' ∷ ident ++ backtick) × (find_bad ident ≡ none)
unfolding quote_ident
quote_ident-ok ident q h = ground arith

lex-backticks :
    (ident rest : Str)
    → find_bad ident ≡ none
    → lex (b'`' ∷ ident ++ b'`' ∷ rest) ≡ Lexeme.quoted (b'`' ∷ ident ++ backtick) ∷ lex rest
unfolding next_from
lex-backticks ident rest h =
    lex-cons b'`' (ident ++ b'`' ∷ rest)
    ∙ ap (λ (p : Scan). Lexeme.quoted (b'`' ∷ p.0) ∷ lex p.1) (scan_quoted-ident 0 ident rest h)

-- An identifier that `quote_ident` accepts becomes one quoted token between backticks, whatever text
-- follows: nothing of the name, and nothing after it, is read as another token.
pub quote_ident-inert :
    (ident q rest : Str)
    → quote_ident ident ≡ ok q
    → (q ≡ b'`' ∷ ident ++ backtick) × (lex (q ++ rest) ≡ Lexeme.quoted q ∷ lex rest)
quote_ident-inert ident q rest h =
    let (e, b) = quote_ident-ok ident q h in
    (
      e,
      subst (λ t. lex (t ++ rest) ≡ Lexeme.quoted t ∷ lex rest) (sym e)
          (ap lex (append_assoc (b'`' ∷ ident) backtick rest) ∙ lex-backticks ident rest b),
    )

lex_dot : (s : Str) → lex (b'.' ∷ s) ≡ Lexeme.other b'.' ∷ lex s
unfolding next_from
lex_dot s = lex-cons b'.' s

qualify_schema :
    (schema table q : Str)
    → schema ≢ []
    → qualified_table (some schema) table ≡ ok q
    → (s t : Str) × (quote_ident schema ≡ ok s) × (quote_ident table ≡ ok t) × (s ++ b'.' ∷ t ≡ q)
unfolding qualified_table
qualify_schema [] table q ne h = absurd (ne refl)
qualify_schema (c ∷ cs) table q ne h =
    let (s, h', hs) =
      >>=-ok (quote_ident (c ∷ cs)) (λ s. quote_ident table >>= λ t. ok (s ++ b'.' ∷ t)) h in
    let (t, h'', ht) = >>=-ok (quote_ident table) (λ t. ok (s ++ b'.' ∷ t)) h' in
    (s, t, hs, ht, cc h'')

two_names :
    (schema table q rest : Str)
    → ((s t : Str) × (quote_ident schema ≡ ok s) × (quote_ident table ≡ ok t) × (s ++ b'.' ∷ t ≡ q))
    → (s t : Str) × (q ≡ s ++ b'.' ∷ t)
      × (s ≡ b'`' ∷ schema ++ backtick)
      × (t ≡ b'`' ∷ table ++ backtick)
      × (lex (q ++ rest) ≡ Lexeme.quoted s ∷ Lexeme.other b'.' ∷ Lexeme.quoted t ∷ lex rest)
two_names schema table q rest (s, t, hs, ht, e) =
    let (es, ls) = quote_ident-inert schema s (b'.' ∷ t ++ rest) hs in
    let (et, lt) = quote_ident-inert table t rest ht in
    (
      s,
      t,
      sym e,
      es,
      et,
      ap (λ l. lex (l ++ rest)) (sym e)
          ∙ ap lex (append_assoc s (b'.' ∷ t) rest)
          ∙ ls
          ∙ ap (λ ls. Lexeme.quoted s ∷ ls) (lex_dot (t ++ rest))
          ∙ ap (λ ls. Lexeme.quoted s ∷ Lexeme.other b'.' ∷ ls) lt,
    )

-- The tokens of a name that `qualified_table` accepts with a schema that is not empty: the two
-- quoted names, each the argument between backticks, and the dot between them. `rest` is any text
-- behind the name.
pub qualified_table-inert :
    (schema table q rest : Str)
    → schema ≢ []
    → qualified_table (some schema) table ≡ ok q
    → (s t : Str) × (q ≡ s ++ b'.' ∷ t)
      × (s ≡ b'`' ∷ schema ++ backtick)
      × (t ≡ b'`' ∷ table ++ backtick)
      × (lex (q ++ rest) ≡ Lexeme.quoted s ∷ Lexeme.other b'.' ∷ Lexeme.quoted t ∷ lex rest)
qualified_table-inert schema table q rest ne h =
    two_names schema table q rest (qualify_schema schema table q ne h)

-- Without a schema, or with an empty one, an accepted name is the quoted table name, one token.
pub qualified_table-unnamed :
    (schema : Option Str) (table q rest : Str)
    → named schema ≡ none
    → qualified_table schema table ≡ ok q
    → (q ≡ b'`' ∷ table ++ backtick) × (lex (q ++ rest) ≡ Lexeme.quoted q ∷ lex rest)
unfolding qualified_table
qualified_table-unnamed schema table q rest n h =
    quote_ident-inert table q rest (subst (λ o. qualify o table ≡ ok q) n h)
