-- ===== src/Sql/Split.antt =====
-- `split_statements`, `push_statement` and `strip_trailing_terminators` of src/sql.rs.
pub mod Segments
use adbc_spanner.Common.{
  ℕ, Bool, true, false, not, ◌||◌, List, [], ◌∷◌, ◌++◌, ◌==◌, if◌then◌else◌, Str, is_whitespace,
  trim,
}
use adbc_spanner.Sql.Lexer.{Lexeme, text, lex}

-- The closure of `push_statement`: whether a lexeme carries a statement.
abbrev pub carries : Lexeme → Bool
carries (Lexeme.comment s) = false
carries (Lexeme.other c) = not (is_whitespace c)
carries (Lexeme.word s) = true
carries (Lexeme.quoted s) = true

-- `any`
unfoldable pub any_carries : List Lexeme → Bool
any_carries [] = false
any_carries (l ∷ ls) = carries l || any_carries ls

unfoldable pub has_statement : Str → Bool
unfolding any_carries
has_statement trimmed = any_carries (lex trimmed)

-- The `statements` after `push_statement`; `current` is cleared by its callers' next value.
unfoldable pub push_statement : List Str → Str → List Str
unfolding has_statement
push_statement statements current =
    if has_statement (trim current) then statements ++ trim current ∷ [] else statements

-- `Lexeme::Other(';')`
abbrev pub is_terminator : Lexeme → Bool
is_terminator (Lexeme.other c) = c == b';'
is_terminator _ = false

-- The loop of `split_statements`, and the push behind it.
unfoldable pub split_lexemes : List Str → Str → List Lexeme → List Str
unfolding push_statement
split_lexemes statements current [] = push_statement statements current
split_lexemes statements current (l ∷ ls) =
    let terminated = split_lexemes (push_statement statements current) [] ls in
    let copied = split_lexemes statements (current ++ text l) ls in
    if is_terminator l then terminated else copied

unfoldable pub split_statements : Str → List Str
unfolding split_lexemes
split_statements sql = split_lexemes [] [] (lex sql)

abbrev only : List Str → Str → Str
only (s ∷ []) sql = s
only _ sql = sql

unfoldable pub strip_trailing_terminators : Str → Str
unfolding split_statements
strip_trailing_terminators sql = only (split_statements sql) sql
