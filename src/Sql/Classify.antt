-- ===== src/Sql/Classify.antt =====
-- `significant_lexemes`, `first_keyword`, `is_ddl`, `is_dml` and `is_dml_returning` of src/sql.rs.
pub mod Exclusive
pub mod Returning
pub mod Transparent
use adbc_spanner.Common.{
  ℕ, zero, suc, ◌+◌, ◌-◌, Bool, true, false, not, ◌&&◌, ◌||◌, List, [], ◌∷◌, Option, none, some,
  ◌==◌, if◌then◌else◌, Str, is_nil, is_whitespace, is_ascii_alphabetic, codes, eq_ignore_ascii_case,
}
use adbc_spanner.Sql.Lexer.{Lexeme, lex}

abbrev pub ddl_keywords : List Str
ddl_keywords =
    codes "CREATE"
    ∷ codes "DROP"
    ∷ codes "ALTER"
    ∷ codes "RENAME"
    ∷ codes "GRANT"
    ∷ codes "REVOKE"
    ∷ codes "ANALYZE"
    ∷ []

abbrev pub dml_keywords : List Str
dml_keywords = codes "INSERT" ∷ codes "UPDATE" ∷ codes "DELETE" ∷ []

-- The filter of `significant_lexemes`.
abbrev pub is_significant : Lexeme → Bool
is_significant (Lexeme.comment s) = false
is_significant (Lexeme.other c) = not (is_whitespace c)
is_significant _ = true

unfoldable pub keep_significant : List Lexeme → List Lexeme
keep_significant [] = []
keep_significant (l ∷ ls) =
    if is_significant l then l ∷ keep_significant ls else keep_significant ls

unfoldable pub significant_lexemes : Str → List Lexeme
unfolding keep_significant
significant_lexemes sql = keep_significant (lex sql)

-- `&word[..end]`: the leading run of ASCII letters.
unfoldable pub leading_letters : Str → Str
unfolding is_ascii_alphabetic
leading_letters [] = []
leading_letters (c ∷ cs) = if is_ascii_alphabetic c then c ∷ leading_letters cs else []

-- `(end > 0).then(…)`
abbrev pub nonempty : Str → Option Str
nonempty s = if is_nil s then none else some s

abbrev is_other : ℕ → Lexeme → Bool
is_other c (Lexeme.other d) = d == c
is_other c _ = false

abbrev next_is : ℕ → List Lexeme → Bool
next_is c [] = false
next_is c (l ∷ ls) = is_other c l

-- The loop of `first_keyword`. The flag is set inside a statement hint, whose lexemes the inner
-- loop takes up to its `}`.
unfoldable pub keyword_from : Bool → List Lexeme → Option Str
unfolding leading_letters
keyword_from in_hint [] = none
keyword_from true (l ∷ ls) = keyword_from (not (is_other b'}' l)) ls
keyword_from false (Lexeme.comment s ∷ ls) = keyword_from false ls
keyword_from false (Lexeme.word s ∷ ls) = nonempty (leading_letters s)
keyword_from false (Lexeme.quoted s ∷ ls) = none
keyword_from false (Lexeme.other c ∷ ls) =
    let hint = keyword_from true ls in if c == b'@' && next_is b'{' ls then hint else none

unfoldable pub first_keyword : Str → Option Str
unfolding keyword_from significant_lexemes
first_keyword sql = keyword_from false (significant_lexemes sql)

-- `iter().any(|k| kw.eq_ignore_ascii_case(k))`
unfoldable pub is_one_of : List Str → Str → Bool
unfolding eq_ignore_ascii_case
is_one_of [] kw = false
is_one_of (k ∷ ks) kw = eq_ignore_ascii_case kw k || is_one_of ks kw

-- `is_some_and`
abbrev pub is_some_and : Option Str → (Str → Bool) → Bool
is_some_and none p = false
is_some_and (some kw) p = p kw

unfoldable pub is_ddl : Str → Bool
unfolding first_keyword is_one_of
is_ddl sql = is_some_and (first_keyword sql) (is_one_of ddl_keywords)

unfoldable pub is_dml : Str → Bool
unfolding first_keyword is_one_of
is_dml sql = is_some_and (first_keyword sql) (is_one_of dml_keywords)

-- The depth of `CASE` after a word; `saturating_sub` is the subtraction of ℕ.
unfoldable pub depth_after : Str → ℕ → ℕ
unfolding eq_ignore_ascii_case
depth_after w case_depth =
    if eq_ignore_ascii_case w (codes "CASE")
    then case_depth + 1
    else if eq_ignore_ascii_case w (codes "END")
    then case_depth - 1
    else case_depth

-- The loop of `is_dml_returning`.
unfoldable pub returning_from : Bool → ℕ → List Lexeme → Bool
unfolding depth_after
returning_from previous_was_then case_depth [] = false
returning_from previous_was_then case_depth (Lexeme.word w ∷ ls) =
    previous_was_then && case_depth == 0 && eq_ignore_ascii_case w (codes "RETURN")
    || returning_from (eq_ignore_ascii_case w (codes "THEN")) (depth_after w case_depth) ls
returning_from previous_was_then case_depth (Lexeme.quoted s ∷ ls) =
    returning_from false case_depth ls
returning_from previous_was_then case_depth (Lexeme.comment s ∷ ls) =
    returning_from previous_was_then case_depth ls
returning_from previous_was_then case_depth (Lexeme.other c ∷ ls) =
    returning_from previous_was_then case_depth ls

unfoldable pub is_dml_returning : Str → Bool
unfolding returning_from
is_dml_returning sql = returning_from false 0 (lex sql)
