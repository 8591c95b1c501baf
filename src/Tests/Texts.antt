-- ===== src/Tests/Texts.antt =====
-- Runs of the models of src/sql.rs and of `LikeMatcher` in src/metadata.rs.
use adbc_spanner.Common.{
  true, false, List, [], ◌∷◌, ◌++◌, some, ◌≡◌, ◌≢◌, ◌↔◌, refl, Str, All, codes, is_nil,
  is_whitespace, contains, trim, map, ok, err, invalid_arguments,
}
use adbc_spanner.Sql.Lexer.{Lexeme, text, lex}
use adbc_spanner.Sql.Lexer.Lossless.{texts, lex-lossless}
use adbc_spanner.Sql.Quote.{quote_ident, qualified_table}
use adbc_spanner.Sql.Quote.Inert.{quote_ident-inert, qualified_table-inert}
use adbc_spanner.Sql.Split.{split_statements, strip_trailing_terminators}
use adbc_spanner.Sql.Split.Segments.{NoTerminator, joined, statements_in, split_statements-groups}
use adbc_spanner.Sql.Classify.{significant_lexemes, first_keyword, is_ddl, is_dml, is_dml_returning}
use adbc_spanner.Sql.Classify.Returning.{HasClause, is_dml_returning_iff}
use adbc_spanner.Sql.Params.{named_parameters}
use adbc_spanner.Sql.Params.Distinct.{IsDistinct, lowered, named_parameters-IsDistinct}
use adbc_spanner.Like.{like_match, answer}
use adbc_spanner.Like.Spec.{Matches}
use adbc_spanner.Like.Correct.{Decides, like_match-Decides}

-- Statements, with terminators inside a string and a comment.
split_test :
    split_statements (codes "SELECT ';' ; -- a;b\n ; UPDATE t ;")
    ≡ codes "SELECT ';'" ∷ codes "UPDATE t" ∷ []
unfolding split_statements lex trim
split_test = refl

strip_test : strip_trailing_terminators (codes "SELECT 1; ;") ≡ codes "SELECT 1"
unfolding strip_trailing_terminators lex trim
strip_test = refl

ddl_test : is_ddl (codes "/* c */ create TABLE t") ≡ true
unfolding is_ddl lex is_whitespace
ddl_test = refl

dml_test : is_dml (codes "@{PDML_MAX_PARALLELISM=2} DELETE FROM t") ≡ true
unfolding is_dml lex is_whitespace
dml_test = refl

keyword_test : first_keyword (codes "  # x\n select1 1") ≡ some (codes "select")
unfolding first_keyword lex is_whitespace
keyword_test = refl

returning_test : is_dml_returning (codes "INSERT INTO t(a) VALUES (1) THEN RETURN a") ≡ true
unfolding is_dml_returning lex
returning_test = refl

case_test : is_dml_returning (codes "UPDATE t SET a = CASE WHEN b THEN return END WHERE c") ≡ false
unfolding is_dml_returning lex
case_test = refl

params_test :
    named_parameters (codes "SELECT @a, @A, @@b, '@c', @`d` -- @e") ≡ codes "a" ∷ codes "d" ∷ []
unfolding named_parameters significant_lexemes lex is_whitespace
params_test = refl

quote_bad_test : quote_ident (codes "a`b") ≡ err invalid_arguments
unfolding quote_ident
quote_bad_test = refl

like_test : like_match (codes "a%c_") (codes "abcacd") ≡ answer true
unfolding like_match
like_test = refl

like_fail_test : like_match (codes "a%c_") (codes "abcac") ≡ answer false
unfolding like_match
like_fail_test = refl

-- Inputs of the witnesses.
abbrev script : Str
script = codes "SELECT ';' ; -- a;b\n ; UPDATE t ;"

abbrev insert_returning : Str
insert_returning = codes "INSERT INTO t(a) VALUES (1) THEN RETURN a"

abbrev name : Str
name = codes "odd name"

abbrev quoted_name : Str
quoted_name = codes "`odd name`"

quote_run : quote_ident name ≡ ok quoted_name
unfolding quote_ident
quote_run = refl

qualified_run : qualified_table (some (codes "s")) name ≡ ok (codes "`s`.`odd name`")
unfolding qualified_table
qualified_run = refl

unnamed_run : qualified_table (some []) name ≡ ok quoted_name
unfolding qualified_table
unnamed_run = refl

create_run : is_ddl (codes "create TABLE t") ≡ true
unfolding is_ddl lex
create_run = refl

white_space_run : is_whitespace 32 ≡ true
unfolding is_whitespace
white_space_run = refl

no_newline_run : contains b'\n' (codes "one line") ≡ false
unfolding contains
no_newline_run = refl

no_star_run : contains b'*' (codes "a block") ≡ false
unfolding contains
no_star_run = refl

terminator_run :
    lex (codes "SELECT 1" ++ b';' ∷ []) ≡ lex (codes "SELECT 1") ++ Lexeme.other b';' ∷ []
unfolding lex
terminator_run = refl

single_run : split_statements (codes "SELECT 1") ≡ codes "SELECT 1" ∷ []
unfolding split_statements lex trim
single_run = refl

lex-lossless_example : (texts (lex script) ≡ script) × All (λ l. text l ≢ []) (lex script)
lex-lossless_example = lex-lossless script

quote_ident-inert_example :
    (quoted_name ≡ b'`' ∷ name ++ codes "`")
    × (lex (quoted_name ++ codes " AS x") ≡ Lexeme.quoted quoted_name ∷ lex (codes " AS x"))
quote_ident-inert_example = quote_ident-inert name quoted_name (codes " AS x") quote_run

qualified_table-inert_example :
    (s t : Str) × (codes "`s`.`odd name`" ≡ s ++ b'.' ∷ t)
    × (s ≡ b'`' ∷ codes "s" ++ codes "`")
    × (t ≡ b'`' ∷ name ++ codes "`")
    × (lex (codes "`s`.`odd name`" ++ codes " x")
        ≡ Lexeme.quoted s ∷ Lexeme.other b'.' ∷ Lexeme.quoted t ∷ lex (codes " x"))
qualified_table-inert_example =
    qualified_table-inert (codes "s") name (codes "`s`.`odd name`") (codes " x") (λ e. cc)
      qualified_run

split_statements-groups_example :
    (g : List Lexeme) × (gs : List (List Lexeme)) × (lex script ≡ g ++ joined gs)
    × NoTerminator g
    × All NoTerminator gs
    × (split_statements script ≡ statements_in (texts g ∷ map texts gs))
split_statements-groups_example = split_statements-groups script

is_dml_returning_iff_example :
    (is_dml_returning insert_returning ≡ true) ↔ HasClause 0 (lex insert_returning)
is_dml_returning_iff_example = is_dml_returning_iff insert_returning

named_parameters-IsDistinct_example :
    IsDistinct (lowered (named_parameters (codes "@a + @A + @`b`")))
    × All (λ n. is_nil n ≡ false) (named_parameters (codes "@a + @A + @`b`"))
named_parameters-IsDistinct_example = named_parameters-IsDistinct (codes "@a + @A + @`b`")

like_match-Decides_example :
    Decides (Matches (codes "a%c_") (codes "abcacd")) (like_match (codes "a%c_") (codes "abcacd"))
like_match-Decides_example = like_match-Decides (codes "a%c_") (codes "abcacd")
