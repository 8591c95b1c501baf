-- ===== src/Sql/Classify/Transparent.antt =====
-- Leading white space and comments do not matter to the classifiers of src/sql.rs.
use adbc_spanner.Common.{
  ℕ, true, false, List, [], ◌∷◌, ◌++◌, ◌≡◌, ◌≢◌, refl, ap, ◌∙◌, Str, is_whitespace, arith, contains,
}
use adbc_spanner.Sql.Lexer.{
  Lexeme, Scan, consume_line_comment, consume_block_comment, next_from, lex,
}
use adbc_spanner.Sql.Lexer.Lossless.{lex-cons}
use adbc_spanner.Sql.Classify.{keep_significant, significant_lexemes}

whitespace-other : (c : ℕ) (s : Str) → is_whitespace c ≡ true → next_from c s ≡ (Lexeme.other c, s)
unfolding next_from is_whitespace
whitespace-other c s h = ground arith

line_comment_end :
    (body s : Str)
    → contains b'\n' body ≡ false
    → consume_line_comment (body ++ b'\n' ∷ s) ≡ (body ++ b'\n' ∷ [], s)
unfolding consume_line_comment contains
line_comment_end [] s h = refl
line_comment_end (c ∷ body) s h = ground (arith, line_comment_end body s)

block_comment_end :
    (prev : ℕ) (body s : Str)
    → prev ≢ b'*'
    → contains b'*' body ≡ false
    → consume_block_comment prev (body ++ b'*' ∷ b'/' ∷ s) ≡ (body ++ b'*' ∷ b'/' ∷ [], s)
unfolding consume_block_comment contains
block_comment_end prev [] s p h = ground arith
block_comment_end prev (c ∷ body) s p h = ground (arith, block_comment_end c body s)

skip :
    (c : ℕ) (s rest : Str) (l : Lexeme)
    → next_from c s ≡ (l, rest)
    → keep_significant (l ∷ lex rest) ≡ keep_significant (lex rest)
    → significant_lexemes (c ∷ s) ≡ significant_lexemes rest
unfolding significant_lexemes
skip c s rest l e h =
    ap keep_significant (lex-cons c s ∙ ap (λ (p : Lexeme × Str). p.0 ∷ lex p.1) e) ∙ h

skip_other :
    (c : ℕ) (ls : List Lexeme)
    → is_whitespace c ≡ true
    → keep_significant (Lexeme.other c ∷ ls) ≡ keep_significant ls
unfolding keep_significant
skip_other c ls h = rw h refl

skip_comment :
    (s : Str) (ls : List Lexeme) → keep_significant (Lexeme.comment s ∷ ls) ≡ keep_significant ls
unfolding keep_significant
skip_comment s ls = refl

hash_comment :
    (body sql : Str)
    → contains b'\n' body ≡ false
    → next_from b'#' (body ++ b'\n' ∷ sql) ≡ (Lexeme.comment (b'#' ∷ body ++ b'\n' ∷ []), sql)
unfolding next_from
hash_comment body sql h =
    ap (λ (p : Scan). (Lexeme.comment (b'#' ∷ p.0), p.1)) (line_comment_end body sql h)

dash_comment :
    (body sql : Str)
    → contains b'\n' body ≡ false
    → next_from b'-' (b'-' ∷ body ++ b'\n' ∷ sql)
      ≡ (Lexeme.comment (b'-' ∷ b'-' ∷ body ++ b'\n' ∷ []), sql)
unfolding next_from contains
dash_comment body sql h =
    ap (λ (p : Scan). (Lexeme.comment (b'-' ∷ p.0), p.1)) (line_comment_end (b'-' ∷ body) sql h)

block_comment :
    (body sql : Str)
    → contains b'*' body ≡ false
    → next_from b'/' (b'*' ∷ body ++ b'*' ∷ b'/' ∷ sql)
      ≡ (Lexeme.comment (b'/' ∷ b'*' ∷ body ++ b'*' ∷ b'/' ∷ []), sql)
unfolding next_from
block_comment body sql h =
    ap (λ (p : Scan). (Lexeme.comment (b'/' ∷ b'*' ∷ p.0), p.1))
      (block_comment_end 0 body sql (omega arith) h)

-- A white space character, a `#` or `--` comment to the end of its line, and a block comment with no
-- star inside it, in front of a text do not change the significant lexemes, from which
-- `first_keyword`, `is_ddl`, `is_dml` and `named_parameters` are computed.
pub significant_lexemes-skip :
    (c : ℕ) (line block sql : Str)
    → is_whitespace c ≡ true
    → contains b'\n' line ≡ false
    → contains b'*' block ≡ false
    → (significant_lexemes (c ∷ sql) ≡ significant_lexemes sql)
      × (significant_lexemes (b'#' ∷ line ++ b'\n' ∷ sql) ≡ significant_lexemes sql)
      × (significant_lexemes (b'-' ∷ b'-' ∷ line ++ b'\n' ∷ sql) ≡ significant_lexemes sql)
      × (significant_lexemes (b'/' ∷ b'*' ∷ block ++ b'*' ∷ b'/' ∷ sql) ≡ significant_lexemes sql)
significant_lexemes-skip c line block sql w l b = (
  skip c sql sql (Lexeme.other c) (whitespace-other c sql w) (skip_other c (lex sql) w),
  skip b'#' _ sql _ (hash_comment line sql l) (skip_comment _ (lex sql)),
  skip b'-' _ sql _ (dash_comment line sql l) (skip_comment _ (lex sql)),
  skip b'/' _ sql _ (block_comment block sql b) (skip_comment _ (lex sql)),
)
