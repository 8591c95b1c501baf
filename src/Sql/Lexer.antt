-- ===== src/Sql/Lexer.antt =====
-- The lexer of src/sql.rs. A slice `&input[start..pos]` is the list of the characters consumed
-- between the two positions; `Lexer` is then the characters not yet read.
pub mod Lossless
use adbc_spanner.Common.{
  ℕ, zero, suc, ◌+◌, Bool, true, false, not, ◌&&◌, ◌||◌, List, [], ◌∷◌, ◌++◌, Option, none, some,
  ◌==◌, if◌then◌else◌, Str, length, is_ascii_alphanumeric, peek_is, drop,
}

pub data Lexeme : Type 0 where
  word : Str → Lexeme
  quoted : Str → Lexeme
  comment : Str → Lexeme
  other : ℕ → Lexeme

-- The characters that a lexeme stands for.
abbrev pub text : Lexeme → Str
text (Lexeme.word s) = s
text (Lexeme.quoted s) = s
text (Lexeme.comment s) = s
text (Lexeme.other c) = c ∷ []

-- What a scan consumed, and what it left.
abbrev pub Scan : Type 0
Scan = Str × Str

-- One more character consumed in front, `sink(ch)` or `bump()`.
abbrev pub feed : ℕ → Scan → Scan
feed c (consumed, rest) = (c ∷ consumed, rest)

-- The loop of `consume_quoted`. After a backslash the next character, if there is one, is taken too.
unfoldable pub scan_quoted : ℕ → Bool → ℕ → Str → Scan
scan_quoted quote triple closing_run [] = ([], [])
scan_quoted quote triple closing_run (ch ∷ []) = (ch ∷ [], [])
scan_quoted quote triple closing_run (ch ∷ next ∷ rest) =
    let escaped = feed ch (feed next (scan_quoted quote triple 0 rest)) in
    let more =
      feed ch
        (scan_quoted quote triple (if ch == quote then closing_run + 1 else 0) (next ∷ rest)) in
    if ch == b'\\'
    then escaped
    else if ch == quote && (not triple || closing_run + 1 == 3)
    then (ch ∷ [], next ∷ rest)
    else more

-- `consume_quoted`, on the characters after the opening quote.
unfoldable pub consume_quoted : Str → ℕ → Scan
unfolding scan_quoted peek_is
consume_quoted chars quote =
    if not (quote == b'`') && peek_is quote chars
    then (if peek_is quote (drop 1 chars)
        then feed quote (feed quote (scan_quoted quote true 0 (drop 2 chars)))
        else (quote ∷ [], drop 1 chars))
    else scan_quoted quote false 0 chars

unfoldable pub consume_line_comment : Str → Scan
consume_line_comment [] = ([], [])
consume_line_comment (ch ∷ rest) =
    let more = feed ch (consume_line_comment rest) in if ch == b'\n' then (ch ∷ [], rest) else more

-- The loop of the block comment in `next`.
unfoldable pub consume_block_comment : ℕ → Str → Scan
consume_block_comment prev [] = ([], [])
consume_block_comment prev (ch ∷ rest) =
    let more = feed ch (consume_block_comment ch rest) in
    if prev == b'*' && ch == b'/' then (ch ∷ [], rest) else more

unfoldable pub is_ident_char : ℕ → Bool
unfolding is_ascii_alphanumeric
is_ident_char c = c == b'_' || is_ascii_alphanumeric c

-- The loop of a word in `next`.
unfoldable pub consume_word : Str → Scan
unfolding is_ident_char
consume_word [] = ([], [])
consume_word (c ∷ rest) =
    let more = feed c (consume_word rest) in if is_ident_char c then more else ([], c ∷ rest)

abbrev slice : (Str → Lexeme) → Scan → Lexeme × Str
slice kind (consumed, rest) = (kind consumed, rest)

-- The match of `next`, on the first character and the rest.
unfoldable pub next_from : ℕ → Str → Lexeme × Str
unfolding consume_quoted consume_line_comment consume_block_comment consume_word peek_is
next_from c chars =
    if c == b'\'' || c == b'"' || c == b'`'
    then slice Lexeme.quoted (feed c (consume_quoted chars c))
    else if c == b'-' && peek_is b'-' chars
    then slice Lexeme.comment (feed c (consume_line_comment chars))
    else if c == b'#'
    then slice Lexeme.comment (feed c (consume_line_comment chars))
    else if c == b'/' && peek_is b'*' chars
    then slice Lexeme.comment (feed c (feed b'*' (consume_block_comment 0 (drop 1 chars))))
    else if is_ident_char c
    then slice Lexeme.word (feed c (consume_word chars))
    else (Lexeme.other c, chars)

-- `Iterator::next`.
unfoldable pub next : Str → Option (Lexeme × Str)
unfolding next_from
next [] = none
next (c ∷ chars) = some (next_from c chars)

-- The lexemes that the iterator yields. Each takes a character at least, so the fuel `length sql`
-- is enough; `lex-lossless` shows it.
unfoldable pub lex_from : ℕ → Str → List Lexeme
unfolding next
lex_from zero chars = []
lex_from (suc fuel) chars = elim (next chars) [
  | none ↦ []
  | some (lexeme, rest) ↦ lexeme ∷ lex_from fuel rest
]

unfoldable pub lex : Str → List Lexeme
unfolding lex_from
lex sql = lex_from (length sql) sql
