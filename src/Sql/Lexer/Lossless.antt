-- ===== src/Sql/Lexer/Lossless.antt =====
-- The lexer of src/sql.rs partitions its input, and its fuel is enough.
use adbc_spanner.Common.{
  ℕ, zero, suc, ◌+◌, ◌≤◌, Bool, true, false, List, [], ◌∷◌, ◌++◌, ◌≡◌, refl, ap, ◌∙◌, ◌==◌,
  if◌then◌else◌, Str, length, length-append, drop, arith, All, ◌≢◌,
}
use adbc_spanner.Sql.Lexer.{
  Lexeme, text, Scan, scan_quoted, consume_quoted, consume_line_comment, consume_block_comment,
  consume_word, next_from, lex_from, lex,
}

-- What a scan consumed and what it left, put together again.
abbrev pub glue : Scan → Str
glue p = p.0 ++ p.1

scan_quoted-glue : (q : ℕ) (t : Bool) (run : ℕ) (s : Str) → glue (scan_quoted q t run s) ≡ s
unfolding scan_quoted
scan_quoted-glue q t run [] = refl
scan_quoted-glue q t run (ch ∷ []) = refl
scan_quoted-glue q t run (ch ∷ n ∷ rest) = ground (
  arith,
  scan_quoted-glue q t 0 rest,
  scan_quoted-glue q t (if ch == q then run + 1 else 0) (n ∷ rest),
)

consume_quoted-glue : (s : Str) (q : ℕ) → glue (consume_quoted s q) ≡ s
unfolding consume_quoted
consume_quoted-glue [] q = ground arith
consume_quoted-glue (x ∷ []) q = ground arith
consume_quoted-glue (x ∷ y ∷ s) q =
    ground (arith, scan_quoted-glue q true 0 s, scan_quoted-glue q false 0 (x ∷ y ∷ s))

consume_line_comment-glue : (s : Str) → glue (consume_line_comment s) ≡ s
unfolding consume_line_comment
consume_line_comment-glue [] = refl
consume_line_comment-glue (c ∷ s) = ground (arith, consume_line_comment-glue s)

consume_block_comment-glue : (prev : ℕ) (s : Str) → glue (consume_block_comment prev s) ≡ s
unfolding consume_block_comment
consume_block_comment-glue prev [] = refl
consume_block_comment-glue prev (c ∷ s) = ground (arith, consume_block_comment-glue c s)

consume_word-glue : (s : Str) → glue (consume_word s) ≡ s
unfolding consume_word
consume_word-glue [] = refl
consume_word-glue (c ∷ s) = ground (arith, consume_word-glue s)

-- A lexeme and the rest are the input.
pub next_from-text : (c : ℕ) (s : Str) → text (next_from c s).0 ++ (next_from c s).1 ≡ c ∷ s
unfolding next_from
next_from-text c [] = ground arith
next_from-text c (x ∷ s) = ground (
  arith,
  consume_quoted-glue (x ∷ s) c,
  consume_line_comment-glue (x ∷ s),
  consume_block_comment-glue 0 s,
  consume_word-glue (x ∷ s),
)

next_from-head : (c : ℕ) (s : Str) → text (next_from c s).0 ≡ c ∷ drop 1 (text (next_from c s).0)
unfolding next_from
next_from-head c s = ground arith

pub next_from-shorter : (c : ℕ) (s : Str) → length (next_from c s).1 ≤ length s
next_from-shorter c s = omega (
  arith,
  ap length (next_from-text c s),
  ap length (next_from-head c s),
  length-append {0} (text (next_from c s).0) (next_from c s).1,
)

lex_from-fuel : (f g : ℕ) (s : Str) → length s ≤ f → length s ≤ g → lex_from f s ≡ lex_from g s
unfolding lex_from
lex_from-fuel zero zero s hf hg = refl
lex_from-fuel zero (suc g) [] hf hg = refl
lex_from-fuel zero (suc g) (c ∷ s) hf hg = absurd (omega arith)
lex_from-fuel (suc f) zero [] hf hg = refl
lex_from-fuel (suc f) zero (c ∷ s) hf hg = absurd (omega arith)
lex_from-fuel (suc f) (suc g) [] hf hg = refl
lex_from-fuel (suc f) (suc g) (c ∷ s) hf hg =
    ap (λ ls. (next_from c s).0 ∷ ls)
      (lex_from-fuel f g (next_from c s).1 (omega (arith, next_from-shorter c s))
        (omega (arith, next_from-shorter c s)))

pub lex-nil : lex [] ≡ []
unfolding lex
lex-nil = refl

-- The iterator one step at a time, with no fuel in sight.
pub lex-cons : (c : ℕ) (s : Str) → lex (c ∷ s) ≡ (next_from c s).0 ∷ lex (next_from c s).1
unfolding lex
lex-cons c s =
    ap (λ ls. (next_from c s).0 ∷ ls)
      (lex_from-fuel (length s) (length (next_from c s).1) (next_from c s).1 (next_from-shorter c s)
        (omega arith))

-- The texts of the lexemes, one behind the other.
abbrev pub texts : List Lexeme → Str
texts [] = []
texts (l ∷ ls) = text l ++ texts ls

texts-lex_from : (f : ℕ) (s : Str) → length s ≤ f → texts (lex_from f s) ≡ s
unfolding lex_from
texts-lex_from zero [] h = refl
texts-lex_from zero (c ∷ s) h = absurd (omega arith)
texts-lex_from (suc f) [] h = refl
texts-lex_from (suc f) (c ∷ s) h =
    ap (λ l. text (next_from c s).0 ++ l)
      (texts-lex_from f (next_from c s).1 (omega (arith, next_from-shorter c s)))
    ∙ next_from-text c s

nonempty-lex_from : (f : ℕ) (s : Str) → All (λ l. text l ≢ []) (lex_from f s)
unfolding lex_from
nonempty-lex_from zero s = tt
nonempty-lex_from (suc f) [] = tt
nonempty-lex_from (suc f) (c ∷ s) =
    (λ e. cc (next_from-head c s), nonempty-lex_from f (next_from c s).1)

-- The lexemes partition the input: their texts, in order, are the whole text, and none is empty.
pub lex-lossless : (sql : Str) → (texts (lex sql) ≡ sql) × All (λ l. text l ≢ []) (lex sql)
unfolding lex
lex-lossless sql =
    (texts-lex_from (length sql) sql (omega arith), nonempty-lex_from (length sql) sql)
