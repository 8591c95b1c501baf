-- ===== src/Sql/Params.antt =====
-- `named_parameters` of src/sql.rs.
pub mod Distinct
use adbc_spanner.Common.{
  ℕ, Bool, true, false, not, ◌&&◌, ◌||◌, List, [], ◌∷◌, ◌++◌, Option, none, some, ◌==◌,
  if◌then◌else◌, Str, is_nil, is_ascii_alphabetic, to_ascii_lowercase, str_eq, contains,
}
use adbc_spanner.Sql.Lexer.{Lexeme}
use adbc_spanner.Sql.Classify.{significant_lexemes}

-- `starts_with(|ch| …)` of a word behind `@`.
unfoldable pub starts_name : Str → Bool
unfolding is_ascii_alphabetic
starts_name [] = false
starts_name (c ∷ cs) = c == b'_' || is_ascii_alphabetic c

-- `strip_suffix('`')`
unfoldable pub strip_backtick : Str → Option Str
strip_backtick [] = none
strip_backtick (c ∷ []) = if c == b'`' then some [] else none
strip_backtick (c ∷ d ∷ cs) = elim (strip_backtick (d ∷ cs)) [
  | none ↦ none
  | some inner ↦ some (c ∷ inner)
]

-- `strip_prefix('`').and_then(strip_suffix('`'))`
unfoldable pub inner_name : Str → Option Str
unfolding strip_backtick
inner_name [] = none
inner_name (c ∷ cs) = if c == b'`' then strip_backtick cs else none

abbrev usable : Option Str → Option Str
usable none = none
usable (some inner) = if is_nil inner || contains b'\\' inner then none else some inner

-- The name that the lexeme behind an `@` gives, if any.
unfoldable pub name_of : Lexeme → Option Str
unfolding starts_name inner_name contains
name_of (Lexeme.word name) = if starts_name name then some name else none
name_of (Lexeme.quoted quoted) = usable (inner_name quoted)
name_of _ = none

-- `contains` of the set `seen`.
unfoldable pub is_seen : Str → List Str → Bool
unfolding str_eq
is_seen name [] = false
is_seen name (s ∷ seen) = str_eq s name || is_seen name seen

-- `seen` and `params` of the loop.
pub record Found : Type 0 where
  pub seen : List Str
  pub params : List Str

-- The end of the loop's body: `if seen.insert(…) { params.push(…) }`.
unfoldable pub report : Option Str → Found → Found
unfolding is_seen to_ascii_lowercase
report none found = found
report (some name) found =
    if is_seen (to_ascii_lowercase name) found.seen
    then found
    else record { seen = to_ascii_lowercase name ∷ found.seen; params = found.params ++ name ∷ [] }

abbrev is_at : Lexeme → Bool
is_at (Lexeme.other c) = c == b'@'
is_at _ = false

-- Whether the lexeme behind an `@` is taken with it: `@`, `{`, a name, or anything quoted.
abbrev is_taken : Lexeme → Bool
is_taken (Lexeme.other c) = c == b'@' || c == b'{'
is_taken (Lexeme.word name) = starts_name name
is_taken (Lexeme.quoted s) = true
is_taken (Lexeme.comment s) = false

-- The loop of `named_parameters`.
unfoldable pub parameters_from : Found → List Lexeme → Found
unfolding name_of report
parameters_from found [] = found
parameters_from found (l ∷ []) = found
parameters_from found (l ∷ m ∷ ls) =
    let plain = parameters_from found (m ∷ ls) in
    let taken = parameters_from (report (name_of m) found) ls in
    if is_at l && is_taken m then taken else plain

unfoldable pub named_parameters : Str → List Str
unfolding parameters_from
named_parameters sql =
    (parameters_from (record { seen = []; params = [] }) (significant_lexemes sql)).params
