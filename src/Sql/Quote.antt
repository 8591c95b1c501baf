-- ===== src/Sql/Quote.antt =====
-- `quote_ident` and `qualified_table` of src/sql.rs.
pub mod Inert
use adbc_spanner.Common.{
  ℕ, Bool, true, false, ◌||◌, List, [], ◌∷◌, ◌++◌, Option, none, some, ◌==◌, if◌then◌else◌, Str,
  is_nil, is_control, Result, ok, err, invalid_arguments, ◌>>=◌,
}

-- The characters that `quote_ident` looks for.
unfoldable pub is_bad : ℕ → Bool
unfolding is_control
is_bad c = c == b'`' || c == b'\\' || is_control c

-- `chars().find(…)`
unfoldable pub find_bad : Str → Option ℕ
unfolding is_bad
find_bad [] = none
find_bad (c ∷ cs) = if is_bad c then some c else find_bad cs

unfoldable pub quote_ident : Str → Result Str
unfolding find_bad
quote_ident ident = if is_nil ident then err invalid_arguments else elim (find_bad ident) [
  | some bad ↦ err invalid_arguments
  | none ↦ ok (b'`' ∷ ident ++ b'`' ∷ [])
]

-- `filter(|s| !s.is_empty())`
abbrev pub named : Option Str → Option Str
named none = none
named (some s) = if is_nil s then none else some s

abbrev pub qualify : Option Str → Str → Result Str
qualify none table_name = quote_ident table_name
qualify (some schema) table_name = do
  s ← quote_ident schema
  t ← quote_ident table_name
  ok (s ++ b'.' ∷ t)

unfoldable pub qualified_table : Option Str → Str → Result Str
unfolding quote_ident
qualified_table db_schema table_name = qualify (named db_schema) table_name
