-- ===== src/Like.antt =====
-- `LikeMatcher` of src/metadata.rs: the iterative matcher of ADBC `LIKE` patterns. The pattern index
-- and the byte offset of the value, which only ever lands on character boundaries, are the parts of
-- the pattern and of the value that are left from there.
pub mod Spec
mod Star
mod Rounds
pub mod Correct
use adbc_spanner.Common.{
  ℕ, zero, suc, ◌+◌, ◌*◌, Bool, true, false, ◌&&◌, ◌||◌, List, [], ◌∷◌, Option, none, some, ◌==◌,
  if◌then◌else◌, Str, length,
}

-- The pattern behind the most recent `%`, and the value where it last resumed.
abbrev pub Star : Type 0
Star = Option (Str × Str)

-- The variables of the loop.
pub record Cursor : Type 0 where
  pub pattern : Str
  pub value : Str
  pub star : Star

-- `pi < p.len() && p[pi] == '%'`
abbrev pub at_percent : Str → Bool
at_percent [] = false
at_percent (p ∷ ps) = p == b'%'

-- `pi < p.len() && (p[pi] == '_' || p[pi] == ch)`
abbrev pub at_match : Str → ℕ → Bool
at_match [] ch = false
at_match (p ∷ ps) ch = p == b'_' || p == ch

abbrev pub rest_of : Str → Str
rest_of [] = []
rest_of (c ∷ cs) = cs

-- The loop behind the walk: what is left of the pattern is `%` only.
unfoldable pub all_percent : Str → Bool
all_percent [] = true
all_percent (p ∷ ps) = p == b'%' && all_percent ps

-- How a round or the whole walk ends: `expect` panics at an offset with no character.
pub data Outcome (A : Type 0) : Type 0 where
  answer : A → Outcome A
  panic : Outcome A
  out_of_fuel : Outcome A

-- The last `%` consumes one more character, or there is none and the walk returns `false`.
abbrev pub backtrack : Star → Outcome (Option Cursor)
backtrack none = answer none
backtrack (some (sp, [])) = panic
backtrack (some (sp, skipped ∷ sv)) =
    answer (some (record { pattern = sp; value = sv; star = some (sp, sv) }))

-- One round of the walk, at the character `ch`.
unfoldable pub round : Cursor → ℕ → Outcome (Option Cursor)
round c ch =
    if at_percent c.pattern
    then answer (
        some (record {
          pattern = rest_of c.pattern;
          value = c.value;
          star = some (rest_of c.pattern, c.value);
        }))
    else if at_match c.pattern ch
    then answer (some (record c { pattern = rest_of c.pattern; value = rest_of c.value }))
    else backtrack c.star

abbrev pub resume : Outcome (Option Cursor) → (Cursor → Outcome Bool) → Outcome Bool
resume (answer none) k = answer false
resume (answer (some c)) k = k c
resume panic k = panic
resume out_of_fuel k = out_of_fuel

-- The walk and what follows it, on fuel.
unfoldable pub walk : ℕ → Cursor → Outcome Bool
unfolding round all_percent
walk zero c = out_of_fuel
walk (suc fuel) c = elim c.value [
  | [] ↦ answer (all_percent c.pattern)
  | ch ∷ rest ↦ resume (round c ch) (walk fuel)
]

-- A bound on the rounds: each shortens the pattern, or the value at the last `%`.
abbrev pub enough : Str → Str → ℕ
enough pattern value = suc (length value * suc (length pattern) + length pattern)

unfoldable pub like_match : Str → Str → Outcome Bool
unfolding walk
like_match pattern value =
    walk (enough pattern value) (record { pattern = pattern; value = value; star = none })
