-- ===== src/Sql/Params/Distinct.antt =====
-- `named_parameters` of src/sql.rs reports each name once, and only names that it can bind.
use adbc_spanner.Common.{
  Bool, true, false, ◌&&◌, List, [], ◌∷◌, ◌++◌, Option, none, some, ◌≡◌, refl, sym, ap, ◌∙◌,
  if◌then◌else◌, Str, is_nil, All, arith, Bool-cases, inl, inr, map, to_ascii_lowercase, subst,
}
use mathlib.Core.List.{reverse, map-append, reverse-append}
use adbc_spanner.Sql.Lexer.{Lexeme}
use adbc_spanner.Sql.Classify.{significant_lexemes}
use adbc_spanner.Sql.Params.{
  name_of, is_at, is_taken, is_seen, Found, report, parameters_from, named_parameters,
}

-- No name stands twice.
abbrev pub IsDistinct : List Str → Type 0
IsDistinct [] = Unit {0}
IsDistinct (s ∷ ss) = (is_seen s ss ≡ false) × IsDistinct ss

abbrev pub lowered : List Str → List Str
lowered params = reverse (map to_ascii_lowercase params)

-- A name as `named_parameters` may report it: not empty, and with no backslash where it was quoted.
record Inv (f : Found) : Type 0 where
  seen : f.seen ≡ lowered f.params
  distinct : IsDistinct f.seen
  nonempty : All (λ n. is_nil n ≡ false) f.params

All-snoc :
    (ns : List Str) (n : Str)
    → All (λ n. is_nil n ≡ false) ns
    → is_nil n ≡ false
    → All (λ n. is_nil n ≡ false) (ns ++ n ∷ [])
All-snoc [] n h e = (e, tt)
All-snoc (m ∷ ns) n h e = (h.0, All-snoc ns n h.1 e)

name_of-nonempty : (l : Lexeme) (n : Str) → name_of l ≡ some n → is_nil n ≡ false
unfolding name_of
name_of-nonempty (Lexeme.word []) n h = cc
name_of-nonempty (Lexeme.word (c ∷ s)) n h = ground arith
name_of-nonempty (Lexeme.quoted s) n h = ground arith
name_of-nonempty (Lexeme.other c) n h = cc
name_of-nonempty (Lexeme.comment s) n h = cc

lowered-snoc :
    (ns : List Str) (n : Str) → lowered (ns ++ n ∷ []) ≡ to_ascii_lowercase n ∷ lowered ns
lowered-snoc ns n =
    ap reverse (map-append to_ascii_lowercase ns (n ∷ []))
    ∙ reverse-append (map to_ascii_lowercase ns) (to_ascii_lowercase n ∷ [])

report-Inv :
    (o : Option Str) (f : Found)
    → ((n : Str) → o ≡ some n → is_nil n ≡ false)
    → Inv f
    → Inv (report o f)
unfolding report
report-Inv none f h v = v
report-Inv (some n) f h v = elim (Bool-cases (is_seen (to_ascii_lowercase n) f.seen)) [
  | inl old ↦ rw old v
  | inr new ↦ rw new (record {
    seen = ap (λ l. to_ascii_lowercase n ∷ l) v.seen ∙ sym (lowered-snoc f.params n);
    distinct = (new, v.distinct);
    nonempty = All-snoc f.params n v.nonempty (h n refl);
  })
]

parameters_from-Inv : (ls : List Lexeme) (f : Found) → Inv f → Inv (parameters_from f ls)
unfolding parameters_from
parameters_from-Inv [] f v = v
parameters_from-Inv (l ∷ []) f v = v
parameters_from-Inv (l ∷ m ∷ ls) f v =
    choose (is_at l && is_taken m)
      (parameters_from-Inv ls (report (name_of m) f)
        (report-Inv (name_of m) f (name_of-nonempty m) v))
      (parameters_from-Inv (m ∷ ls) f v)
  where
    choose : (b : Bool) {x y : Found} → Inv x → Inv y → Inv (if b then x else y)
    choose true a b = a
    choose false a b = b

-- The names are pairwise different, letter case aside, and none is empty.
pub named_parameters-IsDistinct :
    (sql : Str)
    → IsDistinct (lowered (named_parameters sql))
      × All (λ n. is_nil n ≡ false) (named_parameters sql)
unfolding named_parameters
named_parameters-IsDistinct sql =
    let v =
      parameters_from-Inv (significant_lexemes sql) (record { seen = []; params = [] })
        (record { seen = refl; distinct = tt; nonempty = tt }) in
    (subst IsDistinct v.seen v.distinct, v.nonempty)
