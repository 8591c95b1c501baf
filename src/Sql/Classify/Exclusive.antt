-- ===== src/Sql/Classify/Exclusive.antt =====
-- No text is both DDL and DML for src/sql.rs.
use adbc_spanner.Common.{
  Bool, true, false, ◌||◌, List, [], ◌∷◌, Option, none, some, ◌≡◌, refl, sym, ap₂, Str, arith,
  Bool-cases, inl, inr, str_eq, to_ascii_lowercase, ◌⊎◌,
}
use adbc_spanner.Sql.Classify.{
  ddl_keywords, dml_keywords, is_one_of, is_some_and, first_keyword, is_ddl, is_dml,
}

pub str_eq→path : (a b : Str) → str_eq a b ≡ true → a ≡ b
unfolding str_eq
str_eq→path [] [] h = refl
str_eq→path [] (y ∷ b) h = cc
str_eq→path (x ∷ a) [] h = cc
str_eq→path (x ∷ a) (y ∷ b) h = ground (arith, str_eq→path a b)

-- Whether two lists of keywords share one, letter case aside.
overlap : List Str → List Str → Bool
overlap [] js = false
overlap (k ∷ ks) js = is_one_of js k || overlap ks js

-- `is_one_of` sees the keyword in lower case only.
is_one_of-lower :
    (js : List Str) (a b : Str)
    → to_ascii_lowercase a ≡ to_ascii_lowercase b
    → is_one_of js a ≡ is_one_of js b
unfolding is_one_of
is_one_of-lower [] a b e = refl
is_one_of-lower (j ∷ js) a b e =
    ap₂ (λ x y. str_eq x (to_ascii_lowercase j) || y) e (is_one_of-lower js a b e)

is_one_of-cases :
    (k : Str) (ks : List Str) (kw : Str)
    → is_one_of (k ∷ ks) kw ≡ true
    → (to_ascii_lowercase kw ≡ to_ascii_lowercase k) ⊎ (is_one_of ks kw ≡ true)
unfolding is_one_of
is_one_of-cases k ks kw h =
    elim (Bool-cases (str_eq (to_ascii_lowercase kw) (to_ascii_lowercase k))) [
      | inl e ↦ inl (str_eq→path _ _ e)
      | inr e ↦ inr (rw e at h)
    ]

overlap_found :
    (ks js : List Str) (kw : Str)
    → is_one_of ks kw ≡ true
    → is_one_of js kw ≡ true
    → overlap ks js ≡ true
unfolding overlap
overlap_found [] js kw h h' = unfold is_one_of in cc h
overlap_found (k ∷ ks) js kw h h' = elim (is_one_of-cases k ks kw h) [
  | inl e ↦ rw (is_one_of-lower js k kw (sym e), h') refl
  | inr e ↦ ground (arith, overlap_found ks js kw e h')
]

no_overlap : overlap ddl_keywords dml_keywords ≡ false
unfolding overlap is_one_of
no_overlap = refl

-- No text is classified both as DDL and as DML.
pub ddl_dml_exclusive : (sql : Str) → is_ddl sql ≡ true → is_dml sql ≡ false
unfolding is_ddl is_dml
ddl_dml_exclusive sql h = case (first_keyword sql) h
  where
    case :
        (o : Option Str)
        → is_some_and o (is_one_of ddl_keywords) ≡ true
        → is_some_and o (is_one_of dml_keywords) ≡ false
    case none h = refl
    case (some kw) h = elim (Bool-cases (is_one_of dml_keywords kw)) [
      | inl e ↦ cc (overlap_found ddl_keywords dml_keywords kw h e, no_overlap)
      | inr e ↦ e
    ]
