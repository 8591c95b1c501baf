-- ===== src/Routing/Partitioned.antt =====
-- Partitioned DML runs the whole of what it was given: src/statement.rs.
use adbc_spanner.Common.{
  ℕ, zero, suc, ◌≤◌, Bool, List, [], ◌∷◌, ◌++◌, map, Str, length, length-append, Result, ok, err,
  Done, ◌>>=◌, >>=-ok, ◌≡◌, refl, ap, ◌∙◌, sym, arith,
}
use adbc_spanner.Sql.Split.{split_statements}
use adbc_spanner.Routing.{
  Backend, check_partitioned_dml, check_all_dml_batch, build_dml_statements, build_bound_statements,
  bind_rows, bind_batch, total_rows,
}

length_of_ok : {A : Type 0} → Result (List A) → ℕ
length_of_ok (ok xs) = length xs
length_of_ok (err e) = 0

ok_length : {A : Type 0} {xs ys : List A} → ok xs ≡ ok ys → length xs ≡ length ys
unfolding length_of_ok
ok_length e = ap length_of_ok e

length-map : {A C : Type 0} (f : A → C) (xs : List A) → length (map f xs) ≡ length xs
length-map f [] = refl
length-map f (x ∷ xs) = ap suc (length-map f xs)

module _ {B Sch Rd : Type 0} (backend : Backend B Sch Rd) where
  length-bind_rows :
      (sql : Str) (names : backend.Names) (batch : B) (row n : ℕ) (ss : List backend.Sql)
      → bind_rows backend sql names batch row n ≡ ok ss
      → length ss ≡ n
  unfolding bind_rows
  length-bind_rows sql names batch row zero ss e = sym (ok_length e)
  length-bind_rows sql names batch row (suc n) ss e =
      let (s, more, _) =
        >>=-ok (backend.bind_params sql names batch row)
          (λ s. bind_rows backend sql names batch (suc row) n >>= λ rest. ok (s ∷ rest)) e in
      let (rest, whole, built) =
        >>=-ok (bind_rows backend sql names batch (suc row) n) (λ rest. ok (s ∷ rest)) more in
      sym (ok_length whole) ∙ ap suc (length-bind_rows sql names batch (suc row) n rest built)

  length-bind_batch :
      (sql : Str) (batch : B) (n : ℕ) (ss : List backend.Sql)
      → bind_batch backend sql batch n ≡ ok ss
      → length ss ≡ n
  length-bind_batch sql batch zero ss e = sym (ok_length e)
  length-bind_batch sql batch (suc n) ss e =
      let (names, built, _) =
        >>=-ok (backend.resolve_parameter_names sql batch)
          (λ names. bind_rows backend sql names batch 0 (suc n)) e in
      length-bind_rows sql names batch 0 (suc n) ss built

  -- A statement is built for every bound row.
  pub length-build_bound_statements :
      (sql : Str) (bound : List B) (ss : List backend.Sql)
      → build_bound_statements backend sql bound ≡ ok ss
      → length ss ≡ total_rows backend bound
  unfolding build_bound_statements total_rows
  length-build_bound_statements sql [] ss e = sym (ok_length e)
  length-build_bound_statements sql (batch ∷ batches) ss e =
      let (first, more, built) =
        >>=-ok (bind_batch backend sql batch (backend.num_rows batch))
          (λ first. build_bound_statements backend sql batches >>= λ rest. ok (first ++ rest)) e in
      let (rest, whole, others) =
        >>=-ok (build_bound_statements backend sql batches) (λ rest. ok (first ++ rest)) more in
      omega (
        arith,
        ok_length whole,
        length-append first rest,
        length-bind_batch sql batch (backend.num_rows batch) first built,
        length-build_bound_statements sql batches rest others,
      )

  passed :
      (sql : Str) (autocommit : Bool) (rows : ℕ) (u : Done)
      → check_partitioned_dml sql autocommit rows ≡ ok u
      → (length (split_statements sql) ≤ 1) × (rows ≤ 1)
  unfolding check_partitioned_dml
  passed sql autocommit rows u e = ground arith

  -- What the guard of partitioned DML lets through is one statement at most, bound or not, so taking the
  -- last leaves none behind.
  pub partitioned-one :
      (sql : Str) (bound : List B) (w : backend.World) (u : Done) (ss : List backend.Sql)
      → check_partitioned_dml sql (backend.autocommit w) (total_rows backend bound) ≡ ok u
      → build_dml_statements backend sql bound ≡ ok ss
      → length ss ≤ 1
  unfolding build_dml_statements
  partitioned-one sql [] w u ss c e =
      let (v, whole, _) =
        >>=-ok (check_all_dml_batch (split_statements sql))
          (λ _. ok (map backend.build (split_statements sql))) e in
      omega (
        arith,
        ok_length whole,
        length-map backend.build (split_statements sql),
        (passed sql (backend.autocommit w) (total_rows backend []) u c).0,
      )
  partitioned-one sql (b ∷ bs) w u ss c e = omega (
    arith,
    length-build_bound_statements sql (b ∷ bs) ss e,
    (passed sql (backend.autocommit w) (total_rows backend (b ∷ bs)) u c).1,
  )
