-- ===== src/Routing/ReadOnly.antt =====
-- A read-only connection writes nothing: the guards of src/statement.rs.
use adbc_spanner.Common.{
  ℕ, Bool, true, List, [], ◌∷◌, Option, none, some, Str, Result, ok, err, Done, ◌≡◌, refl, ap, ◌∙◌,
  Bool-cases, inl, inr,
}
use adbc_spanner.Sql.Classify.{is_ddl, is_dml}
use adbc_spanner.Sql.Split.{split_statements, strip_trailing_terminators}
use adbc_spanner.Routing.{
  Backend, Statement, DmlOutcome, check_bound_has_destination, check_all_dml_batch, needed,
  ingest_target,
}
use adbc_spanner.Routing.Execute.{
  run_ingest, run_ddl, run_dml, execute_query_reader, execute, execute_update, execute_sql,
  execute_at, update_sql, update_at, query_bound, attempt, after_ddl, reader_of, count_of, drained,
  drained_to, ingest_reader,
}

-- What the world holds, `stored`, is left as it is by the query paths.
pub record QueriesOnlyRead {B Sch Rd D : Type 0} (backend : Backend B Sch Rd)
    (stored : backend.World → D) : Type 0 where
  pub plain :
      (sql : Str) (w : backend.World) → stored (backend.execute_plain_query sql w).0 ≡ stored w
  pub bound :
      (sql : Str) (rows : List B) (w : backend.World)
      → stored (backend.execute_bound_query sql rows w).0 ≡ stored w
  pub drain :
      (reader : Rd) (w : backend.World)
      → stored (backend.drain_discarding_rows reader w).0 ≡ stored w

module _ {B Sch Rd D : Type 0} (backend : Backend B Sch Rd) (stored : backend.World → D)
    (reads : QueriesOnlyRead backend stored) where
  open backend use {World}

  kept-attempt :
      {A : Type 0} (s : Statement B Sch) (w : World) (g : Result Done)
      (rest : Statement B Sch × World × Result A)
      → stored rest.1 ≡ stored w
      → stored (attempt backend s w g rest).1 ≡ stored w
  kept-attempt s w (ok u) rest h = h
  kept-attempt s w (err e) rest h = refl

  kept_query :
      (sql : Str) (rows : List B) (s : Statement B Sch) (w : World)
      → stored (query_bound backend sql rows s w).1 ≡ stored w
  kept_query sql [] s w = reads.plain sql w
  kept_query sql (b ∷ bs) s w = reads.bound sql (b ∷ bs) w

  kept_reader :
      (sql : Str) (s : Statement B Sch) (w : World)
      → stored (execute_query_reader backend sql s w).1 ≡ stored w
  unfolding execute_query_reader
  kept_reader sql s w =
      kept-attempt s w (backend.ensure_query_allowed w)
        (query_bound backend (strip_trailing_terminators sql) s.bound s w)
        (kept_query (strip_trailing_terminators sql) s.bound s w)

  kept_drained :
      (r : Statement B Sch × World × Result Rd) (w : World)
      → stored r.1 ≡ stored w
      → stored (drained backend r).1 ≡ stored w
  kept_drained (s, v, ok reader) w h =
      drained_part s (backend.drain_discarding_rows reader v) (reads.drain reader v ∙ h)
    where
      drained_part :
          (t : Statement B Sch) (p : World × Result Done)
          → stored p.0 ≡ stored w
          → stored (drained_to backend t p).1 ≡ stored w
      drained_part t (x, ok u) k = k
      drained_part t (x, err e) k = k
  kept_drained (s, v, err e) w h = h

  refused_ingest :
      (table : Str) (s : Statement B Sch) (w : World)
      → s.read_only ≡ true
      → (run_ingest backend table s w).1 ≡ w
  unfolding run_ingest
  refused_ingest table s w r = rw r refl

  refused_ddl : (ss : List Str) (r : Bool) (w : World) → r ≡ true → (run_ddl backend ss r w).0 ≡ w
  unfolding run_ddl
  refused_ddl ss r w e = rw e refl

  refused_dml :
      (sql : Str) (s : Statement B Sch) (w : World)
      → s.read_only ≡ true
      → (run_dml backend sql s w).0 ≡ w
  unfolding run_dml
  refused_dml sql s w r = rw r refl

  after_ddl-world :
      {A : Type 0} (a : A) (s : Statement B Sch) (p : World × Result Done)
      → (after_ddl backend a s p).1 ≡ p.0
  after_ddl-world a s (w, ok u) = refl
  after_ddl-world a s (w, err e) = refl

  reader_of-world : (p : World × Result (DmlOutcome Rd)) → (reader_of backend p).0 ≡ p.0
  reader_of-world (w, ok (DmlOutcome.plain c)) = refl
  reader_of-world (w, ok (DmlOutcome.returning r n)) = refl
  reader_of-world (w, err e) = refl

  count_of-world : (p : World × Result (DmlOutcome Rd)) → (count_of backend p).0 ≡ p.0
  count_of-world (w, ok (DmlOutcome.plain c)) = refl
  count_of-world (w, ok (DmlOutcome.returning r n)) = refl
  count_of-world (w, err e) = refl

  ingest_reader-world :
      (r : Statement B Sch × World × Result (Option ℕ)) → (ingest_reader backend r).1 ≡ r.1
  ingest_reader-world (s, w, ok c) = refl
  ingest_reader-world (s, w, err e) = refl

  kept_sql :
      (sql : Result Str) (s : Statement B Sch) (w : World)
      → s.read_only ≡ true
      → stored (execute_sql backend sql s w).1 ≡ stored w
  kept_sql (err e) s w r = refl
  kept_sql (ok sql) s w r = elim (Bool-cases (is_ddl sql)) [
    | inl d ↦ rw d (
        ap stored (
          after_ddl-world backend.empty_reader s
            (run_ddl backend (split_statements sql) s.read_only w)
          ∙ refused_ddl (split_statements sql) s.read_only w r))
    | inr d ↦ rw d (elim (Bool-cases (is_dml sql)) [
      | inl m ↦ rw m (ap stored (reader_of-world (run_dml backend sql s w) ∙ refused_dml sql s w r))
      | inr m ↦ rw m (kept_reader sql s w)
    ])
  ]

  kept_update :
      (sql : Result Str) (s : Statement B Sch) (w : World)
      → s.read_only ≡ true
      → stored (update_sql backend sql s w).1 ≡ stored w
  kept_update (err e) s w r = refl
  kept_update (ok sql) s w r = elim (Bool-cases (is_ddl sql)) [
    | inl d ↦ rw d (
        ap stored (
          after_ddl-world none s (run_ddl backend (split_statements sql) s.read_only w)
          ∙ refused_ddl (split_statements sql) s.read_only w r))
    | inr d ↦ rw d (elim (Bool-cases (is_dml sql)) [
      | inl m ↦ rw m (ap stored (count_of-world (run_dml backend sql s w) ∙ refused_dml sql s w r))
      | inr m ↦ rw m (
          kept-attempt s w (check_all_dml_batch (split_statements sql))
            (drained backend (execute_query_reader backend sql s w))
            (kept_drained (execute_query_reader backend sql s w) w (kept_reader sql s w)))
    ])
  ]

  kept_execute :
      (target : Option Str) (s : Statement B Sch) (w : World)
      → s.read_only ≡ true
      → stored (execute_at backend target s w).1 ≡ stored w
  kept_execute (some table) s w r =
      ap stored (ingest_reader-world (run_ingest backend table s w) ∙ refused_ingest table s w r)
  kept_execute none s w r =
      kept-attempt s w (check_bound_has_destination s) (execute_sql backend (needed s.sql) s w)
        (kept_sql (needed s.sql) s w r)

  kept_execute_update :
      (target : Option Str) (s : Statement B Sch) (w : World)
      → s.read_only ≡ true
      → stored (update_at backend target s w).1 ≡ stored w
  kept_execute_update (some table) s w r = ap stored (refused_ingest table s w r)
  kept_execute_update none s w r =
      kept-attempt s w (check_bound_has_destination s) (update_sql backend (needed s.sql) s w)
        (kept_update (needed s.sql) s w r)

  -- On a read-only connection neither `execute` nor `execute_update` changes what is stored, whatever the
  -- statement is and whatever it returns, where the query paths change nothing that is stored.
  pub read_only-stored :
      (s : Statement B Sch) (w : World)
      → s.read_only ≡ true
      → (stored (execute backend s w).1 ≡ stored w)
        × (stored (execute_update backend s w).1 ≡ stored w)
  unfolding execute execute_update
  read_only-stored s w r = (
    kept_execute (ingest_target s.sql s.target_table) s w r,
    kept_execute_update (ingest_target s.sql s.target_table) s w r,
  )
