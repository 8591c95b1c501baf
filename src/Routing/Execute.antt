-- ===== src/Routing/Execute.antt =====
-- `execute`, `execute_update` and `execute_partitions` of src/statement.rs, with `run_ingest` of
-- src/statement/ingest.rs.
use adbc_spanner.Common.{
  ℕ, Bool, not, ◌&&◌, List, [], ◌∷◌, map, Option, none, some, if◌then◌else◌, ltb, Str, length,
  is_nil, Result, ok, err, Done, invalid_arguments, invalid_state, not_implemented,
}
use adbc_spanner.Sql.Classify.{is_ddl, is_dml, is_dml_returning}
use adbc_spanner.Sql.Split.{split_statements, strip_trailing_terminators}
use adbc_spanner.Routing.{
  Backend, Statement, DmlOutcome, check_query_only, check_all_dml_batch, clear_bound,
  check_bound_has_destination, needed, ingest_target, is_some, build_dml_statements,
  build_bound_statements, run_partitioned_dml, total_rows,
}

module _ {B Sch Rd : Type 0} (backend : Backend B Sch Rd) where
  open backend use {World, Sql}

  -- What a method leaves: the statement, the world and its result.
  abbrev pub After : Type 0 → Type 0
  After A = Statement B Sch × World × Result A

  abbrev pub keep : {A : Type 0} → Statement B Sch → World × Result A → After A
  keep s (w, r) = (s, w, r)

  -- `?`, in a method.
  abbrev pub attempt : {A : Type 0} → Statement B Sch → World → Result Done → After A → After A
  attempt s w (ok u) rest = rest
  attempt s w (err e) rest = (s, w, err e)

  unfoldable pub run_ingest : Str → Statement B Sch → World → After (Option ℕ)
  unfolding clear_bound
  run_ingest table s w =
      if s.read_only
      then (s, w, err invalid_state)
      else if is_nil s.bound && not (is_some s.ingest_schema)
      then (s, w, err invalid_state)
      else keep (clear_bound s) (backend.run_bound_ingest table s.bound s.ingest_schema w)

  unfoldable pub run_ddl : List Str → Bool → World → World × Result Done
  run_ddl statements read_only w =
      if read_only then (w, err invalid_state) else backend.update_database_ddl statements w

  abbrev pub plain_outcome : World × Result (Option ℕ) → World × Result (DmlOutcome Rd)
  plain_outcome (w, ok count) = (w, ok (DmlOutcome.plain count))
  plain_outcome (w, err e) = (w, err e)

  abbrev pub counted_outcome : World × Result ℕ → World × Result (DmlOutcome Rd)
  counted_outcome (w, ok count) = (w, ok (DmlOutcome.plain (some count)))
  counted_outcome (w, err e) = (w, err e)

  abbrev pub returned_outcome : World × Result (Rd × ℕ) → World × Result (DmlOutcome Rd)
  returned_outcome (w, ok (rows, affected)) = (w, ok (DmlOutcome.returning rows affected))
  returned_outcome (w, err e) = (w, err e)

  abbrev pub buffer_built : Result (List Sql) → World → World × Result (DmlOutcome Rd)
  buffer_built (ok statements) w = plain_outcome (backend.run_or_buffer statements w)
  buffer_built (err e) w = (w, err e)

  abbrev pub return_built : Result (List Sql) → World → World × Result (DmlOutcome Rd)
  return_built (ok statements) w = returned_outcome (backend.execute_returning_dml statements w)
  return_built (err e) w = (w, err e)

  -- The statements of DML with THEN RETURN.
  unfoldable pub returning_statements : Str → List B → Result (List Sql)
  unfolding split_statements build_bound_statements
  returning_statements sql [] =
      if ltb 1 (length (split_statements sql))
      then err not_implemented
      else ok (map backend.build (split_statements sql))
  returning_statements sql (batch ∷ batches) = build_bound_statements backend sql (batch ∷ batches)

  unfoldable pub run_dml : Str → Statement B Sch → World → World × Result (DmlOutcome Rd)
  unfolding is_dml_returning run_partitioned_dml build_dml_statements returning_statements
  run_dml sql s w =
      if s.read_only
      then (w, err invalid_state)
      else if s.dml_partitioned
      then counted_outcome (run_partitioned_dml backend sql s.bound w)
      else if not (is_dml_returning sql)
      then buffer_built (build_dml_statements backend sql s.bound) w
      else if not (backend.autocommit w)
      then (w, err invalid_state)
      else return_built (returning_statements sql s.bound) w

  abbrev pub query_bound : Str → List B → Statement B Sch → World → After Rd
  query_bound sql [] s w = keep s (backend.execute_plain_query sql w)
  query_bound sql (batch ∷ batches) s w =
      keep (clear_bound s) (backend.execute_bound_query sql (batch ∷ batches) w)

  unfoldable pub execute_query_reader : Str → Statement B Sch → World → After Rd
  unfolding strip_trailing_terminators clear_bound
  execute_query_reader sql s w =
      attempt s w (backend.ensure_query_allowed w)
        (query_bound (strip_trailing_terminators sql) s.bound s w)

  -- A DDL statement's bound data is dropped after a success only.
  abbrev pub after_ddl : {A : Type 0} → A → Statement B Sch → World × Result Done → After A
  after_ddl empty s (w, ok u) = (clear_bound s, w, ok empty)
  after_ddl empty s (w, err e) = (s, w, err e)

  abbrev pub reader_of : World × Result (DmlOutcome Rd) → World × Result Rd
  reader_of (w, ok (DmlOutcome.plain count)) = (w, ok backend.empty_reader)
  reader_of (w, ok (DmlOutcome.returning rows affected)) = (w, ok rows)
  reader_of (w, err e) = (w, err e)

  abbrev pub count_of : World × Result (DmlOutcome Rd) → World × Result (Option ℕ)
  count_of (w, ok (DmlOutcome.plain count)) = (w, ok count)
  count_of (w, ok (DmlOutcome.returning rows affected)) = (w, ok (some affected))
  count_of (w, err e) = (w, err e)

  abbrev pub ingest_reader : After (Option ℕ) → After Rd
  ingest_reader (s, w, ok count) = (s, w, ok backend.empty_reader)
  ingest_reader (s, w, err e) = (s, w, err e)

  abbrev pub execute_sql : Result Str → Statement B Sch → World → After Rd
  execute_sql (err e) s w = (s, w, err e)
  execute_sql (ok sql) s w =
      if is_ddl sql
      then after_ddl backend.empty_reader s (run_ddl (split_statements sql) s.read_only w)
      else if is_dml sql
      then keep (clear_bound s) (reader_of (run_dml sql s w))
      else execute_query_reader sql s w

  abbrev pub execute_at : Option Str → Statement B Sch → World → After Rd
  execute_at (some table) s w = ingest_reader (run_ingest table s w)
  execute_at none s w = attempt s w (check_bound_has_destination s) (execute_sql (needed s.sql) s w)

  unfoldable pub execute : Statement B Sch → World → After Rd
  unfolding run_ingest check_bound_has_destination is_ddl is_dml run_ddl run_dml
      execute_query_reader clear_bound split_statements
  execute s w = execute_at (ingest_target s.sql s.target_table) s w

  abbrev pub drained_to : Statement B Sch → World × Result Done → After (Option ℕ)
  drained_to s (w, ok u) = (s, w, ok none)
  drained_to s (w, err e) = (s, w, err e)

  abbrev pub drained : After Rd → After (Option ℕ)
  drained (s, w, ok reader) = drained_to s (backend.drain_discarding_rows reader w)
  drained (s, w, err e) = (s, w, err e)

  abbrev pub update_sql : Result Str → Statement B Sch → World → After (Option ℕ)
  update_sql (err e) s w = (s, w, err e)
  update_sql (ok sql) s w =
      if is_ddl sql
      then after_ddl none s (run_ddl (split_statements sql) s.read_only w)
      else if not (is_dml sql)
      then attempt s w (check_all_dml_batch (split_statements sql))
          (drained (execute_query_reader sql s w))
      else keep (clear_bound s) (count_of (run_dml sql s w))

  abbrev pub update_at : Option Str → Statement B Sch → World → After (Option ℕ)
  update_at (some table) s w = run_ingest table s w
  update_at none s w = attempt s w (check_bound_has_destination s) (update_sql (needed s.sql) s w)

  unfoldable pub execute_update : Statement B Sch → World → After (Option ℕ)
  unfolding run_ingest check_bound_has_destination check_all_dml_batch is_ddl is_dml run_ddl run_dml
      execute_query_reader clear_bound split_statements
  execute_update s w = update_at (ingest_target s.sql s.target_table) s w

  abbrev pub schema_of : Result Str → Statement B Sch → World → After Sch
  schema_of (err e) s w = (s, w, err e)
  schema_of (ok sql) s w =
      attempt s w (check_query_only sql)
        (keep s (backend.plan_query_schema (strip_trailing_terminators sql) w))

  unfoldable pub execute_schema : Statement B Sch → World → After Sch
  unfolding check_query_only strip_trailing_terminators
  execute_schema s w = schema_of (needed s.sql) s w

  unfoldable pub check_single_bound_row : List B → Result Done
  unfolding total_rows
  check_single_bound_row bound =
      if ltb 1 (total_rows backend bound) then err invalid_arguments else ok tt

  abbrev pub partitioned_if : Result Done → Str → List B → World → World × Result backend.Partitions
  partitioned_if (ok u) sql bound w = backend.partition_query sql bound w
  partitioned_if (err e) sql bound w = (w, err e)

  unfoldable pub run_partition_query : Str → List B → World → World × Result backend.Partitions
  unfolding check_single_bound_row
  run_partition_query sql bound w = partitioned_if (check_single_bound_row bound) sql bound w

  abbrev pub partitions_of : Result Str → Statement B Sch → World → After backend.Partitions
  partitions_of (err e) s w = (s, w, err e)
  partitions_of (ok sql) s w = attempt s w (check_query_only sql) (
      attempt s w (backend.ensure_query_allowed w)
        (keep (clear_bound s) (run_partition_query (strip_trailing_terminators sql) s.bound w)))

  unfoldable pub execute_partitions : Statement B Sch → World → After backend.Partitions
  unfolding check_query_only strip_trailing_terminators run_partition_query clear_bound
  execute_partitions s w = partitions_of (needed s.sql) s w
