-- ===== src/Routing.antt =====
-- src/statement.rs: what a statement does with its SQL text, its bound data and its ingest target. The
-- executors that it routes to are an interface.
pub mod Execute
pub mod ReadOnly
pub mod Consumed
pub mod Partitioned
use adbc_spanner.Common.{
  ℕ, zero, suc, ◌+◌, ◌-◌, Bool, true, false, not, ◌&&◌, ◌||◌, List, [], ◌∷◌, ◌++◌, map, Option,
  none, some, if◌then◌else◌, ltb, Str, length, is_nil, Result, ok, err, Done, ◌>>=◌,
  invalid_arguments, invalid_state, not_implemented,
}
use adbc_spanner.Sql.Classify.{is_ddl, is_dml, is_dml_returning}
use adbc_spanner.Sql.Split.{split_statements, strip_trailing_terminators}

abbrev pub is_some : {A : Type 0} → Option A → Bool
is_some none = false
is_some (some a) = true

-- What the statement calls: the commit paths, the query paths and the binding of parameters. `B` is a
-- `RecordBatch`, `Sch` a schema, `Rd` a reader of batches.
pub record Backend (B Sch Rd : Type 0) : Type 1 where
  pub World : Type 0
  -- A built `SpannerSql`, and the resolved names of a batch's columns.
  pub Sql : Type 0
  pub Names : Type 0
  pub num_rows : B → ℕ
  pub build : Str → Sql
  pub resolve_parameter_names : Str → B → Result Names
  pub bind_params : Str → Names → B → ℕ → Result Sql
  pub autocommit : World → Bool
  pub ensure_query_allowed : World → Result Done
  pub run_bound_ingest : Str → List B → Option Sch → World → World × Result (Option ℕ)
  pub update_database_ddl : List Str → World → World × Result Done
  pub run_or_buffer : List Sql → World → World × Result (Option ℕ)
  pub execute_returning_dml : List Sql → World → World × Result (Rd × ℕ)
  pub execute_partitioned : Sql → World → World × Result ℕ
  pub execute_bound_query : Str → List B → World → World × Result Rd
  -- The rest of `execute_query_reader`.
  pub execute_plain_query : Str → World → World × Result Rd
  pub drain_discarding_rows : Rd → World → World × Result Done
  pub empty_reader : Rd
  pub plan_query_schema : Str → World → World × Result Sch
  pub Partitions : Type 0
  -- `run_partition_query` after its guard.
  pub partition_query : Str → List B → World → World × Result Partitions

-- The fields of `SpannerStatement` that decide the route, with the flag of its connection.
pub record Statement (B Sch : Type 0) : Type 0 where
  pub sql : Option Str
  pub bound : List B
  pub ingest_schema : Option Sch
  pub target_table : Option Str
  pub dml_partitioned : Bool
  pub read_only : Bool

pub data DmlOutcome (Rd : Type 0) : Type 0 where
  plain : Option ℕ → DmlOutcome Rd
  returning : Rd → ℕ → DmlOutcome Rd

unfoldable pub check_query_only : Str → Result Done
unfolding is_ddl is_dml
check_query_only sql =
    if is_ddl sql
    then err invalid_arguments
    else if is_dml sql
    then err invalid_arguments
    else ok tt

unfoldable pub all_dml : List Str → Bool
unfolding is_dml
all_dml [] = true
all_dml (s ∷ ss) = is_dml s && all_dml ss

unfoldable pub check_all_dml_batch : List Str → Result Done
unfolding all_dml
check_all_dml_batch statements =
    if ltb 1 (length statements) && not (all_dml statements) then err invalid_arguments else ok tt

unfoldable pub check_partitioned_dml : Str → Bool → ℕ → Result Done
unfolding is_dml_returning split_statements
check_partitioned_dml sql autocommit bound_rows =
    if not autocommit
    then err invalid_state
    else if is_dml_returning sql
    then err invalid_arguments
    else if ltb 1 (length (split_statements sql))
    then err invalid_arguments
    else if ltb 1 bound_rows
    then err invalid_arguments
    else ok tt

module _ {B Sch : Type 0} where
  unfoldable pub clear_bound : Statement B Sch → Statement B Sch
  clear_bound s = record s { bound = []; ingest_schema = none }

  unfoldable pub set_sql_query : Str → Statement B Sch → Statement B Sch
  set_sql_query query s = record s { sql = some query; target_table = none }

  -- The option `adbc.ingest.target_table`.
  unfoldable pub set_target_table : Str → Statement B Sch → Statement B Sch
  set_target_table table s = record s { target_table = some table; sql = none }

  unfoldable pub bind : B → Statement B Sch → Statement B Sch
  bind batch s = record s { bound = batch ∷ []; ingest_schema = none }

  -- `bind_stream` of a stream that yields `batches`.
  unfoldable pub bind_stream : Sch → List B → Statement B Sch → Statement B Sch
  bind_stream schema batches s = record s {
    bound = batches;
    ingest_schema = if is_nil batches then some schema else none;
  }

  unfoldable pub prepare : Statement B Sch → Result Done
  prepare s =
      if not (is_some s.sql) && not (is_some s.target_table) then err invalid_state else ok tt

  unfoldable pub check_bound_has_destination : Statement B Sch → Result Done
  check_bound_has_destination s =
      if not (is_some s.sql)
        && not (is_some s.target_table)
        && (not (is_nil s.bound) || is_some s.ingest_schema)
      then err invalid_state
      else ok tt

abbrev pub needed : Option Str → Result Str
needed none = err invalid_state
needed (some sql) = ok sql

-- `self.sql.is_none() && let Some(table) = self.target_table`
abbrev pub ingest_target : Option Str → Option Str → Option Str
ingest_target none target = target
ingest_target (some sql) target = none

-- `pop`
abbrev pub last_of : {A : Type 0} → List A → Option A
last_of [] = none
last_of (a ∷ []) = some a
last_of (a ∷ b ∷ rest) = last_of (b ∷ rest)

module _ {B Sch Rd : Type 0} (backend : Backend B Sch Rd) where
  open backend use {World, Sql}

  -- `n` rows from row `row` on.
  unfoldable pub bind_rows : Str → backend.Names → B → ℕ → ℕ → Result (List Sql)
  bind_rows sql names batch row zero = ok []
  bind_rows sql names batch row (suc n) = do
    s ← backend.bind_params sql names batch row
    rest ← bind_rows sql names batch (suc row) n
    ok (s ∷ rest)

  abbrev pub bind_batch : Str → B → ℕ → Result (List Sql)
  bind_batch sql batch zero = ok []
  bind_batch sql batch (suc n) =
      backend.resolve_parameter_names sql batch >>= λ names. bind_rows sql names batch 0 (suc n)

  unfoldable pub build_bound_statements : Str → List B → Result (List Sql)
  unfolding bind_rows
  build_bound_statements sql [] = ok []
  build_bound_statements sql (batch ∷ batches) = do
    first ← bind_batch sql batch (backend.num_rows batch)
    rest ← build_bound_statements sql batches
    ok (first ++ rest)

  unfoldable pub build_dml_statements : Str → List B → Result (List Sql)
  unfolding build_bound_statements check_all_dml_batch split_statements
  build_dml_statements sql [] = check_all_dml_batch (split_statements sql) >>= λ _.
      ok (map backend.build (split_statements sql))
  build_dml_statements sql (batch ∷ batches) = build_bound_statements sql (batch ∷ batches)

  unfoldable pub total_rows : List B → ℕ
  total_rows [] = 0
  total_rows (batch ∷ batches) = backend.num_rows batch + total_rows batches

  abbrev pub run_last : Option Sql → World → World × Result ℕ
  run_last none w = (w, ok 0)
  run_last (some s) w = backend.execute_partitioned s w

  abbrev pub run_built : Result (List Sql) → World → World × Result ℕ
  run_built (ok statements) w = run_last (last_of statements) w
  run_built (err e) w = (w, err e)

  unfoldable pub run_partitioned_dml : Str → List B → World → World × Result ℕ
  unfolding check_partitioned_dml build_dml_statements total_rows
  run_partitioned_dml sql bound w =
      run_built
        (check_partitioned_dml sql (backend.autocommit w) (total_rows bound) >>= λ _.
          build_dml_statements sql bound)
        w
