-- ===== src/Tests/Routes.antt =====
-- Runs of the routing of a statement, of src/statement.rs.
use adbc_spanner.Common.{
  ℕ, ◌≤◌, List, [], ◌∷◌, none, some, Bool, true, false, ◌≡◌, refl, Str, codes, length, ok, err,
  invalid_state, invalid_arguments, Done, trim,
}
use adbc_spanner.Sql.Lexer.{lex}
use adbc_spanner.Routing.{
  Backend, Statement, build_dml_statements, check_partitioned_dml, total_rows,
}
use adbc_spanner.Routing.Execute.{execute, execute_update, execute_partitions}
use adbc_spanner.Routing.ReadOnly.{QueriesOnlyRead, read_only-stored}
use adbc_spanner.Routing.Consumed.{Emptied, execute_update-consumes}
use adbc_spanner.Routing.Partitioned.{partitioned-one}

-- A backend whose world is the list of what was written. A batch is its number of rows.
abbrev journal : Backend ℕ ℕ ℕ
journal = record {
  World = List Str;
  Sql = Str;
  Names = Done;
  num_rows = λ b. b;
  build = λ sql. sql;
  resolve_parameter_names = λ sql b. ok tt;
  bind_params = λ sql names b row. ok sql;
  autocommit = λ w. true;
  ensure_query_allowed = λ w. ok tt;
  run_bound_ingest = λ table bound schema w. (table ∷ w, ok (some 1));
  update_database_ddl = λ ddl w. (codes "ddl" ∷ w, ok tt);
  run_or_buffer = λ statements w. (codes "dml" ∷ w, ok (some (length statements)));
  execute_returning_dml = λ statements w. (codes "returning" ∷ w, ok (0, 1));
  execute_partitioned = λ statement w. (statement ∷ w, ok 1);
  execute_bound_query = λ sql bound w. (w, ok 2);
  execute_plain_query = λ sql w. (w, ok 1);
  drain_discarding_rows = λ reader w. (w, ok tt);
  empty_reader = 0;
  plan_query_schema = λ sql w. (w, ok 0);
  Partitions = ℕ;
  partition_query = λ sql bound w. (w, ok 3);
}

abbrev statement_of : Str → List ℕ → Bool → Statement ℕ ℕ
statement_of sql bound read_only = record {
  sql = some sql;
  bound = bound;
  ingest_schema = none;
  target_table = none;
  dml_partitioned = false;
  read_only = read_only;
}

abbrev deletion : Str
deletion = codes "DELETE FROM t WHERE TRUE"

journal_reads : QueriesOnlyRead journal (λ (w : List Str). w)
journal_reads = record {
  plain = λ sql w. refl;
  bound = λ sql rows w. refl;
  drain = λ reader w. refl;
}

read_only-stored_example :
    ((execute journal (statement_of deletion [] true) []).1 ≡ [])
    × ((execute_update journal (statement_of deletion [] true) []).1 ≡ [])
read_only-stored_example =
    read_only-stored journal (λ w. w) journal_reads (statement_of deletion [] true) [] refl

refused_run : (execute_update journal (statement_of deletion [] true) []).2 ≡ err invalid_state
unfolding execute_update lex
refused_run = refl

written_run : (execute_update journal (statement_of deletion (2 ∷ []) false) []).2 ≡ ok (some 2)
unfolding execute_update lex
written_run = refl

partition_dml_run :
    (execute_partitions journal (statement_of deletion [] false) []).2 ≡ err invalid_arguments
unfolding execute_partitions lex
partition_dml_run = refl

execute_update-consumes_example :
    Emptied journal
      (statement_of deletion (2 ∷ []) false)
      (execute_update journal (statement_of deletion (2 ∷ []) false) []).0
unfolding lex
execute_update-consumes_example =
    execute_update-consumes journal (statement_of deletion (2 ∷ []) false) [] (some 2)
      (unfold execute_update in refl)

-- A query leaves the schema of an empty stream bound.
schema_left_run :
    (execute_update journal
      (record (statement_of (codes "SELECT 1") [] false) { ingest_schema = some 3 })
      []).0.ingest_schema
    ≡ some 3
unfolding execute_update lex trim
schema_left_run = refl

partitioned-one_example : length (deletion ∷ []) ≤ 1
unfolding lex trim
partitioned-one_example =
    partitioned-one journal deletion (1 ∷ []) [] tt (deletion ∷ [])
      (unfold check_partitioned_dml total_rows in refl) (unfold build_dml_statements in refl)
