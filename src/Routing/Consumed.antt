-- ===== src/Routing/Consumed.antt =====
-- Bound data and the destination of a statement that is used again: src/statement.rs.
use adbc_spanner.Common.{
  ℕ, Bool, true, false, not, if◌then◌else◌, Status, invalid_state, List, [], ◌∷◌, Option, none,
  some, Str, Result, ok, err, Done, ◌≡◌, refl, Bool-cases, inl, inr, ◌⊎◌, is_nil, ◌&&◌,
}
use adbc_spanner.Sql.Classify.{is_ddl, is_dml}
use adbc_spanner.Sql.Split.{split_statements, strip_trailing_terminators}
use adbc_spanner.Routing.{
  Backend, Statement, check_bound_has_destination, check_all_dml_batch, needed, ingest_target,
  clear_bound, set_sql_query, set_target_table, bind, bind_stream, is_some,
}
use adbc_spanner.Routing.Execute.{
  run_ingest, run_ddl, run_dml, execute_query_reader, execute, execute_update, execute_sql,
  execute_at, update_sql, update_at, query_bound, keep, attempt, after_ddl, reader_of, count_of,
  drained, drained_to, ingest_reader,
}

-- What a caller sets on a statement between its executions.
pub data Setup (B Sch : Type 0) : Type 0 where
  query target : Str → Setup B Sch
  batch : B → Setup B Sch
  stream : Sch → List B → Setup B Sch

module _ {B Sch : Type 0} where
  unfoldable pub set_up : Setup B Sch → Statement B Sch → Statement B Sch
  unfolding set_sql_query set_target_table bind bind_stream
  set_up (Setup.query sql) s = set_sql_query sql s
  set_up (Setup.target table) s = set_target_table table s
  set_up (Setup.batch rows) s = bind rows s
  set_up (Setup.stream schema rows) s = bind_stream schema rows s

  -- A statement has a SQL text or an ingest target, never both, and the schema of an empty stream only
  -- where no batch is bound.
  abbrev pub OneDestination : Statement B Sch → Type 0
  OneDestination s =
      ((s.sql ≡ none) ⊎ (s.target_table ≡ none)) × ((s.bound ≡ []) ⊎ (s.ingest_schema ≡ none))

  -- Each setter keeps that, and so does the clearing of the bound data.
  pub set_up-OneDestination :
      (step : Setup B Sch) (s : Statement B Sch)
      → OneDestination s
      → OneDestination (set_up step s) × OneDestination (clear_bound (set_up step s))
  unfolding set_up set_sql_query set_target_table bind bind_stream clear_bound
  set_up-OneDestination (Setup.query sql) s (d, b) = ((inr refl, b), (inr refl, inl refl))
  set_up-OneDestination (Setup.target table) s (d, b) = ((inl refl, b), (inl refl, inl refl))
  set_up-OneDestination (Setup.batch rows) s (d, b) = ((d, inr refl), (d, inl refl))
  set_up-OneDestination (Setup.stream schema []) s (d, b) = ((d, inl refl), (d, inl refl))
  set_up-OneDestination (Setup.stream schema (r ∷ rs)) s (d, b) = ((d, inr refl), (d, inl refl))

needed_sql : (o : Option Str) (sql : Str) → needed o ≡ ok sql → o ≡ some sql
needed_sql none sql h = cc
needed_sql (some x) sql h = cc

module _ {B Sch Rd : Type 0} (backend : Backend B Sch Rd) where
  open backend use {World}

  -- A plain query: its text is neither DDL nor DML, and no batch is bound.
  abbrev pub IsPlainQuery : Statement B Sch → Type 0
  IsPlainQuery s =
      (s.bound ≡ [])
      × ((sql : Str) × (s.sql ≡ some sql) × (is_ddl sql ≡ false) × (is_dml sql ≡ false))

  -- What a success leaves of a statement: all but its bound data, which is gone with the schema of an empty
  -- stream. A plain query leaves the statement as it was.
  abbrev pub Emptied : Statement B Sch → Statement B Sch → Type 0
  Emptied s s' = (s' ≡ record s { bound = []; ingest_schema = none }) ⊎ (IsPlainQuery s × (s' ≡ s))

  abbrev Spent : {A : Type 0} → Statement B Sch → Statement B Sch × World × Result A → Type 0
  Spent s (s', w, ok a) = Emptied s s'
  Spent s (s', w, err e) = Unit {0}

  Spent-attempt :
      {A : Type 0} (s : Statement B Sch) (w : World) (g : Result Done)
      (rest : Statement B Sch × World × Result A)
      → Spent s rest
      → Spent s (attempt backend s w g rest)
  Spent-attempt s w (ok u) rest h = h
  Spent-attempt s w (err e) rest h = tt

  Spent-keep :
      {A : Type 0} (s s' : Statement B Sch) (p : World × Result A)
      → Emptied s s'
      → Spent s (keep backend s' p)
  Spent-keep s s' (w, ok a) h = h
  Spent-keep s s' (w, err e) h = tt

  clear_bound-Emptied : (s : Statement B Sch) → Emptied s (clear_bound s)
  unfolding clear_bound
  clear_bound-Emptied s = inl refl

  Spent-ddl :
      {A : Type 0} (a : A) (s : Statement B Sch) (p : World × Result Done)
      → Spent s (after_ddl backend a s p)
  Spent-ddl a s (w, ok u) = clear_bound-Emptied s
  Spent-ddl a s (w, err e) = tt

  Spent-query :
      (sql : Str) (rows : List B) (s : Statement B Sch) (w : World)
      → s.bound ≡ rows
      → ((s.bound ≡ []) → IsPlainQuery s)
      → Spent s (query_bound backend sql rows s w)
  Spent-query sql [] s w e q = Spent-keep s s (backend.execute_plain_query sql w) (inr (q e, refl))
  Spent-query sql (b ∷ bs) s w e q =
      Spent-keep s (clear_bound s) (backend.execute_bound_query sql (b ∷ bs) w)
        (clear_bound-Emptied s)

  Spent-reader :
      (sql : Str) (s : Statement B Sch) (w : World)
      → ((s.bound ≡ []) → IsPlainQuery s)
      → Spent s (execute_query_reader backend sql s w)
  unfolding execute_query_reader
  Spent-reader sql s w q =
      Spent-attempt s w (backend.ensure_query_allowed w)
        (query_bound backend (strip_trailing_terminators sql) s.bound s w)
        (Spent-query (strip_trailing_terminators sql) s.bound s w refl q)

  Spent-drained :
      (s : Statement B Sch) (r : Statement B Sch × World × Result Rd)
      → Spent s r
      → Spent s (drained backend r)
  Spent-drained s (s', v, ok reader) h = drained_part (backend.drain_discarding_rows reader v)
    where
      drained_part : (p : World × Result Done) → Spent s (drained_to backend s' p)
      drained_part (x, ok u) = h
      drained_part (x, err e) = tt
  Spent-drained s (s', v, err e) h = tt

  -- A guard that refuses.
  Spent-guard :
      {A : Type 0} (refuses : Bool) (s : Statement B Sch) (w : World) (e : Status)
      (rest : Statement B Sch × World × Result A)
      → Spent s rest
      → Spent s (if refuses then (s, w, err e) else rest)
  Spent-guard true s w e rest h = tt
  Spent-guard false s w e rest h = h

  Spent-ingest :
      (table : Str) (s : Statement B Sch) (w : World) → Spent s (run_ingest backend table s w)
  unfolding run_ingest
  Spent-ingest table s w = Spent-guard s.read_only s w invalid_state _ (
      Spent-guard (is_nil s.bound && not (is_some s.ingest_schema)) s w invalid_state _ (
        Spent-keep s (clear_bound s) (backend.run_bound_ingest table s.bound s.ingest_schema w)
          (clear_bound-Emptied s)))

  Spent-ingest_reader :
      (s : Statement B Sch) (r : Statement B Sch × World × Result (Option ℕ))
      → Spent s r
      → Spent s (ingest_reader backend r)
  Spent-ingest_reader s (s', w, ok c) h = h
  Spent-ingest_reader s (s', w, err e) h = tt

  Spent-sql :
      (sql : Result Str) (s : Statement B Sch) (w : World)
      → needed s.sql ≡ sql
      → Spent s (execute_sql backend sql s w)
  Spent-sql (err e) s w k = tt
  Spent-sql (ok sql) s w k = elim (Bool-cases (is_ddl sql)) [
    | inl d ↦
        rw d
          (Spent-ddl backend.empty_reader s (run_ddl backend (split_statements sql) s.read_only w))
    | inr d ↦ rw d (elim (Bool-cases (is_dml sql)) [
      | inl m ↦ rw m (
          Spent-keep s (clear_bound s) (reader_of backend (run_dml backend sql s w))
            (clear_bound-Emptied s))
      | inr m ↦ rw m (Spent-reader sql s w (λ b. (b, (sql, needed_sql s.sql sql k, d, m))))
    ])
  ]

  Spent-update :
      (sql : Result Str) (s : Statement B Sch) (w : World)
      → needed s.sql ≡ sql
      → Spent s (update_sql backend sql s w)
  Spent-update (err e) s w k = tt
  Spent-update (ok sql) s w k = elim (Bool-cases (is_ddl sql)) [
    | inl d ↦
        rw d
          (Spent-ddl {A = Option ℕ} none s (run_ddl backend (split_statements sql) s.read_only w))
    | inr d ↦ rw d (elim (Bool-cases (is_dml sql)) [
      | inl m ↦ rw m (
          Spent-keep s (clear_bound s) (count_of backend (run_dml backend sql s w))
            (clear_bound-Emptied s))
      | inr m ↦ rw m (
          Spent-attempt s w (check_all_dml_batch (split_statements sql))
            (drained backend (execute_query_reader backend sql s w))
            (Spent-drained s (execute_query_reader backend sql s w)
              (Spent-reader sql s w (λ b. (b, (sql, needed_sql s.sql sql k, d, m))))))
    ])
  ]

  Spent-execute :
      (target : Option Str) (s : Statement B Sch) (w : World)
      → Spent s (execute_at backend target s w)
  Spent-execute (some table) s w =
      Spent-ingest_reader s (run_ingest backend table s w) (Spent-ingest table s w)
  Spent-execute none s w =
      Spent-attempt s w (check_bound_has_destination s) (execute_sql backend (needed s.sql) s w)
        (Spent-sql (needed s.sql) s w refl)

  Spent-execute_update :
      (target : Option Str) (s : Statement B Sch) (w : World)
      → Spent s (update_at backend target s w)
  Spent-execute_update (some table) s w = Spent-ingest table s w
  Spent-execute_update none s w =
      Spent-attempt s w (check_bound_has_destination s) (update_sql backend (needed s.sql) s w)
        (Spent-update (needed s.sql) s w refl)

  Spent-eq :
      {A : Type 0} (s : Statement B Sch) (r : Statement B Sch × World × Result A) (a : A)
      → Spent s r
      → r.2 ≡ ok a
      → Emptied s r.0
  Spent-eq s (s', w, ok x) a h e = h
  Spent-eq s (s', w, err x) a h e = cc

  -- An `execute` that succeeds empties the bound data, rows and schema of an empty stream, and leaves the
  -- rest of the statement as it was; only a plain query with no batch bound leaves all of the statement as
  -- it was.
  pub execute-consumes :
      (s : Statement B Sch) (w : World) (reader : Rd)
      → (execute backend s w).2 ≡ ok reader
      → Emptied s (execute backend s w).0
  unfolding execute
  execute-consumes s w reader e =
      Spent-eq s (execute_at backend (ingest_target s.sql s.target_table) s w) reader
        (Spent-execute (ingest_target s.sql s.target_table) s w) e

  -- An `execute_update` that succeeds empties the bound data, rows and schema of an empty stream, and
  -- leaves the rest of the statement as it was; only a plain query with no batch bound leaves all of the
  -- statement as it was.
  pub execute_update-consumes :
      (s : Statement B Sch) (w : World) (count : Option ℕ)
      → (execute_update backend s w).2 ≡ ok count
      → Emptied s (execute_update backend s w).0
  unfolding execute_update
  execute_update-consumes s w count e =
      Spent-eq s (update_at backend (ingest_target s.sql s.target_table) s w) count
        (Spent-execute_update (ingest_target s.sql s.target_table) s w) e
