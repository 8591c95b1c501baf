-- ===== src/Tests/Kinds.antt =====
-- Runs of the kinds of a manual transaction, of src/connection/txn.rs and src/statement.rs.
use adbc_spanner.Common.{
  if◌then◌else◌, ℕ, false, List, [], ◌∷◌, ◌≡◌, refl, err, ok, invalid_state, length,
}
use adbc_spanner.Txn.{TxnState, ManualTxn}
use adbc_spanner.Connection.{Client}
use adbc_spanner.Statement.{lock_adopt_read, run_or_buffer}
use adbc_spanner.Statement.Sections.{
  Section, opened, adopted, clashes, perform, perform_all, opening, statements_in, mutations_in,
  needs, manual, first_section_fixes_kind,
}
use adbc_spanner.Statement.Kinds.{Deferred, run_or_buffer-Deferred}

-- Statements, mutations and read transactions are numbers.
abbrev reader : TxnState ℕ ℕ ℕ
reader = record { autocommit = false; txn = ManualTxn.read 5 }

abbrev writer : TxnState ℕ ℕ ℕ
writer = record { autocommit = false; txn = ManualTxn.dml (1 ∷ []) [] }

abbrev recorder : Client ℕ ℕ
recorder = record {
  World = List (List ℕ);
  batch_update = λ w ss ms last. (ss ∷ w, ok (length ss));
  write_only = λ w ms. (ms ∷ w, ok tt);
}

-- A query's guard, an ingest, DML, and the query's second section too late.
abbrev sections : List (Section ℕ ℕ ℕ)
sections =
    Section.query_guard
    ∷ Section.ingest_mode
    ∷ Section.ingest (7 ∷ 8 ∷ [])
    ∷ Section.run_dml (2 ∷ [])
    ∷ Section.install 6
    ∷ []

abbrev late : Section ℕ ℕ ℕ
late = Section.install 9

first_section_fixes_kind_example :
    let st : TxnState ℕ ℕ ℕ = perform_all sections (manual ManualTxn.unset) in
    (st ≡ manual (opened (opening sections) (statements_in sections) (mutations_in sections)))
    × (lock_adopt_read st ≡ adopted (opening sections))
    × ((perform late st).1
        ≡ (if clashes (opening sections) (needs late) then err invalid_state else ok tt))
first_section_fixes_kind_example = first_section_fixes_kind sections late

sections_run :
    perform_all sections (manual ManualTxn.unset) ≡ manual (ManualTxn.dml (2 ∷ []) (7 ∷ 8 ∷ []))
unfolding perform_all
sections_run = refl

run_or_buffer-Deferred_example : Deferred recorder [] (run_or_buffer recorder [] writer (2 ∷ []))
run_or_buffer-Deferred_example = run_or_buffer-Deferred recorder [] writer (2 ∷ []) refl
