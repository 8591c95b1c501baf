-- ===== src/Statement.antt =====
-- src/statement.rs and src/statement/ingest.rs: the sections of a statement's methods that hold the
-- lock of the shared transaction state, and `run_or_buffer` whole. Between two such sections other
-- statements of the connection may run theirs.
pub mod Buffering
pub mod Kinds
pub mod Sections
use adbc_spanner.Common.{
  Bool, true, false, List, [], ◌∷◌, Option, none, some, ℕ, Result, ok, err, ◌>>=◌, Done, check,
  if◌then◌else◌,
}
use adbc_spanner.Txn.{
  TxnKind, TxnState, check_kind_allowed, read_txn, start_read_txn, buffer_dml, buffer_mutation,
}
use adbc_spanner.Connection.{Client, run_batch_txn}

-- A locked section that ends in "buffered" (`true`) or in "the mode is autocommit" (`false`).
abbrev pub buffered : {T : Type 0} → T × Result Done → T × Result Bool
buffered (st, ok _) = (st, ok true)
buffered (st, err e) = (st, err e)

module _ {S M R : Type 0} where
  -- The block of `run_or_buffer`.
  unfoldable pub lock_buffer_dml : TxnState S M R → List S → TxnState S M R × Result Bool
  unfolding buffer_dml
  lock_buffer_dml st statements =
      if st.autocommit then (st, ok false) else buffered (buffer_dml st statements)

  -- The loop over `buffer_mutation`, with its `?`.
  unfoldable pub buffer_mutations : TxnState S M R → List M → TxnState S M R × Result Done
  unfolding buffer_mutation
  buffer_mutations st [] = (st, ok tt)
  buffer_mutations st (m ∷ ms) =
      let rest = buffer_mutations (buffer_mutation st m).0 ms in
      check (buffer_mutation st m).0 (buffer_mutation st m).1 rest

  -- The first block of `run_ingest_mutations`: whether the ingest is manual.
  unfoldable pub lock_ingest_mode : TxnState S M R → Result Bool
  unfolding check_kind_allowed
  lock_ingest_mode st =
      if st.autocommit then ok false else (check_kind_allowed st TxnKind.dml >>= λ _. ok true)

  -- Its second block, on the mutations built in between.
  unfoldable pub lock_buffer_mutations : TxnState S M R → List M → TxnState S M R × Result Bool
  unfolding buffer_mutations
  lock_buffer_mutations st mutations =
      if st.autocommit then (st, ok false) else buffered (buffer_mutations st mutations)

  -- The first block of `manual_read_transaction`: `some` is an early return.
  unfoldable pub lock_adopt_read : TxnState S M R → Option (Option R)
  unfolding read_txn
  lock_adopt_read st =
      if st.autocommit
      then some none
      else elim (read_txn st) [ none ↦ none | some txn ↦ some (some txn) ]

  abbrev installed : TxnState S M R × Result R → TxnState S M R × Result (Option R)
  installed (st, ok txn) = (st, ok (some txn))
  installed (st, err e) = (st, err e)

  -- Its second block, on the transaction built in between.
  unfoldable pub lock_install_read : TxnState S M R → R → TxnState S M R × Result (Option R)
  unfolding start_read_txn
  lock_install_read st built =
      if st.autocommit then (st, ok none) else installed (start_read_txn st built)

  unfoldable pub ensure_query_allowed : TxnState S M R → Result Done
  unfolding check_kind_allowed
  ensure_query_allowed st = check_kind_allowed st TxnKind.read

abbrev pub some_count : Result ℕ → Result (Option ℕ)
some_count (ok n) = ok (some n)
some_count (err e) = err e

module _ {S M : Type 0} (client : Client S M) {R : Type 0} where
  open client use {World}

  abbrev run_unless_buffered :
      World → List S → TxnState S M R × Result Bool → World × TxnState S M R × Result (Option ℕ)
  run_unless_buffered w statements (st, ok true) = (w, st, ok none)
  run_unless_buffered w statements (st, ok false) =
      let (w', r) = run_batch_txn client w statements [] true in (w', st, some_count r)
  run_unless_buffered w statements (st, err e) = (w, st, err e)

  unfoldable pub run_or_buffer :
      World → TxnState S M R → List S → World × TxnState S M R × Result (Option ℕ)
  unfolding lock_buffer_dml run_batch_txn
  run_or_buffer w st statements = run_unless_buffered w statements (lock_buffer_dml st statements)
