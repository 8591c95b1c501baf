-- ===== src/Connection.antt =====
-- src/connection.rs and src/connection/exec.rs: the connection's transaction methods, with no other
-- thread in between (`Connection.Steps` has the interleavings). The client library is a parameter: its two
-- commit calls, each taken whole with its deadline and its cancellation, on an abstract `World`.
pub mod Steps
pub mod Invariant
pub mod Reachable
pub mod Outcomes
use adbc_spanner.Common.{
  Bool, false, not, ◌&&◌, List, Option, none, some, ℕ, is_nil, Result, ok, err, invalid_state, Done,
  if◌then◌else◌,
}
use adbc_spanner.Txn.{
  ManualTxn, TxnState, enter_autocommit, restore_manual, finish_commit, check_commit_writable,
}

-- What the driver calls of google_cloud_spanner to apply a manual transaction.
pub record Client (S M : Type 0) : Type 1 where
  pub World : Type 0
  -- the read/write runner of `run_batch_txn`; the flag is `last_statements`
  pub batch_update : World → List S → List M → Bool → World × Result ℕ
  -- the write-only transaction of `write_mutations_txn`
  pub write_only : World → List M → World × Result Done

-- The fields of `SpannerConnection` that its transaction methods read and write.
pub record Connection (S M R : Type 0) : Type 0 where
  pub txn : TxnState S M R
  pub read_only : Bool

abbrev pub discard_count : Result ℕ → Result Done
discard_count (ok _) = ok tt
discard_count (err e) = err e

module _ {S M : Type 0} (client : Client S M) where
  open client use {World, batch_update, write_only}

  unfoldable pub run_batch_txn : World → List S → List M → Bool → World × Result ℕ
  run_batch_txn w statements mutations last_statements =
      if is_nil statements && is_nil mutations
      then (w, ok 0)
      else batch_update w statements mutations last_statements

  unfoldable pub write_mutations_txn : World → List M → World × Result Done
  write_mutations_txn w mutations = if is_nil mutations then (w, ok tt) else write_only w mutations

  unfoldable pub apply_transaction : World → List S → List M → World × Result Done
  unfolding run_batch_txn write_mutations_txn
  apply_transaction w statements mutations =
      if is_nil statements
      then write_mutations_txn w mutations
      else (let (w', r) = run_batch_txn w statements mutations false in (w', discard_count r))

  module _ {R : Type 0} where
    abbrev apply_work : World → ManualTxn S M R → World × Result Done
    apply_work w ManualTxn.unset = (w, ok tt)
    apply_work w (ManualTxn.read _) = (w, ok tt)
    apply_work w (ManualTxn.dml statements mutations) = apply_transaction w statements mutations

    abbrev apply_if : World → Result Done → ManualTxn S M R → World × Result Done
    apply_if w (ok _) work = apply_work w work
    apply_if w (err e) work = (w, err e)

    unfoldable pub apply_manual_txn : World → Bool → ManualTxn S M R → World × Result Done
    unfolding apply_transaction check_commit_writable
    apply_manual_txn w read_only work = apply_if w (check_commit_writable read_only work) work

    abbrev conclude :
        World
        → Connection S M R
        → Option (TxnState S M R)
        → Option (World × Connection S M R × Result Done)
    conclude w c none = none
    conclude w c (some st) = some (w, record c { txn = st }, ok tt)

    -- The last two lines of `commit`, after the apply. `none` is a panic of `finish_commit`.
    abbrev finish :
        Connection S M R
        → ManualTxn S M R
        → World × Result Done
        → Option (World × Connection S M R × Result Done)
    finish c work (w, err e) = some (w, c, err e)
    finish c work (w, ok _) = conclude w c (finish_commit c.txn work)

    unfoldable pub commit :
        World → Connection S M R → Option (World × Connection S M R × Result Done)
    unfolding apply_manual_txn finish_commit
    commit w c =
        if c.txn.autocommit
        then some (w, c, err invalid_state)
        else finish c c.txn.txn (apply_manual_txn w c.read_only c.txn.txn)

    unfoldable pub rollback : Connection S M R → Connection S M R × Result Done
    rollback c =
        if c.txn.autocommit
        then (c, err invalid_state)
        else (record c { txn = record c.txn { txn = ManualTxn.unset } }, ok tt)

    abbrev settle :
        Connection S M R
        → ManualTxn S M R
        → World × Result Done
        → World × Connection S M R × Result Done
    settle c work (w, ok _) = (w, c, ok tt)
    settle c work (w, err e) = (w, record c { txn = restore_manual c.txn work }, err e)

    -- The `AutoCommit` arm of `set_option`.
    unfoldable pub set_autocommit :
        World → Connection S M R → Bool → World × Connection S M R × Result Done
    unfolding enter_autocommit restore_manual apply_manual_txn
    set_autocommit w c enable =
        if enable && not c.txn.autocommit
        then (let (st, work) = enter_autocommit c.txn in
            settle (record c { txn = st }) work (apply_manual_txn w c.read_only work))
        else (w, record c { txn = record c.txn { autocommit = enable } }, ok tt)
