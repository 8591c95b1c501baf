-- ===== src/Connection/Steps.antt =====
-- Interleavings of src/connection.rs and src/statement.rs over the shared transaction state. The
-- methods of a connection take `&mut self`, so at most one `commit` or switch to autocommit is
-- between its two locked sections (`Flight`); the statements' locked sections run at any time.
-- `kept` is the work that a statement was told is buffered, less what `rollback` discarded;
-- `committed` is the work whose apply has been reported successful. Both are records of the past.
use adbc_spanner.Common.{Bool, true, false, List, [], ◌++◌, some, ◌≡◌, ◌≢◌, Result, ok}
use adbc_spanner.Txn.{
  ManualTxn, TxnState, new, enter_autocommit, restore_manual, finish_commit, check_commit_writable,
}
use adbc_spanner.Txn.Growth.{statements_of, mutations_of}
use adbc_spanner.Statement.{lock_buffer_dml, lock_buffer_mutations, lock_install_read}

-- What the connection's one running method has in hand between two locked sections.
pub data Flight (S M R : Type 0) : Type 0 where
  idle : Flight S M R
  committing : ManualTxn S M R → Flight S M R
  toggling : ManualTxn S M R → Flight S M R

pub record System (S M R : Type 0) : Type 0 where
  pub st : TxnState S M R
  pub read_only : Bool
  pub flight : Flight S M R
  pub kept_s : List S
  pub kept_m : List M
  pub committed_s : List S
  pub committed_m : List M

module _ {S M R : Type 0} where
  -- A fresh connection.
  abbrev pub initial : System S M R
  initial = record {
    st = new;
    read_only = false;
    flight = Flight.idle;
    kept_s = [];
    kept_m = [];
    committed_s = [];
    committed_m = [];
  }

  -- One locked section. An outcome that the server or the caller chooses is a constructor's choice.
  pub data Step (s : System S M R) : System S M R → Type 0 where
    dml_buffered :
        (xs : List S) (st' : TxnState S M R)
        → lock_buffer_dml s.st xs ≡ (st', ok true)
        → Step s (record s { st = st'; kept_s = s.kept_s ++ xs })
    dml_not_buffered :
        (xs : List S) (st' : TxnState S M R) (r : Result Bool)
        → lock_buffer_dml s.st xs ≡ (st', r)
        → r ≢ ok true
        → Step s (record s { st = st' })
    ingest_buffered :
        (ms : List M) (st' : TxnState S M R)
        → lock_buffer_mutations s.st ms ≡ (st', ok true)
        → Step s (record s { st = st'; kept_m = s.kept_m ++ ms })
    ingest_not_buffered :
        (ms : List M) (st' : TxnState S M R) (r : Result Bool)
        → lock_buffer_mutations s.st ms ≡ (st', r)
        → r ≢ ok true
        → Step s (record s { st = st' })
    read_section : (built : R) → Step s (record s { st = (lock_install_read s.st built).0 })
    set_read_only : (b : Bool) → s.flight ≡ Flight.idle → Step s (record s { read_only = b })
    -- `commit`: the clone, then the outcome of the apply
    commit_begins :
        s.flight ≡ Flight.idle
        → s.st.autocommit ≡ false
        → check_commit_writable s.read_only s.st.txn ≡ ok tt
        → Step s (record s { flight = Flight.committing s.st.txn })
    commit_applied :
        (work : ManualTxn S M R) (st' : TxnState S M R)
        → s.flight ≡ Flight.committing work
        → finish_commit s.st work ≡ some st'
        → Step s (record s {
          st = st';
          flight = Flight.idle;
          committed_s = s.committed_s ++ statements_of work;
          committed_m = s.committed_m ++ mutations_of work;
        })
    commit_failed :
        (work : ManualTxn S M R)
        → s.flight ≡ Flight.committing work
        → Step s (record s { flight = Flight.idle })
    rolled_back :
        s.flight ≡ Flight.idle
        → s.st.autocommit ≡ false
        → Step s (record s {
          st = record s.st { txn = ManualTxn.unset };
          kept_s = s.committed_s;
          kept_m = s.committed_m;
        })
    -- `set_option` of autocommit, where nothing is taken
    mode_set :
        (b : Bool)
        → s.flight ≡ Flight.idle
        → (b ≡ true → s.st.autocommit ≡ true)
        → Step s (record s { st = record s.st { autocommit = b } })
    -- and where the transaction is taken and applied
    switch_begins :
        s.flight ≡ Flight.idle
        → s.st.autocommit ≡ false
        → Step s (record s {
          st = (enter_autocommit s.st).0;
          flight = Flight.toggling (enter_autocommit s.st).1;
        })
    switch_applied :
        (work : ManualTxn S M R)
        → s.flight ≡ Flight.toggling work
        → check_commit_writable s.read_only work ≡ ok tt
        → Step s (record s {
          flight = Flight.idle;
          committed_s = s.committed_s ++ statements_of work;
          committed_m = s.committed_m ++ mutations_of work;
        })
    switch_failed :
        (work : ManualTxn S M R)
        → s.flight ≡ Flight.toggling work
        → Step s (record s { st = restore_manual s.st work; flight = Flight.idle })

  pub data Reach : System S M R → Type 0 where
    start : Reach initial
    step : {s t : System S M R} → Reach s → Step s t → Reach t
