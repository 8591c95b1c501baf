-- ===== src/Txn.antt =====
-- src/connection/txn.rs: the manual transaction of a connection, `TxnState`, and its methods. A
-- method that takes `&mut self` returns the new state. `S`, `M` and `R` stand for the client's
-- `Statement`, `Mutation` and `Arc<MultiUseReadOnlyTransaction>`, which the driver only stores.
pub mod Growth
pub mod Finish
use adbc_spanner.Common.{
  Bool, true, false, not, ◌||◌, List, [], ◌∷◌, ◌++◌, Option, none, some, ℕ, length, is_nil, zero,
  suc, Result, ok, err, invalid_state, Done, check, if◌then◌else◌,
}

pub data TxnKind : Type 0 where
  read dml : TxnKind

-- `#[derive(PartialEq)]`
abbrev pub same_kind : TxnKind → TxnKind → Bool
same_kind TxnKind.read TxnKind.read = true
same_kind TxnKind.dml TxnKind.dml = true
same_kind _ _ = false

pub data ManualTxn (S M R : Type 0) : Type 0 where
  unset : ManualTxn S M R
  read : R → ManualTxn S M R
  dml : List S → List M → ManualTxn S M R

pub record TxnState (S M R : Type 0) : Type 0 where
  pub autocommit : Bool
  pub txn : ManualTxn S M R

-- `Vec::drain(..n)`; `none` is its panic when `n` is past the end.
abbrev pub drain_front : {A : Type 0} → ℕ → List A → Option (List A)
drain_front zero xs = some xs
drain_front (suc n) [] = none
drain_front (suc n) (x ∷ xs) = drain_front n xs

-- The comparison with the kind that the first statement fixed, if one has.
abbrev pub check_active : Option TxnKind → TxnKind → Result Done
check_active none attempted = ok tt
check_active (some active) attempted =
    if same_kind active attempted then ok tt else err invalid_state

module _ {S M R : Type 0} where
  unfoldable pub kind : ManualTxn S M R → Option TxnKind
  kind ManualTxn.unset = none
  kind (ManualTxn.read _) = some TxnKind.read
  kind (ManualTxn.dml _ _) = some TxnKind.dml

  unfoldable pub has_pending_work : ManualTxn S M R → Bool
  has_pending_work ManualTxn.unset = false
  has_pending_work (ManualTxn.read _) = false
  has_pending_work (ManualTxn.dml statements mutations) =
      not (is_nil statements) || not (is_nil mutations)

  unfoldable pub new : TxnState S M R
  new = record { autocommit = true; txn = ManualTxn.unset }

  unfoldable pub check_kind_allowed : TxnState S M R → TxnKind → Result Done
  unfolding kind
  check_kind_allowed st attempted =
      if st.autocommit then ok tt else check_active (kind st.txn) attempted

  abbrev shared_read : ManualTxn S M R → Option R
  shared_read (ManualTxn.read txn) = some txn
  shared_read _ = none

  unfoldable pub read_txn : TxnState S M R → Option R
  read_txn st = shared_read st.txn

  abbrev install : TxnState S M R → R → ManualTxn S M R → TxnState S M R × Result R
  install st txn (ManualTxn.read existing) = (st, ok existing)
  install st txn _ = (record st { txn = ManualTxn.read txn }, ok txn)

  unfoldable pub start_read_txn : TxnState S M R → R → TxnState S M R × Result R
  unfolding check_kind_allowed
  start_read_txn st txn = check st (check_kind_allowed st TxnKind.read) (install st txn st.txn)

  abbrev extend_dml : ManualTxn S M R → List S → ManualTxn S M R
  extend_dml (ManualTxn.dml statements mutations) more =
      ManualTxn.dml (statements ++ more) mutations
  extend_dml _ more = ManualTxn.dml more []

  unfoldable pub buffer_dml : TxnState S M R → List S → TxnState S M R × Result Done
  unfolding check_kind_allowed
  buffer_dml st more =
      check st (check_kind_allowed st TxnKind.dml)
        (if is_nil more then (st, ok tt) else (record st { txn = extend_dml st.txn more }, ok tt))

  abbrev push_mutation : ManualTxn S M R → M → ManualTxn S M R
  push_mutation (ManualTxn.dml statements mutations) m =
      ManualTxn.dml statements (mutations ++ m ∷ [])
  push_mutation _ m = ManualTxn.dml [] (m ∷ [])

  unfoldable pub buffer_mutation : TxnState S M R → M → TxnState S M R × Result Done
  unfolding check_kind_allowed
  buffer_mutation st m =
      check st (check_kind_allowed st TxnKind.dml)
        (record st { txn = push_mutation st.txn m }, ok tt)

  unfoldable pub enter_autocommit : TxnState S M R → TxnState S M R × ManualTxn S M R
  enter_autocommit st = (record { autocommit = true; txn = ManualTxn.unset }, st.txn)

  -- Its `debug_assert!` that the current transaction is unset is not part of the result;
  -- `Connection.Reachable` is about it.
  unfoldable pub restore_manual : TxnState S M R → ManualTxn S M R → TxnState S M R
  restore_manual st work = record { autocommit = false; txn = work }

  abbrev drained : Option (List S) → Option (List M) → Option (ManualTxn S M R)
  drained (some statements) (some mutations) = some (ManualTxn.dml statements mutations)
  drained _ _ = none

  -- The two drains; `none` is a panic.
  abbrev drain_applied : ManualTxn S M R → ManualTxn S M R → Option (ManualTxn S M R)
  drain_applied (ManualTxn.dml statements mutations) (ManualTxn.dml applied_s applied_m) =
      drained (drain_front (length applied_s) statements) (drain_front (length applied_m) mutations)
  drain_applied txn _ = some txn

  abbrev reset_if_empty : TxnState S M R → ManualTxn S M R → TxnState S M R
  reset_if_empty st txn =
      if has_pending_work txn then record st { txn = txn } else record st { txn = ManualTxn.unset }

  abbrev reset_drained : TxnState S M R → Option (ManualTxn S M R) → Option (TxnState S M R)
  reset_drained st none = none
  reset_drained st (some txn) = some (reset_if_empty st txn)

  unfoldable pub finish_commit : TxnState S M R → ManualTxn S M R → Option (TxnState S M R)
  unfolding has_pending_work
  finish_commit st applied = reset_drained st (drain_applied st.txn applied)

  unfoldable pub check_commit_writable : Bool → ManualTxn S M R → Result Done
  unfolding has_pending_work
  check_commit_writable read_only work =
      if read_only then (if has_pending_work work then err invalid_state else ok tt) else ok tt
