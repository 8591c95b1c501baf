-- ===== src/Connection/Reachable.antt =====
-- The theorems on every state that the locked sections of src/connection.rs can reach.
use adbc_spanner.Common.{
  Bool, true, false, [], ◌++◌, some, ◌≡◌, refl, ◌∙◌, sym, ap, subst, append-nil,
}
use adbc_spanner.Txn.{ManualTxn, TxnState, enter_autocommit, restore_manual, finish_commit}
use adbc_spanner.Txn.Growth.{statements_of, mutations_of, Extends, HasWork}
use adbc_spanner.Txn.Finish.{Extends-Finishes}
use adbc_spanner.Statement.Buffering.{
  Buffers, lock_buffer_dml-Buffers, lock_buffer_mutations-Buffers, lock_install_read-Installs,
}
use adbc_spanner.Connection.Steps.{
  Flight, System, Step, dml_buffered, dml_not_buffered, ingest_buffered, ingest_not_buffered,
  read_section, set_read_only, commit_begins, commit_applied, commit_failed, rolled_back, mode_set,
  switch_begins, switch_applied, switch_failed, Reach, start, step,
}
use adbc_spanner.Connection.Invariant.{
  current, FlightOk, Inv, initial-Inv, grow_statements-Inv, grow_mutations-Inv, same-Inv, refused,
  install-Inv, commit-Inv,
}

module _ {S M R : Type 0} where
  -- A transaction holds its own work again when a copy of it is given up.
  Extends-refl : (t : ManualTxn S M R) → Extends t t
  Extends-refl ManualTxn.unset = tt
  Extends-refl (ManualTxn.read r) = refl
  Extends-refl (ManualTxn.dml ss ms) = (
    [],
    [],
    ap (λ l. ManualTxn.dml l ms) (sym (append-nil ss))
        ∙ ap (λ l. ManualTxn.dml (ss ++ []) l) (sym (append-nil ms)),
  )

  -- The facts about the transaction hold under another flight with the same current transaction.
  move-Inv :
      (s : System S M R) (st' : TxnState S M R) (f : Flight S M R)
      → Inv s
      → (st'.autocommit ≡ true → st'.txn ≡ ManualTxn.unset)
      → FlightOk f st'
      → current f st'.txn ≡ current s.flight s.st.txn
      → Inv (record s { st = st'; flight = f })
  move-Inv s st' f v u o e = record {
    unset_in_autocommit = u;
    flight = o;
    statements = ap (λ t. s.committed_s ++ statements_of t) e ∙ v.statements;
    mutations = ap (λ t. s.committed_m ++ mutations_of t) e ∙ v.mutations;
    has_work = subst HasWork (sym e) v.has_work;
  }

  current_at :
      (s : System S M R) {f : Flight S M R}
      → s.flight ≡ f
      → current s.flight s.st.txn ≡ current f s.st.txn
  current_at s e = ap (λ f. current f s.st.txn) e

  rollback-Inv :
      (s : System S M R)
      → s.flight ≡ Flight.idle
      → Inv (record s {
        st = record s.st { txn = ManualTxn.unset };
        kept_s = s.committed_s;
        kept_m = s.committed_m;
      })
  rollback-Inv s e = record {
    unset_in_autocommit = λ _. refl;
    flight = subst (λ f. FlightOk f (record s.st { txn = ManualTxn.unset })) (sym e) tt;
    statements =
        ap (λ f. s.committed_s ++ statements_of (current f ManualTxn.unset)) e
        ∙ append-nil s.committed_s;
    mutations =
        ap (λ f. s.committed_m ++ mutations_of (current f ManualTxn.unset)) e
        ∙ append-nil s.committed_m;
    has_work = subst (λ f. HasWork (current f ManualTxn.unset)) (sym e) tt;
  }

  mode_set-unset :
      (s : System S M R) (b : Bool)
      → Inv s
      → (b ≡ true → s.st.autocommit ≡ true)
      → b ≡ true
      → s.st.txn ≡ ManualTxn.unset
  mode_set-unset s b v h e = v.unset_in_autocommit (h e)

  switched-Inv :
      (s : System S M R) (work : ManualTxn S M R)
      → Inv s
      → s.flight ≡ Flight.toggling work
      → Inv (record s {
        flight = Flight.idle;
        committed_s = s.committed_s ++ statements_of work;
        committed_m = s.committed_m ++ mutations_of work;
      })
  switched-Inv s work v e =
      let auto = subst (λ f. FlightOk f s.st) e v.flight in
      let u = v.unset_in_autocommit auto in
      record {
        unset_in_autocommit = v.unset_in_autocommit;
        flight = tt;
        statements =
            ap (λ t. (s.committed_s ++ statements_of work) ++ statements_of t) u
            ∙ append-nil (s.committed_s ++ statements_of work)
            ∙ ap (λ t. s.committed_s ++ statements_of t) (sym (current_at s e))
            ∙ v.statements;
        mutations =
            ap (λ t. (s.committed_m ++ mutations_of work) ++ mutations_of t) u
            ∙ append-nil (s.committed_m ++ mutations_of work)
            ∙ ap (λ t. s.committed_m ++ mutations_of t) (sym (current_at s e))
            ∙ v.mutations;
        has_work = subst HasWork (sym u) tt;
      }

  Step-Inv : {s t : System S M R} → Step s t → Inv s → Inv t
  unfolding enter_autocommit restore_manual
  Step-Inv {s} (dml_buffered xs st' e) v =
      grow_statements-Inv s st' xs v
        (subst (λ p. Buffers s.st p xs []) e (lock_buffer_dml-Buffers s.st xs))
  Step-Inv {s} (dml_not_buffered xs st' r e n) v = same-Inv s st' v (
      refused s st' r xs [] (subst (λ p. Buffers s.st p xs []) e (lock_buffer_dml-Buffers s.st xs))
        n)
  Step-Inv {s} (ingest_buffered ms st' e) v =
      grow_mutations-Inv s st' ms v
        (subst (λ p. Buffers s.st p [] ms) e (lock_buffer_mutations-Buffers s.st ms))
  Step-Inv {s} (ingest_not_buffered ms st' r e n) v = same-Inv s st' v (
      refused s st' r [] ms
        (subst (λ p. Buffers s.st p [] ms) e (lock_buffer_mutations-Buffers s.st ms)) n)
  Step-Inv {s} (read_section r) v = install-Inv s _ v (lock_install_read-Installs s.st r)
  Step-Inv {s} (set_read_only b e) v = record {
    unset_in_autocommit = v.unset_in_autocommit;
    flight = v.flight;
    statements = v.statements;
    mutations = v.mutations;
    has_work = v.has_work;
  }
  Step-Inv {s} (commit_begins e a w) v =
      move-Inv s s.st (Flight.committing s.st.txn) v v.unset_in_autocommit
        (a, Extends-refl s.st.txn) (sym (current_at s e))
  Step-Inv {s} (commit_applied work st' e f) v = commit-Inv s work st' v e f
  Step-Inv {s} (commit_failed work e) v =
      move-Inv s s.st Flight.idle v v.unset_in_autocommit tt (sym (current_at s e))
  Step-Inv {s} (rolled_back e a) v = rollback-Inv s e
  Step-Inv {s} (mode_set b e h) v =
      subst (λ f. Inv (record s { st = record s.st { autocommit = b }; flight = f })) (sym e)
        (move-Inv s (record s.st { autocommit = b }) Flight.idle v (mode_set-unset s b v h) tt
          (sym (current_at s e)))
  Step-Inv {s} (switch_begins e a) v =
      move-Inv s (enter_autocommit s.st).0 (Flight.toggling s.st.txn) v (λ _. refl) refl
        (sym (current_at s e))
  Step-Inv {s} (switch_applied work e w) v = switched-Inv s work v e
  Step-Inv {s} (switch_failed work e) v =
      move-Inv s (restore_manual s.st work) Flight.idle v (λ t. cc) tt (sym (current_at s e))

  pub Reach-Inv : {s : System S M R} → Reach s → Inv s
  Reach-Inv start = initial-Inv
  Reach-Inv (step r st) = Step-Inv st (Reach-Inv r)

  -- On every interleaving: the statements and mutations whose apply was reported successful,
  -- followed by those still to be applied, are those that were buffered and not rolled back, in
  -- the order of buffering; each exactly once.
  pub buffered_work_conserved :
      {s : System S M R}
      → Reach s
      → (s.committed_s ++ statements_of (current s.flight s.st.txn) ≡ s.kept_s)
        × (s.committed_m ++ mutations_of (current s.flight s.st.txn) ≡ s.kept_m)
  buffered_work_conserved r = let v = Reach-Inv r in (v.statements, v.mutations)

  -- On every interleaving: in autocommit mode no manual transaction is open.
  pub autocommit-unset :
      {s : System S M R} → Reach s → s.st.autocommit ≡ true → s.st.txn ≡ ManualTxn.unset
  autocommit-unset r = (Reach-Inv r).unset_in_autocommit

  -- On every interleaving: while a switch to autocommit has the transaction in its hands no other is
  -- open, as the assertion of `restore_manual` requires when the apply fails.
  pub restore_manual-unset :
      {s : System S M R} (work : ManualTxn S M R)
      → Reach s
      → s.flight ≡ Flight.toggling work
      → s.st.txn ≡ ManualTxn.unset
  restore_manual-unset {s} work r e =
      let v = Reach-Inv r in v.unset_in_autocommit (subst (λ f. FlightOk f s.st) e v.flight)

  -- On every interleaving: when the apply of a commit has succeeded, `finish_commit` does not
  -- panic, and it leaves exactly the statements and the mutations that were buffered since the
  -- copy was taken, and manual mode.
  pub finish_commit-remainder :
      {s : System S M R} (work : ManualTxn S M R)
      → Reach s
      → s.flight ≡ Flight.committing work
      → (st' : TxnState S M R) × (finish_commit s.st work ≡ some st')
        × (st'.autocommit ≡ false)
        × (statements_of s.st.txn ≡ statements_of work ++ statements_of st'.txn)
        × (mutations_of s.st.txn ≡ mutations_of work ++ mutations_of st'.txn)
  finish_commit-remainder {s} work r e =
      let v = Reach-Inv r in
      let o = subst (λ f. FlightOk f s.st) e v.flight in
      let d =
        Extends-Finishes s.st work o.1 (subst (λ f. HasWork (current f s.st.txn)) e v.has_work) in
      (d.after, d.runs, d.mode ∙ o.0, d.leaves.statements, d.leaves.mutations)
