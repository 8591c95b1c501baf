-- ===== src/Connection/Invariant.antt =====
-- What holds of the shared transaction state of src/connection.rs between any two locked sections.
use adbc_spanner.Common.{
  Bool, true, false, List, [], ◌++◌, some, ◌≡◌, ◌≢◌, refl, ◌∙◌, sym, ap, subst, append-nil,
  append_assoc, Result, ok, err, Bool-cases, inl, inr,
}
use adbc_spanner.Txn.{ManualTxn, TxnState, new, finish_commit}
use adbc_spanner.Txn.Growth.{statements_of, mutations_of, Extends, HasWork, Grew}
use adbc_spanner.Txn.Finish.{Leaves, Extends-Finishes}
use adbc_spanner.Statement.Buffering.{Buffers, Installs}
use adbc_spanner.Connection.Steps.{Flight, System, initial}

module _ {S M R : Type 0} where
  -- The transaction that is not yet applied: while autocommit is being switched on it is in the
  -- hands of `set_option`.
  abbrev pub current : Flight S M R → ManualTxn S M R → ManualTxn S M R
  current (Flight.toggling work) txn = work
  current _ txn = txn

  abbrev pub FlightOk : Flight S M R → TxnState S M R → Type 0
  FlightOk Flight.idle st = Unit {0}
  FlightOk (Flight.committing work) st = (st.autocommit ≡ false) × Extends work st.txn
  FlightOk (Flight.toggling work) st = st.autocommit ≡ true

  pub record Inv (s : System S M R) : Type 0 where
    pub unset_in_autocommit : s.st.autocommit ≡ true → s.st.txn ≡ ManualTxn.unset
    pub flight : FlightOk s.flight s.st
    pub statements : s.committed_s ++ statements_of (current s.flight s.st.txn) ≡ s.kept_s
    pub mutations : s.committed_m ++ mutations_of (current s.flight s.st.txn) ≡ s.kept_m
    pub has_work : HasWork (current s.flight s.st.txn)

  pub initial-Inv : Inv initial
  unfolding new
  initial-Inv = record {
    unset_in_autocommit = λ _. refl;
    flight = tt;
    statements = refl;
    mutations = refl;
    has_work = tt;
  }

  -- Work added in manual mode.
  grow-Inv :
      (s : System S M R) (st' : TxnState S M R) (xs : List S) (ms : List M)
      → Inv s
      → s.st.autocommit ≡ false
      → st'.autocommit ≡ false
      → Grew s.st.txn st'.txn xs ms
      → Inv (record s { st = st'; kept_s = s.kept_s ++ xs; kept_m = s.kept_m ++ ms })
  grow-Inv s st' xs ms v a a' g = case s.flight refl
    where
      still :
          current s.flight s.st.txn ≡ s.st.txn
          → current s.flight st'.txn ≡ st'.txn
          → FlightOk s.flight st'
          → Inv (record s { st = st'; kept_s = s.kept_s ++ xs; kept_m = s.kept_m ++ ms })
      still e e' f = record {
        unset_in_autocommit = λ t. cc;
        flight = f;
        statements =
            ap (λ t. s.committed_s ++ statements_of t) e'
            ∙ ap (λ l. s.committed_s ++ l) g.statements
            ∙ sym (append_assoc s.committed_s (statements_of s.st.txn) xs)
            ∙ ap (λ t. (s.committed_s ++ statements_of t) ++ xs) (sym e)
            ∙ ap (λ l. l ++ xs) v.statements;
        mutations =
            ap (λ t. s.committed_m ++ mutations_of t) e'
            ∙ ap (λ l. s.committed_m ++ l) g.mutations
            ∙ sym (append_assoc s.committed_m (mutations_of s.st.txn) ms)
            ∙ ap (λ t. (s.committed_m ++ mutations_of t) ++ ms) (sym e)
            ∙ ap (λ l. l ++ ms) v.mutations;
        has_work = subst HasWork (sym e') (g.has_work (subst HasWork e v.has_work));
      }

      case :
          (f : Flight S M R)
          → s.flight ≡ f
          → Inv (record s { st = st'; kept_s = s.kept_s ++ xs; kept_m = s.kept_m ++ ms })
      case Flight.idle e = still (rw e refl) (rw e refl) (subst (λ f. FlightOk f st') (sym e) tt)
      case (Flight.committing w) e =
          let o = subst (λ f. FlightOk f s.st) e v.flight in
          still (rw e refl) (rw e refl) (subst (λ f. FlightOk f st') (sym e) (a', g.extends w o.1))
      case (Flight.toggling w) e = absurd (cc (subst (λ f. FlightOk f s.st) e v.flight))

  pub grow_statements-Inv :
      (s : System S M R) (st' : TxnState S M R) (xs : List S)
      → Inv s
      → Buffers s.st (st', ok true) xs []
      → Inv (record s { st = st'; kept_s = s.kept_s ++ xs })
  grow_statements-Inv s st' xs v (a, a', g) =
      subst (λ l. Inv (record s { st = st'; kept_s = s.kept_s ++ xs; kept_m = l }))
        (append-nil s.kept_m) (grow-Inv s st' xs [] v a a' g)

  pub grow_mutations-Inv :
      (s : System S M R) (st' : TxnState S M R) (ms : List M)
      → Inv s
      → Buffers s.st (st', ok true) [] ms
      → Inv (record s { st = st'; kept_m = s.kept_m ++ ms })
  grow_mutations-Inv s st' ms v (a, a', g) =
      subst (λ l. Inv (record s { st = st'; kept_s = l; kept_m = s.kept_m ++ ms }))
        (append-nil s.kept_s) (grow-Inv s st' [] ms v a a' g)

  pub same-Inv :
      (s : System S M R) (st' : TxnState S M R) → Inv s → st' ≡ s.st → Inv (record s { st = st' })
  same-Inv s st' v e = subst (λ st. Inv (record s { st = st })) (sym e) v

  -- A section that answered anything but "buffered" changed nothing.
  pub refused :
      (s : System S M R) (st' : TxnState S M R) (r : Result Bool) (xs : List S) (ms : List M)
      → Buffers s.st (st', r) xs ms
      → r ≢ ok true
      → st' ≡ s.st
  refused s st' (ok true) xs ms b h = absurd (h refl)
  refused s st' (ok false) xs ms b h = b
  refused s st' (err e) xs ms b h = b

  pub install-Inv :
      (s : System S M R) (st' : TxnState S M R)
      → Inv s
      → Installs s.st st'
      → Inv (record s { st = st' })
  install-Inv s st' v (mode, auto, g) = elim (Bool-cases s.st.autocommit) [
    | inl on ↦ same-Inv s st' v (auto on)
    | inr off ↦
        subst (λ l. Inv (record s { st = st'; kept_s = l })) (append-nil s.kept_s)
          (grow_statements-Inv s st' [] v (off, mode ∙ off, g))
  ]

  -- The work taken from `current` moves to the committed work.
  pub commit-Inv :
      (s : System S M R) (work : ManualTxn S M R) (st' : TxnState S M R)
      → Inv s
      → s.flight ≡ Flight.committing work
      → finish_commit s.st work ≡ some st'
      → Inv (record s {
        st = st';
        flight = Flight.idle;
        committed_s = s.committed_s ++ statements_of work;
        committed_m = s.committed_m ++ mutations_of work;
      })
  commit-Inv s work st' v e f =
      let o = subst (λ f. FlightOk f s.st) e v.flight in
      let h = subst (λ f. HasWork (current f s.st.txn)) e v.has_work in
      let d = Extends-Finishes s.st work o.1 h in
      let same : d.after ≡ st' = cc (d.runs, f) in
      let l = subst (λ st. Leaves s.st.txn work st.txn) same d.leaves in
      record {
        unset_in_autocommit =
            λ t. cc (d.mode, o.0, t, ap (λ (st : TxnState S M R). st.autocommit) same);
        flight = tt;
        statements =
            append_assoc s.committed_s (statements_of work) (statements_of st'.txn)
            ∙ ap (λ l. s.committed_s ++ l) (sym l.statements)
            ∙ subst (λ f. s.committed_s ++ statements_of (current f s.st.txn) ≡ s.kept_s) e
                v.statements;
        mutations =
            append_assoc s.committed_m (mutations_of work) (mutations_of st'.txn)
            ∙ ap (λ l. s.committed_m ++ l) (sym l.mutations)
            ∙ subst (λ f. s.committed_m ++ mutations_of (current f s.st.txn) ≡ s.kept_m) e
                v.mutations;
        has_work = l.has_work;
      }
