-- ===== src/Statement/Buffering.antt =====
-- What the locked sections of src/statement.rs and src/statement/ingest.rs do to the transaction.
use adbc_spanner.Common.{
  Bool, true, false, List, [], ◌∷◌, ◌++◌, ◌≡◌, ◌≢◌, ◌⊎◌, inl, inr, refl, ◌∙◌, sym, ap, subst,
  append-nil, append_assoc, Result, ok, err,
}
use adbc_spanner.Txn.{ManualTxn, TxnState}
use adbc_spanner.Txn.Growth.{
  statements_of, mutations_of, HasWork, Grew, Grew-dml, Grew-refl, Extends-unset,
}
use adbc_spanner.Statement.{
  buffered, lock_buffer_dml, buffer_mutations, lock_buffer_mutations, lock_install_read,
}

module _ {S M R : Type 0} where
  -- A locked section either added the work, in manual mode, or changed nothing.
  abbrev pub Buffers : TxnState S M R → TxnState S M R × Result Bool → List S → List M → Type 0
  Buffers st (st', ok true) xs ms =
      (st.autocommit ≡ false) × (st'.autocommit ≡ false) × Grew st.txn st'.txn xs ms
  Buffers st (st', _) xs ms = st' ≡ st

  Grew-unset :
      (xs : List S) (ms : List M)
      → HasWork {R = R} (ManualTxn.dml xs ms)
      → Grew {R = R} ManualTxn.unset (ManualTxn.dml xs ms) xs ms
  Grew-unset xs ms h = record {
    statements = refl;
    mutations = refl;
    extends = λ w e. Extends-unset w (ManualTxn.dml xs ms) e;
    has_work = λ _. h;
  }

  lock_buffer_dml_case :
      (auto : Bool) (t : ManualTxn S M R) (xs : List S)
      → let st : TxnState S M R = record { autocommit = auto; txn = t } in
        Buffers st (lock_buffer_dml st xs) xs []
  unfolding lock_buffer_dml
  lock_buffer_dml_case true t xs = refl
  lock_buffer_dml_case false ManualTxn.unset [] = (refl, refl, Grew-refl ManualTxn.unset)
  lock_buffer_dml_case false (ManualTxn.read r) xs = refl
  lock_buffer_dml_case false (ManualTxn.dml ss ms) [] =
      (refl, refl, Grew-refl (ManualTxn.dml ss ms))
  lock_buffer_dml_case false ManualTxn.unset (x ∷ xs) = (refl, refl, Grew-unset (x ∷ xs) [] refl)
  lock_buffer_dml_case false (ManualTxn.dml ss ms) (x ∷ xs) =
      (refl, refl, rw append-nil at (Grew-dml {R = R} ss (x ∷ xs) ms []))

  pub lock_buffer_dml-Buffers :
      (st : TxnState S M R) (xs : List S) → Buffers st (lock_buffer_dml st xs) xs []
  lock_buffer_dml-Buffers st xs = lock_buffer_dml_case st.autocommit st.txn xs

  -- Once the kind is DML no mutation is refused.
  pub buffer_mutations-dml :
      (ss : List S) (ms ns : List M)
      → let st : List M → TxnState S M R =
          λ l. record { autocommit = false; txn = ManualTxn.dml ss l } in
        buffer_mutations (st ms) ns ≡ (st (ms ++ ns), ok tt)
  unfolding buffer_mutations
  buffer_mutations-dml ss ms [] = rw append-nil
  buffer_mutations-dml ss ms (n ∷ ns) = buffer_mutations-dml ss (ms ++ n ∷ []) ns ∙ rw append_assoc

  Grew-pushed :
      (ss : List S) (ms : List M) (n : M) (ns : List M)
      → Grew {R = R} (ManualTxn.dml ss ms) (ManualTxn.dml ss ((ms ++ n ∷ []) ++ ns)) [] (n ∷ ns)
  Grew-pushed ss ms n ns =
      subst (λ l. Grew {R = R} (ManualTxn.dml ss ms) (ManualTxn.dml ss l) [] (n ∷ ns))
        (sym (append_assoc ms (n ∷ []) ns))
        (subst
          (λ l. Grew {R = R} (ManualTxn.dml ss ms) (ManualTxn.dml l (ms ++ n ∷ ns)) [] (n ∷ ns))
          (append-nil ss) (Grew-dml ss [] ms (n ∷ ns)))

  lock_buffer_mutations_case :
      (auto : Bool) (t : ManualTxn S M R) (ns : List M)
      → let st : TxnState S M R = record { autocommit = auto; txn = t } in
        Buffers st (lock_buffer_mutations st ns) [] ns
  unfolding lock_buffer_mutations
  lock_buffer_mutations_case true t ns = refl
  lock_buffer_mutations_case false t [] = (refl, refl, Grew-refl t)
  lock_buffer_mutations_case false ManualTxn.unset (n ∷ ns) =
      subst (λ p. Buffers (record { autocommit = false; txn = ManualTxn.unset }) p [] (n ∷ ns))
        (sym (ap buffered (buffer_mutations-dml [] (n ∷ []) ns)))
        (refl, refl, Grew-unset [] (n ∷ ns) refl)
  lock_buffer_mutations_case false (ManualTxn.read r) (n ∷ ns) = refl
  lock_buffer_mutations_case false (ManualTxn.dml ss ms) (n ∷ ns) =
      subst (λ p. Buffers (record { autocommit = false; txn = ManualTxn.dml ss ms }) p [] (n ∷ ns))
        (sym (ap buffered (buffer_mutations-dml ss (ms ++ n ∷ []) ns)))
        (refl, refl, Grew-pushed ss ms n ns)

  pub lock_buffer_mutations-Buffers :
      (st : TxnState S M R) (ns : List M) → Buffers st (lock_buffer_mutations st ns) [] ns
  lock_buffer_mutations-Buffers st ns = lock_buffer_mutations_case st.autocommit st.txn ns

  -- What `Buffers` says, read at the section's result.
  added_or_same :
      (st : TxnState S M R) (p : TxnState S M R × Result Bool) (xs : List S) (ms : List M)
      → Buffers st p xs ms
      → ((p.1 ≡ ok true)
          × (statements_of p.0.txn ≡ statements_of st.txn ++ xs)
          × (mutations_of p.0.txn ≡ mutations_of st.txn ++ ms))
        ⊎ ((p.1 ≢ ok true) × (p.0 ≡ st))
  added_or_same st (st', ok true) xs ms (_, _, g) = inl (refl, g.statements, g.mutations)
  added_or_same st (st', ok false) xs ms e = inr ((λ h. cc), e)
  added_or_same st (st', err s) xs ms e = inr ((λ h. cc), e)

  -- Whatever the mode and the kind of the open transaction, the section of `run_or_buffer` appends
  -- all the statements behind those already buffered, keeps the mutations and answers "buffered", or
  -- it answers otherwise and leaves the state as it was.
  pub buffer_dml-all_or_nothing :
      (st : TxnState S M R) (xs : List S)
      → (((lock_buffer_dml st xs).1 ≡ ok true)
          × (statements_of (lock_buffer_dml st xs).0.txn ≡ statements_of st.txn ++ xs)
          × (mutations_of (lock_buffer_dml st xs).0.txn ≡ mutations_of st.txn ++ []))
        ⊎ (((lock_buffer_dml st xs).1 ≢ ok true) × ((lock_buffer_dml st xs).0 ≡ st))
  buffer_dml-all_or_nothing st xs =
      added_or_same st (lock_buffer_dml st xs) xs [] (lock_buffer_dml-Buffers st xs)

  -- So does the loop of `run_ingest_mutations` with the mutations, although it buffers one at a time
  -- and returns early on an error: it never leaves a part of an ingest buffered.
  pub ingest-all_or_nothing :
      (st : TxnState S M R) (ns : List M)
      → (((lock_buffer_mutations st ns).1 ≡ ok true)
          × (statements_of (lock_buffer_mutations st ns).0.txn ≡ statements_of st.txn ++ [])
          × (mutations_of (lock_buffer_mutations st ns).0.txn ≡ mutations_of st.txn ++ ns))
        ⊎ (((lock_buffer_mutations st ns).1 ≢ ok true) × ((lock_buffer_mutations st ns).0 ≡ st))
  ingest-all_or_nothing st ns =
      added_or_same st (lock_buffer_mutations st ns) [] ns (lock_buffer_mutations-Buffers st ns)

  Grew-read : (r : R) → Grew {S = S} {M = M} ManualTxn.unset (ManualTxn.read r) [] []
  Grew-read r = record {
    statements = refl;
    mutations = refl;
    extends = λ w e. Extends-unset w (ManualTxn.read r) e;
    has_work = λ _. tt;
  }

  -- What installing a read transaction does: no work is added, and nothing in autocommit mode.
  abbrev pub Installs : TxnState S M R → TxnState S M R → Type 0
  Installs st st' =
      (st'.autocommit ≡ st.autocommit)
      × (st.autocommit ≡ true → st' ≡ st)
      × Grew st.txn st'.txn [] []

  lock_install_read_case :
      (auto : Bool) (t : ManualTxn S M R) (r : R)
      → let st : TxnState S M R = record { autocommit = auto; txn = t } in
        Installs st (lock_install_read st r).0
  unfolding lock_install_read
  lock_install_read_case true t r = (refl, λ _. refl, Grew-refl t)
  lock_install_read_case false ManualTxn.unset r = (refl, λ e. cc, Grew-read r)
  lock_install_read_case false (ManualTxn.read q) r =
      (refl, λ _. refl, Grew-refl (ManualTxn.read q))
  lock_install_read_case false (ManualTxn.dml ss ms) r =
      (refl, λ _. refl, Grew-refl (ManualTxn.dml ss ms))

  pub lock_install_read-Installs :
      (st : TxnState S M R) (r : R) → Installs st (lock_install_read st r).0
  lock_install_read-Installs st r = lock_install_read_case st.autocommit st.txn r
