-- ===== src/Statement/Sections.antt =====
-- Sequences of the locked sections of the statements of a connection in manual mode: src/statement.rs and
-- src/statement/ingest.rs. Any two sections of a statement may have sections of others between them.
use adbc_spanner.Common.{
  Bool, true, false, List, [], ◌∷◌, ◌++◌, Option, none, some, ◌≡◌, refl, ◌∙◌, ap, ap₂, sym,
  append-nil, append_assoc, Result, ok, err, Done, invalid_state, if◌then◌else◌,
}
use adbc_spanner.Txn.{TxnKind, ManualTxn, TxnState}
use adbc_spanner.Statement.{
  buffered, lock_buffer_dml, lock_ingest_mode, buffer_mutations, lock_buffer_mutations,
  lock_adopt_read, lock_install_read, ensure_query_allowed,
}
use adbc_spanner.Statement.Buffering.{buffer_mutations-dml}

-- A locked section that may refuse, with what its statement brings.
pub data Section (S M R : Type 0) : Type 0 where
  run_dml : List S → Section S M R
  ingest_mode query_guard : Section S M R
  ingest : List M → Section S M R
  install : R → Section S M R

-- Whether it was refused, whatever it answered.
abbrev pub done : {T A : Type 0} → T × Result A → T × Result Done
done (st, ok a) = (st, ok tt)
done (st, err e) = (st, err e)

-- What fixed the kind of a transaction.
pub data Opening (R : Type 0) : Type 0 where
  undecided writing : Opening R
  reading : R → Opening R

-- Whether a section of a kind comes too late.
abbrev pub clashes : {R : Type 0} → Opening R → Option TxnKind → Bool
clashes (Opening.reading r) (some TxnKind.dml) = true
clashes Opening.writing (some TxnKind.read) = true
clashes _ _ = false

-- The transaction that the kind and the work make.
abbrev pub opened : {S M R : Type 0} → Opening R → List S → List M → ManualTxn S M R
opened Opening.undecided statements mutations = ManualTxn.unset
opened (Opening.reading r) statements mutations = ManualTxn.read r
opened Opening.writing statements mutations = ManualTxn.dml statements mutations

-- What `manual_read_transaction` returns early with, in manual mode.
abbrev pub adopted : {R : Type 0} → Opening R → Option (Option R)
adopted (Opening.reading r) = some (some r)
adopted _ = none

module _ {S M R : Type 0} where
  unfoldable pub perform : Section S M R → TxnState S M R → TxnState S M R × Result Done
  unfolding lock_buffer_dml lock_ingest_mode lock_buffer_mutations ensure_query_allowed
      lock_install_read
  perform (Section.run_dml statements) st = done (lock_buffer_dml st statements)
  perform Section.ingest_mode st = done (st, lock_ingest_mode st)
  perform (Section.ingest mutations) st = done (lock_buffer_mutations st mutations)
  perform Section.query_guard st = (st, ensure_query_allowed st)
  perform (Section.install built) st = done (lock_install_read st built)

  unfoldable pub perform_all : List (Section S M R) → TxnState S M R → TxnState S M R
  unfolding perform
  perform_all [] st = st
  perform_all (o ∷ os) st = perform_all os (perform o st).0

  -- The first section that brings a statement, a mutation or a read transaction.
  unfoldable pub opening : List (Section S M R) → Opening R
  opening [] = Opening.undecided
  opening (Section.run_dml (x ∷ xs) ∷ os) = Opening.writing
  opening (Section.run_dml [] ∷ os) = opening os
  opening (Section.ingest (m ∷ ms) ∷ os) = Opening.writing
  opening (Section.ingest [] ∷ os) = opening os
  opening (Section.install r ∷ os) = Opening.reading r
  opening (Section.ingest_mode ∷ os) = opening os
  opening (Section.query_guard ∷ os) = opening os

  -- All that the sections bring.
  unfoldable pub statements_in : List (Section S M R) → List S
  statements_in [] = []
  statements_in (Section.run_dml xs ∷ os) = xs ++ statements_in os
  statements_in (_ ∷ os) = statements_in os

  unfoldable pub mutations_in : List (Section S M R) → List M
  mutations_in [] = []
  mutations_in (Section.ingest ms ∷ os) = ms ++ mutations_in os
  mutations_in (_ ∷ os) = mutations_in os

  -- The kind of transaction that a section needs, if any.
  abbrev pub needs : Section S M R → Option TxnKind
  needs (Section.run_dml statements) = some TxnKind.dml
  needs Section.ingest_mode = some TxnKind.dml
  needs (Section.ingest []) = none
  needs (Section.ingest (m ∷ ms)) = some TxnKind.dml
  needs Section.query_guard = some TxnKind.read
  needs (Section.install built) = some TxnKind.read

  abbrev pub manual : ManualTxn S M R → TxnState S M R
  manual txn = record { autocommit = false; txn = txn }

  read_stays :
      (r : R) (os : List (Section S M R))
      → perform_all os (manual (ManualTxn.read r)) ≡ manual (ManualTxn.read r)
  unfolding perform_all perform lock_buffer_dml lock_ingest_mode lock_buffer_mutations
      ensure_query_allowed lock_install_read
  read_stays r [] = refl
  read_stays r (Section.run_dml xs ∷ os) = read_stays r os
  read_stays r (Section.ingest_mode ∷ os) = read_stays r os
  read_stays r (Section.ingest [] ∷ os) = read_stays r os
  read_stays r (Section.ingest (m ∷ ms) ∷ os) = read_stays r os
  read_stays r (Section.query_guard ∷ os) = read_stays r os
  read_stays r (Section.install q ∷ os) = read_stays r os

  ingested :
      (ss : List S) (ms ns : List M)
      → (perform (Section.ingest ns) (manual (ManualTxn.dml ss ms))).0
        ≡ manual (ManualTxn.dml ss (ms ++ ns))
  unfolding perform lock_buffer_mutations
  ingested ss ms ns = ap (λ p. (done (buffered p)).0) (buffer_mutations-dml ss ms ns)

  dml_grows :
      (ss : List S) (ms : List M) (os : List (Section S M R))
      → perform_all os (manual (ManualTxn.dml ss ms))
        ≡ manual (ManualTxn.dml (ss ++ statements_in os) (ms ++ mutations_in os))
  unfolding perform_all perform lock_buffer_dml lock_ingest_mode ensure_query_allowed
      lock_install_read statements_in mutations_in
  dml_grows ss ms [] =
      ap₂ (λ l k. manual (ManualTxn.dml l k)) (sym (append-nil ss)) (sym (append-nil ms))
  dml_grows ss ms (Section.run_dml [] ∷ os) = dml_grows ss ms os
  dml_grows ss ms (Section.run_dml (x ∷ xs) ∷ os) =
      dml_grows (ss ++ x ∷ xs) ms os
      ∙ ap (λ l. manual (ManualTxn.dml l (ms ++ mutations_in os)))
          (append_assoc ss (x ∷ xs) (statements_in os))
  dml_grows ss ms (Section.ingest ns ∷ os) =
      ap (perform_all os) (ingested ss ms ns)
      ∙ dml_grows ss (ms ++ ns) os
      ∙ ap (λ l. manual (ManualTxn.dml (ss ++ statements_in os) l))
          (append_assoc ms ns (mutations_in os))
  dml_grows ss ms (Section.ingest_mode ∷ os) = dml_grows ss ms os
  dml_grows ss ms (Section.query_guard ∷ os) = dml_grows ss ms os
  dml_grows ss ms (Section.install q ∷ os) = dml_grows ss ms os

  opened_lem :
      (os : List (Section S M R))
      → perform_all os (manual ManualTxn.unset)
        ≡ manual (opened (opening os) (statements_in os) (mutations_in os))
  unfolding perform_all perform lock_buffer_dml lock_ingest_mode lock_buffer_mutations
      buffer_mutations ensure_query_allowed lock_install_read statements_in mutations_in opening
  opened_lem [] = refl
  opened_lem (Section.run_dml [] ∷ os) = opened_lem os
  opened_lem (Section.run_dml (x ∷ xs) ∷ os) = dml_grows (x ∷ xs) [] os
  opened_lem (Section.ingest [] ∷ os) = opened_lem os
  opened_lem (Section.ingest (n ∷ ns) ∷ os) =
      ap (λ p. perform_all os (done (buffered p)).0) (buffer_mutations-dml [] (n ∷ []) ns)
      ∙ dml_grows [] (n ∷ ns) os
  opened_lem (Section.ingest_mode ∷ os) = opened_lem os
  opened_lem (Section.query_guard ∷ os) = opened_lem os
  opened_lem (Section.install r ∷ os) = read_stays r os

  answer_lem :
      (opening : Opening R) (ss : List S) (ms : List M) (o : Section S M R)
      → (perform o (manual (opened opening ss ms))).1
        ≡ (if clashes opening (needs o) then err invalid_state else ok tt)
  unfolding perform lock_buffer_dml lock_ingest_mode lock_buffer_mutations ensure_query_allowed
      lock_install_read
  answer_lem Opening.undecided ss ms (Section.run_dml []) = refl
  answer_lem Opening.undecided ss ms (Section.run_dml (x ∷ xs)) = refl
  answer_lem Opening.undecided ss ms Section.ingest_mode = refl
  answer_lem Opening.undecided ss ms (Section.ingest []) = refl
  answer_lem Opening.undecided ss ms (Section.ingest (n ∷ ns)) =
      ap (λ p. (done (buffered p)).1) (buffer_mutations-dml [] (n ∷ []) ns)
  answer_lem Opening.undecided ss ms Section.query_guard = refl
  answer_lem Opening.undecided ss ms (Section.install r) = refl
  answer_lem (Opening.reading q) ss ms (Section.run_dml xs) = refl
  answer_lem (Opening.reading q) ss ms Section.ingest_mode = refl
  answer_lem (Opening.reading q) ss ms (Section.ingest []) = refl
  answer_lem (Opening.reading q) ss ms (Section.ingest (n ∷ ns)) = refl
  answer_lem (Opening.reading q) ss ms Section.query_guard = refl
  answer_lem (Opening.reading q) ss ms (Section.install r) = refl
  answer_lem Opening.writing ss ms (Section.run_dml []) = refl
  answer_lem Opening.writing ss ms (Section.run_dml (x ∷ xs)) = refl
  answer_lem Opening.writing ss ms Section.ingest_mode = refl
  answer_lem Opening.writing ss ms (Section.ingest []) = refl
  answer_lem Opening.writing ss ms (Section.ingest (n ∷ ns)) =
      ap (λ p. (done (buffered p)).1) (buffer_mutations-dml ss ms (n ∷ ns))
  answer_lem Opening.writing ss ms Section.query_guard = refl
  answer_lem Opening.writing ss ms (Section.install r) = refl

  adopted_lem :
      (opening : Opening R) (ss : List S) (ms : List M)
      → lock_adopt_read (manual (opened opening ss ms)) ≡ adopted opening
  unfolding lock_adopt_read
  adopted_lem Opening.undecided ss ms = refl
  adopted_lem (Opening.reading r) ss ms = refl
  adopted_lem Opening.writing ss ms = refl

  -- Whatever sections run on a new manual transaction, in whatever order, the first that brings a
  -- statement, a mutation or a read transaction fixes its kind. After them it holds that read transaction,
  -- which every query adopts, or all the statements and all the mutations that were brought, in order; and
  -- a further section is refused, with `InvalidState`, exactly where it is of the other kind.
  pub first_section_fixes_kind :
      (os : List (Section S M R)) (o : Section S M R)
      → let st : TxnState S M R = perform_all os (manual ManualTxn.unset) in
        (st ≡ manual (opened (opening os) (statements_in os) (mutations_in os)))
        × (lock_adopt_read st ≡ adopted (opening os))
        × ((perform o st).1 ≡ (if clashes (opening os) (needs o) then err invalid_state else ok tt))
  first_section_fixes_kind os o = (
    opened_lem os,
    ap lock_adopt_read (opened_lem os)
        ∙ adopted_lem (opening os) (statements_in os) (mutations_in os),
    ap (λ st. (perform o st).1) (opened_lem os)
        ∙ answer_lem (opening os) (statements_in os) (mutations_in os) o,
  )
