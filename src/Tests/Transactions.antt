-- ===== src/Tests/Transactions.antt =====
-- Runs of the models of src/connection.rs, src/connection/txn.rs and src/statement.rs, with a client
-- that logs what it is asked to write. Statements, mutations and read transactions are numbers.
use adbc_spanner.Common.{
  ℕ, Bool, true, false, List, [], ◌∷◌, ◌++◌, some, ◌≡◌, ◌≢◌, ◌⊎◌, refl, length, ok, err,
  invalid_state, cancelled,
}
use adbc_spanner.Txn.{
  ManualTxn, TxnState, new, enter_autocommit, finish_commit, check_commit_writable,
  has_pending_work,
}
use adbc_spanner.Txn.Growth.{statements_of, mutations_of}
use adbc_spanner.Statement.{lock_buffer_dml, lock_buffer_mutations}
use adbc_spanner.Statement.Buffering.{ingest-all_or_nothing}
use adbc_spanner.Connection.{Client, Connection, apply_manual_txn, commit, set_autocommit}
use adbc_spanner.Connection.Steps.{
  Flight, System, Reach, start, step, mode_set, dml_buffered, commit_begins, switch_begins,
}
use adbc_spanner.Connection.Invariant.{current}
use adbc_spanner.Connection.Reachable.{
  buffered_work_conserved, restore_manual-unset, finish_commit-remainder,
}
use adbc_spanner.Connection.Outcomes.{after, read_only-no_write, commit-apply}

abbrev Txn : Type 0
Txn = TxnState ℕ ℕ ℕ

abbrev Sys : Type 0
Sys = System ℕ ℕ ℕ

abbrev held : List ℕ → List ℕ → Txn
held ss ms = record { autocommit = false; txn = ManualTxn.dml ss ms }

-- A connection in manual mode, with the work so buffered.
abbrev manual : Txn → Flight ℕ ℕ ℕ → List ℕ → List ℕ → Sys
manual st flight ss ms = record {
  st = st;
  read_only = false;
  flight = flight;
  kept_s = ss;
  kept_m = ms;
  committed_s = [];
  committed_m = [];
}

abbrev nothing : Txn
nothing = record { autocommit = false; txn = ManualTxn.unset }

abbrev begun : Sys
begun = manual nothing Flight.idle [] []

abbrev one_buffered : Sys
one_buffered = manual (held (1 ∷ []) []) Flight.idle (1 ∷ []) []

abbrev first : ManualTxn ℕ ℕ ℕ
first = ManualTxn.dml (1 ∷ []) []

abbrev in_commit : Sys
in_commit = manual (held (1 ∷ []) []) (Flight.committing first) (1 ∷ []) []

-- A statement is buffered while the commit is applied.
abbrev overtaken : Sys
overtaken = manual (held (1 ∷ 2 ∷ []) []) (Flight.committing first) (1 ∷ 2 ∷ []) []

abbrev switching : Sys
switching =
    manual (record { autocommit = true; txn = ManualTxn.unset }) (Flight.toggling first) (1 ∷ []) []

initial-begun : Reach begun
unfolding new
initial-begun = step start (mode_set false refl (λ e. cc))

begun-one_buffered : Reach one_buffered
unfolding lock_buffer_dml
begun-one_buffered = step initial-begun (dml_buffered (1 ∷ []) (held (1 ∷ []) []) refl)

one_buffered-in_commit : Reach in_commit
unfolding check_commit_writable
one_buffered-in_commit = step begun-one_buffered (commit_begins refl refl refl)

in_commit-overtaken : Reach overtaken
unfolding lock_buffer_dml
in_commit-overtaken =
    step one_buffered-in_commit (dml_buffered (2 ∷ []) (held (1 ∷ 2 ∷ []) []) refl)

one_buffered-switching : Reach switching
unfolding enter_autocommit
one_buffered-switching = step begun-one_buffered (switch_begins refl refl)

buffered_work_conserved_example :
    ([] ++ statements_of (current overtaken.flight overtaken.st.txn) ≡ 1 ∷ 2 ∷ [])
    × ([] ++ mutations_of (current overtaken.flight overtaken.st.txn) ≡ [])
buffered_work_conserved_example = buffered_work_conserved in_commit-overtaken

finish_commit-remainder_example :
    (st' : Txn) × (finish_commit overtaken.st first ≡ some st')
    × (st'.autocommit ≡ false)
    × (1 ∷ 2 ∷ [] ≡ 1 ∷ statements_of st'.txn)
    × ([] ≡ mutations_of st'.txn)
finish_commit-remainder_example = finish_commit-remainder first in_commit-overtaken refl

restore_manual-unset_example : switching.st.txn ≡ ManualTxn.unset
restore_manual-unset_example = restore_manual-unset first one_buffered-switching refl

abbrev reading : Txn
reading = record { autocommit = false; txn = ManualTxn.read 5 }

ingest-all_or_nothing_example :
    (((lock_buffer_mutations reading (7 ∷ [])).1 ≡ ok true)
      × (statements_of (lock_buffer_mutations reading (7 ∷ [])).0.txn ≡ [])
      × (mutations_of (lock_buffer_mutations reading (7 ∷ [])).0.txn ≡ 7 ∷ []))
    ⊎ (((lock_buffer_mutations reading (7 ∷ [])).1 ≢ ok true)
        × ((lock_buffer_mutations reading (7 ∷ [])).0 ≡ reading))
ingest-all_or_nothing_example = ingest-all_or_nothing reading (7 ∷ [])

-- A client that logs its writes, and one whose commits fail.
abbrev logging : Client ℕ ℕ
logging = record {
  World = List (List ℕ × List ℕ);
  batch_update = λ w ss ms last. ((ss, ms) ∷ w, ok (length ss));
  write_only = λ w ms. (([], ms) ∷ w, ok tt);
}

abbrev failing : Client ℕ ℕ
failing = record {
  World = ℕ;
  batch_update = λ w ss ms last. (w, err cancelled);
  write_only = λ w ms. (w, err cancelled);
}

abbrev pending : Bool → Connection ℕ ℕ ℕ
pending read_only = record { txn = held (1 ∷ 2 ∷ []) (7 ∷ []); read_only = read_only }

commit_fails : commit failing 0 (pending false) ≡ some (0, pending false, err cancelled)
unfolding commit
commit_fails = refl

switch_fails : set_autocommit failing 0 (pending false) true ≡ (0, pending false, err cancelled)
unfolding set_autocommit
switch_fails = refl

commit_refused : commit logging [] (pending true) ≡ some ([], pending true, err invalid_state)
unfolding commit
commit_refused = refl

pending-work : has_pending_work (pending true).txn.txn ≡ true
unfolding has_pending_work
pending-work = refl

abbrev untouched : List (List ℕ × List ℕ)
untouched = []

abbrev written : List (List ℕ × List ℕ)
written = (1 ∷ 2 ∷ [], 7 ∷ []) ∷ []

apply_succeeds :
    apply_manual_txn logging [] (pending false).read_only (pending false).txn.txn ≡ (written, ok tt)
unfolding apply_manual_txn
apply_succeeds = refl

read_only-no_write_example :
    (untouched ≡ untouched) × ((set_autocommit logging [] (pending true) true).0 ≡ [])
read_only-no_write_example =
    read_only-no_write logging untouched untouched (pending true) (pending true) true
      (err invalid_state) refl commit_refused

commit-apply_example :
    commit logging [] (pending false) ≡ some (written, after logging (pending false) (ok tt), ok tt)
commit-apply_example = commit-apply logging [] written (pending false) (ok tt) refl apply_succeeds
