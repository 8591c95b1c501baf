-- ===== src/Connection/Outcomes.antt =====
-- `commit`, `rollback` and the autocommit option of src/connection.rs, run to their end.
use adbc_spanner.Common.{
  Bool, true, false, some, ◌≡◌, ◌∙◌, ap, arith, Result, Status, ok, err, invalid_state, Done,
  if◌then◌else◌,
}
use adbc_spanner.Txn.{ManualTxn, has_pending_work}
use adbc_spanner.Txn.Finish.{finish_commit_self}
use adbc_spanner.Connection.{
  Client, Connection, finish, conclude, apply_manual_txn, commit, set_autocommit,
}

module _ {S M : Type 0} (client : Client S M) {R : Type 0} where
  open client use {World}

  -- A commit that fails, for whatever reason, leaves the connection as it was: its transaction can be
  -- committed again or rolled back.
  pub commit_error_unchanged :
      (w w' : World) (c c' : Connection S M R) (e : Status)
      → commit client w c ≡ some (w', c', err e)
      → c' ≡ c
  unfolding commit
  commit_error_unchanged w w' c c' e h = ground arith

  -- So does a switch of the autocommit mode.
  pub set_autocommit_error_unchanged :
      (w w' : World) (c c' : Connection S M R) (enable : Bool) (e : Status)
      → set_autocommit client w c enable ≡ (w', c', err e)
      → c' ≡ c
  unfolding set_autocommit
  set_autocommit_error_unchanged w w' c c' enable e h = ground arith

  -- On a read-only connection a `commit` that returns and a switch of the mode leave the world of the
  -- client as it was: they write nothing.
  pub read_only-no_write :
      (w w' : World) (c c' : Connection S M R) (enable : Bool) (r : Result Done)
      → c.read_only ≡ true
      → commit client w c ≡ some (w', c', r)
      → (w' ≡ w) × ((set_autocommit client w c enable).0 ≡ w)
  unfolding set_autocommit commit
  read_only-no_write w w' c c' enable r o h = ground arith

  -- With work buffered on a read-only connection in manual mode, `commit` and the switch to
  -- autocommit are refused with `InvalidState`, with no effect on the connection or the database.
  pub read_only-refused :
      (w : World) (c : Connection S M R)
      → c.read_only ≡ true
      → c.txn.autocommit ≡ false
      → has_pending_work c.txn.txn ≡ true
      → (commit client w c ≡ some (w, c, err invalid_state))
        × (set_autocommit client w c true ≡ (w, c, err invalid_state))
  unfolding set_autocommit commit
  read_only-refused w c o a p = ground arith

  commit-manual :
      (w : World) (c : Connection S M R)
      → c.txn.autocommit ≡ false
      → commit client w c
        ≡ finish client c c.txn.txn (apply_manual_txn client w c.read_only c.txn.txn)
  unfolding commit
  commit-manual w c a =
      ap
        (λ b.
          if b
          then some (w, c, err invalid_state)
          else finish client c c.txn.txn (apply_manual_txn client w c.read_only c.txn.txn))
        a

  -- The connection after an apply that ended so: the transaction is over, or still there.
  abbrev pub after : Connection S M R → Result Done → Connection S M R
  after c (ok _) = record c { txn = record c.txn { txn = ManualTxn.unset } }
  after c (err e) = c

  -- A commit in manual mode does not panic and is decided by the apply: its result is the apply's; if
  -- that succeeds the transaction is over, and if it fails the connection is as it was.
  pub commit-apply :
      (w w' : World) (c : Connection S M R) (r : Result Done)
      → c.txn.autocommit ≡ false
      → apply_manual_txn client w c.read_only c.txn.txn ≡ (w', r)
      → commit client w c ≡ some (w', after c r, r)
  commit-apply w w' c (ok tt) a h =
      commit-manual w c a
      ∙ ap (finish client c c.txn.txn) h
      ∙ ap (conclude client w' c) (finish_commit_self c.txn)
  commit-apply w w' c (err e) a h = commit-manual w c a ∙ ap (finish client c c.txn.txn) h
