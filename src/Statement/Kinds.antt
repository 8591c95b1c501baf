-- ===== src/Statement/Kinds.antt =====
-- `run_or_buffer` of src/statement.rs in manual mode.
use adbc_spanner.Common.{
  ℕ, false, List, [], ◌∷◌, Option, none, ◌≡◌, ◌⊎◌, inl, inr, refl, sym, subst, Result, ok, err,
  invalid_state,
}
use adbc_spanner.Txn.{TxnState, ManualTxn}
use adbc_spanner.Connection.{Client}
use adbc_spanner.Statement.{run_or_buffer}

module _ {S M : Type 0} (client : Client S M) {R : Type 0} where
  open client use {World}

  -- What manual mode makes of `run_or_buffer`.
  abbrev pub Deferred : World → World × TxnState S M R × Result (Option ℕ) → Type 0
  Deferred w (w', st', r) = (w' ≡ w) × ((r ≡ ok none) ⊎ (r ≡ err invalid_state))

  by_kind :
      (w : World) (t : ManualTxn S M R) (xs : List S)
      → Deferred w (run_or_buffer client w (record { autocommit = false; txn = t }) xs)
  unfolding run_or_buffer
  by_kind w ManualTxn.unset [] = (refl, inl refl)
  by_kind w ManualTxn.unset (x ∷ xs) = (refl, inl refl)
  by_kind w (ManualTxn.read r) xs = (refl, inr refl)
  by_kind w (ManualTxn.dml ss ms) [] = (refl, inl refl)
  by_kind w (ManualTxn.dml ss ms) (x ∷ xs) = (refl, inl refl)

  -- In manual mode `run_or_buffer` leaves the world of the client as it was, and reports no count or
  -- is refused with `InvalidState`.
  pub run_or_buffer-Deferred :
      (w : World) (st : TxnState S M R) (xs : List S)
      → st.autocommit ≡ false
      → Deferred w (run_or_buffer client w st xs)
  run_or_buffer-Deferred w st xs a =
      subst (λ b. Deferred w (run_or_buffer client w (record { autocommit = b; txn = st.txn }) xs))
        (sym a) (by_kind w st.txn xs)
