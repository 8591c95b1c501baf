-- ===== src/Ffi/Handle/Calls.antt =====
-- The calls of src/ffi/handle.rs on an object after a panic.
use adbc_spanner.Common.{
  ℕ, suc, ◌+◌, true, false, Option, some, ◌≡◌, refl, ap, ◌∙◌, ==_refl, Result, ok, err, internal,
  Done, arith,
}
use adbc_spanner.Ffi.Guard.{returns, fault}
use adbc_spanner.Ffi.Handle.{
  Exported, Call, panicked, Memory, store, dispatch, cancel, dropped, handle_result, then_cancel,
  with_object,
}

module _ {S H : Type 0} where
  pub store_same :
      (mem : Memory S H) (a : ℕ) (cell : Option (Exported S H)) → store mem a cell a ≡ cell
  store_same mem a cell = rw (==_refl a) refl

  -- After a call that panicked, which reports `Internal`, the object refuses every dispatch with
  -- `Internal`, runs no driver code and stays as it is.
  pub panic_poisons :
      (mem : Memory S H) (a : ℕ) (e : Exported S H) (torn : S) (f g : S → Call S)
      → mem a ≡ some e
      → e.poisoned ≡ false
      → f e.state ≡ panicked torn
      → (mem' : Memory S H) × (dispatch mem (some a) f ≡ returns (mem', err internal))
        × (dispatch mem' (some a) g ≡ returns (mem', err internal))
  unfolding dispatch
  panic_poisons mem a e torn f g cell live boom = (
    store mem a (some (record e { state = torn; poisoned = true })),
    ground (arith, ==_refl a),
    ground (arith, ==_refl a),
  )

  -- `cancel` answers with what the object's own handle answers, poisoned or not, and gives its
  -- reference back: the object is as it was.
  pub cancel-transparent :
      (mem : Memory S H) (a n : ℕ) (e : Exported S H) (try_cancel : H → Result Done)
      → mem a ≡ some e
      → e.refs ≡ suc n
      → (mem' : Memory S H) × (cancel mem (some a) try_cancel
          ≡ returns (mem', handle_result e.cancel try_cancel))
        × (mem' a ≡ some e)
  unfolding cancel
  cancel-transparent mem a n e try_cancel cell r =
      let held : Exported S H = record e { refs = e.refs + 1 } in
      let mem' = store mem a (some held) in
      (
        store mem' a (dropped held),
        ap
              (λ c. then_cancel try_cancel (
                with_object fault c
                  (λ e. returns (store mem a (some (record e { refs = e.refs + 1 })), ok a))))
              cell
            ∙ ap
                (λ c.
                  with_object fault c
                    (λ e. returns (store mem' a (dropped e), handle_result e.cancel try_cancel)))
                (store_same mem a (some held)),
        store_same mem' a (dropped held) ∙ ground arith,
      )
