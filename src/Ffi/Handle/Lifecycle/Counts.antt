-- ===== src/Ffi/Handle/Lifecycle/Counts.antt =====
-- The reference count of src/ffi/handle.rs on every interleaving of the calls on one object.
use adbc_spanner.Common.{
  ℕ, zero, suc, ◌+◌, ◌-◌, List, [], ◌∷◌, Option, none, some, ◌≡◌, refl, sym, ap, ◌∙◌, subst,
  if◌then◌else◌, Result, ok, err, Done, arith, Bool, true, Bool-cases, inl, inr, internal,
}
use adbc_spanner.Ffi.Guard.{Access, returns, fault}
use adbc_spanner.Ffi.Handle.Calls.{store_same}
use adbc_spanner.Ffi.Handle.{
  Exported, Slot, Call, returned, panicked, Memory, store, into_private_data, called, locked_call,
  nulled, with_object, handle_result, dropped,
}
use adbc_spanner.Ffi.Handle.Lifecycle.{
  Host, Op, with_mem, taken, installed_in, slot_nulled, perform, next_ops, perform_all, created,
  refs_due, SlotOk, Counted, Sound,
}

module _ {S H : Type 0} where
  dropped-Counted : (n : ℕ) (e : Exported S H) → e.refs ≡ suc n → Counted n (dropped e)
  dropped-Counted zero e r = rw r refl
  dropped-Counted (suc n) e r = (record e { refs = e.refs - 1 }, ground arith, omega arith)

  -- An operation comes back, and the counts are right after it.
  abbrev Goes : Host S H → Op S H → Type 0
  Goes h op = (h' : Host S H) × (perform h op ≡ returns h') × Sound h'

  abbrev at : ℕ → Slot → ℕ → Memory S H → Host S H
  at home slot held mem = record { home = home; slot = slot; held = held; mem = mem }

  -- What a call finds and leaves at the address, with `n` references.
  locked_call-Counted :
      (mem : Memory S H) (a n : ℕ) (f : S → Call S) (e : Exported S H)
      → mem a ≡ some e
      → e.refs ≡ suc n
      → (mem' : Memory S H) × (r : Result Done) × (locked_call mem a f e ≡ returns (mem', r))
        × Counted (suc n) (mem' a)
  locked_call-Counted mem a n f e cell r = elim (Bool-cases e.poisoned) [
    | inl p ↦ (mem, err internal, ap outcome p, (e, cell, r))
    | inr p ↦
        (let (mem', res, q, c) = after (f e.state) in (mem', res, ap outcome p ∙ ap returns q, c))
  ]
    where
      outcome : Bool → Access (Memory S H × Result Done)
      outcome b = if b then returns (mem, err internal) else returns (called mem a e (f e.state))

      after :
          (c : Call S)
          → (mem' : Memory S H) × (r : Result Done) × (called mem a e c ≡ (mem', r))
            × Counted (suc n) (mem' a)
      after (returned s res) = (
        _,
        _,
        refl,
        (record e { state = s }, store_same mem a (some (record e { state = s })), r),
      )
      after (panicked s) = (
        _,
        _,
        refl,
        (
          record e { state = s; poisoned = true },
          store_same mem a (some (record e { state = s; poisoned = true })),
          r,
        ),
      )

  cancel_done-Goes :
      (home : ℕ) (slot : Slot) (n : ℕ) (mem : Memory S H) (t : H → Result Done)
      → SlotOk home slot
      → Counted (suc (refs_due slot n)) (mem home)
      → Goes (at home slot (suc n) mem) (Op.cancel_done t)
  unfolding perform
  cancel_done-Goes home slot n mem t o (e, cell, r) = (
    at home slot n (store mem home (dropped e)),
    ap
        (λ c. with_mem (at home slot n mem) (
          with_object fault c
            (λ e. returns (store mem home (dropped e), handle_result e.cancel t))))
        cell,
    record {
      slot_ok = o;
      counted =
          subst (Counted (refs_due slot n)) (sym (store_same mem home (dropped e)))
            (dropped-Counted (refs_due slot n) e r);
    },
  )

  -- With the slot nulled, only a cancel that holds a reference does anything.
  nulled-Goes :
      (home held : ℕ) (mem : Memory S H) (op : Op S H)
      → Counted held (mem home)
      → Goes (at home none held mem) op
  unfolding perform
  nulled-Goes home held mem (Op.dispatched f) c = (_, refl, record { slot_ok = tt; counted = c })
  nulled-Goes home held mem Op.cancel_taken c = (_, refl, record { slot_ok = tt; counted = c })
  nulled-Goes home zero mem (Op.cancel_done t) c = (_, refl, record { slot_ok = tt; counted = c })
  nulled-Goes home (suc n) mem (Op.cancel_done t) c = cancel_done-Goes home none n mem t tt c
  nulled-Goes home held mem (Op.handle_installed i) c =
      (_, refl, record { slot_ok = tt; counted = c })
  nulled-Goes home held mem Op.released c = (_, refl, record { slot_ok = tt; counted = c })

  live-Goes :
      (home held : ℕ) (mem : Memory S H) (op : Op S H)
      → Counted (suc held) (mem home)
      → Goes (at home (some home) held mem) op
  unfolding perform
  live-Goes home held mem (Op.dispatched f) (e, cell, r) =
      let (mem', res, q, c) = locked_call-Counted mem home held f e cell r in
      (
        at home (some home) held mem',
        ap
              (λ c.
                with_mem (at home (some home) held mem)
                  (with_object fault c (locked_call mem home f)))
              cell
            ∙ ap (with_mem (at home (some home) held mem)) q,
        record { slot_ok = refl; counted = c },
      )
  live-Goes home held mem Op.cancel_taken (e, cell, r) =
      let more = record e { refs = e.refs + 1 } in
      (
        at home (some home) (suc held) (store mem home (some more)),
        ap
            (λ c. taken (at home (some home) held mem) (
              with_object fault c
                (λ e. returns (store mem home (some (record e { refs = e.refs + 1 })), ok home))))
            cell,
        record { slot_ok = refl; counted = (more, store_same mem home (some more), omega arith) },
      )
  live-Goes home zero mem (Op.cancel_done t) c = (_, refl, record { slot_ok = refl; counted = c })
  live-Goes home (suc n) mem (Op.cancel_done t) c = cancel_done-Goes home (some home) n mem t refl c
  live-Goes home held mem (Op.handle_installed i) (e, cell, r) =
      let filled = record e { cancel = some i } in
      (
        at home (some home) held (store mem home (some filled)),
        ap
            (λ c. installed_in (at home (some home) held mem) (
              with_object fault c
                (λ e. returns (store mem home (some (record e { cancel = some i }))))))
            cell,
        record { slot_ok = refl; counted = (filled, store_same mem home (some filled), r) },
      )
  live-Goes home held mem Op.released (e, cell, r) = (
    at home none held (store mem home (dropped e)),
    ap
        (λ c.
          slot_nulled (at home (some home) held mem)
            (nulled (with_object fault c (λ e. returns (store mem home (dropped e))))))
        cell,
    record {
      slot_ok = tt;
      counted =
          subst (Counted held) (sym (store_same mem home (dropped e))) (dropped-Counted held e r);
    },
  )

  perform-Goes : (h : Host S H) (op : Op S H) → Sound h → Goes h op
  perform-Goes h op v = case h.slot v.slot_ok v.counted
    where
      case :
          (slot : Slot)
          → SlotOk h.home slot
          → Counted (refs_due slot h.held) (h.mem h.home)
          → Goes (at h.home slot h.held h.mem) op
      case none o c = nulled-Goes h.home h.held h.mem op c
      case (some a) o c =
          subst (λ b. Goes (at h.home (some b) h.held h.mem) op) (sym o)
            (live-Goes h.home h.held h.mem op c)

  perform_all-Sound :
      (ops : List (Op S H)) (h : Host S H)
      → Sound h
      → (h' : Host S H) × (perform_all h ops ≡ returns h') × Sound h'
  unfolding perform_all
  perform_all-Sound [] h v = (h, refl, v)
  perform_all-Sound (op ∷ ops) h v =
      let (h', q, v') = perform-Goes h op v in
      let (h'', q', v'') = perform_all-Sound ops h' v' in
      (h'', ap (λ x. next_ops x (λ h'. perform_all h' ops)) q ∙ q', v'')

  -- From the creation of an object, every sequence of calls, cancels that overlap them and releases
  -- comes back with no access to memory that is not allocated. After it the object has one reference
  -- for the slot, where that is not nulled, and one for each cancel under way, and it is freed exactly
  -- when there is none.
  pub freed_with_last_reference :
      (mem : Memory S H) (a : ℕ) (s : S) (handle : Option H) (ops : List (Op S H))
      → (h : Host S H) × (perform_all (created mem a s handle) ops ≡ returns h) × Sound h
  unfolding into_private_data
  freed_with_last_reference mem a s handle ops =
      perform_all-Sound ops (created mem a s handle)
        (record { slot_ok = refl; counted = (_, store_same mem a _, refl) })
