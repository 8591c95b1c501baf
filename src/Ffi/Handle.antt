-- ===== src/Ffi/Handle.antt =====
-- `Exported`, `dispatch`, `cancel` and `release` of src/ffi/handle.rs: the object behind `private_data`. `Memory` is what is allocated at each address;
-- an object carries the count of its `Arc`. An access to memory that is not allocated is a fault.
pub mod Lifecycle
pub mod Calls
use adbc_spanner.Common.{
  ℕ, zero, suc, ◌+◌, ◌-◌, Bool, true, false, Option, none, some, ◌==◌, if◌then◌else◌, Result,
  Status, ok, err, invalid_state, internal, Done,
}
use adbc_spanner.Ffi.Guard.{Access, returns, fault}

-- `Exported<S>` with its reference count. `H` is the cancel handle.
pub record Exported (S H : Type 0) : Type 0 where
  pub refs : ℕ
  pub poisoned : Bool
  pub cancel : Option H
  pub state : S

-- The `private_data` field of the caller's struct: null or an address.
abbrev pub Slot : Type 0
Slot = Option ℕ

-- How a driver call ends: it returns, or it panics and leaves a torn state.
pub data Call (S : Type 0) : Type 0 where
  returned : S → Result Done → Call S
  panicked : S → Call S

-- What is allocated at each address.
abbrev pub Memory : Type 0 → Type 0 → Type 0
Memory S H = ℕ → Option (Exported S H)

abbrev pub handle_result : {H : Type 0} → Option H → (H → Result Done) → Result Done
handle_result none try_cancel = err invalid_state
handle_result (some h) try_cancel = try_cancel h

module _ {S H : Type 0} where
  abbrev pub store : Memory S H → ℕ → Option (Exported S H) → Memory S H
  store mem a cell b = if a == b then cell else mem b

  -- `into_private_data_with_cancel`, at an address that the allocator chose.
  unfoldable pub into_private_data : Memory S H → ℕ → S → Option H → Memory S H × Slot
  into_private_data mem a s handle = (
    store mem a (some (record { refs = 1; poisoned = false; cancel = handle; state = s })),
    some a,
  )

  -- `borrowed`, then what is done with the object.
  abbrev pub with_object :
      {A : Type 0} → Access A → Option (Exported S H) → (Exported S H → Access A) → Access A
  with_object missing none k = missing
  with_object missing (some e) k = k e

  abbrev pub called : Memory S H → ℕ → Exported S H → Call S → Memory S H × Result Done
  called mem a e (returned s r) = (store mem a (some (record e { state = s })), r)
  called mem a e (panicked s) =
      (store mem a (some (record e { state = s; poisoned = true })), err internal)

  -- `lock_state` and the call, on the object that the slot points to.
  abbrev pub locked_call :
      Memory S H → ℕ → (S → Call S) → Exported S H → Access (Memory S H × Result Done)
  locked_call mem a f e =
      if e.poisoned then returns (mem, err internal) else returns (called mem a e (f e.state))

  unfoldable pub dispatch : Memory S H → Slot → (S → Call S) → Access (Memory S H × Result Done)
  dispatch mem none f = returns (mem, err invalid_state)
  dispatch mem (some a) f = with_object fault (mem a) (locked_call mem a f)

  -- `strong`: one more reference; the result is the address.
  unfoldable pub strong : Memory S H → Slot → Access (Memory S H × Result ℕ)
  strong mem none = returns (mem, err invalid_state)
  strong mem (some a) =
      with_object fault (mem a)
        (λ e. returns (store mem a (some (record e { refs = e.refs + 1 })), ok a))

  -- The end of a reference: the last one frees the object.
  abbrev pub dropped : Exported S H → Option (Exported S H)
  dropped e = if e.refs == 1 then none else some (record e { refs = e.refs - 1 })

  unfoldable pub drop_ref : Memory S H → ℕ → Access (Memory S H)
  drop_ref mem a = with_object fault (mem a) (λ e. returns (store mem a (dropped e)))

  -- What `cancel` does with the reference that it holds, the poison flag unread.
  unfoldable pub cancel_held :
      Memory S H → ℕ → (H → Result Done) → Access (Memory S H × Result Done)
  unfolding drop_ref
  cancel_held mem a try_cancel =
      with_object fault (mem a)
        (λ e. returns (store mem a (dropped e), handle_result e.cancel try_cancel))

  abbrev pub then_cancel :
      (H → Result Done) → Access (Memory S H × Result ℕ) → Access (Memory S H × Result Done)
  then_cancel try_cancel (returns (mem, ok a)) = cancel_held mem a try_cancel
  then_cancel try_cancel (returns (mem, err e)) = returns (mem, err e)
  then_cancel try_cancel fault = fault

  unfoldable pub cancel : Memory S H → Slot → (H → Result Done) → Access (Memory S H × Result Done)
  unfolding strong cancel_held
  cancel mem slot try_cancel = then_cancel try_cancel (strong mem slot)

  -- `install_cancel_handle`
  unfoldable pub install_cancel_handle : Memory S H → Slot → H → Access (Memory S H)
  install_cancel_handle mem none h = returns mem
  install_cancel_handle mem (some a) h =
      with_object fault (mem a) (λ e. returns (store mem a (some (record e { cancel = some h }))))

  abbrev pub nulled : Access (Memory S H) → Access (Memory S H × Slot × Result Done)
  nulled (returns mem) = returns (mem, none, ok tt)
  nulled fault = fault

  -- `release`: the slot is nulled first.
  unfoldable pub release : Memory S H → Slot → Access (Memory S H × Slot × Result Done)
  unfolding drop_ref
  release mem none = returns (mem, none, err invalid_state)
  release mem (some a) = nulled (drop_ref mem a)
