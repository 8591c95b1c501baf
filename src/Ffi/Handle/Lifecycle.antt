-- ===== src/Ffi/Handle/Lifecycle.antt =====
-- Interleavings of src/ffi/handle.rs on one object: the reference count against what is allocated.
-- A cancel is two operations, the taking of its reference and the rest; any number of cancels may be
-- between the two. The other calls are whole: the host owes `Release` that none overlaps it, and
-- that reading the slot and taking the reference of a cancel are not parted by one.
pub mod Counts
use adbc_spanner.Common.{
  ℕ, zero, suc, ◌+◌, ◌-◌, List, [], ◌∷◌, Option, none, some, ◌≡◌, refl, sym, ap, ◌∙◌, subst,
  if◌then◌else◌, Result, ok, err, Done, arith, Bool, true, Bool-cases, inl, inr, internal,
}
use adbc_spanner.Ffi.Guard.{Access, returns, fault}
use adbc_spanner.Ffi.Handle.Calls.{store_same}
use adbc_spanner.Ffi.Handle.{
  Exported, Slot, Call, returned, panicked, Memory, store, into_private_data, dispatch, strong,
  called, locked_call, nulled, with_object, handle_result, dropped, cancel_held,
  install_cancel_handle, release,
}

-- What the host's threads share: the slot, and how many cancels hold a reference.
pub record Host (S H : Type 0) : Type 0 where
  pub home : ℕ
  pub slot : Slot
  pub held : ℕ
  pub mem : Memory S H

pub data Op (S H : Type 0) : Type 0 where
  dispatched : (S → Call S) → Op S H
  cancel_taken : Op S H
  cancel_done : (H → Result Done) → Op S H
  handle_installed : H → Op S H
  released : Op S H

-- The references that should be there: the slot's, and each cancel's.
abbrev pub refs_due : Slot → ℕ → ℕ
refs_due none n = n
refs_due (some _) n = suc n

abbrev pub SlotOk : ℕ → Slot → Type 0
SlotOk home none = Unit {0}
SlotOk home (some a) = a ≡ home

module _ {S H : Type 0} where
  abbrev pub with_mem : {A : Type 0} → Host S H → Access (Memory S H × A) → Access (Host S H)
  with_mem h (returns (mem, r)) = returns (record h { mem = mem })
  with_mem h fault = fault

  abbrev pub taken : Host S H → Access (Memory S H × Result ℕ) → Access (Host S H)
  taken h (returns (mem, ok a)) = returns (record h { mem = mem; held = suc h.held })
  taken h (returns (mem, err e)) = returns (record h { mem = mem })
  taken h fault = fault

  -- The rest of a cancel, where one holds a reference.
  abbrev pub done : Host S H → ℕ → (H → Result Done) → Access (Host S H)
  done h zero try_cancel = returns h
  done h (suc n) try_cancel = with_mem (record h { held = n }) (cancel_held h.mem h.home try_cancel)

  abbrev pub installed_in : Host S H → Access (Memory S H) → Access (Host S H)
  installed_in h (returns mem) = returns (record h { mem = mem })
  installed_in h fault = fault

  abbrev pub slot_nulled : Host S H → Access (Memory S H × Slot × Result Done) → Access (Host S H)
  slot_nulled h (returns (mem, slot, r)) = returns (record h { mem = mem; slot = slot })
  slot_nulled h fault = fault

  unfoldable pub perform : Host S H → Op S H → Access (Host S H)
  unfolding dispatch strong cancel_held install_cancel_handle release
  perform h (dispatched f) = with_mem h (dispatch h.mem h.slot f)
  perform h cancel_taken = taken h (strong h.mem h.slot)
  perform h (cancel_done try_cancel) = done h h.held try_cancel
  perform h (handle_installed handle) = installed_in h (install_cancel_handle h.mem h.slot handle)
  perform h released = slot_nulled h (release h.mem h.slot)

  abbrev pub next_ops : Access (Host S H) → (Host S H → Access (Host S H)) → Access (Host S H)
  next_ops (returns h) k = k h
  next_ops fault k = fault

  unfoldable pub perform_all : Host S H → List (Op S H) → Access (Host S H)
  unfolding perform
  perform_all h [] = returns h
  perform_all h (op ∷ ops) = next_ops (perform h op) (λ h'. perform_all h' ops)

  -- `New`: an object at an address, its slot, and no cancel.
  abbrev pub created : Memory S H → ℕ → S → Option H → Host S H
  created mem a s handle = record {
    home = a;
    slot = (into_private_data mem a s handle).1;
    held = 0;
    mem = (into_private_data mem a s handle).0;
  }

  -- An object with `n` references is freed if that is none, and else is there with that count.
  abbrev pub Counted : ℕ → Option (Exported S H) → Type 0
  Counted zero cell = cell ≡ none
  Counted (suc n) cell = (e : Exported S H) × (cell ≡ some e) × (e.refs ≡ suc n)

  pub record Sound (h : Host S H) : Type 0 where
    pub slot_ok : SlotOk h.home h.slot
    pub counted : Counted (refs_due h.slot h.held) (h.mem h.home)
