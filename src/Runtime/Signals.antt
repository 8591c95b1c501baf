-- ===== src/Runtime/Signals.antt =====
-- Which cancels reach which operation: `CancelSlot` of src/runtime.rs.
use adbc_spanner.Common.{
  ℕ, zero, suc, ◌+◌, Bool, true, false, List, [], ◌∷◌, ◌++◌, length, length-append, Result, err,
  cancelled, Option, none, some, ◌≡◌, refl, ap, ◌∙◌, arith, ◌<◌, ◌≤◌,
}
use adbc_spanner.Runtime.{
  Slot, new_slot, latch, is_latched, begin_operation, signal, block_on_cancellable,
}

-- What an object's owner does to its slot.
pub data Act : Type 0 where
  begin_op cancel_op : Act

unfoldable pub act : Act → Slot → Slot
unfolding begin_operation signal
act Act.begin_op slot = (begin_operation slot).0
act Act.cancel_op slot = signal slot

unfoldable pub act_all : List Act → Slot → Slot
unfolding act
act_all [] slot = slot
act_all (a ∷ acts) slot = act_all acts (act a slot)

-- Whether a cancel is made while operation `i` is the current one, `i` operations from now.
unfoldable pub cancelled_in : ℕ → List Act → Bool
cancelled_in i [] = false
cancelled_in zero (Act.cancel_op ∷ acts) = true
cancelled_in zero (Act.begin_op ∷ acts) = false
cancelled_in (suc i) (Act.cancel_op ∷ acts) = cancelled_in (suc i) acts
cancelled_in (suc i) (Act.begin_op ∷ acts) = cancelled_in i acts

length-latch : (i : ℕ) (bs : List Bool) → length (latch i bs) ≡ length bs
unfolding latch
length-latch i [] = refl
length-latch zero (b ∷ bs) = refl
length-latch (suc i) (b ∷ bs) = ap suc (length-latch i bs)

-- A latch stays as it is, once its operation is not the current one.
latched_other : (i k : ℕ) (bs : List Bool) → i < k → is_latched i (latch k bs) ≡ is_latched i bs
unfolding latch is_latched
latched_other i k [] h = refl
latched_other i zero (b ∷ bs) h = absurd (omega arith)
latched_other zero (suc k) (b ∷ bs) h = refl
latched_other (suc i) (suc k) (b ∷ bs) h = latched_other i k bs (omega arith)

latched_self : (k : ℕ) (bs : List Bool) → k < length bs → is_latched k (latch k bs) ≡ true
unfolding latch is_latched
latched_self k [] h = absurd (omega arith)
latched_self zero (b ∷ bs) h = refl
latched_self (suc k) (b ∷ bs) h = latched_self k bs (omega arith)

latched_append :
    (i : ℕ) (bs cs : List Bool) → i < length bs → is_latched i (bs ++ cs) ≡ is_latched i bs
unfolding is_latched
latched_append i [] cs h = absurd (omega arith)
latched_append zero (b ∷ bs) cs h = refl
latched_append (suc i) (b ∷ bs) cs h = latched_append i bs cs (omega arith)

latched_last : (bs : List Bool) → is_latched (length bs) (bs ++ false ∷ []) ≡ false
unfolding is_latched
latched_last [] = refl
latched_last (b ∷ bs) = latched_last bs

-- The slot holds the signal that was minted last.
abbrev Newest : Slot → Type 0
Newest slot = length slot.latches ≡ suc slot.current

act-Newest : (a : Act) (slot : Slot) → Newest slot → Newest (act a slot)
unfolding act begin_operation signal
act-Newest Act.begin_op slot h = omega (arith, length-append slot.latches (false ∷ []))
act-Newest Act.cancel_op slot h = length-latch slot.current slot.latches ∙ h

-- An operation that is over keeps its latch.
over_kept :
    (acts : List Act) (slot : Slot) (i : ℕ)
    → Newest slot
    → i < slot.current
    → is_latched i (act_all acts slot).latches ≡ is_latched i slot.latches
unfolding act_all
over_kept [] slot i n h = refl
over_kept (Act.begin_op ∷ acts) slot i n h =
    unfold act begin_operation in
    over_kept acts (act Act.begin_op slot) i (act-Newest Act.begin_op slot n) (omega arith)
    ∙ latched_append i slot.latches (false ∷ []) (omega arith)
over_kept (Act.cancel_op ∷ acts) slot i n h =
    unfold act signal in
    over_kept acts (act Act.cancel_op slot) i (act-Newest Act.cancel_op slot n) h
    ∙ latched_other i slot.current slot.latches h

-- A latched signal stays latched.
kept_true :
    (acts : List Act) (slot : Slot)
    → Newest slot
    → is_latched slot.current slot.latches ≡ true
    → is_latched slot.current (act_all acts slot).latches ≡ true
unfolding act_all
kept_true [] slot n h = h
kept_true (Act.begin_op ∷ acts) slot n h =
    unfold act begin_operation in
    over_kept acts (act Act.begin_op slot) slot.current (act-Newest Act.begin_op slot n)
      (omega arith)
    ∙ latched_append slot.current slot.latches (false ∷ []) (omega arith)
    ∙ h
kept_true (Act.cancel_op ∷ acts) slot n h =
    unfold act signal in
    kept_true acts (act Act.cancel_op slot) (act-Newest Act.cancel_op slot n)
      (latched_self slot.current slot.latches (omega arith))

latched_beyond : (i : ℕ) (bs : List Bool) → length bs ≤ i → is_latched i bs ≡ false
unfolding is_latched
latched_beyond i [] h = refl
latched_beyond zero (b ∷ bs) h = absurd (omega arith)
latched_beyond (suc i) (b ∷ bs) h = latched_beyond i bs (omega arith)

from_now :
    (acts : List Act) (slot : Slot)
    → Newest slot
    → is_latched slot.current slot.latches ≡ false
    → is_latched slot.current (act_all acts slot).latches ≡ cancelled_in 0 acts
unfolding act_all cancelled_in
from_now [] slot n h = h
from_now (Act.begin_op ∷ acts) slot n h =
    unfold act begin_operation in
    over_kept acts (act Act.begin_op slot) slot.current (act-Newest Act.begin_op slot n)
      (omega arith)
    ∙ latched_append slot.current slot.latches (false ∷ []) (omega arith)
    ∙ h
from_now (Act.cancel_op ∷ acts) slot n h =
    unfold act signal in
    kept_true acts (act Act.cancel_op slot) (act-Newest Act.cancel_op slot n)
      (latched_self slot.current slot.latches (omega arith))

latched_at : (i j : ℕ) (bs : List Bool) → i ≡ j → is_latched i bs ≡ is_latched j bs
latched_at i j bs e = ap (λ k. is_latched k bs) e

later :
    (acts : List Act) (slot : Slot) (i k : ℕ)
    → Newest slot
    → k ≡ slot.current + suc i
    → is_latched k (act_all acts slot).latches ≡ cancelled_in (suc i) acts
unfolding act_all cancelled_in
later [] slot i k n e = latched_beyond k slot.latches (omega arith)
later (Act.begin_op ∷ acts) slot zero k n e =
    unfold act begin_operation in
    latched_at k (length slot.latches) (act_all acts (act Act.begin_op slot)).latches (omega arith)
    ∙ from_now acts (act Act.begin_op slot) (act-Newest Act.begin_op slot n)
        (latched_last slot.latches)
later (Act.begin_op ∷ acts) slot (suc i) k n e =
    unfold act begin_operation in
    later acts (act Act.begin_op slot) i k (act-Newest Act.begin_op slot n) (omega arith)
later (Act.cancel_op ∷ acts) slot i k n e =
    unfold act signal in later acts (act Act.cancel_op slot) i k (act-Newest Act.cancel_op slot n) e

-- After any operations and cancels, the signal of the `i`-th operation is latched exactly where a cancel
-- was made between that operation's beginning and the next one's; the 0-th is the one that a new slot
-- holds.
pub signals-cancelled_in :
    (acts : List Act) (i : ℕ) → is_latched i (act_all acts new_slot).latches ≡ cancelled_in i acts
unfolding new_slot
signals-cancelled_in acts zero = from_now acts new_slot refl (unfold is_latched in refl)
signals-cancelled_in acts (suc i) = later acts new_slot i (suc i) refl (omega arith)

-- Whether the future is not ready at any of the polls up to the one at which the signal is latched.
abbrev pub PendingUntil : {A : Type 0} → List (Bool × Option (Result A)) → Type 0
PendingUntil [] = ⊥
PendingUntil ((true, future) ∷ polls) = Unit {0}
PendingUntil ((false, none) ∷ polls) = PendingUntil polls
PendingUntil ((false, some r) ∷ polls) = ⊥

-- An operation whose signal is latched at a poll, before or as its future is ready, returns `Cancelled`.
pub block_on_cancellable-cancelled :
    {A : Type 0} (polls : List (Bool × Option (Result A)))
    → PendingUntil polls
    → block_on_cancellable polls ≡ some (err cancelled)
unfolding block_on_cancellable
block_on_cancellable-cancelled [] h = elim h [ ]
block_on_cancellable-cancelled ((true, future) ∷ polls) h = refl
block_on_cancellable-cancelled ((false, none) ∷ polls) h = block_on_cancellable-cancelled polls h
block_on_cancellable-cancelled ((false, some r) ∷ polls) h = elim h [ ]
