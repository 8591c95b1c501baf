-- ===== src/Runtime/Drain.antt =====
-- That the task of src/runtime.rs ends: `prefetch_loop`.
use adbc_spanner.Common.{
  ℕ, zero, suc, ◌*◌, ◌<◌, true, false, List, [], ◌∷◌, ◌++◌, append_assoc, append-nil, none, ok, err,
  length, ◌≡◌, refl, arith, subst,
}
use adbc_spanner.Runtime.{
  Location, Item, Prefetch, Event, spawn_prefetch, prefetch_loop, recv, happen, task_at,
}
use adbc_spanner.Runtime.Order.{items}

-- Not in the act of sending an error.
abbrev pub NotFailing : {Row : Type 0} → Location Row → Type 0
NotFailing Location.fetching = Unit {0}
NotFailing Location.ended = Unit {0}
NotFailing (Location.sending rows) = Unit {0}
NotFailing (Location.failing e) = ⊥

module _ {Row : Type 0} where
  ends_at :
      (location : Location Row) (st : Prefetch Row)
      → NotFailing location
      → st.latched ≡ true
      → st.location ≡ location
      → (task_at location st).location ≡ Location.ended
  ends_at Location.fetching st n l e = rw l refl
  ends_at Location.ended st n l e = e
  ends_at (Location.sending rows) st n l e = rw l refl
  ends_at (Location.failing x) st n l e = elim n [ ]

  -- Once the signal is latched, the task returns at its next poll, wherever it is but sending an error;
  -- a full channel does not hold it.
  pub cancel_ends :
      (st : Prefetch Row)
      → NotFailing st.location
      → (happen Event.poll_task (happen Event.cancel st)).location ≡ Location.ended
  unfolding happen prefetch_loop
  cancel_ends st n = ends_at st.location (record st { latched = true }) n refl refl

  -- A poll of the task, and a receive.
  unfoldable pub rounds : ℕ → Prefetch Row → Prefetch Row
  unfolding happen
  rounds zero st = st
  rounds (suc n) st = rounds n (happen Event.receive (happen Event.poll_task st))

  -- The task with an empty channel, an open receiver and no cancel.
  abbrev at : Location Row → List (Item Row) → List (Item Row) → Prefetch Row
  at location source received = record {
    source = source;
    location = location;
    channel = none;
    receiver_open = true;
    latched = false;
    received = received;
  }

  abbrev Delivered : List (Item Row) → Prefetch Row → Type 0
  Delivered whole st = (st.location ≡ Location.ended) × (st.channel ≡ none) × (st.received ≡ whole)

  stays :
      (n : ℕ) (source received : List (Item Row))
      → Delivered received (rounds n (at Location.ended source received))
  unfolding rounds happen prefetch_loop recv
  stays zero source received = (refl, refl, refl)
  stays (suc n) source received = stays n source received

  drains :
      (n : ℕ) (source received : List (Item Row))
      → 2 * length source < n
      → Delivered (received ++ items source) (rounds n (at Location.fetching source received))
  unfolding rounds happen prefetch_loop recv
  drains zero source received h = absurd (omega arith)
  drains (suc n) [] received h = rw (append-nil received) (stays n [] received)
  drains (suc n) (ok [] ∷ source) received h = rw (append-nil received) (stays n source received)
  drains (suc zero) (ok (r ∷ rs) ∷ source) received h = absurd (omega arith)
  drains (suc zero) (err e ∷ source) received h = absurd (omega arith)
  drains (suc (suc n)) (ok (r ∷ rs) ∷ source) received h =
      subst
        (λ l. Delivered l (rounds n (at Location.fetching source (received ++ ok (r ∷ rs) ∷ []))))
        (append_assoc received (ok (r ∷ rs) ∷ []) (items source))
        (drains n source (received ++ ok (r ∷ rs) ∷ []) (omega arith))
  drains (suc (suc n)) (err e ∷ source) received h = stays n source (received ++ err e ∷ [])

  -- A reader that keeps receiving gets the whole result, and the task ends: two rounds to a chunk and one
  -- more are enough.
  pub rounds-Delivered :
      (source : List (Item Row)) (n : ℕ)
      → 2 * length source < n
      → ((rounds n (spawn_prefetch source)).location ≡ Location.ended)
        × ((rounds n (spawn_prefetch source)).channel ≡ none)
        × ((rounds n (spawn_prefetch source)).received ≡ items source)
  unfolding spawn_prefetch
  rounds-Delivered source n h = drains n source [] h
