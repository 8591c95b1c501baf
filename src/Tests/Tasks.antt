-- ===== src/Tests/Tasks.antt =====
-- Runs of the signals and the prefetching task of src/runtime.rs.
use adbc_spanner.Common.{
  ℕ, List, [], ◌∷◌, none, true, ◌≡◌, refl, arith, ok, err, internal, cancelled,
}
use adbc_spanner.Runtime.{Location, Item, Event, spawn_prefetch, happen_all, new_slot, is_latched}
use adbc_spanner.Runtime.Signals.{Act, act_all, cancelled_in, signals-cancelled_in}
use adbc_spanner.Runtime.Order.{items, InOrder, received-InOrder}
use adbc_spanner.Runtime.Drain.{rounds, rounds-Delivered}

abbrev acts : List Act
acts = Act.begin_op ∷ Act.cancel_op ∷ Act.begin_op ∷ []

signals-cancelled_in_example : is_latched 1 (act_all acts new_slot).latches ≡ cancelled_in 1 acts
signals-cancelled_in_example = signals-cancelled_in acts 1

latched_run : is_latched 1 (act_all acts new_slot).latches ≡ true
unfolding is_latched act_all new_slot
latched_run = refl

-- Two chunks and an error.
abbrev source : List (Item ℕ)
source = ok (1 ∷ 2 ∷ []) ∷ ok (3 ∷ []) ∷ err internal ∷ []

abbrev events : List Event
events =
    Event.poll_task ∷ Event.poll_task ∷ Event.receive ∷ Event.cancel ∷ Event.poll_task
    ∷ Event.receive ∷ []

received-InOrder_example :
    InOrder (items source) (happen_all events (spawn_prefetch source)).received
received-InOrder_example = received-InOrder source events

received_run :
    (happen_all events (spawn_prefetch source)).received ≡ ok (1 ∷ 2 ∷ []) ∷ err cancelled ∷ []
unfolding happen_all spawn_prefetch
received_run = refl

rounds-Delivered_example :
    ((rounds 7 (spawn_prefetch source)).location ≡ Location.ended)
    × ((rounds 7 (spawn_prefetch source)).channel ≡ none)
    × ((rounds 7 (spawn_prefetch source)).received ≡ items source)
rounds-Delivered_example = rounds-Delivered source 7 (omega arith)
