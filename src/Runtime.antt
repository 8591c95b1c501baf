-- ===== src/Runtime.antt =====
-- src/runtime.rs: the cancel signals of an object's operations, and the task that fetches the chunks of a
-- result ahead of its reader.
pub mod Signals
pub mod Order
pub mod Drain
use adbc_spanner.Common.{
  ℕ, zero, suc, Bool, true, false, not, ◌&&◌, List, [], ◌∷◌, ◌++◌, Option, none, some,
  if◌then◌else◌, length, Result, ok, err, Status, cancelled,
}

-- The latches of the signals that a `CancelSlot` has minted, the first first, and the one it holds. A
-- `CancelSignal` is a place in the list.
pub record Slot : Type 0 where
  pub latches : List Bool
  pub current : ℕ

-- `CancelSlot::new`
unfoldable pub new_slot : Slot
new_slot = record { latches = false ∷ []; current = 0 }

-- `store(true)`
unfoldable pub latch : ℕ → List Bool → List Bool
latch i [] = []
latch zero (b ∷ bs) = true ∷ bs
latch (suc i) (b ∷ bs) = b ∷ latch i bs

-- `load`
unfoldable pub is_latched : ℕ → List Bool → Bool
is_latched i [] = false
is_latched zero (b ∷ bs) = b
is_latched (suc i) (b ∷ bs) = is_latched i bs

unfoldable pub begin_operation : Slot → Slot × ℕ
begin_operation slot = (
  record { latches = slot.latches ++ false ∷ []; current = length slot.latches },
  length slot.latches,
)

unfoldable pub signal : Slot → Slot
unfolding latch
signal slot = record slot { latches = latch slot.current slot.latches }

module _ {A : Type 0} where
  -- One poll of the `select!` of `block_on_cancellable`: whether the signal is latched, and the result of
  -- the future where it is ready.
  unfoldable pub poll : Bool → Option (Result A) → Option (Result A)
  poll true future = some (err cancelled)
  poll false future = future

  -- `block_on`, over the polls. It does not return where none of them is ready.
  unfoldable pub block_on_cancellable : List (Bool × Option (Result A)) → Option (Result A)
  unfolding poll
  block_on_cancellable [] = none
  block_on_cancellable ((latched, future) ∷ polls) = elim (poll latched future) [
    | some result ↦ some result
    | none ↦ block_on_cancellable polls
  ]

-- Where the task of `prefetch_loop` is: at one of its two `select!`s, sending an error, or returned.
pub data Location (Row : Type 0) : Type 0 where
  fetching ended : Location Row
  sending : List Row → Location Row
  failing : Status → Location Row

abbrev pub Item : Type 0 → Type 0
Item Row = Result (List Row)

-- The task with the source that it drains, the channel, its receiver and the signal. `received` is what
-- the reader has taken so far.
pub record Prefetch (Row : Type 0) : Type 0 where
  pub source : List (Item Row)
  pub location : Location Row
  pub channel : Option (Item Row)
  pub receiver_open : Bool
  pub latched : Bool
  pub received : List (Item Row)

module _ {Row : Type 0} where
  -- `spawn_prefetch`
  unfoldable pub spawn_prefetch : List (Item Row) → Prefetch Row
  spawn_prefetch source = record {
    source = source;
    location = Location.fetching;
    channel = none;
    receiver_open = true;
    latched = false;
    received = [];
  }

  -- `tx.try_send(…)`: a full or closed channel is left as it is.
  abbrev pub try_send : Item Row → Bool → Option (Item Row) → Option (Item Row)
  try_send item true none = some item
  try_send item true (some full) = some full
  try_send item false channel = channel

  -- A chunk that `next_chunk` returned. A source that is drained returns empty chunks.
  abbrev pub pulled : List (Item Row) → Location Row × List (Item Row)
  pulled [] = (Location.ended, [])
  pulled (ok [] ∷ source) = (Location.ended, source)
  pulled (ok (r ∷ rs) ∷ source) = (Location.sending (r ∷ rs), source)
  pulled (err e ∷ source) = (Location.failing e, source)

  -- A poll of `tx.send(item)`: it is ready where the receiver is dropped or there is room; then the task
  -- goes on at `next`.
  abbrev pub send : Bool → Option (Item Row) → Item Row → Location Row → Prefetch Row → Prefetch Row
  send false channel item next st = record st { location = Location.ended }
  send true none item next st = record st { location = next; channel = some item }
  send true (some full) item next st = st

  abbrev pub fetch : Bool → Prefetch Row → Prefetch Row
  fetch true st = record st {
    location = Location.ended;
    channel = try_send (err cancelled) st.receiver_open st.channel;
  }
  fetch false st = record st { location = (pulled st.source).0; source = (pulled st.source).1 }

  abbrev pub send_rows : Bool → List Row → Prefetch Row → Prefetch Row
  send_rows true rows st = record st { location = Location.ended }
  send_rows false rows st = send st.receiver_open st.channel (ok rows) Location.fetching st

  abbrev pub task_at : Location Row → Prefetch Row → Prefetch Row
  task_at Location.fetching st = fetch st.latched st
  task_at Location.ended st = st
  task_at (Location.sending rows) st = send_rows st.latched rows st
  task_at (Location.failing e) st = send st.receiver_open st.channel (err e) Location.ended st

  -- A poll of `prefetch_loop`, of which every future that the environment completes is ready.
  unfoldable pub prefetch_loop : Prefetch Row → Prefetch Row
  prefetch_loop st = task_at st.location st

  abbrev pub taken : Option (Item Row) → Prefetch Row → Prefetch Row
  taken none st = st
  taken (some item) st = record st { channel = none; received = st.received ++ item ∷ [] }

  -- `recv` of the reader, where an item is there.
  unfoldable pub recv : Prefetch Row → Prefetch Row
  recv st = if st.receiver_open then taken st.channel st else st

-- What may happen next.
pub data Event : Type 0 where
  poll_task receive cancel drop_receiver : Event

module _ {Row : Type 0} where
  unfoldable pub happen : Event → Prefetch Row → Prefetch Row
  unfolding prefetch_loop recv
  happen Event.poll_task st = prefetch_loop st
  happen Event.receive st = recv st
  happen Event.cancel st = record st { latched = true }
  happen Event.drop_receiver st = record st { receiver_open = false }

  unfoldable pub happen_all : List Event → Prefetch Row → Prefetch Row
  unfolding happen
  happen_all [] st = st
  happen_all (e ∷ es) st = happen_all es (happen e st)
