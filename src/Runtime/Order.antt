-- ===== src/Runtime/Order.antt =====
-- What the reader of a prefetched result has taken, whatever happens: `prefetch_loop` of
-- src/runtime.rs.
use adbc_spanner.Common.{
  Bool, true, false, List, [], ◌∷◌, ◌++◌, append_assoc, append-nil, Option, none, some, ok, err,
  cancelled, ◌≡◌, ◌⊎◌, inl, inr, refl, if◌then◌else◌, sym, ap, ap₂, ◌∙◌, subst,
}
use adbc_spanner.Runtime.{
  Location, Item, Prefetch, Event, spawn_prefetch, prefetch_loop, recv, happen, happen_all, send,
  fetch, send_rows, task_at, taken, pulled,
}

module _ {Row : Type 0} where
  -- The items that a result holds: the chunks up to the first empty one, or up to an error, with it.
  abbrev pub items : List (Item Row) → List (Item Row)
  items [] = []
  items (ok [] ∷ source) = []
  items (ok (r ∷ rs) ∷ source) = ok (r ∷ rs) ∷ items source
  items (err e ∷ source) = err e ∷ []

  abbrev pub in_channel : Option (Item Row) → List (Item Row)
  in_channel none = []
  in_channel (some item) = item ∷ []

  -- What the task has yet to send.
  abbrev pub to_send : Location Row → List (Item Row) → List (Item Row)
  to_send Location.fetching source = items source
  to_send Location.ended source = []
  to_send (Location.sending rows) source = ok rows ∷ items source
  to_send (Location.failing e) source = err e ∷ []

  -- `whole` is what was taken, what is on its way, and more.
  abbrev OnTheWay : List (Item Row) → Prefetch Row → Type 0
  OnTheWay whole st =
      (lost : List (Item Row)) × (whole
        ≡ st.received ++ (in_channel st.channel ++ (to_send st.location st.source ++ lost)))

  -- The task was cancelled, and said so last.
  abbrev CutShort : List (Item Row) → Prefetch Row → Type 0
  CutShort whole st =
      (front : List (Item Row)) × (lost : List (Item Row)) × (whole ≡ front ++ lost)
      × (st.received ++ in_channel st.channel ≡ front ++ err cancelled ∷ [])
      × (st.location ≡ Location.ended)

  abbrev Ordered : List (Item Row) → Prefetch Row → Type 0
  Ordered whole st = OnTheWay whole st ⊎ CutShort whole st

  pulled_lem :
      (source : List (Item Row)) → to_send (pulled source).0 (pulled source).1 ≡ items source
  pulled_lem [] = refl
  pulled_lem (ok [] ∷ source) = refl
  pulled_lem (ok (r ∷ rs) ∷ source) = refl
  pulled_lem (err e ∷ source) = refl

  send-OnTheWay :
      (whole : List (Item Row)) (room : Bool) (channel : Option (Item Row)) (item : Item Row)
      (next : Location Row) (st : Prefetch Row)
      → st.channel ≡ channel
      → to_send st.location st.source ≡ item ∷ to_send next st.source
      → OnTheWay whole st
      → OnTheWay whole (send room channel item next st)
  send-OnTheWay whole false channel item next st c e (lost, w) =
      (to_send st.location st.source ++ lost, w)
  send-OnTheWay whole true none item next st c e (lost, w) = (lost, w ∙ rw (c, e) refl)
  send-OnTheWay whole true (some full) item next st c e h = h

  fetch_cancelled :
      (whole : List (Item Row)) (open_end : Bool) (channel : Option (Item Row)) (st : Prefetch Row)
      → st.receiver_open ≡ open_end
      → st.channel ≡ channel
      → OnTheWay whole st
      → Ordered whole (fetch true st)
  fetch_cancelled whole true none st r c (lost, w) =
      inr (st.received, to_send st.location st.source ++ lost, w ∙ rw c refl, rw (r, c) refl, refl)
  fetch_cancelled whole true (some full) st r c (lost, w) =
      inl (to_send st.location st.source ++ lost, w ∙ rw (r, c) refl)
  fetch_cancelled whole false channel st r c (lost, w) =
      inl (to_send st.location st.source ++ lost, w ∙ rw r refl)

  task-Ordered :
      (whole : List (Item Row)) (location : Location Row) (st : Prefetch Row)
      → st.location ≡ location
      → OnTheWay whole st
      → Ordered whole (task_at location st)
  task-Ordered whole Location.fetching st e h = fetch-Ordered st.latched
    where
      fetch-Ordered : (latched : Bool) → Ordered whole (fetch latched st)
      fetch-Ordered true = fetch_cancelled whole st.receiver_open st.channel st refl refl h
      fetch-Ordered false = inl (h.0, h.1 ∙ rw e (rw (← pulled_lem st.source) refl))
  task-Ordered whole Location.ended st e h = inl h
  task-Ordered whole (Location.sending rows) st e h = send-Ordered st.latched
    where
      send-Ordered : (latched : Bool) → Ordered whole (send_rows latched rows st)
      send-Ordered true = inl (to_send st.location st.source ++ h.0, h.1)
      send-Ordered false = inl (
          send-OnTheWay whole st.receiver_open st.channel (ok rows) Location.fetching st refl
            (rw e refl) h)
  task-Ordered whole (Location.failing x) st e h =
      inl (
        send-OnTheWay whole st.receiver_open st.channel (err x) Location.ended st refl (rw e refl)
          h)

  taken-Ordered :
      (whole : List (Item Row)) (channel : Option (Item Row)) (st : Prefetch Row)
      → st.channel ≡ channel
      → Ordered whole st
      → Ordered whole (taken channel st)
  taken-Ordered whole none st c h = h
  taken-Ordered whole (some item) st c (inl (lost, w)) = inl (
    lost,
    w ∙ rw c (sym (append_assoc st.received (item ∷ []) (to_send st.location st.source ++ lost))),
  )
  taken-Ordered whole (some item) st c (inr (front, lost, w, said, over)) =
      inr (front, lost, w, append-nil (st.received ++ item ∷ []) ∙ taken_said, over)
    where
      taken_said : st.received ++ item ∷ [] ≡ front ++ err cancelled ∷ []
      taken_said = rw c at said

  happen-Ordered :
      (whole : List (Item Row)) (e : Event) (st : Prefetch Row)
      → Ordered whole st
      → Ordered whole (happen e st)
  unfolding happen prefetch_loop recv
  happen-Ordered whole Event.poll_task st (inl h) = task-Ordered whole st.location st refl h
  happen-Ordered whole Event.poll_task st (inr (front, lost, w, said, over)) =
      subst (λ l. Ordered whole (task_at l st)) (sym over) (inr (front, lost, w, said, over))
  happen-Ordered whole Event.receive st h = opened st.receiver_open
    where
      opened : (o : Bool) → Ordered whole (if o then taken st.channel st else st)
      opened true = taken-Ordered whole st.channel st refl h
      opened false = h
  happen-Ordered whole Event.cancel st h = h
  happen-Ordered whole Event.drop_receiver st h = h

  all-Ordered :
      (whole : List (Item Row)) (es : List Event) (st : Prefetch Row)
      → Ordered whole st
      → Ordered whole (happen_all es st)
  unfolding happen_all
  all-Ordered whole [] st h = h
  all-Ordered whole (e ∷ es) st h = all-Ordered whole es (happen e st) (happen-Ordered whole e st h)

  snoc_inj : (xs ys : List (Item Row)) (x y : Item Row) → xs ++ x ∷ [] ≡ ys ++ y ∷ [] → xs ≡ ys
  snoc_inj [] [] x y h = refl
  snoc_inj [] (b ∷ []) x y h = cc
  snoc_inj [] (b ∷ c ∷ ys) x y h = cc
  snoc_inj (a ∷ []) [] x y h = cc
  snoc_inj (a ∷ c ∷ xs) [] x y h = cc
  snoc_inj (a ∷ xs) (b ∷ ys) x y h =
      let tails : xs ++ x ∷ [] ≡ ys ++ y ∷ [] = cc in
      let same : xs ≡ ys = snoc_inj xs ys x y tails in
      let heads : a ≡ b = cc in ap₂ (λ z zs. z ∷ zs) heads same

  -- The taken items are a front of the result's, alone or with `Cancelled` after them.
  abbrev pub InOrder : List (Item Row) → List (Item Row) → Type 0
  InOrder whole received =
      ((lost : List (Item Row)) × (whole ≡ received ++ lost))
      ⊎ ((front : List (Item Row)) × (lost : List (Item Row)) × (whole ≡ front ++ lost)
          × (received ≡ front ++ err cancelled ∷ []))

  cut-InOrder :
      (whole received front lost : List (Item Row)) (channel : Option (Item Row))
      → whole ≡ front ++ lost
      → received ++ in_channel channel ≡ front ++ err cancelled ∷ []
      → InOrder whole received
  cut-InOrder whole received front lost none w said =
      inr (front, lost, w, sym (append-nil received) ∙ said)
  cut-InOrder whole received front lost (some item) w said =
      inl (lost, w ∙ ap (λ l. l ++ lost) (sym (snoc_inj received front item (err cancelled) said)))

  Ordered-InOrder :
      (whole : List (Item Row)) (st : Prefetch Row) → Ordered whole st → InOrder whole st.received
  Ordered-InOrder whole st (inl (lost, w)) =
      inl (in_channel st.channel ++ (to_send st.location st.source ++ lost), w)
  Ordered-InOrder whole st (inr (front, lost, w, said, over)) =
      cut-InOrder whole st.received front lost st.channel w said

  -- Whatever the task, its reader and a cancel do, in any order, the reader has taken the first items of
  -- the result, none lost, repeated or moved, and after them at most the error of the cancel.
  pub received-InOrder :
      (source : List (Item Row)) (es : List Event)
      → InOrder (items source) (happen_all es (spawn_prefetch source)).received
  unfolding spawn_prefetch
  received-InOrder source es =
      Ordered-InOrder (items source) (happen_all es (spawn_prefetch source)) (
        all-Ordered (items source) es (spawn_prefetch source)
          (inl ([], sym (append-nil (items source)))))
