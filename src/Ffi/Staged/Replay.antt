-- ===== src/Ffi/Staged/Replay.antt =====
-- The options that `Init` of src/ffi replays: one for each key, the last one set, in the order in
-- which the keys were first set; and a failed `Init` keeps them.
use adbc_spanner.Common.{
  Bool, true, false, List, [], ◌∷◌, ◌++◌, Option, none, some, ◌≡◌, inl, inr, refl, sym, ap, ◌∙◌,
  subst, if◌then◌else◌, Result, ok, err, invalid_state, Status, arith, Bool-cases, map, ◌||◌,
}
use adbc_spanner.Ffi.Staged.{Key, set, Staged, init, initialized, ready_state}

module _ {K : Type 0} (key : Key K) where
  open key use {same, same_iff}

  pub has : List K → K → Bool
  has [] k = false
  has (j ∷ ks) k = same j k || has ks k

  abbrev pub IsDistinct : List K → Type 0
  IsDistinct [] = Unit {0}
  IsDistinct (k ∷ ks) = (has ks k ≡ false) × IsDistinct ks

  same_refl : (k : K) → same k k ≡ true
  same_refl k = (same_iff k k).1 refl

  has-snoc : (ks : List K) (k j : K) → has (ks ++ k ∷ []) j ≡ (has ks j || same k j)
  unfolding has
  has-snoc [] k j = ground arith
  has-snoc (i ∷ ks) k j = ground (arith, has-snoc ks k j)

  IsDistinct-snoc :
      (ks : List K) (k : K) → has ks k ≡ false → IsDistinct ks → IsDistinct (ks ++ k ∷ [])
  unfolding has
  IsDistinct-snoc [] k h d = (refl, tt)
  IsDistinct-snoc (j ∷ ks) k h d = (
    ground (arith, has-snoc ks k j, same_iff k j, same_iff j k),
    IsDistinct-snoc ks k (ground arith) d.1,
  )

  -- The keys after one more is set: at the end, if it is new.
  abbrev pub add_key : List K → K → List K
  add_key ks k = if has ks k then ks else ks ++ k ∷ []

  add_key-IsDistinct : (ks : List K) (k : K) → IsDistinct ks → IsDistinct (add_key ks k)
  add_key-IsDistinct ks k d = elim (Bool-cases (has ks k)) [
    | inl h ↦ rw h d
    | inr h ↦ rw h (IsDistinct-snoc ks k h d)
  ]

module _ {K V : Type 0} (key : Key K) where
  open key use {same, same_iff}

  -- The value that a reader of the entries finds.
  pub find : List (K × V) → K → Option V
  find [] k = none
  find ((j, w) ∷ entries) k = if same j k then some w else find entries k

  abbrev pub keys : List (K × V) → List K
  keys entries = map (λ e. e.0) entries

  find-set :
      (entries : List (K × V)) (k j : K) (v : V)
      → find (set key entries k v) j ≡ (if same k j then some v else find entries j)
  unfolding find set
  find-set [] k j v = refl
  find-set ((i, w) ∷ entries) k j v =
      ground (arith, same_iff i k, same_iff k j, same_iff i j, find-set entries k j v)

  keys-set :
      (entries : List (K × V)) (k : K) (v : V)
      → keys (set key entries k v) ≡ add_key key (keys entries) k
  unfolding has set
  keys-set [] k v = refl
  keys-set ((i, w) ∷ entries) k v = ground (arith, keys-set entries k v)

  -- The buffer after a sequence of `SetOption` calls.
  abbrev pub set_all : List (K × V) → List (K × V) → List (K × V)
  set_all entries [] = entries
  set_all entries ((k, v) ∷ calls) = set_all (set key entries k v) calls

  -- The last call for a key, or what was there before.
  abbrev pub last_call : Option V → List (K × V) → K → Option V
  last_call found [] j = found
  last_call found ((k, v) ∷ calls) j = last_call (if same k j then some v else found) calls j

  -- The keys in the order of their first calls.
  abbrev pub first_calls : List K → List (K × V) → List K
  first_calls ks [] = ks
  first_calls ks ((k, v) ∷ calls) = first_calls (add_key key ks k) calls

  find-set_all :
      (calls entries : List (K × V)) (j : K)
      → find (set_all entries calls) j ≡ last_call (find entries j) calls j
  find-set_all [] entries j = refl
  find-set_all ((k, v) ∷ calls) entries j =
      find-set_all calls (set key entries k v) j
      ∙ ap (λ o. last_call o calls j) (find-set entries k j v)

  keys-set_all :
      (calls entries : List (K × V))
      → keys (set_all entries calls) ≡ first_calls (keys entries) calls
  keys-set_all [] entries = refl
  keys-set_all ((k, v) ∷ calls) entries =
      keys-set_all calls (set key entries k v)
      ∙ ap (λ ks. first_calls ks calls) (keys-set entries k v)

  first_calls-IsDistinct :
      (calls : List (K × V)) (ks : List K)
      → IsDistinct key ks
      → IsDistinct key (first_calls ks calls)
  first_calls-IsDistinct [] ks d = d
  first_calls-IsDistinct ((k, v) ∷ calls) ks d =
      first_calls-IsDistinct calls (add_key key ks k) (add_key-IsDistinct key ks k d)

  -- After any calls of `SetOption` on a fresh object: each key is buffered with the value of its last
  -- call, the keys stand in the order of their first calls, and none stands twice.
  pub set_all-replay :
      (calls : List (K × V)) (j : K)
      → (find (set_all [] calls) j ≡ last_call none calls j)
        × (keys (set_all [] calls) ≡ first_calls [] calls)
        × IsDistinct key (keys (set_all [] calls))
  unfolding find
  set_all-replay calls j = (
    find-set_all calls [] j,
    keys-set_all calls [],
    subst (IsDistinct key) (sym (keys-set_all calls [])) (first_calls-IsDistinct calls [] tt),
  )

module _ {K V S : Type 0} where
  -- A failed `Init` leaves the object as it was, so its options are kept and `Init` can be called
  -- again.
  pub init_error_unchanged :
      (s t : Staged K V S) (build : List (K × V) → Result S) (e : Status)
      → init s build ≡ (t, err e)
      → t ≡ s
  unfolding init
  init_error_unchanged s t build e h = ground arith

  built :
      (s t : Staged K V S) (r : Result S)
      → initialized s r ≡ (t, ok tt)
      → (b : S) × (t ≡ Staged.ready b)
  built s t (ok b) h = (b, cc)
  built s t (err e) h = cc

  -- After an `Init` that succeeded the object is ready with what was built, and every later `Init` is
  -- refused with `InvalidState` and leaves it so.
  pub init_once :
      (s t : Staged K V S) (build build' : List (K × V) → Result S)
      → init s build ≡ (t, ok tt)
      → ((b : S) × (ready_state t ≡ ok b)) × (init t build' ≡ (t, err invalid_state))
  unfolding init ready_state
  init_once (Staged.ready q) t build build' h = cc
  init_once (Staged.pending entries) t build build' h =
      let (b, e) = built (Staged.pending entries) t (build entries) h in ((b, rw e refl), rw e refl)
