-- ===== src/Ffi/Staged.antt =====
-- src/ffi/handle.rs: an exported object collects options until `Init` (`OptionBuffer`, `Staged`), and
-- the shape of the `*_init` entry points of src/ffi/database.rs and src/ffi/connection.rs. The key type
-- is any with a lawful equality; the state that `Init` builds is a parameter.
pub mod Replay
use adbc_spanner.Common.{
  ℕ, Bool, true, false, List, [], ◌∷◌, ◌++◌, Option, none, some, ◌≡◌, ◌↔◌, if◌then◌else◌, Result,
  ok, err, invalid_state, Done,
}

-- `PartialEq`, as lawful as the driver's derived one.
pub record Key (K : Type 0) : Type 0 where
  pub same : K → K → Bool
  pub same_iff : (a b : K) → (same a b ≡ true) ↔ (a ≡ b)

module _ {K V : Type 0} (key : Key K) where
  open key use {same}

  -- `OptionBuffer::set` on the entries.
  unfoldable pub set : List (K × V) → K → V → List (K × V)
  set [] k v = (k, v) ∷ []
  set ((j, w) ∷ entries) k v = if same j k then (j, v) ∷ entries else (j, w) ∷ set entries k v

pub data Staged (K V S : Type 0) : Type 0 where
  pending : List (K × V) → Staged K V S
  ready : S → Staged K V S

module _ {K V S : Type 0} where
  -- `Staged::default`
  abbrev pub fresh : Staged K V S
  fresh = Staged.pending []

  unfoldable pub ready_state : Staged K V S → Result S
  ready_state (Staged.ready s) = ok s
  ready_state (Staged.pending _) = err invalid_state

  unfoldable pub pending_options : Staged K V S → Result (List (K × V))
  pending_options (Staged.pending entries) = ok entries
  pending_options (Staged.ready _) = err invalid_state

  abbrev initialized : Staged K V S → Result S → Staged K V S × Result Done
  initialized s (ok built) = (Staged.ready built, ok tt)
  initialized s (err e) = (s, err e)

  abbrev build_from :
      Staged K V S → (List (K × V) → Result S) → Result (List (K × V)) → Staged K V S × Result Done
  build_from s build (ok entries) = initialized s (build entries)
  build_from s build (err e) = (s, err e)

  -- An `*_init` entry point: `build` is `new_database_with_opts` or `new_connection_with_opts`.
  unfoldable pub init : Staged K V S → (List (K × V) → Result S) → Staged K V S × Result Done
  unfolding pending_options
  init s build = build_from s build (pending_options s)
