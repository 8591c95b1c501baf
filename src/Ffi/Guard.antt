-- ===== src/Ffi/Guard.antt =====
-- src/ffi/guard.rs: the copies into a caller's buffer. Memory is a list of bytes from the pointer on,
-- as long as the allocation; a null pointer is `none`. An access outside an allocation is a fault.
pub mod Protocol
use adbc_spanner.Common.{
  ℕ, zero, suc, ◌+◌, Bool, true, false, ◌&&◌, List, [], ◌∷◌, ◌++◌, Option, none, some, ltb, leb,
  if◌then◌else◌, length, contains, Result, ok, err, invalid_arguments, internal, Done, Status,
}

-- The arguments `dst` and `length`, with what they point to.
pub record Buffer : Type 0 where
  pub dst : Option (List ℕ)
  pub len : Option ℕ

-- A call that came back, or wrote where it may not.
pub data Access (A : Type 0) : Type 0 where
  returns : A → Access A
  fault : Access A

-- `copy_nonoverlapping` of `bytes` to the start of the memory.
abbrev cons_byte : ℕ → Access (List ℕ) → Access (List ℕ)
cons_byte b (returns mem) = returns (b ∷ mem)
cons_byte b fault = fault

unfoldable pub copy_to : List ℕ → List ℕ → Access (List ℕ)
copy_to [] mem = returns mem
copy_to (b ∷ bytes) [] = fault
copy_to (b ∷ bytes) (m ∷ mem) = cons_byte b (copy_to bytes mem)

abbrev is_null : {A : Type 0} → Option A → Bool
is_null none = true
is_null (some _) = false

abbrev checked_space : Option (List ℕ) → ℕ → Result ℕ
checked_space dst available =
    if is_null dst && ltb 0 available then err invalid_arguments else ok available

unfoldable pub available_space : Buffer → Result ℕ
available_space b = elim b.len [
  | none ↦ err invalid_arguments
  | some available ↦ checked_space b.dst available
]

-- The state after a copy to `dst`, with the size stored through `length`. A copy of no bytes leaves a
-- null `dst` alone.
abbrev stored : ℕ → Access (List ℕ) → Access (Buffer × Result Done)
stored size (returns mem) = returns (record { dst = some mem; len = some size }, ok tt)
stored size fault = fault

abbrev copied : List ℕ → ℕ → Option (List ℕ) → Access (Buffer × Result Done)
copied bytes size none = fault
copied bytes size (some mem) = stored size (copy_to bytes mem)

-- The size alone is stored.
abbrev sized : Buffer → ℕ → Access (Buffer × Result Done)
sized b size = returns (record b { len = some size }, ok tt)

abbrev write_string_into : List ℕ → Buffer → Result ℕ → Access (Buffer × Result Done)
write_string_into bytes b (err e) = returns (b, err e)
write_string_into bytes b (ok available) =
    if contains 0 bytes
    then returns (b, err internal)
    else if leb (length bytes + 1) available
    then copied (bytes ++ 0 ∷ []) (length bytes + 1) b.dst
    else sized b (length bytes + 1)

unfoldable pub write_string : List ℕ → Buffer → Access (Buffer × Result Done)
unfolding available_space copy_to contains
write_string bytes b = write_string_into bytes b (available_space b)

abbrev write_bytes_into : List ℕ → Buffer → Result ℕ → Access (Buffer × Result Done)
write_bytes_into value b (err e) = returns (b, err e)
write_bytes_into value b (ok available) = elim b.dst [
  | none ↦ sized b (length value)
  | some mem ↦
      if leb (length value) available
      then stored (length value) (copy_to value mem)
      else sized b (length value)
]

unfoldable pub write_bytes : List ℕ → Buffer → Access (Buffer × Result Done)
unfolding available_space copy_to
write_bytes value b = write_bytes_into value b (available_space b)
