-- ===== src/Common/Outcome.antt =====
-- src/error.rs: `adbc_core::error::Result`, with an error reduced to its `Status`. Messages are
-- diagnostics and are not modelled.
use mathlib.Core.Path.{◌≡◌, refl}

-- `Status` of adbc_core; `okay` is its `Ok`.
pub data Status : Type 0 where
  invalid_arguments invalid_state invalid_data not_found not_implemented already_exists : Status
  internal cancelled timeout io unauthenticated unauthorized unknown integrity okay : Status

pub data Result {ℓ} (A : Type ℓ) : Type ℓ where
  ok : A → Result A
  err : Status → Result A

-- The value of a function that only succeeds or fails, Rust's `()`.
abbrev pub Done : Type 0
Done = Unit {0}

-- The operator `?`.
infixl 5 ◌>>=◌
abbrev pub ◌>>=◌ {κ ℓ} : {T : Type κ} {U : Type ℓ} → Result T → (T → Result U) → Result U
err status >>= next = err status
ok value >>= next = next value

-- The operator `?` in a method that may have changed its state: an error leaves with the state
-- reached so far.
abbrev pub check {ℓ κ} : {A : Type ℓ} {T : Type κ} → T → Result Done → T × Result A → T × Result A
check s (ok _) rest = rest
check s (err e) rest = (s, err e)

-- Where a chain succeeded, its first part did, and the rest on that part's value.
pub >>=-ok {κ ℓ} :
    {T : Type κ} {U : Type ℓ} (first : Result T) (next : T → Result U) {result : U}
    → (first >>= next) ≡ ok result
    → (value : T) × (next value ≡ ok result) × (first ≡ ok value)
>>=-ok (err status) next e = cc
>>=-ok (ok value) next e = (value, e, refl)
