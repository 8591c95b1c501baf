-- ===== src/Driver/Config.antt =====
-- The options of a `SpannerDatabase` but its URI: src/driver.rs, with the names of src/lib.rs. A text is
-- the list of its bytes.
use adbc_spanner.Common.{
  ℕ, ◌^◌, Bool, true, false, ◌||◌, List, [], ◌∷◌, ◌++◌, map, Option, none, some, if◌then◌else◌, Str,
  is_nil, codes, str_eq, trim_utf8, split, display, Result, ok, err, Done, invalid_arguments,
  not_implemented, not_found, pos, negsuc,
}
use adbc_spanner.Options.{OptionValue, string_option, bool_option, parse_unsigned, or_invalid}

-- `SpannerDatabase`, with the client stack as a type `C`.
pub record Database (C : Type 0) : Type 0 where
  pub uri : Option Str
  pub database : Option Str
  pub endpoint : Option Str
  pub emulator : Bool
  pub keyfile : Option Str
  pub keyfile_json : Option Str
  pub impersonate_target_principal : Option Str
  pub impersonate_delegates : List Str
  pub impersonate_scopes : List Str
  pub impersonate_lifetime_secs : Option ℕ
  pub access_token : Option Str
  pub quota_project : Option Str
  pub connected : Option C

unfoldable pub new : (C : Type 0) → Database C
new C = record {
  uri = none;
  database = none;
  endpoint = none;
  emulator = false;
  keyfile = none;
  keyfile_json = none;
  impersonate_target_principal = none;
  impersonate_delegates = [];
  impersonate_scopes = [];
  impersonate_lifetime_secs = none;
  access_token = none;
  quota_project = none;
  connected = none;
}

abbrev pub option_endpoint : Str
option_endpoint = codes "spanner.endpoint"

abbrev pub option_emulator : Str
option_emulator = codes "spanner.emulator"

abbrev pub option_keyfile : Str
option_keyfile = codes "spanner.auth.keyfile"

abbrev pub option_keyfile_json : Str
option_keyfile_json = codes "spanner.auth.keyfile_json"

abbrev pub option_impersonate_target_principal : Str
option_impersonate_target_principal = codes "spanner.auth.impersonate.target_principal"

abbrev pub option_impersonate_delegates : Str
option_impersonate_delegates = codes "spanner.auth.impersonate.delegates"

abbrev pub option_impersonate_scopes : Str
option_impersonate_scopes = codes "spanner.auth.impersonate.scopes"

abbrev pub option_impersonate_lifetime : Str
option_impersonate_lifetime = codes "spanner.auth.impersonate.lifetime"

abbrev pub option_access_token : Str
option_access_token = codes "spanner.auth.access_token"

abbrev pub option_quota_project : Str
option_quota_project = codes "spanner.auth.quota_project"

-- The arms of `match &key` for `OptionDatabase::Other(name)`.
pub data Arm : Type 0 where
  endpoint emulator keyfile keyfile_json target_principal delegates scopes lifetime : Arm
  access_token quota_project : Arm

-- The first arm whose guard holds.
unfoldable pub arm_named : Str → Option Arm
unfolding str_eq
arm_named name =
    if str_eq name option_endpoint
    then some Arm.endpoint
    else if str_eq name option_emulator
    then some Arm.emulator
    else if str_eq name option_keyfile
    then some Arm.keyfile
    else if str_eq name option_keyfile_json
    then some Arm.keyfile_json
    else if str_eq name option_impersonate_target_principal
    then some Arm.target_principal
    else if str_eq name option_impersonate_delegates
    then some Arm.delegates
    else if str_eq name option_impersonate_scopes
    then some Arm.scopes
    else if str_eq name option_impersonate_lifetime
    then some Arm.lifetime
    else if str_eq name option_access_token
    then some Arm.access_token
    else if str_eq name option_quota_project
    then some Arm.quota_project
    else none

abbrev non_empty : List Str → List Str
non_empty [] = []
non_empty (p ∷ ps) = if is_nil p then non_empty ps else p ∷ non_empty ps

unfoldable pub comma_separated : Str → List Str
unfolding trim_utf8 split
comma_separated value = non_empty (map trim_utf8 (split b',' value))

-- `ok_or_else(|| option_not_set(…))`
abbrev pub or_not_found : Option Str → Result Str
or_not_found none = err not_found
or_not_found (some s) = ok s

-- `join(",")`
unfoldable pub joined : List Str → Str
joined [] = []
joined (p ∷ []) = p
joined (p ∷ q ∷ ps) = p ++ b',' ∷ joined (q ∷ ps)

module _ {F : Type 0} where
  unfoldable pub u64_seconds_value : OptionValue F → Result ℕ
  unfolding trim_utf8 parse_unsigned
  u64_seconds_value (OptionValue.int (pos seconds)) = ok seconds
  u64_seconds_value (OptionValue.int (negsuc n)) = err invalid_arguments
  u64_seconds_value (OptionValue.string s) = or_invalid (parse_unsigned (2 ^ 64) (trim_utf8 s))
  u64_seconds_value (OptionValue.bytes b) = err invalid_arguments
  u64_seconds_value (OptionValue.double d) = err invalid_arguments

module _ {C : Type 0} where
  -- `self.field = parse(value)?`
  abbrev pub assign {κ} :
      {A : Type κ} → Database C → Result A → (A → Database C) → Database C × Result Done
  assign db (ok a) field = (field a, ok tt)
  assign db (err e) field = (db, err e)

module _ {F C : Type 0} where
  unfoldable pub set_arm : Arm → OptionValue F → Database C → Database C × Result Done
  unfolding string_option bool_option comma_separated u64_seconds_value
  set_arm Arm.endpoint value db =
      assign db (string_option value) (λ s. record db { endpoint = some s })
  set_arm Arm.emulator value db = assign db (bool_option value) (λ b. record db { emulator = b })
  set_arm Arm.keyfile value db =
      assign db (string_option value) (λ s. record db { keyfile = some s })
  set_arm Arm.keyfile_json value db =
      assign db (string_option value) (λ s. record db { keyfile_json = some s })
  set_arm Arm.target_principal value db =
      assign db (string_option value) (λ s. record db { impersonate_target_principal = some s })
  set_arm Arm.delegates value db =
      assign db (string_option value) (λ s. record db { impersonate_delegates = comma_separated s })
  set_arm Arm.scopes value db =
      assign db (string_option value) (λ s. record db { impersonate_scopes = comma_separated s })
  set_arm Arm.lifetime value db =
      assign db (u64_seconds_value value) (λ n. record db { impersonate_lifetime_secs = some n })
  set_arm Arm.access_token value db =
      assign db (string_option value) (λ s. record db { access_token = some s })
  set_arm Arm.quota_project value db =
      assign db (string_option value)
        (λ s. record db { quota_project = if is_nil s then none else some s })

  abbrev pub set_named : Option Arm → OptionValue F → Database C → Database C × Result Done
  set_named none value db = (db, err not_implemented)
  set_named (some arm) value db = set_arm arm value db

  -- `set_option(OptionDatabase::Other(name), value)`
  unfoldable pub set_other : Str → OptionValue F → Database C → Database C × Result Done
  unfolding arm_named set_arm
  set_other name value db = set_named (arm_named name) value (record db { connected = none })

abbrev unless_empty : List Str → Option Str
unless_empty [] = none
unless_empty (p ∷ ps) = some (joined (p ∷ ps))

abbrev shown : Bool → Str
shown true = codes "true"
shown false = codes "false"

abbrev printed : Option ℕ → Option Str
printed none = none
printed (some secs) = some (display 19 secs)

module _ {C : Type 0} where
  unfoldable pub get_arm : Arm → Database C → Option Str
  unfolding joined display
  get_arm Arm.endpoint db = db.endpoint
  get_arm Arm.emulator db = some (shown db.emulator)
  get_arm Arm.keyfile db = db.keyfile
  get_arm Arm.keyfile_json db = none
  get_arm Arm.target_principal db = db.impersonate_target_principal
  get_arm Arm.delegates db = unless_empty db.impersonate_delegates
  get_arm Arm.scopes db = unless_empty db.impersonate_scopes
  get_arm Arm.lifetime db = printed db.impersonate_lifetime_secs
  get_arm Arm.access_token db = none
  get_arm Arm.quota_project db = db.quota_project

  -- `get_option_string(OptionDatabase::Other(name))`
  unfoldable pub get_other : Str → Database C → Result Str
  unfolding arm_named get_arm str_eq
  get_other name db =
      if str_eq name option_keyfile_json || str_eq name option_access_token
      then err not_found
      else elim (arm_named name) [ none ↦ err not_found | some arm ↦ or_not_found (get_arm arm db) ]
