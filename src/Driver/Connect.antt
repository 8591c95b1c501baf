-- ===== src/Driver/Connect.antt =====
-- The options of a `SpannerDatabase` as a whole, the ladder of its credentials and the stack that its
-- connections share: src/driver.rs and src/driver/credentials.rs.
pub mod Accepted
pub mod Credentials
pub mod Cache
use adbc_spanner.Common.{
  Bool, true, false, ◌==◌, ◌||◌, ◌&&◌, not, List, [], ◌∷◌, ◌++◌, Option, none, some, if◌then◌else◌,
  Str, is_nil, codes, Result, ok, err, Done, ◌>>=◌, invalid_arguments, invalid_state,
  not_implemented, not_found, ℕ,
}
use adbc_spanner.Options.{OptionValue, string_option}
use adbc_spanner.Driver.Config.{Database, Arm, set_other, get_other, or_not_found}
use adbc_spanner.Driver.Uri.{set_uri_option}

-- `OptionDatabase` of adbc_core.
pub data OptionDatabase : Type 0 where
  uri username password : OptionDatabase
  other : Str → OptionDatabase

abbrev pub set_uri : (F : Type 0) {C : Type 0} → Result Str → Database C → Database C × Result Done
set_uri F (ok value) db = set_uri_option F value db
set_uri F (err e) db = (db, err e)

abbrev pub is_some : {A : Type 0} → Option A → Bool
is_some none = false
is_some (some a) = true

abbrev pub not_the_token : Option Arm → Option Arm
not_the_token (some Arm.access_token) = none
not_the_token option = option

module _ {F C : Type 0} where
  unfoldable pub set_option : OptionDatabase → OptionValue F → Database C → Database C × Result Done
  unfolding set_uri_option set_other string_option
  set_option OptionDatabase.uri value db =
      set_uri F (string_option value) (record db { connected = none })
  set_option (OptionDatabase.other name) value db = set_other name value db
  set_option OptionDatabase.username value db =
      (record db { connected = none }, err not_implemented)
  set_option OptionDatabase.password value db =
      (record db { connected = none }, err not_implemented)

module _ {C : Type 0} where
  unfoldable pub get_option_string : OptionDatabase → Database C → Result Str
  unfolding get_other
  get_option_string OptionDatabase.uri db = or_not_found db.uri
  get_option_string (OptionDatabase.other name) db = get_other name db
  get_option_string OptionDatabase.username db = err not_found
  get_option_string OptionDatabase.password db = err not_found

  unfoldable pub explicit_credential_option : Database C → Option Arm
  explicit_credential_option db =
      if is_some db.keyfile_json
      then some Arm.keyfile_json
      else if is_some db.keyfile
      then some Arm.keyfile
      else if is_some db.impersonate_target_principal
      then some Arm.target_principal
      else if is_some db.access_token
      then some Arm.access_token
      else none

  unfoldable pub conflicting_credential_with_access_token : Database C → Option Arm
  unfolding explicit_credential_option
  conflicting_credential_with_access_token db = not_the_token (explicit_credential_option db)

pub data CredentialChoice : Type 0 where
  anonymous access_token impersonate keyfile adc : CredentialChoice

-- What lies outside the driver: the environment variable, the file system and the client library. `Cred`
-- is its `Credentials`; its builders' errors are `InvalidArguments`.
pub record World (C : Type 0) : Type 1 where
  pub emulator_host : Option Str
  pub read_to_string : Str → Option Str
  pub Cred : Type 0
  pub anonymous : Cred
  -- `build_static_token_credentials`, `build_credentials_from_json` and `AdcCredentials`, with the quota
  -- project.
  pub static_token : Str → Option Str → Result Cred
  pub from_json : Str → Option Str → Result Cred
  pub application_default : Option Str → Result Cred
  -- `build_impersonated_credentials`, with the delegates, the scopes and the lifetime.
  pub impersonated : Cred → Str → List Str → List Str → ℕ → Option Str → Result Cred
  -- `Spanner::builder()` to the database client.
  pub build : Option Str → Option Cred → Str → Result C

abbrev pub starts_with : Str → Str → Bool
starts_with s [] = true
starts_with [] (p ∷ ps) = false
starts_with (c ∷ cs) (p ∷ ps) = c == p && starts_with cs ps

unfoldable pub ensure_scheme : Str → Str
ensure_scheme host =
    if starts_with host (codes "http://") || starts_with host (codes "https://")
    then host
    else codes "http://" ++ host

abbrev pub needed : Option Str → Result Str
needed none = err invalid_state
needed (some database) = ok database

module _ {C : Type 0} (world : World C) where
  open world use {Cred}

  abbrev from_host : Bool → Option Str → Option Str → Option Str × Bool
  from_host emulator endpoint none = (endpoint, emulator)
  from_host emulator endpoint (some host) =
      if is_nil host
      then (endpoint, emulator)
      else (elim endpoint [ some given ↦ some given | none ↦ some (ensure_scheme host) ], true)

  -- The effective endpoint and emulator mode.
  unfoldable pub effective : Database C → Option Str × Bool
  unfolding ensure_scheme
  effective db = from_host db.emulator db.endpoint world.emulator_host

  -- The guards of `connect` on the credential options.
  unfoldable pub credential_guards : Database C → Bool → Result Done
  unfolding explicit_credential_option conflicting_credential_with_access_token
  credential_guards db emulator =
      if emulator && is_some (explicit_credential_option db)
      then err invalid_state
      else if emulator && is_some db.quota_project
      then err invalid_state
      else if is_some db.access_token && is_some (conflicting_credential_with_access_token db)
      then err invalid_state
      else ok tt

  abbrev read_keyfile : Option Str → Option Str → Result (Option Str)
  read_keyfile (some json) file = ok (some json)
  read_keyfile none none = ok none
  read_keyfile none (some path) = elim (world.read_to_string path) [
    | some json ↦ ok (some json)
    | none ↦ err invalid_arguments
  ]

  unfoldable pub credentials_json : Database C → Result (Option Str)
  credentials_json db = read_keyfile db.keyfile_json db.keyfile

  unfoldable pub credential_choice : Database C → Bool → CredentialChoice
  credential_choice db emulator =
      if emulator
      then CredentialChoice.anonymous
      else if is_some db.access_token
      then CredentialChoice.access_token
      else if is_some db.impersonate_target_principal
      then CredentialChoice.impersonate
      else if is_some db.keyfile_json || is_some db.keyfile
      then CredentialChoice.keyfile
      else CredentialChoice.adc

  -- `.map(…).transpose()`
  abbrev pub transposed : {A : Type 0} → Option A → (A → Result Cred) → Result (Option Cred)
  transposed none f = ok none
  transposed (some a) f = f a >>= λ c. ok (some c)

  abbrev source : Option Str → Result Cred
  source (some json) = world.from_json json none
  source none = world.application_default none

  abbrev lifetime_or : Option ℕ → ℕ
  lifetime_or none = 3600
  lifetime_or (some secs) = secs

  abbrev pub build_choice : CredentialChoice → Database C → Option Str → Result (Option Cred)
  build_choice CredentialChoice.anonymous db json = ok (some world.anonymous)
  build_choice CredentialChoice.access_token db json =
      transposed db.access_token (λ token. world.static_token token db.quota_project)
  build_choice CredentialChoice.impersonate db json =
      transposed db.impersonate_target_principal (λ target. source json >>= λ base.
      world.impersonated base target db.impersonate_delegates db.impersonate_scopes
        (lifetime_or db.impersonate_lifetime_secs) db.quota_project)
  build_choice CredentialChoice.keyfile db json =
      transposed json (λ text. world.from_json text db.quota_project)
  build_choice CredentialChoice.adc db json =
      transposed db.quota_project (λ project. world.application_default (some project))

  unfoldable pub build_credentials : Database C → Bool → Option Str → Result (Option Cred)
  unfolding credential_choice
  build_credentials db emulator json = build_choice (credential_choice db emulator) db json

  unfoldable pub connect : Database C → Result C
  unfolding effective credential_guards credentials_json build_credentials
  connect db = do
    database ← needed db.database
    _ ← credential_guards db (effective db).1
    json ← credentials_json db
    credentials ← build_credentials db (effective db).1 json
    world.build (effective db).0 credentials database

  abbrev pub cached : Database C → Result C → Database C × Result C
  cached db (ok connected) = (record db { connected = some connected }, ok connected)
  cached db (err e) = (db, err e)

  abbrev pub shared : Database C → Option C → Database C × Result C
  shared db (some connected) = (db, ok connected)
  shared db none = cached db (connect db)

  unfoldable pub connect_shared : Database C → Database C × Result C
  unfolding connect
  connect_shared db = shared db db.connected
