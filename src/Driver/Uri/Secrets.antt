-- ===== src/Driver/Uri/Secrets.antt =====
-- A connection URI carries no secret: src/driver/uri.rs.
use adbc_spanner.Common.{Option, none, some, Str, Result, ok, err, ◌≡◌, ◌≢◌, refl, ap, arith}
use adbc_spanner.Options.{OptionValue}
use adbc_spanner.Driver.Config.{Database, Arm, set_other, set_arm, set_named, arm_named, assign}
use adbc_spanner.Driver.Uri.{set_uri_option, contains_str}
use adbc_spanner.Driver.Uri.Stable.{NotSecret, set_uri_option_stable}

arm-NotSecret :
    (name : Str)
    → NotSecret name
    → (arm_named name ≢ some Arm.keyfile_json) × (arm_named name ≢ some Arm.access_token)
unfolding arm_named contains_str
arm-NotSecret name h = (λ e. ground arith, λ e. ground arith)

module _ {C : Type 0} (json token : Option Str) where
  -- The options that hold a secret, as they are.
  abbrev Secrets : Database C → Type 0
  Secrets db = (db.keyfile_json ≡ json) × (db.access_token ≡ token)

  assign-Secrets :
      {A : Type 0} (db : Database C) (r : Result A) (field : A → Database C)
      → Secrets db
      → ((a : A) → Secrets (field a))
      → Secrets (assign db r field).0
  assign-Secrets db (ok a) field h k = k a
  assign-Secrets db (err e) field h k = h

  arm-Secrets :
      {F : Type 0} (arm : Arm) (value : OptionValue F) (db : Database C)
      → arm ≢ Arm.keyfile_json
      → arm ≢ Arm.access_token
      → Secrets db
      → Secrets (set_arm arm value db).0
  unfolding set_arm
  arm-Secrets Arm.endpoint value db j t h = assign-Secrets db _ _ h (λ a. h)
  arm-Secrets Arm.emulator value db j t h = assign-Secrets db _ _ h (λ a. h)
  arm-Secrets Arm.keyfile value db j t h = assign-Secrets db _ _ h (λ a. h)
  arm-Secrets Arm.keyfile_json value db j t h = absurd (j refl)
  arm-Secrets Arm.target_principal value db j t h = assign-Secrets db _ _ h (λ a. h)
  arm-Secrets Arm.delegates value db j t h = assign-Secrets db _ _ h (λ a. h)
  arm-Secrets Arm.scopes value db j t h = assign-Secrets db _ _ h (λ a. h)
  arm-Secrets Arm.lifetime value db j t h = assign-Secrets db _ _ h (λ a. h)
  arm-Secrets Arm.access_token value db j t h = absurd (t refl)
  arm-Secrets Arm.quota_project value db j t h = assign-Secrets db _ _ h (λ a. h)

  named-Secrets :
      {F : Type 0} (arm : Option Arm) (value : OptionValue F) (db : Database C)
      → arm ≢ some Arm.keyfile_json
      → arm ≢ some Arm.access_token
      → Secrets db
      → Secrets (set_named arm value db).0
  named-Secrets none value db j t h = h
  named-Secrets (some arm) value db j t h =
      arm-Secrets arm value db (λ e. j (ap some e)) (λ e. t (ap some e)) h

  other-Secrets :
      {F : Type 0} (name : Str) (value : OptionValue F) (db : Database C)
      → NotSecret name
      → Secrets db
      → Secrets (set_other name value db).0
  unfolding set_other
  other-Secrets name value db c h =
      named-Secrets (arm_named name) value (record db { connected = none }) (arm-NotSecret name c).0
        (arm-NotSecret name c).1 h

-- Setting the `uri` option changes neither the inline key nor the access token, whatever the URI says.
pub set_uri_option-secrets_kept :
    (F : Type 0) {C : Type 0} (value : Str) (db : Database C)
    → ((set_uri_option F value db).0.keyfile_json ≡ db.keyfile_json)
      × ((set_uri_option F value db).0.access_token ≡ db.access_token)
set_uri_option-secrets_kept F value db =
    set_uri_option_stable F
      (λ d. (d.keyfile_json ≡ db.keyfile_json) × (d.access_token ≡ db.access_token))
      (λ name v d c h. other-Secrets db.keyfile_json db.access_token name v d c h) (λ parsed d h. h)
      (λ v d h. h) value db (refl, refl)
