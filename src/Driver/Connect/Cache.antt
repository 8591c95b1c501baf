-- ===== src/Driver/Connect/Cache.antt =====
-- The client stack that a database's connections share: `connect_shared` and `set_option` of
-- src/driver.rs.
use adbc_spanner.Common.{
  List, [], ◌∷◌, Option, none, some, Str, Result, ok, err, ◌>>=◌, ◌≡◌, refl, ap, ap₂, ◌∙◌, sym,
  ◌++◌,
}
use adbc_spanner.Options.{OptionValue, string_option}
use adbc_spanner.Driver.Config.{
  Database, Arm, new, set_other, set_arm, arm_named, set_named, assign,
}
use adbc_spanner.Driver.Uri.Stable.{set_uri_option_stable}
use adbc_spanner.Driver.Connect.{
  World, needed, build_choice, CredentialChoice, OptionDatabase, set_option, connect,
  connect_shared, effective, credential_guards, explicit_credential_option,
  conflicting_credential_with_access_token, credentials_json, build_credentials, credential_choice,
  set_uri, cached, shared,
}

-- One use of a database: an option set, or a connection taken, each in an environment of its own.
pub data Use (F C : Type 0) : Type 1 where
  option : OptionDatabase → OptionValue F → Use F C
  connection : World C → Use F C

module _ {F C : Type 0} where
  unfoldable pub used : Use F C → Database C → Database C
  unfolding set_option connect_shared
  used (Use.option key value) db = (set_option key value db).0
  used (Use.connection world) db = (connect_shared world db).0

  unfoldable pub used_all : List (Use F C) → Database C → Database C
  unfolding used
  used_all [] db = db
  used_all (u ∷ us) db = used_all us (used u db)

module _ {C : Type 0} where
  -- No stack is kept.
  abbrev Dropped : Database C → Type 0
  Dropped db = db.connected ≡ none

  assign-Dropped :
      {A : Type 0} (db : Database C) (r : Result A) (field : A → Database C)
      → Dropped db
      → ((a : A) → Dropped (field a))
      → Dropped (assign db r field).0
  assign-Dropped db (ok a) field h k = k a
  assign-Dropped db (err e) field h k = h

module _ {F C : Type 0} where
  set_arm-Dropped :
      (arm : Arm) (value : OptionValue F) (db : Database C)
      → Dropped db
      → Dropped (set_arm arm value db).0
  unfolding set_arm
  set_arm-Dropped Arm.endpoint value db h = assign-Dropped db _ _ h (λ a. h)
  set_arm-Dropped Arm.emulator value db h = assign-Dropped db _ _ h (λ a. h)
  set_arm-Dropped Arm.keyfile value db h = assign-Dropped db _ _ h (λ a. h)
  set_arm-Dropped Arm.keyfile_json value db h = assign-Dropped db _ _ h (λ a. h)
  set_arm-Dropped Arm.target_principal value db h = assign-Dropped db _ _ h (λ a. h)
  set_arm-Dropped Arm.delegates value db h = assign-Dropped db _ _ h (λ a. h)
  set_arm-Dropped Arm.scopes value db h = assign-Dropped db _ _ h (λ a. h)
  set_arm-Dropped Arm.lifetime value db h = assign-Dropped db _ _ h (λ a. h)
  set_arm-Dropped Arm.access_token value db h = assign-Dropped db _ _ h (λ a. h)
  set_arm-Dropped Arm.quota_project value db h = assign-Dropped db _ _ h (λ a. h)

  set_named-Dropped :
      (arm : Option Arm) (value : OptionValue F) (db : Database C)
      → Dropped db
      → Dropped (set_named arm value db).0
  set_named-Dropped none value db h = h
  set_named-Dropped (some arm) value db h = set_arm-Dropped arm value db h

  set_other-Dropped :
      (name : Str) (value : OptionValue F) (db : Database C) → Dropped (set_other name value db).0
  unfolding set_other
  set_other-Dropped name value db =
      set_named-Dropped (arm_named name) value (record db { connected = none }) refl

module _ (F : Type 0) {C : Type 0} where
  set_uri-Dropped :
      (value : Result Str) (db : Database C) → Dropped db → Dropped (set_uri F value db).0
  set_uri-Dropped (ok value) db h =
      set_uri_option_stable F Dropped (λ name v d c k. set_other-Dropped name v d) (λ parsed d k. k)
        (λ v d k. k) value db h
  set_uri-Dropped (err e) db h = h

module _ {F C : Type 0} where
  set_option-Dropped :
      (key : OptionDatabase) (value : OptionValue F) (db : Database C)
      → Dropped (set_option key value db).0
  unfolding set_option
  set_option-Dropped OptionDatabase.uri value db =
      set_uri-Dropped F (string_option value) (record db { connected = none }) refl
  set_option-Dropped OptionDatabase.username value db = refl
  set_option-Dropped OptionDatabase.password value db = refl
  set_option-Dropped (OptionDatabase.other name) value db = set_other-Dropped name value db

module _ {C : Type 0} where
  build_choice_anew :
      (world : World C) (db : Database C) (o : Option C) (choice : CredentialChoice)
      (json : Option Str)
      → build_choice world choice (record db { connected = o }) json
        ≡ build_choice world choice db json
  build_choice_anew world db o CredentialChoice.anonymous json = refl
  build_choice_anew world db o CredentialChoice.access_token json = refl
  build_choice_anew world db o CredentialChoice.impersonate json = refl
  build_choice_anew world db o CredentialChoice.keyfile json = refl
  build_choice_anew world db o CredentialChoice.adc json = refl

  -- `connect` does not read the stack that is kept.
  connect_anew :
      (world : World C) (db : Database C) (o : Option C)
      → connect world (record db { connected = o }) ≡ connect world db
  unfolding connect effective credential_guards explicit_credential_option
      conflicting_credential_with_access_token credentials_json build_credentials credential_choice
  connect_anew world db o = λ i. needed db.database >>= λ database.
      credential_guards world db (effective world db).1 >>= λ _.
      credentials_json world db >>= λ json.
      build_choice_anew world db o (credential_choice world db (effective world db).1) json i
      >>= λ credentials. world.build (effective world db).0 credentials database

  -- The stack that the first connection that succeeds builds, with the options of `db`.
  abbrev pub or_else : Result C → Option C → Option C
  or_else (ok connected) later = some connected
  or_else (err e) later = later

  unfoldable pub first_built : List (World C) → Database C → Option C
  first_built [] db = none
  first_built (world ∷ worlds) db = or_else (connect world db) (first_built worlds db)

  first_built_anew :
      (worlds : List (World C)) (db : Database C) (o : Option C)
      → first_built worlds (record db { connected = o }) ≡ first_built worlds db
  unfolding first_built
  first_built_anew [] db o = refl
  first_built_anew (world ∷ worlds) db o =
      ap₂ or_else (connect_anew world db o) (first_built_anew worlds db o)

  -- One more connection, after others.
  abbrev built_by : Option C → Result C → Option C
  built_by (some connected) r = some connected
  built_by none r = or_else r none

  built_after :
      (r r' : Result C) (later : Option C)
      → or_else r (built_by later r') ≡ built_by (or_else r later) r'
  built_after (ok c) r' later = refl
  built_after (err e) r' later = refl

  first_built-append :
      (worlds : List (World C)) (world : World C) (db : Database C)
      → first_built (worlds ++ world ∷ []) db ≡ built_by (first_built worlds db) (connect world db)
  unfolding first_built
  first_built-append [] world db = refl
  first_built-append (w ∷ worlds) world db =
      ap (or_else (connect w db)) (first_built-append worlds world db)
      ∙ built_after (connect w db) (connect world db) (first_built worlds db)

  cached-connected :
      (world : World C) (db : Database C) (r : Result C)
      → db.connected ≡ none
      → (cached world db r).0.connected ≡ built_by none r
  cached-connected world db (ok connected) h = refl
  cached-connected world db (err e) h = h

  -- A connection keeps the stack that there is, and else its own; it changes no option.
  shared-connected :
      (world : World C) (db : Database C) (o : Option C)
      → db.connected ≡ o
      → (shared world db o).0.connected ≡ built_by o (connect world db)
  shared-connected world db none h = cached-connected world db (connect world db) h
  shared-connected world db (some connected) h = h

  cached_same :
      (worlds : List (World C)) (world : World C) (db : Database C) (r : Result C)
      → first_built worlds (cached world db r).0 ≡ first_built worlds db
  cached_same worlds world db (ok connected) = first_built_anew worlds db (some connected)
  cached_same worlds world db (err e) = refl

  shared_same :
      (worlds : List (World C)) (world : World C) (db : Database C) (o : Option C)
      → first_built worlds (shared world db o).0 ≡ first_built worlds db
  shared_same worlds world db none = cached_same worlds world db (connect world db)
  shared_same worlds world db (some connected) = refl

module _ {F C : Type 0} where
  -- The environments of the connections since the last option was set, after those of `worlds`.
  unfoldable pub since_option : List (World C) → List (Use F C) → List (World C)
  since_option worlds [] = worlds
  since_option worlds (Use.option key value ∷ us) = since_option [] us
  since_option worlds (Use.connection world ∷ us) = since_option (worlds ++ world ∷ []) us

  all-connected :
      (us : List (Use F C)) (worlds : List (World C)) (db : Database C)
      → db.connected ≡ first_built worlds db
      → (used_all us db).connected ≡ first_built (since_option worlds us) (used_all us db)
  unfolding used_all used connect_shared since_option
  all-connected [] worlds db h = h
  all-connected (Use.option key value ∷ us) worlds db h =
      all-connected us [] (set_option key value db).0
        (unfold first_built in set_option-Dropped key value db)
  all-connected (Use.connection world ∷ us) worlds db h =
      all-connected us (worlds ++ world ∷ []) (shared world db db.connected).0 (
        shared-connected world db db.connected refl
        ∙ ap (λ o. built_by o (connect world db)) h
        ∙ sym (first_built-append worlds world db)
        ∙ sym (shared_same (worlds ++ world ∷ []) world db db.connected))

  -- Whatever options are set and connections are taken from a new database, in whatever order and
  -- environments, the stack that is kept is the one that the options as they stand give in the
  -- environment of the first connection since an option was last set that they succeed in; where there
  -- is none, no stack is kept.
  pub connected-used_all :
      (us : List (Use F C))
      → (used_all us (new C)).connected ≡ first_built (since_option [] us) (used_all us (new C))
  unfolding new
  connected-used_all us = all-connected us [] (new C) (unfold first_built in refl)
