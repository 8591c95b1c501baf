-- ===== src/Driver/Connect/Accepted.antt =====
-- The combinations of credential options that `connect` of src/driver.rs accepts, with what
-- src/driver/credentials.rs builds for each.
use adbc_spanner.Common.{Bool, true, false, Option, none, some, Str, ok, ℕ, ◌≡◌, ◌⊎◌}
use adbc_spanner.Driver.Config.{Database}
use adbc_spanner.Driver.Connect.{World}

module _ {C : Type 0} (world : World C) where
  open world use {Cred}

  -- The text of the key: the inline one, or, where none is set, the file's.
  pub data KeyText (db : Database C) : Str → Type 0 where
    inline : (json : Str) → db.keyfile_json ≡ some json → KeyText db json
    read_file :
        (path json : Str)
        → db.keyfile_json ≡ none
        → db.keyfile ≡ some path
        → world.read_to_string path ≡ some json
        → KeyText db json

  -- No key is set.
  abbrev pub NoKey : Database C → Type 0
  NoKey db = (db.keyfile_json ≡ none) × (db.keyfile ≡ none)

  -- The source of an impersonation.
  pub data Base (db : Database C) : Cred → Type 0 where
    from_key :
        (json : Str) (c : Cred) → KeyText db json → world.from_json json none ≡ ok c → Base db c
    ambient : (c : Cred) → NoKey db → world.application_default none ≡ ok c → Base db c

  -- The seconds of an impersonated token's life, an hour where none are set.
  abbrev pub Lifetime : Option ℕ → ℕ → Type 0
  Lifetime set secs = ((set ≡ none) × (secs ≡ 3600)) ⊎ (set ≡ some secs)

  -- The combinations of options that are accepted, each with the credential that is built from them;
  -- `none` leaves it to the client.
  pub data Configured (db : Database C) : Bool → Option Cred → Type 0 where
    emulated :
        NoKey db
        → db.impersonate_target_principal ≡ none
        → db.access_token ≡ none
        → db.quota_project ≡ none
        → Configured db true (some world.anonymous)
    token :
        (t : Str) (c : Cred)
        → NoKey db
        → db.impersonate_target_principal ≡ none
        → db.access_token ≡ some t
        → world.static_token t db.quota_project ≡ ok c
        → Configured db false (some c)
    impersonating :
        (target : Str) (secs : ℕ) (base c : Cred)
        → db.impersonate_target_principal ≡ some target
        → db.access_token ≡ none
        → Lifetime db.impersonate_lifetime_secs secs
        → Base db base
        → world.impersonated base target db.impersonate_delegates db.impersonate_scopes secs
            db.quota_project
          ≡ ok c
        → Configured db false (some c)
    keyed :
        (json : Str) (c : Cred)
        → KeyText db json
        → db.impersonate_target_principal ≡ none
        → db.access_token ≡ none
        → world.from_json json db.quota_project ≡ ok c
        → Configured db false (some c)
    billed :
        (project : Str) (c : Cred)
        → NoKey db
        → db.impersonate_target_principal ≡ none
        → db.access_token ≡ none
        → db.quota_project ≡ some project
        → world.application_default (some project) ≡ ok c
        → Configured db false (some c)
    by_client :
        NoKey db
        → db.impersonate_target_principal ≡ none
        → db.access_token ≡ none
        → db.quota_project ≡ none
        → Configured db false none
