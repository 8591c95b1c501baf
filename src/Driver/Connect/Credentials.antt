-- ===== src/Driver/Connect/Credentials.antt =====
-- The credential that `connect` of src/driver.rs builds the client with: the guards and the ladder of
-- src/driver/credentials.rs.
use adbc_spanner.Common.{
  Bool, true, false, Option, none, some, Str, Result, ok, err, invalid_arguments, ◌>>=◌, >>=-ok,
  ◌≡◌, inl, inr, ℕ, refl, subst,
}
use adbc_spanner.Driver.Config.{Database}
use adbc_spanner.Driver.Connect.{
  World, needed, credential_guards, explicit_credential_option,
  conflicting_credential_with_access_token, credential_choice, effective, connect, credentials_json,
  build_credentials, lifetime_or,
}
use adbc_spanner.Driver.Connect.Accepted.{KeyText, Base, Configured, Lifetime}

module _ {C : Type 0} (world : World C) where
  open world use {Cred}

  lifetime_or-Lifetime : (set : Option ℕ) → Lifetime world set (lifetime_or world set)
  lifetime_or-Lifetime none = inl (refl, refl)
  lifetime_or-Lifetime (some secs) = inr refl

  needed_lem : (o : Option Str) {database : Str} → needed o ≡ ok database → o ≡ some database
  needed_lem none h = cc
  needed_lem (some d) h = cc

  ok_inj : {x y : Option Cred} → ok x ≡ ok y → x ≡ y
  ok_inj p = cc

  -- A builder that succeeded, under `map` and `transpose`.
  built :
      (P : Option Cred → Type 0) (r : Result Cred) {cred : Option Cred}
      → ((c : Cred) → r ≡ ok c → P (some c))
      → (r >>= λ c. ok (some c)) ≡ ok cred
      → P cred
  built P (ok c) k h = subst P (ok_inj h) (k c refl)
  built P (err e) k h = cc

  -- An impersonation on a source.
  impersonated_on :
      (P : Option Cred → Type 0) (source : Result Cred) (wrap : Cred → Result Cred)
      {cred : Option Cred}
      → ((base c : Cred) → source ≡ ok base → wrap base ≡ ok c → P (some c))
      → (source >>= wrap >>= λ c. ok (some c)) ≡ ok cred
      → P cred
  impersonated_on P (ok base) wrap k h = built P (wrap base) (λ c e. k base c refl e) h
  impersonated_on P (err e) wrap k h = cc

  -- The guards, the reading of the key and the building of the credential.
  abbrev chain : Database C → Bool → Result (Option Cred)
  chain db emulator = do
    _ ← credential_guards world db emulator
    json ← credentials_json world db
    build_credentials world db emulator json

  -- The database with those credential options.
  abbrev with_options :
      Database C → Option Str → Option Str → Option Str → Option Str → Option Str → Database C
  with_options db json file target bearer quota = record db {
    keyfile_json = json;
    keyfile = file;
    impersonate_target_principal = target;
    access_token = bearer;
    quota_project = quota;
  }

  emulated_case :
      (db : Database C) (j f p t q : Option Str) {cred : Option Cred}
      → chain (with_options db j f p t q) true ≡ ok cred
      → Configured world (with_options db j f p t q) true cred
  unfolding credential_guards explicit_credential_option credentials_json build_credentials
      credential_choice
  emulated_case db (some j) f p t q h = cc
  emulated_case db none (some f) p t q h = cc
  emulated_case db none none (some p) t q h = cc
  emulated_case db none none none (some t) q h = cc
  emulated_case db none none none none (some q) h = cc
  emulated_case db none none none none none h =
      subst (Configured world (with_options db none none none none none) true) (ok_inj h)
        (Configured.emulated (refl, refl) refl refl refl)

  -- What a key that was read from a file is used for.
  file_case :
      (db : Database C) (path : Str) (p q read : Option Str) {cred : Option Cred}
      → world.read_to_string path ≡ read
      → (elim read [ some json ↦ ok (some json) | none ↦ err invalid_arguments ] >>= λ json.
          build_credentials world (with_options db none (some path) p none q) false json)
        ≡ ok cred
      → Configured world (with_options db none (some path) p none q) false cred
  unfolding build_credentials credential_choice
  file_case db path p q none e h = cc
  file_case db path (some target) q (some json) e h =
      impersonated_on
        (Configured world (with_options db none (some path) (some target) none q) false)
        (world.from_json json none) _
        (λ base c x y.
          Configured.impersonating target (lifetime_or world db.impersonate_lifetime_secs) base c
            refl refl (lifetime_or-Lifetime db.impersonate_lifetime_secs)
            (Base.from_key json base (KeyText.read_file path json refl refl e) x) y)
        h
  file_case db path none q (some json) e h =
      built (Configured world (with_options db none (some path) none none q) false)
        (world.from_json json q)
        (λ c x. Configured.keyed json c (KeyText.read_file path json refl refl e) refl refl x) h

  plain_case :
      (db : Database C) (j f p t q : Option Str) {cred : Option Cred}
      → chain (with_options db j f p t q) false ≡ ok cred
      → Configured world (with_options db j f p t q) false cred
  unfolding credential_guards explicit_credential_option conflicting_credential_with_access_token
      credentials_json build_credentials credential_choice
  plain_case db (some j) f p (some t) q h = cc
  plain_case db none (some f) p (some t) q h = cc
  plain_case db none none (some p) (some t) q h = cc
  plain_case db none none none (some t) q h =
      built (Configured world (with_options db none none none (some t) q) false)
        (world.static_token t q) (λ c x. Configured.token t c (refl, refl) refl refl x) h
  plain_case db (some json) f (some target) none q h =
      impersonated_on (Configured world (with_options db (some json) f (some target) none q) false)
        (world.from_json json none) _
        (λ base c x y.
          Configured.impersonating target (lifetime_or world db.impersonate_lifetime_secs) base c
            refl refl (lifetime_or-Lifetime db.impersonate_lifetime_secs)
            (Base.from_key json base (KeyText.inline json refl) x) y)
        h
  plain_case db none none (some target) none q h =
      impersonated_on (Configured world (with_options db none none (some target) none q) false)
        (world.application_default none) _
        (λ base c x y.
          Configured.impersonating target (lifetime_or world db.impersonate_lifetime_secs) base c
            refl refl (lifetime_or-Lifetime db.impersonate_lifetime_secs)
            (Base.ambient base (refl, refl) x) y)
        h
  plain_case db (some json) f none none q h =
      built (Configured world (with_options db (some json) f none none q) false)
        (world.from_json json q)
        (λ c x. Configured.keyed json c (KeyText.inline json refl) refl refl x) h
  plain_case db none (some path) p none q h =
      file_case db path p q (world.read_to_string path) refl h
  plain_case db none none none none (some project) h =
      built (Configured world (with_options db none none none none (some project)) false)
        (world.application_default (some project))
        (λ c x. Configured.billed project c (refl, refl) refl refl refl x) h
  plain_case db none none none none none h =
      subst (Configured world (with_options db none none none none none) false) (ok_inj h)
        (Configured.by_client (refl, refl) refl refl refl)

  chain-Configured :
      (db : Database C) (emulator : Bool) {cred : Option Cred}
      → chain db emulator ≡ ok cred
      → Configured world db emulator cred
  chain-Configured db true h =
      emulated_case db db.keyfile_json db.keyfile db.impersonate_target_principal db.access_token
        db.quota_project h
  chain-Configured db false h =
      plain_case db db.keyfile_json db.keyfile db.impersonate_target_principal db.access_token
        db.quota_project h

  -- Where `connect` succeeds, the client was built for the database that is set, at the effective
  -- endpoint, with the credential of an accepted combination of the options: the anonymous one in emulator
  -- mode with no credential option and no quota project; else the access token with neither key nor
  -- impersonation; an impersonation, on the key if one is set; the key; or the default credentials. The
  -- key is the inline one, or else the file's.
  pub connect-Configured :
      (db : Database C) (connected : C)
      → connect world db ≡ ok connected
      → (database : Str) × (cred : Option Cred) × (db.database ≡ some database)
        × Configured world db (effective world db).1 cred
        × (world.build (effective world db).0 cred database ≡ ok connected)
  unfolding connect
  connect-Configured db connected h =
      let (database, rest, d) = >>=-ok (needed db.database) _ h in
      let (u, more, g) = >>=-ok (credential_guards world db (effective world db).1) _ rest in
      let (json, last, j) = >>=-ok (credentials_json world db) _ more in
      let (cred, b, c) = >>=-ok (build_credentials world db (effective world db).1 json) _ last in
      (
        database,
        cred,
        needed_lem db.database d,
        chain-Configured db (effective world db).1 (rw (g, j) c),
        b,
      )
