-- ===== src/Driver/Uri/Atomic.antt =====
-- A connection URI that is refused changes nothing: `set_uri_option` of src/driver/uri.rs and its trial
-- on a scratch database.
use adbc_spanner.Common.{
  List, [], ◌∷◌, Option, none, some, Str, Result, ok, err, Status, ◌≡◌, refl, ap, Done, check,
}
use adbc_spanner.Options.{OptionValue}
use adbc_spanner.Driver.Config.{
  Database, Arm, new, set_other, set_arm, set_named, arm_named, assign,
}
use adbc_spanner.Driver.Uri.{
  set_uri_option, apply_connection_uri, set_params, set_remainder, apply_result, apply_parsed,
  keep_uri, located, connection_uri_remainder, parse_connection_uri, ParsedConnectionUri,
}

module _ {C : Type 0} (a b : Database C) where
  -- Whether a value is accepted does not depend on the database.
  assign_result :
      {A : Type 0} (r : Result A) (f g : A → Database C) → (assign a r f).1 ≡ (assign b r g).1
  assign_result (ok x) f g = refl
  assign_result (err e) f g = refl

  arm_result :
      {F : Type 0} (arm : Arm) (value : OptionValue F)
      → (set_arm arm value a).1 ≡ (set_arm arm value b).1
  unfolding set_arm
  arm_result Arm.endpoint value = assign_result _ _ _
  arm_result Arm.emulator value = assign_result _ _ _
  arm_result Arm.keyfile value = assign_result _ _ _
  arm_result Arm.keyfile_json value = assign_result _ _ _
  arm_result Arm.target_principal value = assign_result _ _ _
  arm_result Arm.delegates value = assign_result _ _ _
  arm_result Arm.scopes value = assign_result _ _ _
  arm_result Arm.lifetime value = assign_result _ _ _
  arm_result Arm.access_token value = assign_result _ _ _
  arm_result Arm.quota_project value = assign_result _ _ _

  named_result :
      {F : Type 0} (arm : Option Arm) (value : OptionValue F)
      → (set_named arm value a).1 ≡ (set_named arm value b).1
  named_result none value = refl
  named_result (some arm) value = arm_result arm value

module _ (F : Type 0) {C : Type 0} where
  other_result :
      (name : Str) (value : OptionValue F) (a b : Database C)
      → (set_other name value a).1 ≡ (set_other name value b).1
  unfolding set_other
  other_result name value a b =
      named_result (record a { connected = none }) (record b { connected = none }) (arm_named name)
        value

  check_result :
      (a b : Database C) (r s : Result Done) (m n : Database C × Result Done)
      → r ≡ s
      → m.1 ≡ n.1
      → (check a r m).1 ≡ (check b s n).1
  check_result a b (ok u) (ok v) m n e f = f
  check_result a b (err x) (err y) m n e f = ap err (cc)
  check_result a b (ok u) (err y) m n e f = cc
  check_result a b (err x) (ok v) m n e f = cc

  params_result :
      (params : List (Str × Str)) (a b : Database C)
      → (set_params F params a).1 ≡ (set_params F params b).1
  unfolding set_params
  params_result [] a b = refl
  params_result ((key, value) ∷ params) a b =
      let text : OptionValue F = OptionValue.string value in
      check_result (set_other key text a).0 (set_other key text b).0 (set_other key text a).1
        (set_other key text b).1 (set_params F params (set_other key text a).0)
        (set_params F params (set_other key text b).0) (other_result key text a b)
        (params_result params (set_other key text a).0 (set_other key text b).0)

  parsed_atomic :
      (parsed : ParsedConnectionUri) (trial : Result Done) (db : Database C) (e : Status)
      → (set_params F parsed.params (new C)).1 ≡ trial
      → (apply_parsed F parsed trial db).1 ≡ err e
      → (apply_parsed F parsed trial db).0 ≡ db
  parsed_atomic parsed (ok u) db e t h =
      absurd (contradiction (params_result parsed.params (new C) (located db parsed)))
    where
      contradiction :
          (set_params F parsed.params (new C)).1
            ≡ (set_params F parsed.params (located db parsed)).1
          → ⊥
      contradiction same = cc
  parsed_atomic parsed (err x) db e t h = refl

  result_atomic :
      (r : Result ParsedConnectionUri) (db : Database C) (e : Status)
      → (apply_result F r db).1 ≡ err e
      → (apply_result F r db).0 ≡ db
  result_atomic (ok parsed) db e h =
      parsed_atomic parsed (set_params F parsed.params (new C)).1 db e refl h
  result_atomic (err x) db e h = refl

  kept_atomic :
      (value : Str) (result : Database C × Result Done) (db : Database C) (e : Status)
      → (result.1 ≡ err e → result.0 ≡ db)
      → (keep_uri F value result).1 ≡ err e
      → (keep_uri F value result).0 ≡ db
  kept_atomic value (d, ok u) db e k h = cc
  kept_atomic value (d, err x) db e k h = k h

  remainder_atomic :
      (value : Str) (remainder : Option Str) (db : Database C) (e : Status)
      → (set_remainder F value remainder db).1 ≡ err e
      → (set_remainder F value remainder db).0 ≡ db
  unfolding apply_connection_uri
  remainder_atomic value none db e h = refl
  remainder_atomic value (some rest) db e h =
      kept_atomic value (apply_connection_uri F rest db) db e
        (λ refused. result_atomic (parse_connection_uri rest) db e refused) h

  -- A value of the `uri` option that is refused leaves every option as it was: what the trial accepts,
  -- the database accepts.
  pub set_uri_option-atomic :
      (value : Str) (db : Database C) (e : Status)
      → (set_uri_option F value db).1 ≡ err e
      → (set_uri_option F value db).0 ≡ db
  unfolding set_uri_option
  set_uri_option-atomic value db e h =
      remainder_atomic value (connection_uri_remainder value) db e h
