-- ===== src/Tests/Database.antt =====
-- Runs of the options, the connection URI and the connections of a database: src/driver.rs,
-- src/driver/uri.rs and src/driver/credentials.rs.
use adbc_spanner.Common.{
  ℕ, Option, List, [], ◌∷◌, none, some, ◌≡◌, refl, arith, Str, codes, ok, err, invalid_arguments,
  invalid_state, not_found, pos,
}
use adbc_spanner.Options.{OptionValue}
use adbc_spanner.Driver.Config.{Database, new, option_access_token, option_endpoint}
use adbc_spanner.Driver.Uri.{set_uri_option, percent_decode, is_hex, hex_value, utf8_from}
use adbc_spanner.Driver.Uri.Secrets.{set_uri_option-secrets_kept}
use adbc_spanner.Driver.Uri.Atomic.{set_uri_option-atomic}
use adbc_spanner.Driver.Uri.Decode.{Encodes, percent_decode_complete, percent_decode-Encodes}
use adbc_spanner.Driver.Connect.{World, OptionDatabase, connect, get_option_string, effective}
use adbc_spanner.Driver.Connect.Accepted.{Configured}
use adbc_spanner.Driver.Connect.Credentials.{connect-Configured}
use adbc_spanner.Driver.Connect.Cache.{Use, used_all, first_built, since_option, connected-used_all}

-- Client stacks are numbers, and so are doubles.
abbrev fresh : Database ℕ
fresh = new ℕ

abbrev tokened : Database ℕ
tokened = record fresh { access_token = some (codes "t"); database = some (codes "d") }

abbrev full_uri : Str
full_uri = codes "spanner://h:9010/projects/p/instances/i/databases/d?spanner.emulator=true"

abbrev bad_uri : Str
bad_uri = codes "spanner:///projects/p/instances/i/databases/d?spanner.quota_project=x"

uri_run : (set_uri_option ℕ full_uri fresh).1 ≡ ok tt
unfolding set_uri_option new
uri_run = refl

uri_endpoint_run : (set_uri_option ℕ full_uri fresh).0.endpoint ≡ some (codes "h:9010")
unfolding set_uri_option new
uri_endpoint_run = refl

secret_run :
    (set_uri_option ℕ
      (codes "spanner:///projects/p/instances/i/databases/d?spanner.auth.access_token=t")
      fresh).1
    ≡ err invalid_arguments
unfolding set_uri_option new
secret_run = refl

set_uri_option-secrets_kept_example :
    ((set_uri_option ℕ full_uri tokened).0.keyfile_json ≡ tokened.keyfile_json)
    × ((set_uri_option ℕ full_uri tokened).0.access_token ≡ tokened.access_token)
set_uri_option-secrets_kept_example = set_uri_option-secrets_kept ℕ full_uri tokened

set_uri_option-atomic_example : (set_uri_option ℕ bad_uri tokened).0 ≡ tokened
set_uri_option-atomic_example =
    set_uri_option-atomic ℕ bad_uri tokened invalid_arguments (unfold set_uri_option new in refl)

abbrev escaped : Str
escaped = codes "a%2Fb"

escaped-Encodes : Encodes escaped (codes "a/b")
escaped-Encodes =
    Encodes.plain b'a' (λ e. absurd (omega arith))
      (Encodes.escape b'%' b'2' b'F' b'/' refl (unfold is_hex in refl) (unfold is_hex in refl)
        (unfold hex_value in refl) (Encodes.plain b'b' (λ e. absurd (omega arith)) Encodes.done))

percent_decode_complete_example : percent_decode escaped ≡ ok (codes "a/b")
percent_decode_complete_example =
    percent_decode_complete escaped (codes "a/b") escaped-Encodes (unfold utf8_from in refl)

percent_decode-Encodes_example : Encodes escaped (codes "a/b")
percent_decode-Encodes_example =
    percent_decode-Encodes escaped (codes "a/b") (unfold percent_decode in refl)

-- A world with no emulator, whose stacks are numbered by the length of the path.
abbrev world : World ℕ
world = record {
  emulator_host = none;
  read_to_string = λ path. none;
  Cred = Str;
  anonymous = [];
  static_token = λ token quota. ok token;
  from_json = λ json quota. ok json;
  application_default = λ quota. ok [];
  impersonated = λ base target delegates scopes secs quota. ok target;
  build = λ endpoint cred database. ok 7;
}

connect-Configured_example :
    (database : Str) × (cred : Option Str) × (tokened.database ≡ some database)
    × Configured world tokened (effective world tokened).1 cred
    × (world.build (effective world tokened).0 cred database ≡ ok 7)
connect-Configured_example = connect-Configured world tokened 7 (unfold connect new in refl)

conflict_run :
    connect world (record tokened { keyfile = some (codes "/k.json") }) ≡ err invalid_state
unfolding connect new
conflict_run = refl

-- Another environment, with another stack.
abbrev other_world : World ℕ
other_world = record world { build = λ endpoint cred database. ok 9 }

abbrev uses : List (Use ℕ ℕ)
uses =
    Use.option OptionDatabase.uri (OptionValue.string full_uri)
    ∷ Use.connection world
    ∷ Use.option (OptionDatabase.other option_endpoint) (OptionValue.int (pos 1))
    ∷ Use.connection other_world
    ∷ []

connected-used_all_example :
    (used_all uses (new ℕ)).connected ≡ first_built (since_option [] uses) (used_all uses (new ℕ))
connected-used_all_example = connected-used_all uses

cached_run : (used_all uses fresh).connected ≡ some 9
unfolding used_all new
cached_run = refl

write_only_run :
    get_option_string (OptionDatabase.other option_access_token) tokened ≡ err not_found
unfolding get_option_string new
write_only_run = refl
