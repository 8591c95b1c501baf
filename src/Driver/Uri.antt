-- ===== src/Driver/Uri.antt =====
-- src/driver/uri.rs: the `spanner:` connection URI. A text is the list of its bytes.
pub mod Decode
pub mod Stable
pub mod Secrets
pub mod Atomic
use adbc_spanner.Common.{
  ℕ, zero, suc, ◌+◌, ◌-◌, ◌*◌, Bool, true, false, not, ◌&&◌, ◌||◌, List, [], ◌∷◌, ◌++◌, Option,
  none, some, ◌==◌, ltb, if◌then◌else◌, Str, length, take, drop, is_nil, codes, str_eq,
  eq_ignore_ascii_case, contains, within, split_once, split, Result, ok, err, Done, check, ◌>>=◌,
  invalid_arguments,
}
use adbc_spanner.Options.{OptionValue}
use adbc_spanner.Driver.Config.{
  Database, new, set_other, option_endpoint, option_emulator, option_keyfile, option_keyfile_json,
  option_impersonate_target_principal, option_impersonate_delegates, option_impersonate_scopes,
  option_impersonate_lifetime, option_access_token, option_quota_project,
}

-- `slice::contains` of a string.
unfoldable pub contains_str : Str → List Str → Bool
unfolding str_eq
contains_str s [] = false
contains_str s (x ∷ xs) = str_eq s x || contains_str s xs

abbrev pub uri_query_options : List Str
uri_query_options =
    option_endpoint ∷ option_emulator ∷ option_keyfile ∷ option_impersonate_target_principal
    ∷ option_impersonate_delegates ∷ option_impersonate_scopes ∷ option_impersonate_lifetime
    ∷ option_quota_project ∷ []

abbrev pub uri_secret_options : List Str
uri_secret_options = option_keyfile_json ∷ option_access_token ∷ []

unfoldable pub connection_uri_remainder : Str → Option Str
unfolding eq_ignore_ascii_case
connection_uri_remainder value =
    if not (ltb (length value) 8) && eq_ignore_ascii_case (take 8 value) (codes "spanner:")
    then some (drop 8 value)
    else none

-- `is_ascii_hexdigit`
unfoldable pub is_hex : ℕ → Bool
is_hex b = within b'0' b'9' b || within b'a' b'f' b || within b'A' b'F' b

-- `from_str_radix(…, 16)` of one digit.
unfoldable pub hex_value : ℕ → ℕ
hex_value b = if within b'0' b'9' b then b - b'0' else if within b'a' b'f' b then b - 87 else b - 55

abbrev pub then_byte : ℕ → Result Str → Result Str
then_byte b (ok out) = ok (b ∷ out)
then_byte b (err e) = err e

-- The loop of `percent_decode`.
unfoldable pub decode_bytes : Str → Result Str
unfolding is_hex hex_value
decode_bytes [] = ok []
decode_bytes (c ∷ []) = if c == b'%' then err invalid_arguments else ok (c ∷ [])
decode_bytes (c ∷ d ∷ []) =
    let plain = then_byte c (decode_bytes (d ∷ [])) in
    if c == b'%' then err invalid_arguments else plain
decode_bytes (c ∷ h ∷ l ∷ rest) =
    let plain = then_byte c (decode_bytes (h ∷ l ∷ rest)) in
    let escaped = then_byte (hex_value h * 16 + hex_value l) (decode_bytes rest) in
    if c == b'%' then if is_hex h && is_hex l then escaped else err invalid_arguments else plain

-- What may follow a first byte: a number of continuation bytes, and the range of the next of them.
unfoldable pub utf8_lead : ℕ → Option (ℕ × ℕ × ℕ)
utf8_lead b =
    if ltb b 0x80
    then some (0, 0x80, 0xbf)
    else if within 0xc2 0xdf b
    then some (1, 0x80, 0xbf)
    else if b == 0xe0
    then some (2, 0xa0, 0xbf)
    else if b == 0xed
    then some (2, 0x80, 0x9f)
    else if within 0xe1 0xef b
    then some (2, 0x80, 0xbf)
    else if b == 0xf0
    then some (3, 0x90, 0xbf)
    else if within 0xf1 0xf3 b
    then some (3, 0x80, 0xbf)
    else if b == 0xf4
    then some (3, 0x80, 0x8f)
    else none

-- `String::from_utf8`, where `need` continuation bytes are to come.
unfoldable pub utf8_from : ℕ → ℕ → ℕ → Str → Bool
unfolding utf8_lead
utf8_from zero lo hi [] = true
utf8_from (suc need) lo hi [] = false
utf8_from zero lo hi (b ∷ bs) = elim (utf8_lead b) [
  | none ↦ false
  | some (need, lo', hi') ↦ utf8_from need lo' hi' bs
]
utf8_from (suc need) lo hi (b ∷ bs) = within lo hi b && utf8_from need 0x80 0xbf bs

abbrev pub is_utf8 : Str → Bool
is_utf8 s = utf8_from 0 0 0 s

unfoldable pub percent_decode : Str → Result Str
unfolding decode_bytes contains utf8_from
percent_decode s =
    if not (contains b'%' s)
    then ok s
    else (decode_bytes s >>= λ out. if is_utf8 out then ok out else err invalid_arguments)

pub record ParsedConnectionUri : Type 0 where
  pub database : Str
  pub endpoint : Option Str
  pub params : List (Str × Str)

abbrev pub uri_parts : Str → Option Str → List (Str × Str) → ParsedConnectionUri
uri_parts database endpoint params = record {
  database = database;
  endpoint = endpoint;
  params = params;
}

-- The pattern on the segments of the path.
unfoldable pub is_database_path : List Str → Bool
unfolding str_eq
is_database_path (a ∷ p ∷ b ∷ i ∷ c ∷ d ∷ []) =
    str_eq a (codes "projects")
    && str_eq b (codes "instances")
    && str_eq c (codes "databases")
    && not (is_nil p)
    && not (is_nil i)
    && not (is_nil d)
is_database_path _ = false

-- `unwrap_or`
abbrev pub split_or : Option (Str × Str) → Str × Str → Str × Str
split_or none default = default
split_or (some parts) default = parts

abbrev pub known_param : Str → Str → Result (Str × Str)
known_param key value =
    if contains_str key uri_secret_options
    then err invalid_arguments
    else if not (contains_str key uri_query_options)
    then err invalid_arguments
    else (percent_decode value >>= λ decoded. ok (key, decoded))

-- The body of the loop over the pairs.
unfoldable pub query_param : Str → Result (Str × Str)
unfolding percent_decode split_once contains_str
query_param pair =
    let (key, value) = split_or (split_once b'=' pair) (pair, []) in
    percent_decode key >>= λ decoded. known_param decoded value

abbrev pub non_empty : List Str → List Str
non_empty [] = []
non_empty (p ∷ ps) = if is_nil p then non_empty ps else p ∷ non_empty ps

unfoldable pub query_params : List Str → Result (List (Str × Str))
unfolding query_param
query_params [] = ok []
query_params (pair ∷ pairs) = do
  param ← query_param pair
  params ← query_params pairs
  ok (param ∷ params)

abbrev pub strip_slashes : Str → Option Str
strip_slashes (a ∷ b ∷ rest) = if a == b'/' && b == b'/' then some rest else none
strip_slashes _ = none

abbrev pub parse_query : Str → Str → Str → Result ParsedConnectionUri
parse_query authority path query =
    if not (is_database_path (split b'/' path))
    then err invalid_arguments
    else (query_params (non_empty (split b'&' query)) >>= λ params.
        ok (uri_parts path (if is_nil authority then none else some authority) params))

abbrev pub parse_authority : Option Str → Str → Result ParsedConnectionUri
parse_authority none query = err invalid_arguments
parse_authority (some after) query =
    let (authority, path) = split_or (split_once b'/' after) (after, []) in
    parse_query authority path query

-- After the check for a fragment.
abbrev pub without_fragment : Option (Str × Str) → Str → Result ParsedConnectionUri
without_fragment (some fragment) remainder = err invalid_arguments
without_fragment none remainder =
    let (before_query, query) = split_or (split_once b'?' remainder) (remainder, []) in
    parse_authority (strip_slashes before_query) query

unfoldable pub parse_connection_uri : Str → Result ParsedConnectionUri
unfolding split_once split is_database_path query_params
parse_connection_uri remainder = without_fragment (split_once b'#' remainder) remainder

abbrev pub located : {C : Type 0} → Database C → ParsedConnectionUri → Database C
located db parsed = record db {
  database = some parsed.database;
  endpoint = elim parsed.endpoint [ none ↦ db.endpoint | some endpoint ↦ some endpoint ];
}

module _ (F : Type 0) {C : Type 0} where
  -- The loop of `set_option` over the query parameters.
  unfoldable pub set_params : List (Str × Str) → Database C → Database C × Result Done
  unfolding set_other
  set_params [] db = (db, ok tt)
  set_params ((key, value) ∷ params) db =
      let text : OptionValue F = OptionValue.string value in
      let (db', r) = set_other key text db in check db' r (set_params params db')

  abbrev pub apply_parsed :
      ParsedConnectionUri → Result Done → Database C → Database C × Result Done
  apply_parsed parsed (ok _) db = set_params parsed.params (located db parsed)
  apply_parsed parsed (err e) db = (db, err e)

  abbrev pub apply_result : Result ParsedConnectionUri → Database C → Database C × Result Done
  apply_result (ok parsed) db = apply_parsed parsed (set_params parsed.params (new C)).1 db
  apply_result (err e) db = (db, err e)

  -- The query parameters are tried on a scratch database first.
  unfoldable pub apply_connection_uri : Str → Database C → Database C × Result Done
  unfolding parse_connection_uri set_params new
  apply_connection_uri remainder db = apply_result (parse_connection_uri remainder) db

  abbrev pub keep_uri : Str → Database C × Result Done → Database C × Result Done
  keep_uri value (db, ok _) = (record db { uri = some value }, ok tt)
  keep_uri value (db, err e) = (db, err e)

  abbrev pub set_remainder : Str → Option Str → Database C → Database C × Result Done
  set_remainder value none db = (db, err invalid_arguments)
  set_remainder value (some remainder) db = keep_uri value (apply_connection_uri remainder db)

  unfoldable pub set_uri_option : Str → Database C → Database C × Result Done
  unfolding connection_uri_remainder apply_connection_uri
  set_uri_option value db = set_remainder value (connection_uri_remainder value) db
