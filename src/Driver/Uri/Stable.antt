-- ===== src/Driver/Uri/Stable.antt =====
-- What `set_uri_option` of src/driver/uri.rs keeps, where every step of it does.
use adbc_spanner.Common.{
  Bool, true, false, not, List, [], ◌∷◌, Option, none, some, Str, All, Result, ok, err, Done, check,
  ◌>>=◌, >>=-ok, ◌≡◌, refl, ap, subst, invalid_arguments, ◌∙◌, arith, if◌then◌else◌, split_once,
  split, is_nil,
}
use adbc_spanner.Options.{OptionValue}
use adbc_spanner.Driver.Config.{Database, new, set_other}
use adbc_spanner.Driver.Uri.{
  set_uri_option, apply_connection_uri, set_params, set_remainder, apply_result, apply_parsed,
  keep_uri, located, connection_uri_remainder, parse_connection_uri, ParsedConnectionUri,
  contains_str, uri_secret_options, query_param, query_params, known_param, parse_authority,
  without_fragment, uri_parts, parse_query, percent_decode, split_or, strip_slashes,
  is_database_path, non_empty,
}

-- Not the name of an option that holds a secret.
abbrev pub NotSecret : Str → Type 0
NotSecret name = contains_str name uri_secret_options ≡ false

-- No query parameter of a parsed URI sets an option that holds a secret.
abbrev pub Clean : List (Str × Str) → Type 0
Clean params = All (λ param. NotSecret param.0) params

known_param-NotSecret :
    (key value : Str) (param : Str × Str) → known_param key value ≡ ok param → NotSecret param.0
known_param-NotSecret key value param h = ground arith

query_param-NotSecret :
    (pair : Str) (param : Str × Str) → query_param pair ≡ ok param → NotSecret param.0
unfolding query_param
query_param-NotSecret pair param h =
    let (decoded, known, _) =
      >>=-ok (percent_decode (split_or (split_once b'=' pair) (pair, [])).0)
        (λ key. known_param key (split_or (split_once b'=' pair) (pair, [])).1) h in
    known_param-NotSecret decoded (split_or (split_once b'=' pair) (pair, [])).1 param known

ok_cons :
    {A : Type 0} {a b : A} {xs ys : List A}
    → ok (a ∷ xs) ≡ ok (b ∷ ys)
    → (ok a ≡ ok b) × (ok xs ≡ ok ys)
ok_cons h = (cc, cc)

query_params-Clean :
    (pairs : List Str) (params : List (Str × Str)) → query_params pairs ≡ ok params → Clean params
unfolding query_params
query_params-Clean pairs [] h = tt
query_params-Clean [] (p ∷ ps) h = cc
query_params-Clean (pair ∷ pairs) (p ∷ ps) h =
    let (param, rest, first) =
      >>=-ok (query_param pair) (λ param. query_params pairs >>= λ params. ok (param ∷ params)) h in
    let (params, joined, tail) = >>=-ok (query_params pairs) (λ params. ok (param ∷ params)) rest in
    (
      query_param-NotSecret pair p (first ∙ (ok_cons joined).0),
      query_params-Clean pairs ps (tail ∙ (ok_cons joined).1),
    )

gate :
    {A : Type 0} (open_gate : Bool) (r : Result A) {a : A}
    → (if not open_gate then err invalid_arguments else r) ≡ ok a
    → r ≡ ok a
gate true r h = h
gate false r h = cc

params_of : Result ParsedConnectionUri → List (Str × Str)
params_of (ok parsed) = parsed.params
params_of (err e) = []

parse_query-Clean :
    (authority path query : Str) (parsed : ParsedConnectionUri)
    → parse_query authority path query ≡ ok parsed
    → Clean parsed.params
unfolding params_of
parse_query-Clean authority path query parsed h =
    let (params, joined, e) =
      >>=-ok (query_params (non_empty (split b'&' query)))
        (λ params. ok (uri_parts path (if is_nil authority then none else some authority) params))
        (gate (is_database_path (split b'/' path)) _ h) in
    subst Clean (ap params_of joined) (query_params-Clean (non_empty (split b'&' query)) params e)

parse_authority-Clean :
    (authority : Option Str) (query : Str) (parsed : ParsedConnectionUri)
    → parse_authority authority query ≡ ok parsed
    → Clean parsed.params
parse_authority-Clean none query parsed h = cc
parse_authority-Clean (some after) query parsed h =
    parse_query-Clean (split_or (split_once b'/' after) (after, [])).0
      (split_or (split_once b'/' after) (after, [])).1 query parsed h

without_fragment-Clean :
    (fragment : Option (Str × Str)) (remainder : Str) (parsed : ParsedConnectionUri)
    → without_fragment fragment remainder ≡ ok parsed
    → Clean parsed.params
without_fragment-Clean (some fragment) remainder parsed h = cc
without_fragment-Clean none remainder parsed h =
    parse_authority-Clean (strip_slashes (split_or (split_once b'?' remainder) (remainder, [])).0)
      (split_or (split_once b'?' remainder) (remainder, [])).1 parsed h

-- The query parameters of a connection URI that parses name no option that holds a secret.
pub parse_connection_uri-Clean :
    (remainder : Str) (parsed : ParsedConnectionUri)
    → parse_connection_uri remainder ≡ ok parsed
    → Clean parsed.params
unfolding parse_connection_uri
parse_connection_uri-Clean remainder parsed h =
    without_fragment-Clean (split_once b'#' remainder) remainder parsed h

module _ (F : Type 0) {C : Type 0} (P : Database C → Type 0)
    (other : (name : Str) (value : OptionValue F) (db : Database C)
      → NotSecret name
      → P db
      → P (set_other name value db).0)
    (place : (parsed : ParsedConnectionUri) (db : Database C) → P db → P (located db parsed))
    (keep : (value : Str) (db : Database C) → P db → P (record db { uri = some value })) where
  checked_stable :
      (db : Database C) (r : Result Done) (rest : Database C × Result Done)
      → P db
      → P rest.0
      → P (check db r rest).0
  checked_stable db (ok u) rest h k = k
  checked_stable db (err e) rest h k = h

  params_stable :
      (params : List (Str × Str)) (db : Database C)
      → Clean params
      → P db
      → P (set_params F params db).0
  unfolding set_params
  params_stable [] db c h = h
  params_stable ((key, value) ∷ params) db (c, cs) h =
      let text : OptionValue F = OptionValue.string value in
      let set = other key text db c h in
      checked_stable (set_other key text db).0 (set_other key text db).1
        (set_params F params (set_other key text db).0) set
        (params_stable params (set_other key text db).0 cs set)

  parsed_stable :
      (parsed : ParsedConnectionUri) (r : Result Done) (db : Database C)
      → Clean parsed.params
      → P db
      → P (apply_parsed F parsed r db).0
  parsed_stable parsed (ok u) db c h =
      params_stable parsed.params (located db parsed) c (place parsed db h)
  parsed_stable parsed (err e) db c h = h

  result_stable :
      (remainder : Str) (r : Result ParsedConnectionUri) (db : Database C)
      → parse_connection_uri remainder ≡ r
      → P db
      → P (apply_result F r db).0
  result_stable remainder (ok parsed) db e h =
      parsed_stable parsed (set_params F parsed.params (new C)).1 db
        (parse_connection_uri-Clean remainder parsed e) h
  result_stable remainder (err x) db e h = h

  kept_stable :
      (value : Str) (result : Database C × Result Done) → P result.0 → P (keep_uri F value result).0
  kept_stable value (db, ok u) h = keep value db h
  kept_stable value (db, err e) h = h

  remainder_stable :
      (value : Str) (remainder : Option Str) (db : Database C)
      → P db
      → P (set_remainder F value remainder db).0
  unfolding apply_connection_uri
  remainder_stable value none db h = h
  remainder_stable value (some rest) db h =
      kept_stable value (apply_connection_uri F rest db)
        (result_stable rest (parse_connection_uri rest) db refl h)

  -- What each step keeps, the whole does.
  pub set_uri_option_stable :
      (value : Str) (db : Database C) → P db → P (set_uri_option F value db).0
  unfolding set_uri_option
  set_uri_option_stable value db h = remainder_stable value (connection_uri_remainder value) db h
