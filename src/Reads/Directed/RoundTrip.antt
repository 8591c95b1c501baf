-- ===== src/Reads/Directed/RoundTrip.antt =====
-- The grammar of `spanner.directed_read` as a writer of its values, against its parser.
use adbc_spanner.Common.{
  Bool, true, false, not, ◌&&◌, List, [], ◌∷◌, ◌++◌, Str, is_nil, codes, str_eq, split_once, split,
  contains, trim_utf8, ok, All, ◌≡◌, refl, ◌∙◌, split_once-append, split_once-none, append-nil,
}
use adbc_spanner.Reads.Directed.Tokens.{
  is_graphic, graphic-append, trim_utf8-graphic, contains_append, no_char, is_nil-append,
  split_whole, split_front,
}
use adbc_spanner.Reads.Directed.{
  Mode, ReplicaType, Selection, DirectedReadSpec, is_any, is_include, parse_type, trimmed_item,
  parse_items, parse_mode, checked_spec, parse_main, parse,
}

abbrev pub type_text : ReplicaType → Str
type_text ReplicaType.read_write = codes "read_write"
type_text ReplicaType.read_only = codes "read_only"
type_text ReplicaType.any = codes "any"

abbrev pub mode_text : Mode → Str
mode_text Mode.include = codes "include"
mode_text Mode.exclude = codes "exclude"

abbrev pub item_text : Selection → Str
item_text s = s.location ++ b':' ∷ type_text s.kind

-- With commas between the items.
abbrev pub items_text : Selection → List Selection → Str
items_text s [] = item_text s
items_text s (t ∷ rest) = item_text s ++ b',' ∷ items_text t rest

abbrev pub main_text : Mode → List Selection → Str
main_text mode [] = mode_text mode
main_text mode (s ∷ rest) = mode_text mode ++ b':' ∷ items_text s rest

abbrev pub flag_text : Bool → Str
flag_text true = b';' ∷ codes "auto_failover_disabled"
flag_text false = []

abbrev pub spec_text : DirectedReadSpec → Str
spec_text spec = main_text spec.mode spec.selections ++ flag_text spec.auto_failover_disabled

-- A text that may stand for a location.
abbrev pub IsLocation : Str → Type 0
IsLocation s =
    (is_graphic s ≡ true)
    × (contains b',' s ≡ false)
    × (contains b':' s ≡ false)
    × (contains b';' s ≡ false)

-- A selection with such a location that constrains something.
abbrev pub IsSelection : Selection → Type 0
IsSelection s = IsLocation s.location × (is_nil s.location && is_any s.kind ≡ false)

type_graphic : (k : ReplicaType) → is_graphic (b':' ∷ type_text k) ≡ true
unfolding is_graphic
type_graphic ReplicaType.read_write = refl
type_graphic ReplicaType.read_only = refl
type_graphic ReplicaType.any = refl

type_free :
    (k : ReplicaType)
    → (contains b',' (b':' ∷ type_text k) ≡ false) × (contains b';' (b':' ∷ type_text k) ≡ false)
unfolding contains
type_free ReplicaType.read_write = (refl, refl)
type_free ReplicaType.read_only = (refl, refl)
type_free ReplicaType.any = (refl, refl)

type_back : (k : ReplicaType) → parse_type (trim_utf8 (type_text k)) ≡ ok k
unfolding parse_type trim_utf8
type_back ReplicaType.read_write = refl
type_back ReplicaType.read_only = refl
type_back ReplicaType.any = refl

item_graphic : (s : Selection) → IsSelection s → is_graphic (item_text s) ≡ true
item_graphic s h = graphic-append s.location (b':' ∷ type_text s.kind) h.0.0 (type_graphic s.kind)

item_free : (s : Selection) → IsSelection s → contains b',' (item_text s) ≡ false
item_free s h = contains_append b',' s.location (b':' ∷ type_text s.kind) h.0.1 (type_free s.kind).0

item_back : (s : Selection) → IsSelection s → trimmed_item (trim_utf8 (item_text s)) ≡ ok s
item_back s h =
    rw
      (
        trim_utf8-graphic (item_text s) (item_graphic s h),
        is_nil-append s.location (type_text s.kind) b':',
        split_once-append b':' s.location (type_text s.kind) (no_char b':' s.location h.0.2),
        type_back s.kind,
        trim_utf8-graphic s.location h.0.0,
        h.1,
      )
      refl

items_graphic :
    (s : Selection) (rest : List Selection)
    → All IsSelection (s ∷ rest)
    → is_graphic (items_text s rest) ≡ true
unfolding is_graphic
items_graphic s [] (h, hs) = item_graphic s h
items_graphic s (t ∷ rest) (h, hs) =
    graphic-append (item_text s) (b',' ∷ items_text t rest) (item_graphic s h)
      (items_graphic t rest hs)

item_no_flag : (s : Selection) → IsSelection s → contains b';' (item_text s) ≡ false
item_no_flag s h =
    contains_append b';' s.location (b':' ∷ type_text s.kind) (h.0.3) (type_free s.kind).1

items_no_flag :
    (s : Selection) (rest : List Selection)
    → All IsSelection (s ∷ rest)
    → contains b';' (items_text s rest) ≡ false
unfolding contains
items_no_flag s [] (h, hs) = item_no_flag s h
items_no_flag s (t ∷ rest) (h, hs) =
    contains_append b';' (item_text s) (b',' ∷ items_text t rest) (item_no_flag s h)
      (items_no_flag t rest hs)

items_back :
    (s : Selection) (rest : List Selection)
    → All IsSelection (s ∷ rest)
    → parse_items (split b',' (items_text s rest)) ≡ ok (s ∷ rest)
unfolding parse_items
items_back s [] (h, hs) = rw (split_whole b',' (item_text s) (item_free s h), item_back s h) refl
items_back s (t ∷ rest) (h, hs) =
    rw
      (
        split_front b',' (item_text s) (items_text t rest) (item_free s h),
        item_back s h,
        items_back t rest hs,
      )
      refl

mode_back : (mode : Mode) → parse_mode (trim_utf8 (mode_text mode)) ≡ ok mode
unfolding parse_mode trim_utf8
mode_back Mode.include = refl
mode_back Mode.exclude = refl

mode_graphic : (mode : Mode) → is_graphic (mode_text mode) ≡ true
unfolding is_graphic
mode_graphic Mode.include = refl
mode_graphic Mode.exclude = refl

mode_free :
    (mode : Mode)
    → (contains b':' (mode_text mode) ≡ false) × (contains b';' (mode_text mode) ≡ false)
unfolding contains
mode_free Mode.include = (refl, refl)
mode_free Mode.exclude = (refl, refl)

main_back :
    (mode : Mode) (selections : List Selection) (auto : Bool)
    → All IsSelection selections
    → parse_main (main_text mode selections) auto ≡ checked_spec mode selections auto
unfolding parse_main parse_mode
main_back Mode.include [] auto h = unfold split_once in refl
main_back Mode.exclude [] auto h = unfold split_once in refl
main_back mode (s ∷ rest) auto h =
    rw
      (
        split_once-append b':' (mode_text mode) (items_text s rest)
            (no_char b':' (mode_text mode) (mode_free mode).0),
        mode_back mode,
        trim_utf8-graphic (items_text s rest) (items_graphic s rest h),
        items_back s rest h,
      )
      refl

main_graphic :
    (mode : Mode) (selections : List Selection)
    → All IsSelection selections
    → is_graphic (main_text mode selections) ≡ true
unfolding is_graphic
main_graphic mode [] h = mode_graphic mode
main_graphic mode (s ∷ rest) h =
    graphic-append (mode_text mode) (b':' ∷ items_text s rest) (mode_graphic mode)
      (items_graphic s rest h)

main_no_flag :
    (mode : Mode) (selections : List Selection)
    → All IsSelection selections
    → contains b';' (main_text mode selections) ≡ false
unfolding contains
main_no_flag mode [] h = (mode_free mode).1
main_no_flag mode (s ∷ rest) h =
    contains_append b';' (mode_text mode) (b':' ∷ items_text s rest) (mode_free mode).1
      (items_no_flag s rest h)

flag_back :
    (mode : Mode) (selections : List Selection) (auto : Bool)
    → All IsSelection selections
    → parse (main_text mode selections ++ flag_text auto) ≡ checked_spec mode selections auto
unfolding parse
flag_back mode selections true h =
    rw
      (
        split_once-append b';' (main_text mode selections) (codes "auto_failover_disabled")
            (no_char b';' (main_text mode selections) (main_no_flag mode selections h)),
        trim_utf8-graphic (main_text mode selections) (main_graphic mode selections h),
        main_back mode selections true h,
      )
      (unfold trim_utf8 str_eq in refl)
flag_back mode selections false h =
    rw
      (
        append-nil (main_text mode selections),
        split_once-none b';' (main_text mode selections)
            (no_char b';' (main_text mode selections) (main_no_flag mode selections h)),
        trim_utf8-graphic (main_text mode selections) (main_graphic mode selections h),
      )
      (main_back mode selections false h)

-- A directed read parses back from its text in the grammar, where failover is disabled for an include only,
-- it has a selection or is an include that disables failover, and each selection has a location, perhaps
-- empty, of visible ASCII characters but the separators, and a location or a type other than `any`.
pub parse-spec_text :
    (spec : DirectedReadSpec)
    → All IsSelection spec.selections
    → spec.auto_failover_disabled && not (is_include spec.mode) ≡ false
    → is_nil spec.selections && not (is_include spec.mode && spec.auto_failover_disabled) ≡ false
    → parse (spec_text spec) ≡ ok spec
unfolding checked_spec
parse-spec_text spec h only_include some_selection =
    flag_back spec.mode spec.selections spec.auto_failover_disabled h
    ∙ rw (only_include, some_selection) refl
