-- ===== src/Reads/Directed.antt =====
-- src/directed_read.rs: the value of the option `spanner.directed_read`. A text is the list of its bytes.
pub mod Tokens
pub mod RoundTrip
use adbc_spanner.Common.{
  Bool, true, false, not, ◌&&◌, List, [], ◌∷◌, Option, none, some, if◌then◌else◌, Str, is_nil,
  codes, str_eq, split_once, split, trim_utf8, Result, ok, err, ◌>>=◌, invalid_arguments,
}

pub data Mode : Type 0 where
  include exclude : Mode

pub data ReplicaType : Type 0 where
  read_write read_only any : ReplicaType

pub record Selection : Type 0 where
  pub location : Str
  pub kind : ReplicaType

pub record DirectedReadSpec : Type 0 where
  pub mode : Mode
  pub selections : List Selection
  pub auto_failover_disabled : Bool

-- The derived equality of the enums, with the one variant that is asked for.
abbrev pub is_any : ReplicaType → Bool
is_any ReplicaType.any = true
is_any ReplicaType.read_write = false
is_any ReplicaType.read_only = false

abbrev pub is_include : Mode → Bool
is_include Mode.include = true
is_include Mode.exclude = false

unfoldable pub parse_type : Str → Result ReplicaType
unfolding str_eq
parse_type value =
    if str_eq value (codes "read_write")
    then ok ReplicaType.read_write
    else if str_eq value (codes "read_only")
    then ok ReplicaType.read_only
    else if str_eq value (codes "any")
    then ok ReplicaType.any
    else err invalid_arguments

abbrev pub selection_of : Str → ReplicaType → Selection
selection_of location kind = record { location = location; kind = kind }

abbrev pub item_parts : Option (Str × Str) → Str → Result Selection
item_parts none item = ok (selection_of item ReplicaType.any)
item_parts (some (location, type_str)) item =
    parse_type (trim_utf8 type_str) >>= λ kind. ok (selection_of (trim_utf8 location) kind)

abbrev pub constraining : Selection → Result Selection
constraining s = if is_nil s.location && is_any s.kind then err invalid_arguments else ok s

abbrev pub trimmed_item : Str → Result Selection
trimmed_item item =
    if is_nil item
    then err invalid_arguments
    else (item_parts (split_once b':' item) item >>= constraining)

-- The loop over the items.
unfoldable pub parse_items : List Str → Result (List Selection)
unfolding parse_type split_once trim_utf8
parse_items [] = ok []
parse_items (item ∷ items) = do
  s ← trimmed_item (trim_utf8 item)
  rest ← parse_items items
  ok (s ∷ rest)

abbrev pub parse_selections : Option Str → Result (List Selection)
parse_selections none = ok []
parse_selections (some selections_str) = parse_items (split b',' selections_str)

unfoldable pub parse_mode : Str → Result Mode
unfolding str_eq
parse_mode mode_str =
    if str_eq mode_str (codes "include")
    then ok Mode.include
    else if str_eq mode_str (codes "exclude")
    then ok Mode.exclude
    else err invalid_arguments

-- The last two checks.
unfoldable pub checked_spec : Mode → List Selection → Bool → Result DirectedReadSpec
checked_spec mode selections auto =
    if auto && not (is_include mode)
    then err invalid_arguments
    else if is_nil selections && not (is_include mode && auto)
    then err invalid_arguments
    else ok (record { mode = mode; selections = selections; auto_failover_disabled = auto })

abbrev pub mode_parts : Option (Str × Str) → Str → Str × Option Str
mode_parts none main = (main, none)
mode_parts (some (mode, rest)) main = (trim_utf8 mode, some (trim_utf8 rest))

-- `<mode>` or `<mode>:<selections>`.
unfoldable pub parse_main : Str → Bool → Result DirectedReadSpec
unfolding split_once split trim_utf8 parse_mode parse_items checked_spec
parse_main main auto = do
  mode ← parse_mode (mode_parts (split_once b':' main) main).0
  selections ← parse_selections (mode_parts (split_once b':' main) main).1
  checked_spec mode selections auto

abbrev pub without_flag : Option (Str × Str) → Str → Result DirectedReadSpec
without_flag none value = parse_main (trim_utf8 value) false
without_flag (some (main, flag)) value =
    if not (str_eq (trim_utf8 flag) (codes "auto_failover_disabled"))
    then err invalid_arguments
    else parse_main (trim_utf8 main) true

unfoldable pub parse : Str → Result DirectedReadSpec
unfolding split_once trim_utf8 str_eq parse_main
parse value = without_flag (split_once b';' value) value
