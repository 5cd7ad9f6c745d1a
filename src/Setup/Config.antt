-- ===== src/Setup/Config.antt =====
-- internal/setup/jsonmerge.go: the server's entry in a JSON configuration.
pub mod Leaves
pub mod Entries
use runtime_pulse.Prelude.{
  String, Bool, true, false, Option, none, some, List, [], ◌∷◌, ◌++◌, Result, ok, err, ◌==◌,
  if◌then◌else◌, str_append,
}
use runtime_pulse.Setup.{Text, Found, missing, unreadable, present, Disk, atomic_write}
use runtime_pulse.Setup.Block.{line_end}

mutual
  -- A JSON value: an object by its keys, a string, or anything else by its text.
  pub data Json : Type 0 where
    object : Fields → Json
    quoted : String → Json
    scalar : String → Json

  -- map[string]any
  pub data Fields : Type 0 where
    no_fields : Fields
    field : String → Json → Fields → Fields

unfoldable pub lookup : String → Fields → Option Json
lookup key no_fields = none
lookup key (field k v l) = let rest = lookup key l in if k == key then some v else rest

-- m[key] = value
unfoldable pub assign : String → Json → Fields → Fields
assign key v no_fields = field key v no_fields
assign key v (field k w l) =
    let rest = assign key v l in if k == key then field k v l else field k w rest

-- encoding/json: the first value that a Decoder reads, Unmarshal, and MarshalIndent. The text `null`
-- is read as well, into a nil map, which is `none`.
pub record JsonCodec : Type 0 where
  pub decode : Text → Result (Option Fields)
  pub unmarshal : Text → Result (Option Fields)
  pub encode : Fields → Result Text

abbrev pub section_of : Option Json → Fields
section_of (some (object l)) = l
section_of _ = no_fields

-- root[section][name] = entry, where the section is made if it is no object.
unfoldable pub with_entry : String → String → Json → Fields → Fields
with_entry section name entry root =
    assign section (object (assign name entry (section_of (lookup section root)))) root

abbrev pub write_encoded : String → Result Text → Disk → Result (Unit {0}) × Disk
write_encoded path (ok out) d = atomic_write path (out ++ line_end) d
write_encoded path (err e) d = (err e, d)

-- Go panics when it assigns to a nil map.
abbrev pub nil_map_panic : String
nil_map_panic = "assignment to entry in nil map"

abbrev pub merge_decoded :
    JsonCodec
    → String
    → String
    → String
    → Json
    → Result (Option Fields)
    → Disk
    → Result (Unit {0}) × Disk
merge_decoded codec path section name entry (err e) d = (
  err (
      str_append "setup: "
        (str_append path (str_append " is not valid JSON, leaving it untouched: " e))),
  d,
)
merge_decoded codec path section name entry (ok none) d = (err nil_map_panic, d)
merge_decoded codec path section name entry (ok (some root)) d =
    write_encoded path (codec.encode (with_entry section name entry root)) d

abbrev pub merge_into :
    JsonCodec → String → String → String → Json → Found → Disk → Result (Unit {0}) × Disk
merge_into codec path section name entry missing d =
    merge_decoded codec path section name entry (ok (some no_fields)) d
merge_into codec path section name entry (unreadable e) d = (err e, d)
merge_into codec path section name entry (present content) d =
    merge_decoded codec path section name entry (codec.decode content) d

-- mergeJSONServer
unfoldable pub merge_json_server :
    JsonCodec → String → String → String → Json → Disk → Result (Unit {0}) × Disk
merge_json_server codec path section name entry d =
    merge_into codec path section name entry (d.files path) d

abbrev is_some : Option Json → Bool
is_some none = false
is_some (some v) = true

abbrev pub has_entry : String → Option Json → Bool
has_entry name (some (object l)) = is_some (lookup name l)
has_entry name _ = false

abbrev pub has_in : String → String → Result (Option Fields) → Bool
has_in section name (ok (some root)) = has_entry name (lookup section root)
has_in section name _ = false

abbrev pub has_found : JsonCodec → String → String → Found → Bool
has_found codec section name (present content) = has_in section name (codec.unmarshal content)
has_found codec section name _ = false

-- hasJSONServer
unfoldable pub has_json_server : JsonCodec → String → String → String → Disk → Bool
has_json_server codec path section name d = has_found codec section name (d.files path)
