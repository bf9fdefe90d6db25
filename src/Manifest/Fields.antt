-- ===== src/Manifest/Fields.antt =====
-- Fields of a mapping (src/manifest.rs: `take_required`, `reject_unknown_fields`).
use termux_stacks.Prelude.{Bool, false, List, [], ◌∷◌, Option, none, some, if◌then◌else◌}
use termux_stacks.Ordered.Key.{Text, text, text_key, ◌==◌}
use termux_stacks.Ordered.Map
use termux_stacks.Ordered.Map.{BTreeMap, get}
use termux_stacks.Ordered.Set.{contains}
use termux_stacks.Manifest.Error.{
  FieldPath, field, member, item, Result, ok, err, invalid, missing_field, unknown_field,
}
use termux_stacks.Manifest.Node.{Node, MappingEntry}

abbrev pub Mapping : Type 0
Mapping = BTreeMap Text MappingEntry

abbrev taken : Option MappingEntry → FieldPath → Mapping → Result (Node × Mapping)
taken none path rest = err (invalid (missing_field path) none)
taken (some entry) path rest = ok (entry.value, rest)

-- The value of a field, and the mapping without it.
unfoldable pub take_required : Mapping → Text → FieldPath → Result (Node × Mapping)
take_required mapping key path = taken (get key mapping) path (Map.remove key mapping)

-- `path == "manifest"`: the other forms of a path hold a dot or a bracket.
abbrev is_manifest : FieldPath → Bool
is_manifest (field name) = name == text "manifest"
is_manifest (member p k) = false
is_manifest (item p i) = false

abbrev field_path : FieldPath → Text → FieldPath
field_path path key = if is_manifest path then field key else member path key

unfoldable pub reject_unknown_fields : Mapping → FieldPath → List Text → Result (Unit {0})
reject_unknown_fields [] path allowed = ok tt
reject_unknown_fields ((key, entry) ∷ rest) path allowed =
    let others = reject_unknown_fields rest path allowed in
    if contains key allowed
    then others
    else err (invalid (unknown_field (field_path path key)) (some entry.key_location))
