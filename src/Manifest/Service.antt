-- ===== src/Manifest/Service.antt =====
-- A service of the manifest (src/manifest.rs: `parse_service` and the parsers of its fields).
use termux_stacks.Prelude.{
  ℕ, ◌+◌, Bool, true, false, not, ◌||◌, List, [], ◌∷◌, ◌++◌, Option, none, some, if◌then◌else◌,
  is_empty,
}
use termux_stacks.Ordered.Key.{Text, text, text_key, text_cmp, nat_key, pair_key, ◌==◌}
use termux_stacks.Ordered.Map
use termux_stacks.Ordered.Map.{BTreeMap, get}
use termux_stacks.Ordered.Set.{BTreeSet, contains}
use termux_stacks.Manifest.Error.{
  Location, FieldPath, member, item, panic, Result, fault, ok, err, invalid, ◌>>=◌, ◌>>◌,
  empty_command, contains_nul, empty_argument, bad_environment_key, reserved_environment_key,
  bad_mount_type, empty_path, target_colon, target_not_normalized, undeclared_volume,
  target_overlaps,
}
use termux_stacks.Manifest.Types.{MountKind, volume, bind, Mount}
use termux_stacks.Manifest.Node.{
  Node, MappingEntry, location, into_string, into_sequence, into_mapping,
}
use termux_stacks.Manifest.Names.{
  validate_name, valid_environment_name, reserved_environment_name, is_normalized_absolute_path,
  mount_targets_overlap,
}
use termux_stacks.Manifest.Fields.{Mapping, take_required, reject_unknown_fields}

-- `if test { return Err(..) }`
abbrev pub deny : Bool → Result (Unit {0}) → Result (Unit {0})
deny true e = e
deny false e = ok tt

-- The arguments of a command from an index on.
unfoldable pub command_from : List Node → ℕ → FieldPath → Result (List Text)
command_from [] index path = ok []
command_from (value ∷ values) index path = do
  argument ← into_string value (item path index)
  deny (contains 0 argument)
      (err (invalid (contains_nul (item path index)) (some (location value))))
  rest ← command_from values (index + 1) path
  ok (argument ∷ rest)

-- `command[0]`
abbrev pub first_of : List Text → Result Text
first_of [] = fault panic
first_of (argument ∷ rest) = ok argument

unfoldable pub command_of : MappingEntry → FieldPath → Result (Option (List Text))
unfolding command_from
command_of entry path = do
  values ← into_sequence entry.value path
  deny (is_empty values) (err (invalid (empty_command path) (some entry.key_location)))
  command ← command_from values 0 path
  first ← first_of command
  deny (is_empty first) (err (invalid (empty_argument path) (some entry.key_location)))
  ok (some command)

unfoldable pub parse_command : Option MappingEntry → FieldPath → Result (Option (List Text))
unfolding command_of
parse_command none service_path = ok none
parse_command (some entry) service_path = command_of entry (member service_path (text "command"))

-- The entries of an environment, put into the map one after the other.
unfoldable pub environment_from :
    Mapping → FieldPath → BTreeMap Text Text → Result (BTreeMap Text Text)
environment_from [] path environment = ok environment
environment_from ((key, entry) ∷ entries) path environment = do
  deny (not (valid_environment_name key))
      (err (invalid (bad_environment_key key) (some entry.key_location)))
  deny (reserved_environment_name key)
      (err (invalid (reserved_environment_key key) (some entry.key_location)))
  value ← into_string entry.value (member path key)
  deny (contains 0 value)
      (err (invalid (contains_nul (member path key)) (some (location entry.value))))
  environment_from entries path (Map.insert key value environment)

unfoldable pub environment_of : MappingEntry → FieldPath → Result (BTreeMap Text Text)
unfolding environment_from
environment_of entry path = do
  entries ← into_mapping entry.value path
  environment_from entries path []

unfoldable pub parse_environment : Option MappingEntry → FieldPath → Result (BTreeMap Text Text)
unfolding environment_of
parse_environment none service_path = ok []
parse_environment (some entry) service_path =
    environment_of entry (member service_path (text "environment"))

unfoldable pub mount_kind : Text → FieldPath → Location → Result MountKind
unfolding text_cmp
mount_kind name path l =
    if name == text "volume"
    then ok volume
    else if name == text "bind"
    then ok bind
    else err (invalid (bad_mount_type path) (some l))

-- A volume has a valid, declared name.
unfoldable pub check_volume :
    MountKind → Text → FieldPath → Location → BTreeSet Text → Result (Unit {0})
check_volume bind source path l volumes = ok tt
check_volume volume source path l volumes = do
  validate_name source path (some l)
  deny (not (contains source volumes)) (err (invalid (undeclared_volume path source) (some l)))

-- The first of the earlier mounts whose target overlaps.
unfoldable pub find_overlap : Text → List Mount → Option Mount
find_overlap target [] = none
find_overlap target (existing ∷ mounts) =
    let later = find_overlap target mounts in
    if mount_targets_overlap existing.target target then some existing else later

abbrev pub deny_overlap : Option Mount → FieldPath → Location → Result (Unit {0})
deny_overlap none path l = ok tt
deny_overlap (some existing) path l = err (invalid (target_overlaps path existing.target) (some l))

unfoldable pub check_target : Text → FieldPath → Location → List Mount → Result (Unit {0})
unfolding find_overlap
check_target target path l mounts = do
  deny (contains b':' target) (err (invalid (target_colon path) (some l)))
  deny (not (is_normalized_absolute_path target))
      (err (invalid (target_not_normalized path) (some l)))
  deny_overlap (find_overlap target mounts) path l

-- One round of the loop of `parse_mounts`.
unfoldable pub parse_mount : Node → FieldPath → BTreeSet Text → List Mount → Result Mount
unfolding mount_kind check_volume check_target
parse_mount node path volumes mounts = do
  mapping ← into_mapping node path
  reject_unknown_fields mapping path (text "type" ∷ text "source" ∷ text "target" ∷ [])
  (type_node, mapping1) ← take_required mapping (text "type") (member path (text "type"))
  type_name ← into_string type_node (member path (text "type"))
  kind ← mount_kind type_name (member path (text "type")) (location type_node)
  (source_node, mapping2) ← take_required mapping1 (text "source") (member path (text "source"))
  source ← into_string source_node (member path (text "source"))
  deny (is_empty source || contains 0 source)
      (err (invalid (empty_path (member path (text "source"))) (some (location source_node))))
  check_volume kind source (member path (text "source")) (location source_node) volumes
  (target_node, mapping3) ← take_required mapping2 (text "target") (member path (text "target"))
  target ← into_string target_node (member path (text "target"))
  check_target target (member path (text "target")) (location target_node) mounts
  ok (record { kind = kind; source = source; target = target })

unfoldable pub mounts_from :
    List Node → ℕ → FieldPath → BTreeSet Text → List Mount → Result (List Mount)
mounts_from [] index path volumes mounts = ok mounts
mounts_from (node ∷ nodes) index path volumes mounts = do
  mount ← parse_mount node (item path index) volumes mounts
  mounts_from nodes (index + 1) path volumes (mounts ++ mount ∷ [])

unfoldable pub parse_mounts : Option MappingEntry → FieldPath → BTreeSet Text → Result (List Mount)
unfolding mounts_from
parse_mounts none service_path volumes = ok []
parse_mounts (some entry) service_path volumes = do
  entries ← into_sequence entry.value (member service_path (text "mounts"))
  mounts_from entries 0 (member service_path (text "mounts")) volumes []
