-- ===== src/Manifest/Ports.antt =====
-- Ports, dependencies and restart policies of a service (src/manifest.rs: `parse_ports`,
-- `parse_dependencies`, `parse_restart`). The collections that the services share are handed on.
use termux_stacks.Prelude.{
  ℕ, ◌+◌, ◌-◌, ◌%◌, ◌^◌, Bool, false, not, ◌&&◌, List, [], ◌∷◌, Option, none, some, leb,
  if◌then◌else◌,
}
use termux_stacks.Ordered.Key.{Text, text, text_key, text_cmp, nat_key, pair_key, ◌==◌}
use termux_stacks.Ordered.Map
use termux_stacks.Ordered.Map.{BTreeMap, get}
use termux_stacks.Ordered.Set
use termux_stacks.Ordered.Set.{BTreeSet, contains}
use termux_stacks.Manifest.Error.{
  Location, FieldPath, member, item, Result, ok, err, invalid, ◌>>=◌, ◌>>◌, bad_address, port_range,
  duplicate_port, duplicate_dependency, bad_restart,
}
use termux_stacks.Manifest.Types.{Port, RestartPolicy, never, on_failure, always}
use termux_stacks.Manifest.Literal.{ℤ, pos, negsuc}
use termux_stacks.Manifest.Node.{
  Node, MappingEntry, location, into_string, into_sequence, into_integer, into_mapping,
}
use termux_stacks.Manifest.Names.{validate_name}
use termux_stacks.Manifest.Fields.{take_required, reject_unknown_fields}
use termux_stacks.Manifest.Service.{deny}

-- Where each port was claimed first.
abbrev pub Claims : Type 0
Claims = BTreeMap ℕ FieldPath

-- Where a service names a dependency.
abbrev pub Locations : Type 0
Locations = BTreeMap (Text × Text) Location

-- `(1024..=65535).contains(&number)`
abbrev pub in_port_range : ℤ → Bool
in_port_range (pos n) = leb 1024 n && leb n 65535
in_port_range (negsuc n) = false

-- `number as u16`
abbrev pub as_u16 : ℤ → ℕ
as_u16 (pos n) = n % 2 ^ 16
as_u16 (negsuc n) = (2 ^ 16 - (n + 1) % 2 ^ 16) % 2 ^ 16

unfoldable pub claim : ℕ → FieldPath → Location → Claims → Result Claims
claim port path l claimed = elim (get port claimed) [
  | some first_path ↦ err (invalid (duplicate_port path port first_path) (some l))
  | none ↦ ok (Map.insert port path claimed)
]

-- One round of the loop of `parse_ports`.
unfoldable pub parse_port : Node → FieldPath → Claims → Result (Port × Claims)
unfolding claim text_cmp
parse_port node path claimed = do
  mapping ← into_mapping node path
  reject_unknown_fields mapping path (text "address" ∷ text "port" ∷ [])
  (address_node, mapping1) ← take_required mapping (text "address") (member path (text "address"))
  address ← into_string address_node (member path (text "address"))
  deny (not (address == text "127.0.0.1"))
      (err (invalid (bad_address (member path (text "address"))) (some (location address_node))))
  (number_node, mapping2) ← take_required mapping1 (text "port") (member path (text "port"))
  number ← into_integer number_node (member path (text "port"))
  deny (not (in_port_range number))
      (err (invalid (port_range (member path (text "port"))) (some (location number_node))))
  claimed' ← claim (as_u16 number) (member path (text "port")) (location number_node) claimed
  ok (record { address = address; port = as_u16 number }, claimed')

unfoldable pub ports_from : List Node → ℕ → FieldPath → Claims → Result (List Port × Claims)
ports_from [] index path claimed = ok ([], claimed)
ports_from (node ∷ nodes) index path claimed = do
  (port, claimed1) ← parse_port node (item path index) claimed
  (ports, claimed2) ← ports_from nodes (index + 1) path claimed1
  ok (port ∷ ports, claimed2)

unfoldable pub parse_ports : Option MappingEntry → FieldPath → Claims → Result (List Port × Claims)
unfolding ports_from
parse_ports none service_path claimed = ok ([], claimed)
parse_ports (some entry) service_path claimed = do
  entries ← into_sequence entry.value (member service_path (text "ports"))
  ports_from entries 0 (member service_path (text "ports")) claimed

-- The dependencies from an index on, those in `seen` named before.
unfoldable pub dependencies_from :
    List Node
    → ℕ
    → (service_name : Text) → FieldPath
    → (seen : BTreeSet Text) → Locations
    → Result (List Text × Locations)
dependencies_from [] index service_name path seen locations = ok ([], locations)
dependencies_from (node ∷ nodes) index service_name path seen locations = do
  dependency ← into_string node (item path index)
  validate_name dependency (item path index) (some (location node))
  deny (contains dependency seen)
      (err (invalid (duplicate_dependency path dependency) (some (location node))))
  (rest, locations') ←
      dependencies_from nodes (index + 1) service_name path (Set.insert dependency seen)
        (Map.insert (service_name, dependency) (location node) locations)
  ok (dependency ∷ rest, locations')

unfoldable pub parse_dependencies :
    Option MappingEntry → Text → FieldPath → Locations → Result (List Text × Locations)
unfolding dependencies_from
parse_dependencies none service_name service_path locations = ok ([], locations)
parse_dependencies (some entry) service_name service_path locations = do
  entries ← into_sequence entry.value (member service_path (text "dependsOn"))
  dependencies_from entries 0 service_name (member service_path (text "dependsOn")) [] locations

unfoldable pub restart_of : Text → FieldPath → Location → Result RestartPolicy
unfolding text_cmp
restart_of name path l =
    if name == text "no"
    then ok never
    else if name == text "on-failure"
    then ok on_failure
    else if name == text "always"
    then ok always
    else err (invalid (bad_restart path) (some l))

unfoldable pub parse_restart : Option MappingEntry → FieldPath → Result RestartPolicy
unfolding restart_of
parse_restart none service_path = ok never
parse_restart (some entry) service_path = do
  name ← into_string entry.value (member service_path (text "restart"))
  restart_of name (member service_path (text "restart")) (location entry.value)
