-- ===== src/Manifest/Validate.antt =====
-- From the tree to the manifest, and from the text to the tree (src/manifest.rs: `parse_service`,
-- `parse_volumes`, `validate`, `parse`).
pub mod Dependencies
pub mod Loopback
pub mod Targets
pub mod Gathering
mod Sound
pub mod Totality
pub mod Theorems
pub mod Document
use termux_stacks.Prelude.{
  ℕ, suc, ◌+◌, ◌*◌, Bool, true, false, not, ◌&&◌, ◌||◌, List, [], ◌∷◌, ◌++◌, Option, none, some,
  leb, ltb, if◌then◌else◌, length, any, is_empty,
}
use termux_stacks.Ordered.Key.{Text, text, text_key, text_cmp, pair_key, nat_key, ◌==◌}
use termux_stacks.Ordered.Map
use termux_stacks.Ordered.Map.{BTreeMap, get, contains_key}
use termux_stacks.Ordered.Set
use termux_stacks.Ordered.Set.{BTreeSet}
use termux_stacks.Text.{len, starts_with, is_control}
use termux_stacks.Manifest.Error.{
  Location, FieldPath, field, member, Result, ok, err, fault, invalid, ◌>>=◌, ◌>>◌, bad_image,
  exceeds_bytes, parser_error, too_many_events, bad_api_version, bad_kind, no_services,
  unknown_service,
}
use termux_stacks.Manifest.Error
use termux_stacks.Manifest.Types.{Service, Manifest}
use termux_stacks.Manifest.Node.{Node, MappingEntry, location, into_string, into_mapping}
use termux_stacks.Manifest.Cursor.{
  Event, Cursor, new, node, expect_stream_start, expect_document_start, expect_document_end,
  expect_stream_end, max_nodes,
}
use termux_stacks.Manifest.Names.{validate_name}
use termux_stacks.Manifest.Fields.{Mapping, take_required, reject_unknown_fields}
use termux_stacks.Manifest.Service.{deny, parse_command, parse_environment, parse_mounts}
use termux_stacks.Manifest.Ports.{Claims, Locations, parse_ports, parse_dependencies, parse_restart}
use termux_stacks.Manifest.Order.{Services, Sorting, sorted, cyclic, topological_order}

abbrev pub service_fields : List Text
service_fields =
    text "image"
    ∷ text "command"
    ∷ text "environment"
    ∷ text "mounts"
    ∷ text "ports"
    ∷ text "dependsOn"
    ∷ text "restart"
    ∷ []

abbrev pub bad_image_text : Text → Bool
bad_image_text image =
    not (leb 1 (length image) && leb (length image) 2048)
    || starts_with image (text "-")
    || any is_control image

-- What the services share, as each leaves it for the next.
pub record Shared : Type 0 where
  pub locations : Locations
  pub claimed : Claims

unfoldable pub parse_service :
    Text → Node → FieldPath → BTreeSet Text → Shared → Result (Service × Shared)
unfolding starts_with text_cmp
parse_service service_name node path volumes shared = do
  fields ← into_mapping node path
  reject_unknown_fields fields path service_fields
  (image_node, service) ← take_required fields (text "image") (member path (text "image"))
  image ← into_string image_node (member path (text "image"))
  deny (bad_image_text image)
      (err (invalid (bad_image (member path (text "image"))) (some (location image_node))))
  command ← parse_command (get (text "command") service) path
  environment ← parse_environment (get (text "environment") service) path
  mounts ← parse_mounts (get (text "mounts") service) path volumes
  (ports, claimed) ← parse_ports (get (text "ports") service) path shared.claimed
  (depends_on, locations) ←
      parse_dependencies (get (text "dependsOn") service) service_name path shared.locations
  restart ← parse_restart (get (text "restart") service) path
  ok (
    record {
      name = service_name;
      image = image;
      command = command;
      environment = environment;
      mounts = mounts;
      ports = ports;
      depends_on = depends_on;
      restart = restart;
    },
    record { locations = locations; claimed = claimed },
  )

unfoldable pub volumes_from : Mapping → BTreeSet Text → Result (BTreeSet Text)
volumes_from [] volumes = ok volumes
volumes_from ((name, declaration) ∷ declarations) volumes = do
  validate_name name (field (text "volume name")) (some declaration.key_location)
  options ← into_mapping declaration.value (member (field (text "volumes")) name)
  reject_unknown_fields options (member (field (text "volumes")) name) []
  volumes_from declarations (Set.insert name volumes)

unfoldable pub parse_volumes : Option MappingEntry → Result (BTreeSet Text)
unfolding volumes_from
parse_volumes none = ok []
parse_volumes (some entry) = do
  declarations ← into_mapping entry.value (field (text "volumes"))
  volumes_from declarations []

-- The loop over the entries of `services`.
unfoldable pub services_from :
    Mapping → BTreeSet Text → Services → Shared → Result (Services × Shared)
services_from [] volumes services shared = ok (services, shared)
services_from ((name, entry) ∷ entries) volumes services shared = do
  validate_name name (field (text "service name")) (some entry.key_location)
  (service, shared') ←
      parse_service name entry.value (member (field (text "services")) name) volumes shared
  services_from entries volumes (Map.insert name service services) shared'

unfoldable pub check_dependencies : Locations → Services → Result (Unit {0})
check_dependencies [] services = ok tt
check_dependencies (((name, dependency), l) ∷ rest) services = do
  deny (not (contains_key dependency services)) (
      err (
        invalid
          (unknown_service (member (member (field (text "services")) name) (text "dependsOn"))
            dependency)
          (some l)))
  check_dependencies rest services

abbrev pub reject_cycle : Sorting → Location → Result (Unit {0})
reject_cycle (sorted order) l = ok tt
reject_cycle (cyclic names) l = err (invalid (Error.cyclic names) (some l))

-- The services of a manifest, once its other fields are read.
unfoldable pub build_services : Node → BTreeSet Text → Result Services
unfolding services_from check_dependencies
build_services services_node volumes = do
  entries ← into_mapping services_node (field (text "services"))
  deny (is_empty entries) (err (invalid no_services (some (location services_node))))
  (services, shared) ← services_from entries volumes [] (record { locations = []; claimed = [] })
  check_dependencies shared.locations services
  sorting ← topological_order services
  reject_cycle sorting (location services_node)
  ok services

abbrev pub top_fields : List Text
top_fields =
    text "apiVersion" ∷ text "kind" ∷ text "metadata" ∷ text "services" ∷ text "volumes" ∷ []

unfoldable pub validate : Node → Result Manifest
unfolding build_services text_cmp
validate root = do
  top ← into_mapping root (field (text "manifest"))
  reject_unknown_fields top (field (text "manifest")) top_fields
  (api_node, top1) ← take_required top (text "apiVersion") (field (text "apiVersion"))
  api_version ← into_string api_node (field (text "apiVersion"))
  deny (not (api_version == text "termux-stacks/v1alpha1")) (err (invalid bad_api_version none))
  (kind_node, top2) ← take_required top1 (text "kind") (field (text "kind"))
  kind ← into_string kind_node (field (text "kind"))
  deny (not (kind == text "Stack")) (err (invalid bad_kind none))
  (metadata_node, top3) ← take_required top2 (text "metadata") (field (text "metadata"))
  metadata ← into_mapping metadata_node (field (text "metadata"))
  reject_unknown_fields metadata (field (text "metadata")) (text "name" ∷ [])
  (name_node, metadata1) ←
      take_required metadata (text "name") (member (field (text "metadata")) (text "name"))
  name ← into_string name_node (member (field (text "metadata")) (text "name"))
  validate_name name (member (field (text "metadata")) (text "name")) (some (location name_node))
  volumes ← parse_volumes (get (text "volumes") top3)
  (services_node, top4) ←
      take_required (Map.remove (text "volumes") top3) (text "services") (field (text "services"))
  services ← build_services services_node volumes
  ok (record { name = name; services = services; volumes = volumes })

abbrev pub max_bytes : ℕ
max_bytes = 65536

-- What the YAML parser hands out: an event with its place, or an error.
pub data Parsed : Type 0 where
  event : Event → Location → Parsed
  failed : Parsed

-- The loop that collects the events.
unfoldable pub collect : List Parsed → List (Event × Location) → Result (List (Event × Location))
collect [] events = ok events
collect (failed ∷ rest) events = err (invalid parser_error none)
collect (event e l ∷ rest) events = do
  deny (ltb (max_nodes * 4) (length events + 1)) (err (invalid too_many_events none))
  collect rest (events ++ (e, l) ∷ [])

-- The document of a stream of events. Fuel: twice the events, and one.
unfoldable pub read_document : List (Event × Location) → Result Node
read_document events = do
  c0 ← expect_stream_start (new events)
  c1 ← expect_document_start c0
  (root, c2) ← node (2 * length events + 1) 0 c1
  c3 ← expect_document_end c2
  expect_stream_end c3
  ok root

-- The parser is a library of the program.
module _ (parser : Text → List Parsed) where
  unfoldable pub parse : Text → Result Manifest
  unfolding collect read_document validate len
  parse input = do
    deny (ltb max_bytes (len input)) (err (invalid exceeds_bytes none))
    events ← collect (parser input) []
    root ← read_document events
    validate root
