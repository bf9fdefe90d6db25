-- ===== src/Tests/Sample.antt =====
-- A manifest of two services, from the events of its document on.
use termux_stacks.Prelude.{List, [], ◌∷◌, none}
use termux_stacks.Ordered.Key.{Text, text, text_key, text_cmp, nat_key, pair_cmp}
use termux_stacks.Ordered.Map
use termux_stacks.Ordered.Set
use termux_stacks.Text.{len, starts_with, strip_prefix, ends_with_char, split}
use termux_stacks.Manifest.Error.{Location}
use termux_stacks.Manifest.Types.{Manifest, Service, volume, never, always}
use termux_stacks.Manifest.Node
use termux_stacks.Manifest.Node.{ScalarStyle, plain}
use termux_stacks.Manifest.Literal
use termux_stacks.Manifest.Cursor.{Event, stream_start, stream_end, document_start, document_end}
use termux_stacks.Manifest.Cursor.Tree.{Tree, leaf, seq, map, nil, cons, end, pair, emit}
use termux_stacks.Manifest.Names
use termux_stacks.Manifest.Fields
use termux_stacks.Manifest.Service
use termux_stacks.Manifest.Ports
use termux_stacks.Manifest.Order
use termux_stacks.Manifest.Validate

abbrev pub at_1 : Location
at_1 = record { line = 1; column = 1 }

abbrev word : Text → Tree
word s = leaf s plain at_1

abbrev api_tree : Tree
api_tree =
    map
      (pair (text "image") plain at_1 (word (text "notes-api")) (
        pair (text "mounts") plain at_1
          (seq
            (cons
              (map
                (pair (text "type") plain at_1 (word (text "volume")) (
                  pair (text "source") plain at_1 (word (text "data"))
                    (pair (text "target") plain at_1 (word (text "/data")) end)))
                at_1 at_1)
              nil)
            at_1 at_1)
          (pair (text "ports") plain at_1
            (seq
              (cons
                (map
                  (pair (text "address") plain at_1 (word (text "127.0.0.1"))
                    (pair (text "port") plain at_1 (word (text "8080")) end))
                  at_1 at_1)
                nil)
              at_1 at_1)
            end)))
      at_1 at_1

abbrev web_tree : Tree
web_tree =
    map
      (pair (text "image") plain at_1 (word (text "notes-web")) (
        pair (text "dependsOn") plain at_1 (seq (cons (word (text "api")) nil) at_1 at_1)
          (pair (text "restart") plain at_1 (word (text "always")) end)))
      at_1 at_1

abbrev pub sample_tree : Tree
sample_tree =
    map
      (pair (text "apiVersion") plain at_1 (word (text "termux-stacks/v1alpha1")) (
        pair (text "kind") plain at_1 (word (text "Stack")) (
          pair (text "metadata") plain at_1
            (map (pair (text "name") plain at_1 (word (text "notes")) end) at_1 at_1)
            (pair (text "services") plain at_1
              (map
                (pair (text "web") plain at_1 web_tree (pair (text "api") plain at_1 api_tree end))
                at_1 at_1)
              (pair (text "volumes") plain at_1
                (map (pair (text "data") plain at_1 (map end at_1 at_1) end) at_1 at_1) end)))))
      at_1 at_1

abbrev pub sample_events : List (Event × Location)
sample_events =
    (stream_start, at_1)
    ∷ (document_start, at_1)
    ∷ emit sample_tree ((document_end, at_1) ∷ (stream_end, at_1) ∷ [])

abbrev pub api : Service
api = record {
  name = text "api";
  image = text "notes-api";
  command = none;
  environment = [];
  mounts = record { kind = volume; source = text "data"; target = text "/data" } ∷ [];
  ports = record { address = text "127.0.0.1"; port = 8080 } ∷ [];
  depends_on = [];
  restart = never;
}

abbrev pub web : Service
web = record {
  name = text "web";
  image = text "notes-web";
  command = none;
  environment = [];
  mounts = [];
  ports = [];
  depends_on = text "api" ∷ [];
  restart = always;
}

abbrev pub sample : Manifest
sample = record {
  name = text "notes";
  services = (text "api", api) ∷ (text "web", web) ∷ [];
  volumes = text "data" ∷ [];
}

-- All that a run of the manifest's code computes with.
unfoldable pub manifest_code : Unit {0}
unfolding text_cmp pair_cmp Map.get Map.insert Map.remove Map.contains_key Map.keys Set.insert len
    starts_with strip_prefix ends_with_char split Literal.is_plain_core_literal Node.location
    Node.is_string Node.into_string Node.into_sequence Node.into_integer Node.into_mapping
    Names.is_valid_name Names.test_name Names.validate_name Names.valid_environment_name
    Names.reserved_environment_name Names.is_normalized_absolute_path Names.mount_targets_overlap
    Fields.take_required Fields.reject_unknown_fields Service.command_of Service.parse_command
    Service.parse_environment Service.parse_mount Service.parse_mounts Ports.parse_port
    Ports.parse_ports Ports.parse_dependencies Ports.parse_restart Order.topological_order
    Order.release Order.drain Order.blocked Order.finish Order.start_order Order.stop_order
    Order.add_dependent Order.add_dependents Order.no_dependents Order.fill_dependents
    Validate.parse_service Validate.parse_volumes Validate.build_services Validate.validate
manifest_code = tt
