-- ===== src/Manifest/Node.antt =====
-- The YAML tree and its conversions (src/manifest.rs: `Node`, `MappingEntry`, `Scalar`). The
-- tree's `Vec<Node>` and `BTreeMap<String, MappingEntry>` are list types of the same block.
use termux_stacks.Prelude.{
  Bool, true, false, not, ◌||◌, List, [], ◌∷◌, none, some, Option, if◌then◌else◌,
}
use termux_stacks.Ordered.Key.{Text, text_key}
use termux_stacks.Ordered.Map.{BTreeMap}
use termux_stacks.Manifest.Error.{
  Location, FieldPath, Result, ok, err, invalid, not_string, not_array, not_integer, not_mapping,
}
use termux_stacks.Manifest.Literal.{is_plain_core_literal, parse_i64, ℤ}

-- Of `saphyr_parser::ScalarStyle` the program tells the plain style from the others.
pub data ScalarStyle : Type 0 where
  plain quoted : ScalarStyle

pub record Scalar : Type 0 where
  pub value : Text
  pub style : ScalarStyle
  pub location : Location

mutual
  pub data Node : Type 0 where
    scalar : Scalar → Node
    sequence : Nodes → Location → Node
    mapping : Entries → Location → Node

  pub data Nodes : Type 0 where
    nil : Nodes
    cons : Node → Nodes → Nodes

  pub data Entries : Type 0 where
    end : Entries
    entry : (key : Text) (key_location : Location) (value : Node) → Entries → Entries

pub record MappingEntry : Type 0 where
  pub key_location : Location
  pub value : Node

abbrev pub node_list : Nodes → List Node
node_list nil = []
node_list (cons n ns) = n ∷ node_list ns

abbrev pub of_node_list : List Node → Nodes
of_node_list [] = nil
of_node_list (n ∷ ns) = cons n (of_node_list ns)

abbrev pub entry_map : Entries → BTreeMap Text MappingEntry
entry_map end = []
entry_map (entry k l v es) = (k, record { key_location = l; value = v }) ∷ entry_map es

abbrev pub of_entry_map : BTreeMap Text MappingEntry → Entries
of_entry_map [] = end
of_entry_map ((k, e) ∷ es) = entry k e.key_location e.value (of_entry_map es)

unfoldable pub location : Node → Location
location (scalar s) = s.location
location (sequence ns l) = l
location (mapping es l) = l

abbrev pub is_plain : ScalarStyle → Bool
is_plain plain = true
is_plain quoted = false

unfoldable pub is_string : Scalar → Bool
is_string s = not (is_plain s.style) || not (is_plain_core_literal s.value)

unfoldable pub into_string : Node → FieldPath → Result Text
into_string (scalar s) path =
    if is_string s then ok s.value else err (invalid (not_string path) (some s.location))
into_string (sequence ns l) path = err (invalid (not_string path) (some l))
into_string (mapping es l) path = err (invalid (not_string path) (some l))

unfoldable pub into_sequence : Node → FieldPath → Result (List Node)
into_sequence (sequence ns l) path = ok (node_list ns)
into_sequence (scalar s) path = err (invalid (not_array path) (some s.location))
into_sequence (mapping es l) path = err (invalid (not_array path) (some l))

abbrev integer_or : Option ℤ → FieldPath → Location → Result ℤ
integer_or none path l = err (invalid (not_integer path) (some l))
integer_or (some z) path l = ok z

unfoldable pub into_integer : Node → FieldPath → Result ℤ
into_integer (scalar s) path =
    if is_plain s.style
    then integer_or (parse_i64 s.value) path s.location
    else err (invalid (not_integer path) (some s.location))
into_integer (sequence ns l) path = err (invalid (not_integer path) (some l))
into_integer (mapping es l) path = err (invalid (not_integer path) (some l))

unfoldable pub into_mapping : Node → FieldPath → Result (BTreeMap Text MappingEntry)
into_mapping (mapping es l) path = ok (entry_map es)
into_mapping (scalar s) path = err (invalid (not_mapping path) (some s.location))
into_mapping (sequence ns l) path = err (invalid (not_mapping path) (some l))
