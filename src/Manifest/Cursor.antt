-- ===== src/Manifest/Cursor.antt =====
-- The reader of YAML events (src/manifest.rs: `Cursor`). The parser is a library of the program:
-- its events are the input. A span is kept as the `Location` that the code makes of it.
pub mod Tree
pub mod Sound
pub mod Complete
pub mod Total
use termux_stacks.Prelude.{
  ◌≡◌, refl, arith, ℕ, zero, suc, ◌+◌, Bool, true, false, List, [], ◌∷◌, ◌++◌, Option, none, some,
  length, ltb, leb, if◌then◌else◌,
}
use termux_stacks.Ordered.Key.{Text, text, text_key, ◌==◌, nat_key}
use termux_stacks.Ordered.Map
use termux_stacks.Ordered.Map.{BTreeMap}
use termux_stacks.Ordered.Set
use termux_stacks.Ordered.Set.{BTreeSet, contains}
use termux_stacks.Text.{len}
use termux_stacks.Manifest.Error.{
  panic, Location, Result, ok, err, fault, out_of_fuel, invalid, ◌>>=◌, ◌>>◌, alias_not_allowed,
  anchor_not_allowed, tag_not_allowed, scalar_too_long, unterminated_sequence, sequence_too_long,
  unterminated_mapping, mapping_too_long, key_too_long, key_not_scalar, merge_key, duplicate_key,
  exceeds_depth, exceeds_nodes, unexpected_end, unexpected_event, invalid_stream, manifest_empty,
  expected_document, content_after_document, incomplete_document, several_documents,
  incomplete_stream,
}
use termux_stacks.Manifest.Node.{ScalarStyle, Node, MappingEntry, of_node_list, of_entry_map}

abbrev pub max_depth : ℕ
max_depth = 16

abbrev pub max_nodes : ℕ
max_nodes = 1024

abbrev pub max_collection_items : ℕ
max_collection_items = 128

abbrev pub max_scalar_bytes : ℕ
max_scalar_bytes = 16384

-- The events that the code names; `other` stands for the rest.
pub data Event : Type 0 where
  stream_start stream_end document_start document_end : Event
  alias : Event
  scalar : (value : Text) → ScalarStyle → (anchor : ℕ) → (tagged : Bool) → Event
  sequence_start : (anchor : ℕ) → (tagged : Bool) → Event
  sequence_end : Event
  mapping_start : (anchor : ℕ) → (tagged : Bool) → Event
  mapping_end other : Event

pub record Cursor : Type 0 where
  pub events : List (Event × Location)
  pub buffered : Option (Event × Location)
  pub nodes : ℕ

unfoldable pub new : List (Event × Location) → Cursor
new events = record { events = events; buffered = none; nodes = 0 }

abbrev from_events : List (Event × Location) → ℕ → Option ((Event × Location) × Cursor)
from_events [] n = none
from_events (e ∷ es) n = some (e, record { events = es; buffered = none; nodes = n })

unfoldable pub next : Cursor → Option ((Event × Location) × Cursor)
next c = elim c.buffered [
  | some e ↦ some (e, record c { buffered = none })
  | none ↦ from_events c.events c.nodes
]

abbrev pub holding : Event × Location → Cursor → Cursor
holding e c = record c { buffered = some e }

-- The assertion of a debug build panics where an event is held already.
unfoldable pub put_back : Event × Location → Cursor → Result Cursor
put_back e c = elim c.buffered [ some _ ↦ fault panic | none ↦ ok (holding e c) ]

put_back_outcome :
    (es : List (Event × Location)) (n : ℕ) (e : Event × Location) (c : Cursor)
    → from_events es n ≡ some (e, c)
    → put_back e c ≡ ok (holding e c)
unfolding put_back
put_back_outcome [] n e c h = ground arith
put_back_outcome (x ∷ es) n e c h = ground arith

-- An event that was just taken can be put back.
pub put_back_lem :
    (held : Option (Event × Location)) (es : List (Event × Location)) (n : ℕ) (e : Event × Location)
    (c : Cursor)
    → next (record { events = es; buffered = held; nodes = n }) ≡ some (e, c)
    → put_back e c ≡ ok (holding e c)
unfolding next put_back
put_back_lem none es n e c h = put_back_outcome es n e c h
put_back_lem (some x) es n e c h = ground arith

unfoldable pub reject_properties : ℕ → Bool → Location → Result (Unit {0})
reject_properties anchor tagged l =
    if anchor == 0
    then (if tagged then err (invalid tag_not_allowed (some l)) else ok tt)
    else err (invalid anchor_not_allowed (some l))

abbrev is_sequence_end : Event → Bool
is_sequence_end sequence_end = true
is_sequence_end _ = false

abbrev is_mapping_end : Event → Bool
is_mapping_end mapping_end = true
is_mapping_end _ = false

-- The scalar arm of `node`.
unfoldable pub read_scalar : Text → ScalarStyle → ℕ → Bool → Location → Result Node
unfolding reject_properties
read_scalar value style anchor tagged l = do
  reject_properties anchor tagged l
  if ltb max_scalar_bytes (len value)
      then err (invalid scalar_too_long (some l))
      else ok (Node.scalar (record { value = value; style = style; location = l }))

-- The key of a mapping's entry, from the event at its place.
unfoldable pub read_key : Event → Location → Result Text
unfolding reject_properties
read_key (scalar value style anchor tagged) l = do
  reject_properties anchor tagged l
  if ltb max_scalar_bytes (len value) then err (invalid key_too_long (some l)) else ok value
read_key alias l = err (invalid alias_not_allowed (some l))
read_key _ l = err (invalid key_not_scalar (some l))

-- The guards on a key, before the entry's value is read: `count` entries stand before it.
unfoldable pub admit_key :
    Text → Location → BTreeSet Text → (count : ℕ) → Location → Result (Unit {0})
admit_key key key_location keys count l =
    if key == text "<<"
    then err (invalid merge_key (some key_location))
    else if contains key keys
    then err (invalid (duplicate_key key) (some key_location))
    else if leb max_collection_items count
    then err (invalid mapping_too_long (some l))
    else ok tt

-- The arms of `node` on the event that it takes; the two loops are handed in.
unfoldable pub read_value :
    (Location → Cursor → Result (Node × Cursor))
    → (Location → Cursor → Result (Node × Cursor))
    → Option ((Event × Location) × Cursor)
    → Result (Node × Cursor)
unfolding read_scalar
read_value items entries none = err (invalid unexpected_end none)
read_value items entries (some ((alias, l), c)) = err (invalid alias_not_allowed (some l))
read_value items entries (some ((scalar value style anchor tagged, l), c)) = do
  n ← read_scalar value style anchor tagged l
  ok (n, c)
read_value items entries (some ((sequence_start anchor tagged, l), c)) = do
  reject_properties anchor tagged l
  items l c
read_value items entries (some ((mapping_start anchor tagged, l), c)) = do
  reject_properties anchor tagged l
  entries l c
read_value items entries (some ((_, l), c)) = err (invalid unexpected_event (some l))

abbrev count_node : Cursor → Cursor
count_node c = record c { nodes = c.nodes + 1 }

-- `node`, the loop of its sequence arm and the loop of its mapping arm, on fuel.
unfoldable mutual
  pub node : (fuel depth : ℕ) → Cursor → Result (Node × Cursor)
  node zero depth c = fault out_of_fuel
  node (suc f) depth c = elim (ltb max_depth depth) [
    | true ↦ err (invalid exceeds_depth none)
    | false ↦ elim (ltb max_nodes (c.nodes + 1)) [
      | true ↦ err (invalid exceeds_nodes none)
      | false ↦
          read_value (λ l c'. items f depth l [] c') (λ l c'. entries f depth l [] [] c')
            (next (count_node c))
    ]
  ]

  pub items : (fuel depth : ℕ) → Location → List Node → Cursor → Result (Node × Cursor)
  items zero depth l values c = fault out_of_fuel
  items (suc f) depth l values c = elim (next c) [
    | none ↦ err (invalid unterminated_sequence none)
    | some (e, c1) ↦ elim (is_sequence_end e.0) [
      | true ↦ ok (Node.sequence (of_node_list values) l, c1)
      | false ↦ elim (leb max_collection_items (length values)) [
        | true ↦ err (invalid sequence_too_long (some l))
        | false ↦ put_back e c1 >>= λ c2.
            node f (suc depth) c2 >>= λ r. items f depth l (values ++ r.0 ∷ []) r.1
      ]
    ]
  ]

  pub entries :
      (fuel depth : ℕ)
      → Location
      → BTreeMap Text MappingEntry
      → BTreeSet Text
      → Cursor
      → Result (Node × Cursor)
  entries zero depth l values keys c = fault out_of_fuel
  entries (suc f) depth l values keys c = elim (next c) [
    | none ↦ err (invalid unterminated_mapping none)
    | some (e, c1) ↦ elim (is_mapping_end e.0) [
      | true ↦ ok (Node.mapping (of_entry_map values) l, c1)
      | false ↦ read_key e.0 e.1 >>= λ key. admit_key key e.1 keys (length values) l >>= λ _.
          node f (suc depth) c1 >>= λ r.
          entries f depth l (Map.insert key (record { key_location = e.1; value = r.0 }) values)
            (Set.insert key keys) r.1
    ]
  ]

unfoldable pub expect_stream_start : Cursor → Result Cursor
expect_stream_start c = elim (next c) [
  | some ((stream_start, l), c') ↦ ok c'
  | _ ↦ err (invalid invalid_stream none)
]

unfoldable pub expect_document_start : Cursor → Result Cursor
expect_document_start c = elim (next c) [
  | some ((document_start, l), c') ↦ ok c'
  | some ((stream_end, l), c') ↦ err (invalid manifest_empty none)
  | none ↦ err (invalid manifest_empty none)
  | some ((_, l), c') ↦ err (invalid expected_document (some l))
]

unfoldable pub expect_document_end : Cursor → Result Cursor
expect_document_end c = elim (next c) [
  | some ((document_end, l), c') ↦ ok c'
  | some ((_, l), c') ↦ err (invalid content_after_document (some l))
  | none ↦ err (invalid incomplete_document none)
]

abbrev pub at_end : Location → Option ((Event × Location) × Cursor) → Result (Unit {0})
at_end l none = ok tt
at_end l (some r) = err (invalid content_after_document (some l))

unfoldable pub expect_stream_end : Cursor → Result (Unit {0})
expect_stream_end c = elim (next c) [
  | some ((stream_end, l), c') ↦ at_end l (next c')
  | some ((document_start, l), c') ↦ err (invalid several_documents (some l))
  | some ((_, l), c') ↦ err (invalid content_after_document (some l))
  | none ↦ err (invalid incomplete_stream none)
]
