-- ===== src/Manifest/Cursor/Tree.antt =====
-- The grammar that the event reader (src/manifest.rs: `Cursor::node`) accepts, written without the
-- reader: a document tree, the events that spell it, and the tree of the program that it stands for.
use termux_stacks.Prelude.{
  ℕ, suc, ◌+◌, ◌≤◌, ◌<◌, ◌≡◌, ◌≢◌, false, List, [], ◌∷◌, ◌++◌, Option, none, some, arith,
}
use termux_stacks.Ordered.Key.{Text, text, text_key}
use termux_stacks.Ordered.Map
use termux_stacks.Ordered.Map.{BTreeMap}
use termux_stacks.Ordered.Set
use termux_stacks.Ordered.Set.{BTreeSet, contains}
use termux_stacks.Text.{len}
use termux_stacks.Manifest.Error.{Location}
use termux_stacks.Manifest.Node.{ScalarStyle, Node, MappingEntry, of_node_list, of_entry_map}
use termux_stacks.Manifest.Cursor.{
  max_depth, max_collection_items, max_scalar_bytes, Event, sequence_start, sequence_end,
  mapping_start, mapping_end, Cursor, next,
}

mutual
  pub data Tree : Type 0 where
    leaf : Text → ScalarStyle → Location → Tree
    seq : Trees → (start stop : Location) → Tree
    map : Pairs → (start stop : Location) → Tree

  pub data Trees : Type 0 where
    nil : Trees
    cons : Tree → Trees → Trees

  pub data Pairs : Type 0 where
    end : Pairs
    pair : (key : Text) → ScalarStyle → Location → Tree → Pairs → Pairs

-- The events of a tree, in front of those that follow.
abbrev mutual
  pub emit : Tree → List (Event × Location) → List (Event × Location)
  emit (leaf v s l) rest = (Event.scalar v s 0 false, l) ∷ rest
  emit (seq ts l e) rest = (sequence_start 0 false, l) ∷ emit_all ts ((sequence_end, e) ∷ rest)
  emit (map ps l e) rest = (mapping_start 0 false, l) ∷ emit_pairs ps ((mapping_end, e) ∷ rest)

  pub emit_all : Trees → List (Event × Location) → List (Event × Location)
  emit_all nil rest = rest
  emit_all (cons t ts) rest = emit t (emit_all ts rest)

  pub emit_pairs : Pairs → List (Event × Location) → List (Event × Location)
  emit_pairs end rest = rest
  emit_pairs (pair k s l t ps) rest = (Event.scalar k s 0 false, l) ∷ emit t (emit_pairs ps rest)

-- The program's tree: a mapping's entries are put into the ordered map one after the other.
abbrev mutual
  pub node_of : Tree → Node
  node_of (leaf v s l) = Node.scalar (record { value = v; style = s; location = l })
  node_of (seq ts l e) = Node.sequence (of_node_list (nodes_of ts [])) l
  node_of (map ps l e) = Node.mapping (of_entry_map (entries_of ps [])) l

  -- After the values read before.
  pub nodes_of : Trees → List Node → List Node
  nodes_of nil values = values
  nodes_of (cons t ts) values = nodes_of ts (values ++ node_of t ∷ [])

  pub entries_of : Pairs → BTreeMap Text MappingEntry → BTreeMap Text MappingEntry
  entries_of end values = values
  entries_of (pair k s l t ps) values =
      entries_of ps (Map.insert k (record { key_location = l; value = node_of t }) values)

-- The nodes of a tree: keys do not count.
abbrev mutual
  pub size : Tree → ℕ
  size (leaf v s l) = 1
  size (seq ts l e) = suc (size_all ts)
  size (map ps l e) = suc (size_pairs ps)

  pub size_all : Trees → ℕ
  size_all nil = 0
  size_all (cons t ts) = size t + size_all ts

  pub size_pairs : Pairs → ℕ
  size_pairs end = 0
  size_pairs (pair k s l t ps) = size t + size_pairs ps

-- What is admitted at a nesting depth: the depth, the length of scalars and keys, the number of
-- elements beside those read before; keys are pairwise distinct and none is the merge key.
abbrev mutual
  pub Fits : ℕ → Tree → Type 0
  Fits d (leaf v s l) = (d ≤ max_depth) × (len v ≤ max_scalar_bytes)
  Fits d (seq ts l e) = (d ≤ max_depth) × FitsAll (suc d) ts 0
  Fits d (map ps l e) = (d ≤ max_depth) × FitsPairs (suc d) ps [] 0

  pub FitsAll : ℕ → Trees → ℕ → Type 0
  FitsAll d nil n = Unit
  FitsAll d (cons t ts) n = (n < max_collection_items) × Fits d t × FitsAll d ts (suc n)

  pub FitsPairs : ℕ → Pairs → BTreeSet Text → ℕ → Type 0
  FitsPairs d end keys n = Unit
  FitsPairs d (pair k s l t ps) keys n =
      (len k ≤ max_scalar_bytes)
      × (k ≢ text "<<")
      × (contains k keys ≡ false)
      × (n < max_collection_items)
      × Fits d t
      × FitsPairs d ps (Set.insert k keys) (suc n)

-- The events that a reader has not taken yet.
abbrev pub pending_of :
    Option (Event × Location) → List (Event × Location) → List (Event × Location)
pending_of none es = es
pending_of (some e) es = e ∷ es

abbrev pub pending : Cursor → List (Event × Location)
pending c = pending_of c.buffered c.events

abbrev pub after : List (Event × Location) → ℕ → Cursor
after es n = record { events = es; buffered = none; nodes = n }

pub next-none : (c : Cursor) → next c ≡ none → pending c ≡ []
unfolding next
next-none c h = ground arith

pub next-some :
    (c c' : Cursor) (e : Event × Location)
    → next c ≡ some (e, c')
    → (pending c ≡ e ∷ c'.events) × (c' ≡ after c'.events c.nodes)
unfolding next
next-some c c' e h = ground arith

pub next-pending :
    (c : Cursor) (e : Event × Location) (es : List (Event × Location))
    → pending c ≡ e ∷ es
    → next c ≡ some (e, after es c.nodes)
unfolding next
next-pending c e es h = ground arith
