-- ===== src/Manifest/Cursor/Complete.antt =====
-- Every tree within the limits is read back from the events that spell it.
use termux_stacks.Prelude.{
  ℕ, zero, suc, ◌+◌, ◌*◌, ◌≤◌, ◌<◌, ◌≡◌, ◌≢◌, refl, ap, ◌∙◌, subst, sym, false, List, [], ◌∷◌, ◌++◌,
  some, length, length-append, arith,
}
use termux_stacks.Ordered.Key.{Text, text, text_key, ==_iff}
use termux_stacks.Ordered.Map
use termux_stacks.Ordered.Map.{BTreeMap, keys}
use termux_stacks.Ordered.MapLaws.{length-insert}
use termux_stacks.Ordered.Set
use termux_stacks.Ordered.Set.{BTreeSet, contains}
use termux_stacks.Text.{len}
use termux_stacks.Manifest.Error.{Location, Result, ok}
use termux_stacks.Manifest.Node.{ScalarStyle, Node, MappingEntry, of_node_list, of_entry_map}
use termux_stacks.Manifest.Cursor.{
  max_nodes, max_depth, max_collection_items, max_scalar_bytes, Event, sequence_start, sequence_end,
  mapping_start, mapping_end, Cursor, put_back, holding, count_node, is_sequence_end,
  reject_properties, read_scalar, read_key, admit_key, read_value, node, items, entries,
}
use termux_stacks.Manifest.Cursor.Tree.{
  Tree, Trees, Pairs, leaf, seq, map, nil, cons, end, pair, emit, emit_all, emit_pairs, node_of,
  nodes_of, entries_of, size, size_all, size_pairs, Fits, FitsAll, FitsPairs, pending, after,
  next-pending,
}
use termux_stacks.Manifest.Cursor.Sound.{Tracks, Tracks-insert, Tracks-empty}

-- The nesting of calls that reading a tree takes.
abbrev mutual
  pub weight : Tree → ℕ
  weight (leaf v s l) = 1
  weight (seq ts l e) = suc (weight_all ts)
  weight (map ps l e) = suc (weight_pairs ps)

  pub weight_all : Trees → ℕ
  weight_all nil = 1
  weight_all (cons t ts) = suc (weight t + weight_all ts)

  pub weight_pairs : Pairs → ℕ
  weight_pairs end = 1
  weight_pairs (pair k s l t ps) = suc (weight t + weight_pairs ps)

-- The first call of `node`, after its guards.
node-suc :
    (f d : ℕ) (c : Cursor) (e : Event × Location) (es : List (Event × Location))
    → d ≤ max_depth
    → c.nodes + 1 ≤ max_nodes
    → pending c ≡ e ∷ es
    → node (suc f) d c
      ≡ read_value
          (λ l c'. items f d l [] c')
          (λ l c'. entries f d l [] [] c')
          (some (e, after es (c.nodes + 1)))
unfolding node
node-suc f d c e es shallow few p = let taken = next-pending (count_node c) e es p in ground arith

-- A round of the sequence loop.
items-suc :
    (f d : ℕ) (l : Location) (values : List Node) (c c2 : Cursor) (e : Event × Location)
    (es : List (Event × Location)) (m : Node)
    → pending c ≡ e ∷ es
    → is_sequence_end e.0 ≡ false
    → length values < max_collection_items
    → node f (suc d) (holding e (after es c.nodes)) ≡ ok (m, c2)
    → items (suc f) d l values c ≡ items f d l (values ++ m ∷ []) c2
unfolding items put_back
items-suc f d l values c c2 e es m p more room one =
    let taken = next-pending c e es p in ground arith

-- A round of the mapping loop.
entries-suc :
    (f d : ℕ) (l : Location) (values : BTreeMap Text MappingEntry) (known : BTreeSet Text)
    (c c2 : Cursor) (k : Text) (s : ScalarStyle) (kl : Location) (es : List (Event × Location))
    (m : Node)
    → pending c ≡ (Event.scalar k s 0 false, kl) ∷ es
    → len k ≤ max_scalar_bytes
    → k ≢ text "<<"
    → contains k known ≡ false
    → length values < max_collection_items
    → node f (suc d) (after es c.nodes) ≡ ok (m, c2)
    → entries (suc f) d l values known c
      ≡ entries f d l
          (Map.insert k (record { key_location = kl; value = m }) values)
          (Set.insert k known)
          c2
unfolding entries read_key admit_key
entries-suc f d l values known c c2 k s kl es m p short merge fresh room one =
    let taken = next-pending c (Event.scalar k s 0 false, kl) es p in
    ground (arith, ==_iff k (text "<<"))

-- The first event of a tree, and those after it.
abbrev first : Tree → Event × Location
first (leaf v s l) = (Event.scalar v s 0 false, l)
first (seq ts l e) = (sequence_start 0 false, l)
first (map ps l e) = (mapping_start 0 false, l)

abbrev later : Tree → List (Event × Location) → List (Event × Location)
later (leaf v s l) rest = rest
later (seq ts l e) rest = emit_all ts ((sequence_end, e) ∷ rest)
later (map ps l e) rest = emit_pairs ps ((mapping_end, e) ∷ rest)

emit-cons : (t : Tree) (rest : List (Event × Location)) → emit t rest ≡ first t ∷ later t rest
emit-cons (leaf v s l) rest = refl
emit-cons (seq ts l e) rest = refl
emit-cons (map ps l e) rest = refl

first_starts : (t : Tree) → is_sequence_end (first t).0 ≡ false
first_starts (leaf v s l) = refl
first_starts (seq ts l e) = refl
first_starts (map ps l e) = refl

items-nil :
    (f d : ℕ) (l stop : Location) (values : List Node) (c : Cursor) (rest : List (Event × Location))
    → pending c ≡ (sequence_end, stop) ∷ rest
    → items (suc f) d l values c ≡ ok (Node.sequence (of_node_list values) l, after rest c.nodes)
unfolding items
items-nil f d l stop values c rest p =
    let taken = next-pending c (sequence_end, stop) rest p in ground arith

entries-end :
    (f d : ℕ) (l stop : Location) (values : BTreeMap Text MappingEntry) (known : BTreeSet Text)
    (c : Cursor) (rest : List (Event × Location))
    → pending c ≡ (mapping_end, stop) ∷ rest
    → entries (suc f) d l values known c
      ≡ ok (Node.mapping (of_entry_map values) l, after rest c.nodes)
unfolding entries
entries-end f d l stop values known c rest p =
    let taken = next-pending c (mapping_end, stop) rest p in ground arith

ok-after :
    (n : Node) (rest : List (Event × Location)) {i j : ℕ}
    → i ≡ j
    → ◌≡◌ {A = Result (Node × Cursor)} (ok (n, after rest i)) (ok (n, after rest j))
ok-after n rest e = ap {B = Result (Node × Cursor)} (λ k. ok (n, after rest k)) e

mutual
  unfolding read_value read_scalar reject_properties

  node_complete :
      (f d : ℕ) (t : Tree) (c : Cursor) (rest : List (Event × Location))
      → weight t ≤ f
      → Fits d t
      → c.nodes + size t ≤ max_nodes
      → pending c ≡ emit t rest
      → node f d c ≡ ok (node_of t, after rest (c.nodes + size t))
  node_complete zero d (leaf v s l) c rest w h b p = absurd (omega arith)
  node_complete (suc f) d (leaf v s l) c rest w h b p =
      node-suc f d c (Event.scalar v s 0 false, l) rest h.0 b p ∙ ground arith
  node_complete zero d (seq ts l e) c rest w h b p = absurd (omega arith)
  node_complete (suc f) d (seq ts l e) c rest w h b p =
      let es = emit_all ts ((sequence_end, e) ∷ rest) in
      node-suc f d c (sequence_start 0 false, l) es h.0 (omega arith) p
      ∙ items_complete f d l e [] ts (after es (c.nodes + 1)) rest (omega arith) h.1 (omega arith)
          refl
      ∙ ok-after _ rest (omega arith)
  node_complete zero d (map ps l e) c rest w h b p = absurd (omega arith)
  node_complete (suc f) d (map ps l e) c rest w h b p =
      let es = emit_pairs ps ((mapping_end, e) ∷ rest) in
      node-suc f d c (mapping_start 0 false, l) es h.0 (omega arith) p
      ∙ entries_complete f d l e [] [] ps (after es (c.nodes + 1)) rest Tracks-empty (omega arith)
          h.1 (omega arith) refl
      ∙ ok-after _ rest (omega arith)

  items_complete :
      (f d : ℕ) (l stop : Location) (values : List Node) (ts : Trees) (c : Cursor)
      (rest : List (Event × Location))
      → weight_all ts ≤ f
      → FitsAll (suc d) ts (length values)
      → c.nodes + size_all ts ≤ max_nodes
      → pending c ≡ emit_all ts ((sequence_end, stop) ∷ rest)
      → items f d l values c
        ≡ ok (
          Node.sequence (of_node_list (nodes_of ts values)) l,
          after rest (c.nodes + size_all ts),
        )
  items_complete zero d l stop values nil c rest w h b p = absurd (omega arith)
  items_complete (suc f) d l stop values nil c rest w h b p =
      items-nil f d l stop values c rest p ∙ ok-after _ rest (omega arith)
  items_complete zero d l stop values (cons t ts) c rest w h b p = absurd (omega arith)
  items_complete (suc f) d l stop values (cons t ts) c rest w h b p =
      let es = emit_all ts ((sequence_end, stop) ∷ rest) in
      let c1 = holding (first t) (after (later t es) c.nodes) in
      let c2 = after es (c.nodes + size t) in
      let one =
        node_complete f (suc d) t c1 es (omega arith) h.1 (omega arith) (sym (emit-cons t es)) in
      items-suc f d l values c c2 (first t) (later t es) (node_of t) (p ∙ emit-cons t es)
        (first_starts t) h.0 one
      ∙ items_complete f d l stop (values ++ node_of t ∷ []) ts c2 rest (omega arith)
          (subst (λ n. FitsAll (suc d) ts n) (omega (arith, length-append values (node_of t ∷ [])))
            h.2)
          (omega arith) refl
      ∙ ok-after _ rest (omega arith)

  entries_complete :
      (f d : ℕ) (l stop : Location) (values : BTreeMap Text MappingEntry) (known : BTreeSet Text)
      (ps : Pairs) (c : Cursor) (rest : List (Event × Location))
      → Tracks values known
      → weight_pairs ps ≤ f
      → FitsPairs (suc d) ps known (length values)
      → c.nodes + size_pairs ps ≤ max_nodes
      → pending c ≡ emit_pairs ps ((mapping_end, stop) ∷ rest)
      → entries f d l values known c
        ≡ ok (
          Node.mapping (of_entry_map (entries_of ps values)) l,
          after rest (c.nodes + size_pairs ps),
        )
  entries_complete zero d l stop values known end c rest tr w h b p = absurd (omega arith)
  entries_complete (suc f) d l stop values known end c rest tr w h b p =
      entries-end f d l stop values known c rest p ∙ ok-after _ rest (omega arith)
  entries_complete zero d l stop values known (pair k s kl t ps) c rest tr w h b p =
      absurd (omega arith)
  entries_complete (suc f) d l stop values known (pair k s kl t ps) c rest tr w
        (short, merge, fresh, room, fit, more) b p =
      let es = emit_pairs ps ((mapping_end, stop) ∷ rest) in
      let c1 = after (emit t es) c.nodes in
      let c2 = after es (c.nodes + size t) in
      let v : MappingEntry = record { key_location = kl; value = node_of t } in
      let one = node_complete f (suc d) t c1 es (omega arith) fit (omega arith) refl in
      entries-suc f d l values known c c2 k s kl (emit t es) (node_of t) p short merge fresh room
        one
      ∙ entries_complete f d l stop (Map.insert k v values) (Set.insert k known) ps c2 rest
          (Tracks-insert k v values known tr) (omega arith)
          (subst (λ n. FitsPairs (suc d) ps (Set.insert k known) n)
            (sym (length-insert k v values (tr k ∙ fresh))) more)
          (omega arith) refl
      ∙ ok-after _ rest (omega arith)

-- Twice the events of a tree are fuel enough to read it.
mutual
  weight-lt :
      (t : Tree) (rest : List (Event × Location))
      → weight t + 2 * length rest < 2 * length (emit t rest)
  weight-lt (leaf v s l) rest = omega arith
  weight-lt (seq ts l e) rest = omega (arith, weight_all-le ts ((sequence_end, e) ∷ rest))
  weight-lt (map ps l e) rest = omega (arith, weight_pairs-le ps ((mapping_end, e) ∷ rest))

  weight_all-le :
      (ts : Trees) (rest : List (Event × Location))
      → weight_all ts + 2 * length rest ≤ 2 * length (emit_all ts rest) + 1
  weight_all-le nil rest = omega arith
  weight_all-le (cons t ts) rest =
      omega (arith, weight-lt t (emit_all ts rest), weight_all-le ts rest)

  weight_pairs-le :
      (ps : Pairs) (rest : List (Event × Location))
      → weight_pairs ps + 2 * length rest ≤ 2 * length (emit_pairs ps rest) + 1
  weight_pairs-le end rest = omega arith
  weight_pairs-le (pair k s l t ps) rest =
      omega (arith, weight-lt t (emit_pairs ps rest), weight_pairs-le ps rest)

-- A tree within the limits, spelled by its events and followed by any others, is read as what it
-- stands for; the reader stops behind it and has counted its nodes.
pub node-emit :
    (f d : ℕ) (t : Tree) (c : Cursor) (rest : List (Event × Location))
    → 2 * length (pending c) ≤ f
    → Fits d t
    → c.nodes + size t ≤ max_nodes
    → pending c ≡ emit t rest
    → node f d c ≡ ok (node_of t, after rest (c.nodes + size t))
node-emit f d t c rest w h b p =
    node_complete f d t c rest (omega (arith, weight-lt t rest, ap length p)) h b p
