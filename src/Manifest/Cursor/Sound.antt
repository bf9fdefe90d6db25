-- ===== src/Manifest/Cursor/Sound.antt =====
-- What the event reader (src/manifest.rs: `Cursor::node`) accepts is spelled by a tree that fits
-- the limits, and the result is what that tree stands for.
use termux_stacks.Prelude.{
  ℕ, zero, suc, ◌+◌, ◌≤◌, ◌≡◌, ◌≢◌, refl, subst, Bool, true, false, List, [], ◌∷◌, ◌++◌, none, some,
  length, length-append, ltb, leb, arith, Bool-cases, Option-cases, inl, inr,
}
use termux_stacks.Ordered.Key.{Text, text, text_key, ==_iff}
use termux_stacks.Ordered.Map
use termux_stacks.Ordered.Map.{BTreeMap, keys}
use termux_stacks.Ordered.MapLaws.{contains-keys-insert, length-insert}
use termux_stacks.Ordered.Set
use termux_stacks.Ordered.Set.{BTreeSet, contains, contains-insert}
use termux_stacks.Text.{len}
use termux_stacks.Manifest.Error.{Location, Result, ok, bind_parts}
use termux_stacks.Manifest.Node.{ScalarStyle, Node, MappingEntry, of_node_list, of_entry_map}
use termux_stacks.Manifest.Cursor.{
  max_nodes, max_depth, max_collection_items, max_scalar_bytes, Event, scalar, sequence_start,
  sequence_end, mapping_start, mapping_end, Cursor, next, holding, put_back_lem, count_node,
  is_sequence_end, is_mapping_end, reject_properties, read_scalar, read_key, admit_key, read_value,
  node, items, entries,
}
use termux_stacks.Manifest.Cursor.Tree.{
  Tree, Trees, Pairs, leaf, seq, map, nil, cons, end, pair, emit, emit_all, emit_pairs, node_of,
  nodes_of, entries_of, size, size_all, size_pairs, Fits, FitsAll, FitsPairs, pending, after,
  next-some,
}

pub record Reads (d : ℕ) (c : Cursor) (n : Node) (c' : Cursor) : Type 0 where
  pub tree : Tree
  pub spelled : pending c ≡ emit tree c'.events
  pub rest : c' ≡ after c'.events (c.nodes + size tree)
  pub result : n ≡ node_of tree
  pub fits : Fits d tree
  pub bounded : c'.nodes ≤ max_nodes

record ReadsAll (d : ℕ) (l : Location) (values : List Node) (c : Cursor) (n : Node) (c' : Cursor)
    : Type 0 where
  trees : Trees
  stop : Location
  spelled : pending c ≡ emit_all trees ((sequence_end, stop) ∷ c'.events)
  rest : c' ≡ after c'.events (c.nodes + size_all trees)
  result : n ≡ Node.sequence (of_node_list (nodes_of trees values)) l
  fits : FitsAll d trees (length values)
  bounded : c'.nodes ≤ max_nodes

record ReadsPairs (d : ℕ) (l : Location) (values : BTreeMap Text MappingEntry)
    (known : BTreeSet Text) (c : Cursor) (n : Node) (c' : Cursor) : Type 0 where
  pairs : Pairs
  stop : Location
  spelled : pending c ≡ emit_pairs pairs ((mapping_end, stop) ∷ c'.events)
  rest : c' ≡ after c'.events (c.nodes + size_pairs pairs)
  result : n ≡ Node.mapping (of_entry_map (entries_of pairs values)) l
  fits : FitsPairs d pairs known (length values)
  bounded : c'.nodes ≤ max_nodes

is_sequence_end_eq : (e : Event) → is_sequence_end e ≡ true → e ≡ sequence_end
is_sequence_end_eq sequence_end h = refl
is_sequence_end_eq e h = cc

is_mapping_end_eq : (e : Event) → is_mapping_end e ≡ true → e ≡ mapping_end
is_mapping_end_eq mapping_end h = refl
is_mapping_end_eq e h = cc

reject_properties_eq :
    (a : ℕ) (t : Bool) (l : Location) → reject_properties a t l ≡ ok tt → (a ≡ 0) × (t ≡ false)
unfolding reject_properties
reject_properties_eq a t l h = ground arith

-- A key that is read stands there as a scalar without properties, and within the limit.
read_key_eq :
    (e : Event) (l : Location) (k : Text)
    → read_key e l ≡ ok k
    → (s : _) × (e ≡ scalar k s 0 false) × (len k ≤ max_scalar_bytes)
unfolding read_key
read_key_eq (scalar v s a t) l k h = (s, ground arith, ground arith)
read_key_eq e l k h = cc

admit_key_eq :
    (k : Text) (kl : Location) (known : BTreeSet Text) (n : ℕ) (l : Location)
    → admit_key k kl known n l ≡ ok tt
    → (k ≢ text "<<") × (contains k known ≡ false) × (suc n ≤ max_collection_items)
unfolding admit_key
admit_key_eq k kl known n l h =
    (λ e. ground (arith, ==_iff k (text "<<")), ground arith, ground arith)

read_scalar_eq :
    (v : Text) (s : ScalarStyle) (a : ℕ) (t : Bool) (l : Location) (n : Node)
    → read_scalar v s a t l ≡ ok n
    → (a ≡ 0)
      × (t ≡ false)
      × (len v ≤ max_scalar_bytes)
      × (n ≡ Node.scalar (record { value = v; style = s; location = l }))
unfolding read_scalar
read_scalar_eq v s a t l n h = (ground arith, ground arith, ground arith, ground arith)

read_value-none :
    (loop_items loop_entries : Location → Cursor → Result (Node × Cursor)) (n : Node) (c' : Cursor)
    → read_value loop_items loop_entries none ≢ ok (n, c')
unfolding read_value
read_value-none loop_items loop_entries n c' h = cc

-- Shared by the arms: the two loops handed in are sound, and the depth and the count are in bounds.
module _ (d : ℕ) (loop_items loop_entries : Location → Cursor → Result (Node × Cursor))
    (items_sound' : (l : Location) (c1 : Cursor) (n : Node) (c2 : Cursor)
      → c1.nodes ≤ max_nodes
      → loop_items l c1 ≡ ok (n, c2)
      → ReadsAll (suc d) l [] c1 n c2)
    (entries_sound' : (l : Location) (c1 : Cursor) (n : Node) (c2 : Cursor)
      → c1.nodes ≤ max_nodes
      → loop_entries l c1 ≡ ok (n, c2)
      → ReadsPairs (suc d) l [] [] c1 n c2)
    (c : Cursor) (shallow : d ≤ max_depth) (few : c.nodes + 1 ≤ max_nodes) where
  read_value-some :
      (e : Event) (l : Location) (c1 : Cursor) (n : Node) (c' : Cursor)
      → pending c ≡ (e, l) ∷ c1.events
      → c1 ≡ after c1.events (c.nodes + 1)
      → read_value loop_items loop_entries (some ((e, l), c1)) ≡ ok (n, c')
      → Reads d c n c'
  unfolding read_value
  read_value-some (scalar v s a t) l c1 n c' p q h =
      let (m, scanned, done) = bind_parts (read_scalar v s a t l) (λ m. ok (m, c1)) h in
      let (anchor, tag, short, is_m) = read_scalar_eq v s a t l m scanned in
      record {
        tree = leaf v s l;
        spelled = ground arith;
        rest = ground arith;
        result = ground arith;
        fits = (shallow, short);
        bounded = ground arith;
      }
  read_value-some (sequence_start a t) l c1 n c' p q h =
      let (u, clean, looped) = bind_parts (reject_properties a t l) (λ _. loop_items l c1) h in
      let (anchor, tag) = reject_properties_eq a t l clean in
      let r = items_sound' l c1 n c' (ground arith) looped in
      record {
        tree = seq r.trees l r.stop;
        spelled = ground arith;
        rest = ground arith;
        result = r.result;
        fits = (shallow, r.fits);
        bounded = r.bounded;
      }
  read_value-some (mapping_start a t) l c1 n c' p q h =
      let (u, clean, looped) = bind_parts (reject_properties a t l) (λ _. loop_entries l c1) h in
      let (anchor, tag) = reject_properties_eq a t l clean in
      let r = entries_sound' l c1 n c' (ground arith) looped in
      record {
        tree = map r.pairs l r.stop;
        spelled = ground arith;
        rest = ground arith;
        result = r.result;
        fits = (shallow, r.fits);
        bounded = r.bounded;
      }
  read_value-some e l c1 n c' p q h = cc

-- The set of keys read so far holds the keys of the map built so far.
abbrev pub Tracks : BTreeMap Text MappingEntry → BTreeSet Text → Type 0
Tracks values known = (j : Text) → contains j (keys values) ≡ contains j known

pub Tracks-insert :
    (k : Text) (v : MappingEntry) (values : BTreeMap Text MappingEntry) (known : BTreeSet Text)
    → Tracks values known
    → Tracks (Map.insert k v values) (Set.insert k known)
Tracks-insert k v values known h j =
    ground (arith, contains-keys-insert j k v values, contains-insert j k known, h j)

-- An element, and what the rest of the loop reads.
ReadsAll-cons :
    (d : ℕ) (l : Location) (values : List Node) (c : Cursor) (e : Event × Location)
    (c1 c2 c' : Cursor) (m n : Node)
    → next c ≡ some (e, c1)
    → suc (length values) ≤ max_collection_items
    → Reads d (holding e c1) m c2
    → ReadsAll d l (values ++ m ∷ []) c2 n c'
    → ReadsAll d l values c n c'
ReadsAll-cons d l values c e c1 c2 c' m n taken room r rs =
    let (p, q) = next-some c c1 e taken in
    record {
      trees = cons r.tree rs.trees;
      stop = rs.stop;
      spelled = ground (arith, r.spelled, rs.spelled, r.rest);
      rest = ground (arith, r.rest, rs.rest);
      result = ground (arith, r.result, rs.result);
      fits = (
        room,
        r.fits,
        subst (λ k. FitsAll d rs.trees k) (omega (arith, length-append values (m ∷ []))) rs.fits,
      );
      bounded = rs.bounded;
    }

-- A round of the sequence loop.
items_step :
    (f d : ℕ) (l : Location) (values : List Node) (c : Cursor) (n : Node) (c' : Cursor)
    → ((c0 c2 : Cursor) (m : Node) → node f (suc d) c0 ≡ ok (m, c2) → Reads (suc d) c0 m c2)
    → ((vs : List Node) (c2 : Cursor)
        → c2.nodes ≤ max_nodes
        → items f d l vs c2 ≡ ok (n, c')
        → ReadsAll (suc d) l vs c2 n c')
    → c.nodes ≤ max_nodes
    → items (suc f) d l values c ≡ ok (n, c')
    → ReadsAll (suc d) l values c n c'
unfolding items
items_step f d l values c n c' ihn ihs few h = elim (Option-cases (next c)) [
  | inl nothing ↦ absurd (ground arith)
  | inr ((e, c1), taken) ↦ elim (Bool-cases (is_sequence_end e.0)) [
    | inl stop ↦
        let (p, q) = next-some c c1 e taken in
        let same = is_sequence_end_eq e.0 stop in
        record {
          trees = nil;
          stop = e.1;
          spelled = ground arith;
          rest = ground arith;
          result = ground arith;
          fits = tt;
          bounded = ground arith;
        }
    | inr more ↦ elim (Bool-cases (leb max_collection_items (length values))) [
      | inl full ↦ absurd (ground arith)
      | inr room ↦
          let (r, one, others) =
            bind_parts (node f (suc d) (holding e c1)) (λ r. items f d l (values ++ r.0 ∷ []) r.1)
              (rw (taken, items, more, room, put_back_lem c.buffered c.events c.nodes e c1 taken) at
                h) in
          let first = ihn (holding e c1) r.1 r.0 one in
          ReadsAll-cons (suc d) l values c e c1 r.1 c' r.0 n taken (ground arith) first
            (ihs (values ++ r.0 ∷ []) r.1 first.bounded others)
    ]
  ]
]

-- An entry, and what the rest of the loop reads.
ReadsPairs-pair :
    (d : ℕ) (l : Location) (values : BTreeMap Text MappingEntry) (known : BTreeSet Text)
    (c : Cursor) (ev : Event) (kl : Location) (c1 c2 c' : Cursor) (k : Text) (m n : Node)
    → Tracks values known
    → next c ≡ some ((ev, kl), c1)
    → read_key ev kl ≡ ok k
    → admit_key k kl known (length values) l ≡ ok tt
    → Reads d c1 m c2
    → ReadsPairs d l
        (Map.insert k (record { key_location = kl; value = m }) values)
        (Set.insert k known)
        c2
        n
        c'
    → ReadsPairs d l values known c n c'
ReadsPairs-pair d l values known c ev kl c1 c2 c' k m n t taken readable admitted r rs =
    let (p, q) = next-some c c1 (ev, kl) taken in
    let (s, is_ev, short) = read_key_eq ev kl k readable in
    let (no_merge, fresh, room) = admit_key_eq k kl known (length values) l admitted in
    let v : MappingEntry = record { key_location = kl; value = m } in
    let longer = length-insert k v values (ground (arith, t k)) in
    record {
      pairs = pair k s kl r.tree rs.pairs;
      stop = rs.stop;
      spelled = ground (arith, r.spelled, rs.spelled, r.rest);
      rest = ground (arith, r.rest, rs.rest);
      result = ground (arith, r.result, rs.result);
      fits = (
        short,
        no_merge,
        fresh,
        room,
        r.fits,
        subst (λ b. FitsPairs d rs.pairs (Set.insert k known) b) longer rs.fits,
      );
      bounded = rs.bounded;
    }

-- A round of the mapping loop.
entries_step :
    (f d : ℕ) (l : Location) (values : BTreeMap Text MappingEntry) (known : BTreeSet Text)
    (c : Cursor) (n : Node) (c' : Cursor)
    → ((c0 c2 : Cursor) (m : Node) → node f (suc d) c0 ≡ ok (m, c2) → Reads (suc d) c0 m c2)
    → ((vs : BTreeMap Text MappingEntry) (ks : BTreeSet Text) (c2 : Cursor)
        → Tracks vs ks
        → c2.nodes ≤ max_nodes
        → entries f d l vs ks c2 ≡ ok (n, c')
        → ReadsPairs (suc d) l vs ks c2 n c')
    → Tracks values known
    → c.nodes ≤ max_nodes
    → entries (suc f) d l values known c ≡ ok (n, c')
    → ReadsPairs (suc d) l values known c n c'
unfolding entries
entries_step f d l values known c n c' ihn ihs t few h = elim (Option-cases (next c)) [
  | inl nothing ↦ absurd (ground arith)
  | inr ((e, c1), taken) ↦ elim (Bool-cases (is_mapping_end e.0)) [
    | inl stop ↦
        let (p, q) = next-some c c1 e taken in
        let same = is_mapping_end_eq e.0 stop in
        record {
          pairs = end;
          stop = e.1;
          spelled = ground arith;
          rest = ground arith;
          result = ground arith;
          fits = tt;
          bounded = ground arith;
        }
    | inr more ↦
        let (k, readable, h1) = bind_parts (read_key e.0 e.1) _ (rw (taken, entries, more) at h) in
        let (u, admitted, h2) = bind_parts (admit_key k e.1 known (length values) l) _ h1 in
        let (r, one, others) = bind_parts (node f (suc d) c1) _ h2 in
        let first = ihn c1 r.1 r.0 one in
        let v : MappingEntry = record { key_location = e.1; value = r.0 } in
        ReadsPairs-pair (suc d) l values known c e.0 e.1 c1 r.1 c' k r.0 n t taken readable admitted
          first
          (ihs (Map.insert k v values) (Set.insert k known) r.1 (Tracks-insert k v values known t)
            first.bounded others)
  ]
]

pub Tracks-empty : Tracks [] []
unfolding keys
Tracks-empty j = refl

mutual
  unfolding node

  node_sound :
      (f d : ℕ) (c : Cursor) (n : Node) (c' : Cursor) → node f d c ≡ ok (n, c') → Reads d c n c'
  node_sound zero d c n c' h = cc
  node_sound (suc f) d c n c' h = elim (Bool-cases (ltb max_depth d)) [
    | inl deep ↦ absurd (ground arith)
    | inr shallow ↦ elim (Bool-cases (ltb max_nodes (c.nodes + 1))) [
      | inl many ↦ absurd (ground arith)
      | inr few ↦ elim (Option-cases (next (count_node c))) [
        | inl nothing ↦ absurd (
            read_value-none (λ l c2. items f d l [] c2) (λ l c2. entries f d l [] [] c2) n c'
              (rw (shallow, node, few, nothing) at h))
        | inr ((e, c1), taken) ↦
            let (p, q) = next-some (count_node c) c1 e taken in
            read_value-some d (λ l c2. items f d l [] c2) (λ l c2. entries f d l [] [] c2)
              (λ l c1 n c2 few h. items_sound f d l [] c1 n c2 few h)
              (λ l c1 n c2 few h. entries_sound f d l [] [] c1 n c2 Tracks-empty few h) c
              (ground arith) (ground arith) e.0 e.1 c1 n c' p q
              (rw (shallow, node, few, taken) at h)
      ]
    ]
  ]

  items_sound :
      (f d : ℕ) (l : Location) (values : List Node) (c : Cursor) (n : Node) (c' : Cursor)
      → c.nodes ≤ max_nodes
      → items f d l values c ≡ ok (n, c')
      → ReadsAll (suc d) l values c n c'
  items_sound zero d l values c n c' few h = cc
  items_sound (suc f) d l values c n c' few h =
      items_step f d l values c n c' (λ c0 c2 m. node_sound f (suc d) c0 m c2)
        (λ vs c2. items_sound f d l vs c2 n c') few h

  entries_sound :
      (f d : ℕ) (l : Location) (values : BTreeMap Text MappingEntry) (known : BTreeSet Text)
      (c : Cursor) (n : Node) (c' : Cursor)
      → Tracks values known
      → c.nodes ≤ max_nodes
      → entries f d l values known c ≡ ok (n, c')
      → ReadsPairs (suc d) l values known c n c'
  entries_sound zero d l values known c n c' t few h = cc
  entries_sound (suc f) d l values known c n c' t few h =
      entries_step f d l values known c n c' (λ c0 c2 m. node_sound f (suc d) c0 m c2)
        (λ vs ks c2. entries_sound f d l vs ks c2 n c') t few h

-- What the reader returns is what a tree within the limits stands for, and the events that it
-- took are those that spell the tree.
pub node-Reads :
    (f d : ℕ) (c : Cursor) (n : Node) (c' : Cursor) → node f d c ≡ ok (n, c') → Reads d c n c'
node-Reads f d c n c' h = node_sound f d c n c' h
