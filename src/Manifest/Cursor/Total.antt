-- ===== src/Manifest/Cursor/Total.antt =====
-- Enough fuel: twice the number of events that are left, and two.
use termux_stacks.Prelude.{
  ℕ, zero, suc, ◌+◌, ◌*◌, ◌≤◌, ◌<◌, ◌≡◌, refl, ap, List, [], ◌∷◌, ◌++◌, none, some, length, ltb,
  leb, arith, Bool-cases, Option-cases, inl, inr,
}
use termux_stacks.Ordered.Key.{Text, text_key}
use termux_stacks.Ordered.Map
use termux_stacks.Ordered.Map.{BTreeMap}
use termux_stacks.Ordered.Set
use termux_stacks.Ordered.Set.{BTreeSet}
use termux_stacks.Manifest.Error.{Location, Result, ok, err, fault, ◌>>=◌}
use termux_stacks.Manifest.Node.{Node, MappingEntry}
use termux_stacks.Manifest.Cursor.{
  max_nodes, max_depth, max_collection_items, Event, scalar, sequence_start, sequence_end,
  mapping_start, mapping_end, Cursor, next, holding, put_back_lem, count_node, is_sequence_end,
  is_mapping_end, read_key, admit_key, read_value, node, items, entries,
}
use termux_stacks.Manifest.Cursor.Tree.{
  Tree, Trees, Pairs, leaf, seq, map, nil, cons, end, pair, emit, emit_all, emit_pairs, pending,
  next-some,
}
use termux_stacks.Manifest.Cursor.Sound.{node-Reads}

-- A tree is spelled by one event at least.
mutual
  length-emit : (t : Tree) (rest : List (Event × Location)) → length rest < length (emit t rest)
  length-emit (leaf v s l) rest = omega arith
  length-emit (seq ts l e) rest = omega (arith, length-emit_all ts ((sequence_end, e) ∷ rest))
  length-emit (map ps l e) rest = omega (arith, length-emit_pairs ps ((mapping_end, e) ∷ rest))

  length-emit_all :
      (ts : Trees) (rest : List (Event × Location)) → length rest ≤ length (emit_all ts rest)
  length-emit_all nil rest = omega arith
  length-emit_all (cons t ts) rest =
      omega (arith, length-emit t (emit_all ts rest), length-emit_all ts rest)

  length-emit_pairs :
      (ps : Pairs) (rest : List (Event × Location)) → length rest ≤ length (emit_pairs ps rest)
  length-emit_pairs end rest = omega arith
  length-emit_pairs (pair k s l t ps) rest =
      omega (arith, length-emit t (emit_pairs ps rest), length-emit_pairs ps rest)

abbrev pub left : Cursor → ℕ
left c = length (pending c)

-- Reading a value takes an event.
left-node :
    (f d : ℕ) (c : Cursor) (n : Node) (c' : Cursor) → node f d c ≡ ok (n, c') → left c' < left c
left-node f d c n c' h =
    let r = node-Reads f d c n c' h in
    ground (arith, length-emit r.tree c'.events, ap length r.spelled, r.rest)

-- No fault comes out.
abbrev pub IsSound {ℓ} : {A : Type ℓ} → Result A → Type 0
IsSound (ok a) = Unit
IsSound (err e) = Unit
IsSound (fault x) = ⊥

pub >>=-IsSound {ℓ κ} :
    {A : Type ℓ} {B : Type κ} (m : Result A) (k : A → Result B)
    → IsSound m
    → ((a : A) → m ≡ ok a → IsSound (k a))
    → IsSound (m >>= k)
>>=-IsSound (ok a) k h next_sound = next_sound a refl
>>=-IsSound (err e) k h next_sound = tt
>>=-IsSound (fault x) k h next_sound = h

read_key-IsSound : (e : Event) (l : Location) → IsSound (read_key e l)
unfolding read_key
read_key-IsSound (scalar v s a t) l = ground arith
read_key-IsSound e l = tt

admit_key-IsSound :
    (k : Text) (kl : Location) (ks : BTreeSet Text) (n : ℕ) (l : Location)
    → IsSound (admit_key k kl ks n l)
unfolding admit_key
admit_key-IsSound k kl ks n l = ground arith

left-next : (c c1 : Cursor) (e : Event × Location) → next c ≡ some (e, c1) → left c1 < left c
left-next c c1 e taken = let (p, q) = next-some c c1 e taken in ground (arith, ap length p)

left-put_back :
    (c c1 : Cursor) (e : Event × Location) → next c ≡ some (e, c1) → left (holding e c1) ≡ left c
left-put_back c c1 e taken = let (p, q) = next-some c c1 e taken in ground (arith, ap length p)

read_value-none-IsSound :
    (loop_items loop_entries : Location → Cursor → Result (Node × Cursor))
    → IsSound (read_value loop_items loop_entries none)
unfolding read_value
read_value-none-IsSound loop_items loop_entries = tt

module _ (loop_items loop_entries : Location → Cursor → Result (Node × Cursor)) (c : Cursor)
    (items_total' : (l : Location) (c1 : Cursor) → left c1 < left c → IsSound (loop_items l c1))
    (entries_total' : (l : Location) (c1 : Cursor)
      → left c1 < left c
      → IsSound (loop_entries l c1)) where
  read_value-IsSound :
      (e : Event) (l : Location) (c1 : Cursor)
      → left c1 < left c
      → IsSound (read_value loop_items loop_entries (some ((e, l), c1)))
  unfolding read_value
  read_value-IsSound (scalar v s a t) l c1 h = ground arith
  read_value-IsSound (sequence_start a t) l c1 h = ground (arith, items_total' l c1)
  read_value-IsSound (mapping_start a t) l c1 h = ground (arith, entries_total' l c1)
  read_value-IsSound e l c1 h = tt

mutual
  unfolding node

  node_total : (f d : ℕ) (c : Cursor) → 2 * left c + 1 ≤ f → IsSound (node f d c)
  node_total zero d c h = absurd (omega arith)
  node_total (suc f) d c h = elim (Bool-cases (ltb max_depth d)) [
    | inl deep ↦ rw (node, deep) tt
    | inr shallow ↦ elim (Bool-cases (ltb max_nodes (c.nodes + 1))) [
      | inl many ↦ rw (node, shallow, many) tt
      | inr few ↦
          rw (node, shallow, few)
            (elim (Option-cases (next (count_node c))) [
              | inl nothing ↦ rw nothing (
                  read_value-none-IsSound (λ l c2. items f d l [] c2)
                    (λ l c2. entries f d l [] [] c2))
              | inr ((e, c1), taken) ↦
                  let (p, q) = next-some (count_node c) c1 e taken in
                  rw taken (
                    read_value-IsSound (λ l c2. items f d l [] c2) (λ l c2. entries f d l [] [] c2)
                      c (λ l c2 lt. items_total f d l [] c2 (omega arith))
                      (λ l c2 lt. entries_total f d l [] [] c2 (omega arith)) e.0 e.1 c1
                      (left-next (count_node c) c1 e taken))
            ])
    ]
  ]

  items_total :
      (f d : ℕ) (l : Location) (values : List Node) (c : Cursor)
      → 2 * left c + 2 ≤ f
      → IsSound (items f d l values c)
  items_total zero d l values c h = absurd (omega arith)
  items_total (suc f) d l values c h = elim (Option-cases (next c)) [
    | inl nothing ↦ rw (items, nothing) tt
    | inr ((e, c1), taken) ↦ elim (Bool-cases (is_sequence_end e.0)) [
      | inl stop ↦ rw (items, taken, stop) tt
      | inr more ↦ elim (Bool-cases (leb max_collection_items (length values))) [
        | inl full ↦ rw (items, taken, more, full) tt
        | inr room ↦
            let same = left-put_back c c1 e taken in
            rw (items, taken, more, room, put_back_lem c.buffered c.events c.nodes e c1 taken)
              (>>=-IsSound (node f (suc d) (holding e c1)) _
                (node_total f (suc d) (holding e c1) (omega arith))
                (λ r one.
                  items_total f d l (values ++ r.0 ∷ []) r.1
                    (omega (arith, left-node f (suc d) (holding e c1) r.0 r.1 one))))
      ]
    ]
  ]

  entries_total :
      (f d : ℕ) (l : Location) (values : BTreeMap Text MappingEntry) (known : BTreeSet Text)
      (c : Cursor)
      → 2 * left c + 2 ≤ f
      → IsSound (entries f d l values known c)
  entries_total zero d l values known c h = absurd (omega arith)
  entries_total (suc f) d l values known c h = elim (Option-cases (next c)) [
    | inl nothing ↦ rw (entries, nothing) tt
    | inr ((e, c1), taken) ↦ elim (Bool-cases (is_mapping_end e.0)) [
      | inl stop ↦ rw (entries, taken, stop) tt
      | inr more ↦
          let fewer = left-next c c1 e taken in
          rw (entries, taken, more)
            (>>=-IsSound (read_key e.0 e.1) _ (read_key-IsSound e.0 e.1) (λ k _.
              >>=-IsSound (admit_key k e.1 known (length values) l) _
                (admit_key-IsSound k e.1 known (length values) l)
                (λ _ _.
                  >>=-IsSound (node f (suc d) c1) _ (node_total f (suc d) c1 (omega arith))
                    (λ r one.
                      entries_total f d l
                        (Map.insert k (record { key_location = e.1; value = r.0 }) values)
                        (Set.insert k known) r.1
                        (omega (arith, left-node f (suc d) c1 r.0 r.1 one))))))
    ]
  ]

-- With fuel for twice the events and one, reading a value ends in a value or an error.
pub node-IsSound : (f d : ℕ) (c : Cursor) → 2 * left c + 1 ≤ f → IsSound (node f d c)
node-IsSound f d c h = node_total f d c h
