-- ===== src/Manifest/Validate/Document.antt =====
-- Which streams of events are documents (src/manifest.rs: `parse`, behind the YAML parser).
use termux_stacks.Prelude.{
  ℕ, ◌+◌, ◌*◌, ◌≤◌, ◌≡◌, ◌↔◌, refl, sym, ◌∙◌, ap, List, [], ◌∷◌, Option, none, some, arith, length,
  Option-cases, inl, inr,
}
use termux_stacks.Manifest.Error.{Location, ok, bind_ok}
use termux_stacks.Manifest.Node.{Node}
use termux_stacks.Manifest.Cursor.{
  Event, stream_start, stream_end, document_start, document_end, Cursor, new, next, node, at_end,
  expect_stream_start, expect_document_start, expect_document_end, expect_stream_end, max_nodes,
}
use termux_stacks.Manifest.Cursor.Tree.{
  Tree, emit, node_of, size, Fits, pending, after, next-none, next-some,
}
use termux_stacks.Manifest.Cursor.Sound.{node-Reads}
use termux_stacks.Manifest.Cursor.Complete.{node-emit}
use termux_stacks.Manifest.Validate.{read_document}

-- One document of one tree within the limits, and nothing else.
pub record IsDocument (events : List (Event × Location)) (root : Node) : Type 0 where
  pub tree : Tree
  pub start : Location
  pub begin : Location
  pub finish : Location
  pub stop : Location
  pub spelled :
      events
      ≡ (stream_start, start)
        ∷ (document_start, begin)
        ∷ emit tree ((document_end, finish) ∷ (stream_end, stop) ∷ [])
  pub result : root ≡ node_of tree
  pub fits : Fits 0 tree
  pub counted : size tree ≤ max_nodes

-- The cursor stands before an event, and moves behind it.
abbrev Takes : Event → Cursor → Cursor → Type 0
Takes e c c' = (l : Location) × (pending c ≡ (e, l) ∷ c'.events) × (c' ≡ after c'.events c.nodes)

expect_stream_start-ok : (c c' : Cursor) → expect_stream_start c ≡ ok c' → Takes stream_start c c'
unfolding expect_stream_start
expect_stream_start-ok c c' h = elim (Option-cases (next c)) [
  | inl nothing ↦ absurd (ground arith)
  | inr ((e, c1), taken) ↦ let (p, q) = next-some c c1 e taken in (e.1, ground arith, ground arith)
]

expect_document_start-ok :
    (c c' : Cursor) → expect_document_start c ≡ ok c' → Takes document_start c c'
unfolding expect_document_start
expect_document_start-ok c c' h = elim (Option-cases (next c)) [
  | inl nothing ↦ absurd (ground arith)
  | inr ((e, c1), taken) ↦ let (p, q) = next-some c c1 e taken in (e.1, ground arith, ground arith)
]

expect_document_end-ok : (c c' : Cursor) → expect_document_end c ≡ ok c' → Takes document_end c c'
unfolding expect_document_end
expect_document_end-ok c c' h = elim (Option-cases (next c)) [
  | inl nothing ↦ absurd (ground arith)
  | inr ((e, c1), taken) ↦ let (p, q) = next-some c c1 e taken in (e.1, ground arith, ground arith)
]

at_end-ok :
    (l : Location) (o : Option ((Event × Location) × Cursor)) → at_end l o ≡ ok tt → o ≡ none
at_end-ok l none h = refl
at_end-ok l (some r) h = cc

expect_stream_end-ok :
    (c : Cursor) → expect_stream_end c ≡ ok tt → (l : Location) × (pending c ≡ (stream_end, l) ∷ [])
unfolding expect_stream_end
expect_stream_end-ok c h = elim (Option-cases (next c)) [
  | inl nothing ↦ absurd (ground arith)
  | inr ((e, c1), taken) ↦
      let (p, q) = next-some c c1 e taken in
      let last : next c1 ≡ none = at_end-ok e.1 (next c1) (ground arith) in
      let empty = next-none c1 last in (e.1, ground arith)
]

pending-after : (c : Cursor) (n : ℕ) → c ≡ after c.events n → pending c ≡ c.events
pending-after c n h = ap pending h

few :
    (c0 c1 c2 : Cursor) (k : ℕ)
    → c0 ≡ after c0.events 0
    → c1 ≡ after c1.events c0.nodes
    → c2 ≡ after c2.events (c1.nodes + k)
    → c2.nodes ≤ max_nodes
    → k ≤ max_nodes
few c0 c1 c2 k p q r h = omega (arith, ap Cursor.nodes p, ap Cursor.nodes q, ap Cursor.nodes r)

result-eq : (m n : Node) {k : Node} → ok m ≡ ok n → m ≡ k → n ≡ k
result-eq m n h e = cc

read_document-IsDocument :
    (events : List (Event × Location)) (root : Node)
    → read_document events ≡ ok root
    → IsDocument events root
unfolding read_document new
read_document-IsDocument events root h = bind_ok (expect_stream_start (new events)) _ h λ c0 e0 h1.
    bind_ok (expect_document_start c0) _ h1 λ c1 e1 h2.
      bind_ok (node (2 * length events + 1) 0 c1) _ h2 λ r e2 h3.
        bind_ok (expect_document_end r.1) _ h3 λ c3 e3 h4.
          bind_ok (expect_stream_end c3) _ h4 λ _ e4 h5.
            let (l0, p0, q0) = expect_stream_start-ok (new events) c0 e0 in
            let (l1, p1, q1) = expect_document_start-ok c0 c1 e1 in
            let reads = node-Reads (2 * length events + 1) 0 c1 r.0 r.1 e2 in
            let (l3, p3, q3) = expect_document_end-ok r.1 c3 e3 in
            let (l4, p4) = expect_stream_end-ok c3 e4 in
            let f1 = sym (pending-after c0 0 q0) ∙ p1 in
            let f2 = sym (pending-after c1 c0.nodes q1) ∙ reads.spelled in
            let f3 = sym (pending-after r.1 (c1.nodes + size reads.tree) reads.rest) ∙ p3 in
            let f4 = sym (pending-after c3 r.1.nodes q3) ∙ p4 in
            record {
              tree = reads.tree;
              start = l0;
              begin = l1;
              finish = l3;
              stop = l4;
              spelled =
                  p0
                  ∙ ap (λ es. (stream_start, l0) ∷ es) f1
                  ∙ ap (λ es. (stream_start, l0) ∷ (document_start, l1) ∷ es) f2
                  ∙ ap (λ es. (stream_start, l0) ∷ (document_start, l1) ∷ emit reads.tree es)
                      (f3 ∙ ap (λ es. (document_end, l3) ∷ es) f4);
              result = result-eq r.0 root h5 reads.result;
              fits = reads.fits;
              counted = few c0 c1 r.1 (size reads.tree) q0 q1 reads.rest reads.bounded;
            }

abbrev spelling : Tree → (start begin finish stop : Location) → List (Event × Location)
spelling t start begin finish stop =
    (stream_start, start)
    ∷ (document_start, begin)
    ∷ emit t ((document_end, finish) ∷ (stream_end, stop) ∷ [])

read_document-spelling :
    (t : Tree) (start begin finish stop : Location)
    → Fits 0 t
    → size t ≤ max_nodes
    → read_document (spelling t start begin finish stop) ≡ ok (node_of t)
unfolding read_document new expect_stream_start expect_document_start expect_document_end
    expect_stream_end next
read_document-spelling t start begin finish stop fits few =
    let tail : List (Event × Location) = (document_end, finish) ∷ (stream_end, stop) ∷ [] in
    let read =
      node-emit (2 * length (spelling t start begin finish stop) + 1) 0 t (after (emit t tail) 0)
        tail (omega arith) fits (omega arith) refl in
    rw read

IsDocument-read_document :
    (events : List (Event × Location)) (root : Node)
    → IsDocument events root
    → read_document events ≡ ok root
IsDocument-read_document events root d =
    ap read_document d.spelled
    ∙ read_document-spelling d.tree d.start d.begin d.finish d.stop d.fits d.counted
    ∙ ap ok (sym d.result)

-- A stream of events is read as a document exactly if it is the stream of one tree within the
-- limits and nothing else; the result is what the tree stands for.
pub read_document_iff :
    (events : List (Event × Location)) (root : Node)
    → (read_document events ≡ ok root) ↔ IsDocument events root
read_document_iff events root =
    (read_document-IsDocument events root, IsDocument-read_document events root)
