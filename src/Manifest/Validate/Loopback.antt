-- ===== src/Manifest/Validate/Loopback.antt =====
-- The ports that a validated manifest holds (src/manifest.rs: `parse_ports`): on the loopback
-- address, in range, and claimed once.
use termux_stacks.Prelude.{
  ℕ, ◌+◌, ◌≤◌, ◌≡◌, subst, true, false, not, ◌||◌, List, [], ◌∷◌, Option, none, some, arith, All,
}
use termux_stacks.Ordered.Key.{Text, text, text_key, nat_key, ◌==◌, ==_iff}
use termux_stacks.Ordered.Map
use termux_stacks.Ordered.Map.{BTreeMap, get, contains_key}
use termux_stacks.Ordered.MapLaws.{get-insert}
use termux_stacks.Ordered.Set.{contains, IsDistinct}
use termux_stacks.Manifest.Error.{Location, FieldPath, member, item, Result, ok, bind_ok}
use termux_stacks.Manifest.Types.{Port}
use termux_stacks.Manifest.Literal.{ℤ, pos, negsuc}
use termux_stacks.Manifest.Node.{
  Node, MappingEntry, location, into_string, into_sequence, into_integer, into_mapping,
}
use termux_stacks.Manifest.Fields.{take_required, reject_unknown_fields}
use termux_stacks.Manifest.Service.{deny}
use termux_stacks.Manifest.Ports.{
  Claims, in_port_range, as_u16, claim, parse_port, ports_from, parse_ports,
}
use termux_stacks.Manifest.Validate.Dependencies.{deny-ok, not-false}

abbrev pub numbers : List Port → List ℕ
numbers [] = []
numbers (p ∷ ps) = p.port ∷ numbers ps

abbrev pub IsLoopbackPort : Port → Type 0
IsLoopbackPort p = (p.address ≡ text "127.0.0.1") × (1024 ≤ p.port) × (p.port ≤ 65535)

-- What `parse_ports` leaves behind.
pub record Claimed (before : Claims) (ps : List Port) (after : Claims) : Type 0 where
  pub kept : (n : ℕ) → contains_key n before ≡ true → contains_key n after ≡ true
  pub added : (n : ℕ) → contains n (numbers ps) ≡ true → contains_key n after ≡ true
  pub fresh : (n : ℕ) → contains n (numbers ps) ≡ true → contains_key n before ≡ false
  pub distinct : IsDistinct (numbers ps)
  pub loopback : All IsLoopbackPort ps

contains_key-insert :
    (m n : ℕ) (path : FieldPath) (c : Claims)
    → contains_key m (Map.insert n path c) ≡ (m == n || contains_key m c)
unfolding contains_key
contains_key-insert m n path c = ground (arith, get-insert m n path c)

claim-ok :
    (n : ℕ) (path : FieldPath) (l : Location) (c c' : Claims)
    → claim n path l c ≡ ok c'
    → (contains_key n c ≡ false) × (c' ≡ Map.insert n path c)
unfolding claim contains_key
claim-ok n path l c c' h = ground arith

as_u16_of_range : (z : ℤ) → in_port_range z ≡ true → (1024 ≤ as_u16 z) × (as_u16 z ≤ 65535)
as_u16_of_range (pos n) h = ground arith
as_u16_of_range (negsuc n) h = cc

abbrev NewPort : Claims → Port → Claims → Type 0
NewPort c p c' =
    IsLoopbackPort p
    × (contains_key p.port c ≡ false)
    × ((n : ℕ) → contains_key n c' ≡ (n == p.port || contains_key n c))

parse_port_done :
    (address : Text) (z : ℤ) (c c2 c' : Claims) (path : FieldPath) (l : Location) (p : Port)
    → address ≡ text "127.0.0.1"
    → in_port_range z ≡ true
    → claim (as_u16 z) (member path (text "port")) l c ≡ ok c2
    → ◌≡◌ {A = Result (Port × Claims)}
        (ok (record { address = address; port = as_u16 z }, c2))
        (ok (p, c'))
    → NewPort c p c'
parse_port_done address z c c2 c' path l p is_local ranged claimed h =
    let (low, high) = as_u16_of_range z ranged in
    let (free, is_c2) = claim-ok (as_u16 z) (member path (text "port")) l c c2 claimed in
    let is_p : record { address = address; port = as_u16 z } ≡ p = cc in
    let is_c' : c2 ≡ c' = cc in
    subst (NewPort' c c') is_p (
      (is_local, low, high),
      free,
      λ n. ground (arith, contains_key-insert n (as_u16 z) (member path (text "port")) c),
    )
  where
    NewPort' : Claims → Claims → Port → Type 0
    NewPort' c c' p = NewPort c p c'

-- A port that is parsed is in range and was not claimed; now it is.
parse_port-ok :
    (node : Node) (path : FieldPath) (c c' : Claims) (p : Port)
    → parse_port node path c ≡ ok (p, c')
    → NewPort c p c'
unfolding parse_port
parse_port-ok node path c c' p h = bind_ok (into_mapping node path) _ h λ m _ h1.
    bind_ok (reject_unknown_fields m path _) _ h1 λ _ _ h2.
      bind_ok (take_required m (text "address") _) _ h2 λ a _ h3.
        bind_ok (into_string a.0 _) _ h3 λ address _ h4.
          bind_ok (deny (not (address == text "127.0.0.1")) _) _ h4 λ _ local h5.
            bind_ok (take_required a.1 (text "port") _) _ h5 λ b _ h6.
              bind_ok (into_integer b.0 _) _ h6 λ z _ h7.
                bind_ok (deny (not (in_port_range z)) _) _ h7 λ _ ranged h8.
                  bind_ok (claim (as_u16 z) _ _ c) _ h8 λ c2 claimed h9.
                    parse_port_done address z c c2 c' path (location b.0) p
                      ((==_iff address (text "127.0.0.1")).0
                        (not-false (address == text "127.0.0.1") (deny-ok _ _ local)))
                      (not-false (in_port_range z) (deny-ok _ _ ranged)) claimed h9

Claimed-nil : (c : Claims) → Claimed c [] c
Claimed-nil c = record {
  kept = λ n h. h;
  added = λ n h. ground arith;
  fresh = λ n h. ground arith;
  distinct = tt;
  loopback = tt;
}

Claimed-cons :
    (before c after : Claims) (p : Port) (ps : List Port)
    → NewPort before p c
    → Claimed c ps after
    → Claimed before (p ∷ ps) after
Claimed-cons before c after p ps (loop, free, grown) r = record {
  kept = λ n h. ground (arith, grown n, r.kept n);
  added = λ n h. ground (arith, grown n, r.kept n, r.added n);
  fresh = λ n h. ground (arith, grown n, r.fresh n, ==_iff n p.port);
  distinct = (ground (arith, grown p.port, r.fresh p.port, ==_iff p.port p.port), r.distinct);
  loopback = (loop, r.loopback);
}

pair_parts :
    (ps : List Port) (c : Claims) (qs : List Port) (d : Claims)
    → ◌≡◌ {A = Result (List Port × Claims)} (ok (ps, c)) (ok (qs, d))
    → (ps ≡ qs) × (c ≡ d)
pair_parts ps c qs d h = (cc, cc)

ports_from-Claimed :
    (nodes : List Node) (index : ℕ) (path : FieldPath) (before : Claims) (ps : List Port)
    (after : Claims)
    → ports_from nodes index path before ≡ ok (ps, after)
    → Claimed before ps after
unfolding ports_from
ports_from-Claimed [] index path before ps after h =
    let (e, f) = pair_parts [] before ps after h in
    subst (λ q. Claimed before q after) e (subst (λ q. Claimed before [] q) f (Claimed-nil before))
ports_from-Claimed (node ∷ nodes) index path before ps after h =
    bind_ok (parse_port node (item path index) before) _ h λ a new h1.
      bind_ok (ports_from nodes (index + 1) path a.1) _ h1 λ b others h2.
        let first = parse_port-ok node (item path index) before a.1 a.0 new in
        let rest = ports_from-Claimed nodes (index + 1) path a.1 b.0 b.1 others in
        let (e, f) = pair_parts (a.0 ∷ b.0) b.1 ps after h2 in
        subst (λ q. Claimed before q after) e
          (subst (λ q. Claimed before (a.0 ∷ b.0) q) f
            (Claimed-cons before a.1 b.1 a.0 b.0 first rest))

pub parse_ports-Claimed :
    (entry : Option MappingEntry) (path : FieldPath) (before : Claims) (ps : List Port)
    (after : Claims)
    → parse_ports entry path before ≡ ok (ps, after)
    → Claimed before ps after
unfolding parse_ports
parse_ports-Claimed none path before ps after h =
    let (e, f) = pair_parts [] before ps after h in
    subst (λ q. Claimed before q after) e (subst (λ q. Claimed before [] q) f (Claimed-nil before))
parse_ports-Claimed (some entry) path before ps after h =
    bind_ok (into_sequence entry.value (member path (text "ports"))) _ h
      λ nodes _ h1. ports_from-Claimed nodes 0 (member path (text "ports")) before ps after h1
