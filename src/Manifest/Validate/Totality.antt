-- ===== src/Manifest/Validate/Totality.antt =====
-- Reading a manifest never panics and never runs out of fuel (src/manifest.rs: `parse`).
use termux_stacks.Prelude.{
  ◌+◌, ◌*◌, ◌≤◌, ◌≡◌, List, [], ◌∷◌, Option, none, some, not, is_empty, ltb, length, arith,
}
use termux_stacks.Manifest.Error.{Location, ok}
use termux_stacks.Manifest.Cursor.{
  max_nodes, Event, Cursor, new, next, expect_stream_start, expect_document_start,
  expect_document_end, expect_stream_end, node,
}
use termux_stacks.Manifest.Cursor.Total.{IsSound, >>=-IsSound, left, node-IsSound}
use termux_stacks.Text.{len}
use termux_stacks.Ordered.Key.{Text, text_key}
use termux_stacks.Ordered.Map.{contains_key}
use termux_stacks.Ordered.Set.{BTreeSet}
use termux_stacks.Manifest.Node.{Node, MappingEntry, location, into_mapping}
use termux_stacks.Manifest.Fields.{Mapping, reject_unknown_fields}
use termux_stacks.Manifest.Names.{validate_name}
use termux_stacks.Manifest.Service.{deny}
use termux_stacks.Manifest.Ports.{Locations}
use termux_stacks.Manifest.Order.{Services, Sorting, sorted, cyclic}
use termux_stacks.Manifest.Order.Theorems.{topological_order-IsOutcome}
use termux_stacks.Manifest.Validate.{
  Shared, parse_service, volumes_from, parse_volumes, services_from, check_dependencies,
  reject_cycle, build_services, validate, max_bytes, collect, Parsed, event, failed, read_document,
  parse,
}
use termux_stacks.Manifest.Validate.Gathering.{services_from-Gathered, Gathered-empty}
use termux_stacks.Manifest.Validate.Theorems.{Gathered-IsGraph, no_sharing}
use termux_stacks.Manifest.Validate.Sound.{
  chain, deny-IsSound, into_mapping-IsSound, into_string-IsSound, take_required-IsSound,
  reject_unknown_fields-IsSound, validate_name-IsSound, parse_service-IsSound,
}

expect_stream_start-IsSound : (c : Cursor) → IsSound (expect_stream_start c)
unfolding expect_stream_start
expect_stream_start-IsSound c = ground arith

expect_stream_start-left :
    (events : List (Event × Location)) (c : Cursor)
    → expect_stream_start (new events) ≡ ok c
    → left c ≤ length events
unfolding expect_stream_start new next
expect_stream_start-left events c h = ground (arith, h)

expect_document_start-left : (c c' : Cursor) → expect_document_start c ≡ ok c' → left c' ≤ left c
unfolding expect_document_start next
expect_document_start-left c c' h = ground (arith, h)

expect_document_start-IsSound : (c : Cursor) → IsSound (expect_document_start c)
unfolding expect_document_start
expect_document_start-IsSound c = ground arith

expect_document_end-IsSound : (c : Cursor) → IsSound (expect_document_end c)
unfolding expect_document_end
expect_document_end-IsSound c = ground arith

expect_stream_end-IsSound : (c : Cursor) → IsSound (expect_stream_end c)
unfolding expect_stream_end
expect_stream_end-IsSound c = ground arith

-- Whatever the events, reading a document ends in a tree or an error: it never panics, and the
-- fuel, twice the number of the events and one, does not run out.
read_document-IsSound : (events : List (Event × Location)) → IsSound (read_document events)
unfolding read_document
read_document-IsSound events =
    >>=-IsSound (expect_stream_start (new events)) _ (expect_stream_start-IsSound (new events))
      λ c0 h0. >>=-IsSound (expect_document_start c0) _ (expect_document_start-IsSound c0) λ c1 h1.
        >>=-IsSound (node (2 * length events + 1) 0 c1) _
          (node-IsSound (2 * length events + 1) 0 c1 (
            omega
              (arith, expect_stream_start-left events c0 h0, expect_document_start-left c0 c1 h1)))
          λ r _.
            >>=-IsSound (expect_document_end r.1) _ (expect_document_end-IsSound r.1)
              λ c3 _. >>=-IsSound (expect_stream_end c3) _ (expect_stream_end-IsSound c3) λ _ _. tt

volumes_from-IsSound : (m : Mapping) (vs : BTreeSet Text) → IsSound (volumes_from m vs)
unfolding volumes_from
volumes_from-IsSound [] vs = tt
volumes_from-IsSound ((name, entry) ∷ m) vs =
    chain (validate_name name _ _) _ (validate_name-IsSound name _ _) λ _.
      chain (into_mapping entry.value _) _ (into_mapping-IsSound entry.value _) λ options.
        chain (reject_unknown_fields options _ []) _ (reject_unknown_fields-IsSound options _ [])
          λ _. volumes_from-IsSound m _

parse_volumes-IsSound : (e : Option MappingEntry) → IsSound (parse_volumes e)
unfolding parse_volumes
parse_volumes-IsSound none = tt
parse_volumes-IsSound (some e) =
    chain _ _ (into_mapping-IsSound e.value _) λ m. volumes_from-IsSound m []

services_from-IsSound :
    (m : Mapping) (vs : BTreeSet Text) (services : Services) (shared : Shared)
    → IsSound (services_from m vs services shared)
unfolding services_from
services_from-IsSound [] vs services shared = tt
services_from-IsSound ((name, entry) ∷ m) vs services shared =
    chain (validate_name name _ _) _ (validate_name-IsSound name _ _) λ _.
      chain (parse_service name entry.value _ vs shared) _
        (parse_service-IsSound name entry.value _ vs shared) λ r. services_from-IsSound m vs _ r.1

check_dependencies-IsSound :
    (ls : Locations) (services : Services) → IsSound (check_dependencies ls services)
unfolding check_dependencies
check_dependencies-IsSound [] services = tt
check_dependencies-IsSound (((name, dependency), l) ∷ ls) services =
    chain (deny (not (contains_key dependency services)) _) _ (deny-IsSound _ _)
      λ _. check_dependencies-IsSound ls services

reject_cycle-IsSound : (s : Sorting) (l : Location) → IsSound (reject_cycle s l)
reject_cycle-IsSound (sorted order) l = tt
reject_cycle-IsSound (cyclic names) l = tt

build_services-IsSound :
    (node : Node) (volumes : BTreeSet Text) → IsSound (build_services node volumes)
unfolding build_services
build_services-IsSound node volumes =
    >>=-IsSound (into_mapping node _) _ (into_mapping-IsSound node _) λ entries _.
      >>=-IsSound (deny (is_empty entries) _) _ (deny-IsSound _ _) λ _ _.
        >>=-IsSound (services_from entries volumes [] no_sharing) _
          (services_from-IsSound entries volumes [] no_sharing)
          λ r read.
            >>=-IsSound (check_dependencies r.1.locations r.0) _
              (check_dependencies-IsSound r.1.locations r.0)
              λ _ checked.
                let g =
                  services_from-Gathered entries volumes [] no_sharing r.0 r.1
                    (Gathered-empty volumes no_sharing) read in
                let (s, result, outcome) =
                  topological_order-IsOutcome r.0 (Gathered-IsGraph volumes r.0 r.1 g checked) in
                rw result
                  (chain (reject_cycle s (location node)) _ (reject_cycle-IsSound s _) λ _. tt)

validate-IsSound : (root : Node) → IsSound (validate root)
unfolding validate
validate-IsSound root = chain (into_mapping root _) _ (into_mapping-IsSound root _) λ top.
    chain _ _ (reject_unknown_fields-IsSound top _ _) λ _.
      chain _ _ (take_required-IsSound top _ _) λ a.
        chain _ _ (into_string-IsSound a.0 _) λ api_version. chain _ _ (deny-IsSound _ _) λ _.
          chain _ _ (take_required-IsSound a.1 _ _) λ b.
            chain _ _ (into_string-IsSound b.0 _) λ kind. chain _ _ (deny-IsSound _ _) λ _.
              chain _ _ (take_required-IsSound b.1 _ _) λ c.
                chain _ _ (into_mapping-IsSound c.0 _) λ metadata.
                  chain _ _ (reject_unknown_fields-IsSound metadata _ _) λ _.
                    chain _ _ (take_required-IsSound metadata _ _) λ d.
                      chain _ _ (into_string-IsSound d.0 _) λ name.
                        chain _ _ (validate_name-IsSound name _ _) λ _.
                          chain _ _ (parse_volumes-IsSound _) λ volumes.
                            chain _ _ (take_required-IsSound _ _ _)
                              λ e. chain _ _ (build_services-IsSound e.0 volumes) λ _. tt

collect-IsSound :
    (ps : List Parsed) (events : List (Event × Location)) → IsSound (collect ps events)
unfolding collect
collect-IsSound [] events = tt
collect-IsSound (failed ∷ ps) events = tt
collect-IsSound (event e l ∷ ps) events =
    chain (deny (ltb (max_nodes * 4) (length events + 1)) _) _ (deny-IsSound _ _)
      λ _. collect-IsSound ps _

-- Whatever the input and the events that the parser hands out, parsing a manifest ends in a
-- manifest or an error: it never panics, and the fuel of the reader and of the sort does not run
-- out.
pub parse-IsSound : (parser : Text → List Parsed) (input : Text) → IsSound (parse parser input)
unfolding parse
parse-IsSound parser input = chain (deny (ltb max_bytes (len input)) _) _ (deny-IsSound _ _) λ _.
    chain (collect (parser input) []) _ (collect-IsSound (parser input) []) λ events.
      chain (read_document events) _ (read_document-IsSound events) λ root. validate-IsSound root
