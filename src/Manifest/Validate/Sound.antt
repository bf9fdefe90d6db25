-- ===== src/Manifest/Validate/Sound.antt =====
-- The validator never panics (src/manifest.rs): none of its parsers ends in a fault.
use termux_stacks.Prelude.{
  is_empty, ℕ, ◌+◌, Bool, true, false, not, List, [], ◌∷◌, Option, none, some, arith,
}
use termux_stacks.Ordered.Key.{Text, text_key, nat_key}
use termux_stacks.Ordered.Map.{BTreeMap}
use termux_stacks.Ordered.Set.{BTreeSet, contains}
use termux_stacks.Manifest.Error.{
  Location, FieldPath, Result, Error, ok, err, fault, invalid, empty_command, empty_argument, ◌>>=◌,
  ◌>>◌,
}
use termux_stacks.Manifest.Cursor.Total.{IsSound, >>=-IsSound}
use termux_stacks.Manifest.Node.{
  Node, MappingEntry, into_string, into_sequence, into_integer, into_mapping,
}
use termux_stacks.Manifest.Fields.{Mapping, take_required, reject_unknown_fields}
use termux_stacks.Manifest.Names.{
  test_name_lem, validate_name, valid_environment_name, reserved_environment_name,
  is_normalized_absolute_path,
}
use termux_stacks.Manifest.Types.{MountKind, volume, bind, Mount}
use termux_stacks.Manifest.Service.{
  deny, command_from, first_of, command_of, parse_command, environment_from, environment_of,
  parse_environment, mount_kind, check_volume, find_overlap, deny_overlap, check_target,
  parse_mount, mounts_from, parse_mounts,
}
use termux_stacks.Manifest.Ports.{
  Claims, Locations, claim, parse_port, ports_from, parse_ports, dependencies_from,
  parse_dependencies, restart_of, parse_restart,
}
use termux_stacks.Manifest.Validate.{Shared, parse_service}

pub chain {ℓ κ} :
    {A : Type ℓ} {B : Type κ} (m : Result A) (k : A → Result B)
    → IsSound m
    → ((a : A) → IsSound (k a))
    → IsSound (m >>= k)
chain m k h f = >>=-IsSound m k h (λ a _. f a)

pub deny-IsSound : (b : Bool) (e : Error) → IsSound (deny b (err e))
deny-IsSound true e = tt
deny-IsSound false e = tt

pub into_mapping-IsSound : (n : Node) (p : FieldPath) → IsSound (into_mapping n p)
unfolding into_mapping
into_mapping-IsSound n p = ground arith

pub into_string-IsSound : (n : Node) (p : FieldPath) → IsSound (into_string n p)
unfolding into_string
into_string-IsSound n p = ground arith

into_sequence-IsSound : (n : Node) (p : FieldPath) → IsSound (into_sequence n p)
unfolding into_sequence
into_sequence-IsSound n p = ground arith

into_integer-IsSound : (n : Node) (p : FieldPath) → IsSound (into_integer n p)
unfolding into_integer
into_integer-IsSound n p = ground arith

pub take_required-IsSound : (m : Mapping) (k : Text) (p : FieldPath) → IsSound (take_required m k p)
unfolding take_required
take_required-IsSound m k p = ground arith

pub reject_unknown_fields-IsSound :
    (m : Mapping) (p : FieldPath) (allowed : List Text)
    → IsSound (reject_unknown_fields m p allowed)
unfolding reject_unknown_fields
reject_unknown_fields-IsSound [] p allowed = tt
reject_unknown_fields-IsSound ((k, e) ∷ m) p allowed =
    ground (arith, reject_unknown_fields-IsSound m p allowed)

claim-IsSound : (n : ℕ) (p : FieldPath) (l : Location) (c : Claims) → IsSound (claim n p l c)
unfolding claim
claim-IsSound n p l c = ground arith

pub validate_name-IsSound :
    (n : Text) (p : FieldPath) (l : Option Location) → IsSound (validate_name n p l)
unfolding validate_name
validate_name-IsSound n p l = ground (arith, test_name_lem n)

parse_port-IsSound : (n : Node) (p : FieldPath) (c : Claims) → IsSound (parse_port n p c)
unfolding parse_port
parse_port-IsSound n p c = chain _ _ (into_mapping-IsSound n p) λ m.
    chain _ _ (reject_unknown_fields-IsSound m p _) λ _.
      chain _ _ (take_required-IsSound m _ _) λ a. chain _ _ (into_string-IsSound a.0 _) λ address.
        chain _ _ (deny-IsSound _ _) λ _. chain _ _ (take_required-IsSound a.1 _ _) λ b.
          chain _ _ (into_integer-IsSound b.0 _)
            λ number. chain _ _ (deny-IsSound _ _) λ _. chain _ _ (claim-IsSound _ _ _ _) λ _. tt

ports_from-IsSound :
    (ns : List Node) (i : ℕ) (p : FieldPath) (c : Claims) → IsSound (ports_from ns i p c)
unfolding ports_from
ports_from-IsSound [] i p c = tt
ports_from-IsSound (n ∷ ns) i p c =
    chain _ _ (parse_port-IsSound n _ c)
      λ a. chain _ _ (ports_from-IsSound ns (i + 1) p a.1) λ _. tt

parse_ports-IsSound :
    (e : Option MappingEntry) (p : FieldPath) (c : Claims) → IsSound (parse_ports e p c)
unfolding parse_ports
parse_ports-IsSound none p c = tt
parse_ports-IsSound (some e) p c =
    chain _ _ (into_sequence-IsSound e.value _) λ ns. ports_from-IsSound ns 0 _ c

dependencies_from-IsSound :
    (ns : List Node) (i : ℕ) (s : Text) (p : FieldPath) (seen : BTreeSet Text) (l : Locations)
    → IsSound (dependencies_from ns i s p seen l)
unfolding dependencies_from
dependencies_from-IsSound [] i s p seen l = tt
dependencies_from-IsSound (n ∷ ns) i s p seen l = chain _ _ (into_string-IsSound n _) λ d.
    chain _ _ (validate_name-IsSound d _ _) λ _.
      chain _ _ (deny-IsSound _ _)
        λ _. chain _ _ (dependencies_from-IsSound ns (i + 1) s p _ _) λ _. tt

parse_dependencies-IsSound :
    (e : Option MappingEntry) (s : Text) (p : FieldPath) (l : Locations)
    → IsSound (parse_dependencies e s p l)
unfolding parse_dependencies
parse_dependencies-IsSound none s p l = tt
parse_dependencies-IsSound (some e) s p l =
    chain _ _ (into_sequence-IsSound e.value _) λ ns. dependencies_from-IsSound ns 0 s _ [] l

parse_restart-IsSound : (e : Option MappingEntry) (p : FieldPath) → IsSound (parse_restart e p)
unfolding parse_restart restart_of
parse_restart-IsSound none p = tt
parse_restart-IsSound (some e) p = chain _ _ (into_string-IsSound e.value _) λ name. ground arith

command_from-IsSound : (ns : List Node) (i : ℕ) (p : FieldPath) → IsSound (command_from ns i p)
unfolding command_from
command_from-IsSound [] i p = tt
command_from-IsSound (n ∷ ns) i p =
    chain _ _ (into_string-IsSound n _)
      λ a. chain _ _ (deny-IsSound _ _) λ _. chain _ _ (command_from-IsSound ns (i + 1) p) λ _. tt

chain_chain :
    {A B C : Type 0} (m : Result A) (f : A → Result B) (k : B → Result C)
    → IsSound m
    → ((a : A) → IsSound (f a >>= k))
    → IsSound ((m >>= f) >>= k)
chain_chain (ok a) f k h next = next a
chain_chain (err e) f k h next = tt
chain_chain (fault x) f k h next = h

-- There is a first argument where there is one node.
command_from-first :
    {A : Type 0} (n : Node) (ns : List Node) (i : ℕ) (p : FieldPath) (k : List Text → Result A)
    → ((a : Text) (rest : List Text) → IsSound (k (a ∷ rest)))
    → IsSound (command_from (n ∷ ns) i p >>= k)
unfolding command_from
command_from-first n ns i p k h = chain_chain _ _ k (into_string-IsSound n _) λ a.
    chain_chain _ _ k (deny-IsSound _ _)
      λ _. chain_chain _ _ k (command_from-IsSound ns (i + 1) p) λ rest. h a rest

last-IsSound : {A : Type 0} (test : Bool) (e : Error) (a : A) → IsSound (deny test (err e) >> ok a)
last-IsSound true e a = tt
last-IsSound false e a = tt

command_tail-IsSound :
    (ns : List Node) (p : FieldPath) (l : Option Location)
    → IsSound (
        deny (is_empty ns) (err (invalid (empty_command p) l))
        >> (command_from ns 0 p >>= λ c. first_of c >>= λ f.
            deny (is_empty f) (err (invalid (empty_argument p) l)) >> ok (some c)))
command_tail-IsSound [] p l = tt
command_tail-IsSound (n ∷ ns) p l =
    command_from-first n ns 0 p _
      λ a rest. last-IsSound (is_empty a) (invalid (empty_argument p) l) (some (a ∷ rest))

parse_command-IsSound : (e : Option MappingEntry) (p : FieldPath) → IsSound (parse_command e p)
unfolding parse_command command_of
parse_command-IsSound none p = tt
parse_command-IsSound (some e) p =
    chain _ _ (into_sequence-IsSound e.value _) λ ns. command_tail-IsSound ns _ _

environment_from-IsSound :
    (m : Mapping) (p : FieldPath) (env : BTreeMap Text Text) → IsSound (environment_from m p env)
unfolding environment_from
environment_from-IsSound [] p env = tt
environment_from-IsSound ((k, e) ∷ m) p env =
    chain (deny (not (valid_environment_name k)) _) _ (deny-IsSound _ _) λ _.
      chain (deny (reserved_environment_name k) _) _ (deny-IsSound _ _) λ _.
        chain (into_string e.value _) _ (into_string-IsSound e.value _) λ v.
          chain (deny (contains 0 v) _) _ (deny-IsSound _ _) λ _. environment_from-IsSound m p _

parse_environment-IsSound :
    (e : Option MappingEntry) (p : FieldPath) → IsSound (parse_environment e p)
unfolding parse_environment environment_of
parse_environment-IsSound none p = tt
parse_environment-IsSound (some e) p =
    chain _ _ (into_mapping-IsSound e.value _) λ m. environment_from-IsSound m _ []

mount_kind-IsSound : (n : Text) (p : FieldPath) (l : Location) → IsSound (mount_kind n p l)
unfolding mount_kind
mount_kind-IsSound n p l = ground arith

check_volume-IsSound :
    (k : MountKind) (s : Text) (p : FieldPath) (l : Location) (vs : BTreeSet Text)
    → IsSound (check_volume k s p l vs)
unfolding check_volume
check_volume-IsSound bind s p l vs = tt
check_volume-IsSound volume s p l vs = chain _ _ (validate_name-IsSound s p _) λ _. deny-IsSound _ _

deny_overlap-IsSound :
    (o : Option Mount) (p : FieldPath) (l : Location) → IsSound (deny_overlap o p l)
deny_overlap-IsSound none p l = tt
deny_overlap-IsSound (some m) p l = tt

check_target-IsSound :
    (t : Text) (p : FieldPath) (l : Location) (ms : List Mount) → IsSound (check_target t p l ms)
unfolding check_target
check_target-IsSound t p l ms = chain (deny (contains b':' t) _) _ (deny-IsSound _ _) λ _.
    chain (deny (not (is_normalized_absolute_path t)) _) _ (deny-IsSound _ _)
      λ _. deny_overlap-IsSound (find_overlap t ms) p l

parse_mount-IsSound :
    (n : Node) (p : FieldPath) (vs : BTreeSet Text) (ms : List Mount)
    → IsSound (parse_mount n p vs ms)
unfolding parse_mount
parse_mount-IsSound n p vs ms = chain _ _ (into_mapping-IsSound n p) λ m.
    chain _ _ (reject_unknown_fields-IsSound m p _) λ _.
      chain _ _ (take_required-IsSound m _ _) λ a. chain _ _ (into_string-IsSound a.0 _) λ name.
        chain _ _ (mount_kind-IsSound name _ _) λ kind.
          chain _ _ (take_required-IsSound a.1 _ _) λ b.
            chain _ _ (into_string-IsSound b.0 _) λ source. chain _ _ (deny-IsSound _ _) λ _.
              chain _ _ (check_volume-IsSound kind source _ _ vs) λ _.
                chain _ _ (take_required-IsSound b.1 _ _) λ c.
                  chain _ _ (into_string-IsSound c.0 _)
                    λ target. chain _ _ (check_target-IsSound target _ _ ms) λ _. tt

mounts_from-IsSound :
    (ns : List Node) (i : ℕ) (p : FieldPath) (vs : BTreeSet Text) (ms : List Mount)
    → IsSound (mounts_from ns i p vs ms)
unfolding mounts_from
mounts_from-IsSound [] i p vs ms = tt
mounts_from-IsSound (n ∷ ns) i p vs ms =
    chain _ _ (parse_mount-IsSound n _ vs ms) λ m. mounts_from-IsSound ns (i + 1) p vs _

parse_mounts-IsSound :
    (e : Option MappingEntry) (p : FieldPath) (vs : BTreeSet Text) → IsSound (parse_mounts e p vs)
unfolding parse_mounts
parse_mounts-IsSound none p vs = tt
parse_mounts-IsSound (some e) p vs =
    chain _ _ (into_sequence-IsSound e.value _) λ ns. mounts_from-IsSound ns 0 _ vs []

pub parse_service-IsSound :
    (s : Text) (n : Node) (p : FieldPath) (vs : BTreeSet Text) (sh : Shared)
    → IsSound (parse_service s n p vs sh)
unfolding parse_service
parse_service-IsSound s n p vs sh = chain _ _ (into_mapping-IsSound n p) λ m.
    chain _ _ (reject_unknown_fields-IsSound m p _) λ _.
      chain _ _ (take_required-IsSound m _ _) λ a. chain _ _ (into_string-IsSound a.0 _) λ image.
        chain _ _ (deny-IsSound _ _) λ _. chain _ _ (parse_command-IsSound _ p) λ _.
          chain _ _ (parse_environment-IsSound _ p) λ _.
            chain _ _ (parse_mounts-IsSound _ p vs) λ _.
              chain _ _ (parse_ports-IsSound _ p sh.claimed) λ _.
                chain _ _ (parse_dependencies-IsSound _ s p sh.locations)
                  λ _. chain _ _ (parse_restart-IsSound _ p) λ _. tt
