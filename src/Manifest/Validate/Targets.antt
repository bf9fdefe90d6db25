-- ===== src/Manifest/Validate/Targets.antt =====
-- The mounts that a validated manifest holds (src/manifest.rs: `parse_mounts`): at normalized
-- targets that do not overlap, and at declared volumes.
use termux_stacks.Prelude.{
  ℕ, ◌+◌, ◌≡◌, refl, sym, subst, append-nil, append_assoc, true, false, not, ◌||◌, List, [], ◌∷◌,
  ◌++◌, Option, none, some, arith, is_empty, All, All-append,
}
use termux_stacks.Ordered.Key.{Text, text, text_key, nat_key}
use termux_stacks.Ordered.Set.{BTreeSet, contains}
use termux_stacks.Manifest.Error.{Location, FieldPath, member, item, ok, bind_ok}
use termux_stacks.Manifest.Types.{Mount, MountKind, volume, bind}
use termux_stacks.Manifest.Node.{Node, MappingEntry, into_string, into_sequence, into_mapping}
use termux_stacks.Manifest.Names.{
  is_valid_name, validate_name, validate_name-ok, is_normalized_absolute_path,
  mount_targets_overlap,
}
use termux_stacks.Manifest.Fields.{take_required, reject_unknown_fields}
use termux_stacks.Manifest.Service.{
  deny, deny_overlap, mount_kind, check_volume, find_overlap, check_target, parse_mount,
  mounts_from, parse_mounts,
}
use termux_stacks.Manifest.Validate.Dependencies.{deny-ok, not-false}

-- A volume is declared and has a valid name; a bind's source is any path.
abbrev pub HasSource : BTreeSet Text → MountKind → Text → Type 0
HasSource volumes volume source = (is_valid_name source ≡ true) × (contains source volumes ≡ true)
HasSource volumes bind source = Unit

pub record IsMount (volumes : BTreeSet Text) (m : Mount) : Type 0 where
  pub declared : HasSource volumes m.kind m.source
  pub no_colon : contains b':' m.target ≡ false
  pub normalized : is_normalized_absolute_path m.target ≡ true

-- No mount's target overlaps that of an earlier one, those in `earlier` counted in.
abbrev pub IsApart : List Mount → List Mount → Type 0
IsApart earlier [] = Unit
IsApart earlier (m ∷ ms) =
    All (λ e. mount_targets_overlap e.target m.target ≡ false) earlier
    × IsApart (earlier ++ m ∷ []) ms

find_overlap-none :
    (target : Text) (mounts : List Mount)
    → find_overlap target mounts ≡ none
    → All (λ e. mount_targets_overlap e.target target ≡ false) mounts
unfolding find_overlap
find_overlap-none target [] h = tt
find_overlap-none target (m ∷ ms) h = ground (arith, find_overlap-none target ms)

deny_overlap-ok :
    (o : Option Mount) (path : FieldPath) (l : Location) → deny_overlap o path l ≡ ok tt → o ≡ none
deny_overlap-ok none path l h = refl
deny_overlap-ok (some m) path l h = cc

check_volume-ok :
    (kind : MountKind) (source : Text) (path : FieldPath) (l : Location) (volumes : BTreeSet Text)
    → check_volume kind source path l volumes ≡ ok tt
    → HasSource volumes kind source
unfolding check_volume
check_volume-ok bind source path l volumes h = tt
check_volume-ok volume source path l volumes h =
    bind_ok (validate_name source path (some l)) _ h λ _ named h1. (
      validate_name-ok source path (some l) named,
      not-false (contains source volumes) (deny-ok (not (contains source volumes)) _ h1),
    )

abbrev NewMount : BTreeSet Text → List Mount → Mount → Type 0
NewMount volumes earlier m =
    IsMount volumes m × All (λ e. mount_targets_overlap e.target m.target ≡ false) earlier

result-eq : (m m' : Mount) → ok m ≡ ok m' → m ≡ m'
result-eq m m' h = cc

parse_mount-ok :
    (node : Node) (path : FieldPath) (volumes : BTreeSet Text) (earlier : List Mount) (m : Mount)
    → parse_mount node path volumes earlier ≡ ok m
    → NewMount volumes earlier m
unfolding parse_mount check_target
parse_mount-ok node path volumes earlier m h = bind_ok (into_mapping node path) _ h λ fields _ h1.
    bind_ok (reject_unknown_fields fields path _) _ h1 λ _ _ h2.
      bind_ok (take_required fields (text "type") _) _ h2 λ a _ h3.
        bind_ok (into_string a.0 _) _ h3 λ type_name _ h4.
          bind_ok (mount_kind type_name _ _) _ h4 λ kind _ h5.
            bind_ok (take_required a.1 (text "source") _) _ h5 λ b _ h6.
              bind_ok (into_string b.0 _) _ h6 λ source _ h7.
                bind_ok (deny (is_empty source || contains 0 source) _) _ h7 λ _ _ h8.
                  bind_ok (check_volume kind source _ _ volumes) _ h8 λ _ sourced h9.
                    bind_ok (take_required b.1 (text "target") _) _ h9 λ c _ h10.
                      bind_ok (into_string c.0 _) _ h10 λ target _ h11.
                        bind_ok (check_target target _ _ earlier) _ h11 λ _ targeted h12.
                          bind_ok (deny (contains b':' target) _) _ targeted λ _ plain t1.
                            bind_ok (deny (not (is_normalized_absolute_path target)) _) _ t1
                              λ _ normal t2. subst (NewMount volumes earlier) (result-eq _ m h12) (
                                record {
                                  declared = check_volume-ok kind source _ _ volumes sourced;
                                  no_colon = deny-ok (contains b':' target) _ plain;
                                  normalized =
                                      not-false (is_normalized_absolute_path target)
                                        (deny-ok _ _ normal);
                                },
                                find_overlap-none target earlier
                                    (deny_overlap-ok (find_overlap target earlier) _ _ t2),
                              )

IsApart-snoc :
    (earlier ms : List Mount) (m : Mount)
    → IsApart earlier ms
    → All (λ e. mount_targets_overlap e.target m.target ≡ false) (earlier ++ ms)
    → IsApart earlier (ms ++ m ∷ [])
IsApart-snoc earlier [] m h p =
    (subst (All (λ e. mount_targets_overlap e.target m.target ≡ false)) (append-nil earlier) p, tt)
IsApart-snoc earlier (x ∷ ms) m (q, h) p = (
  q,
  IsApart-snoc (earlier ++ x ∷ []) ms m h (
      subst (All (λ e. mount_targets_overlap e.target m.target ≡ false))
        (sym (append_assoc earlier (x ∷ []) ms)) p),
)

mounts_from-ok :
    (nodes : List Node) (index : ℕ) (path : FieldPath) (volumes : BTreeSet Text)
    (earlier ms : List Mount)
    → All (IsMount volumes) earlier
    → IsApart [] earlier
    → mounts_from nodes index path volumes earlier ≡ ok ms
    → All (IsMount volumes) ms × IsApart [] ms
unfolding mounts_from
mounts_from-ok [] index path volumes earlier ms v a h = ground arith
mounts_from-ok (node ∷ nodes) index path volumes earlier ms v a h =
    bind_ok (parse_mount node (item path index) volumes earlier) _ h λ m new h1.
      let (good, free) = parse_mount-ok node (item path index) volumes earlier m new in
      mounts_from-ok nodes (index + 1) path volumes (earlier ++ m ∷ []) ms
        (All-append (IsMount volumes) earlier (m ∷ []) v (good, tt))
        (IsApart-snoc [] earlier m a free) h1

pub parse_mounts-ok :
    (entry : Option MappingEntry) (path : FieldPath) (volumes : BTreeSet Text) (ms : List Mount)
    → parse_mounts entry path volumes ≡ ok ms
    → All (IsMount volumes) ms × IsApart [] ms
unfolding parse_mounts
parse_mounts-ok none path volumes ms h = ground arith
parse_mounts-ok (some entry) path volumes ms h =
    bind_ok (into_sequence entry.value (member path (text "mounts"))) _ h
      λ nodes _ h1. mounts_from-ok nodes 0 (member path (text "mounts")) volumes [] ms tt tt h1
