-- ===== src/Manifest/Names/Overlap.antt =====
-- When two mount targets overlap (src/manifest.rs: `mount_targets_overlap`), by their components.
use termux_stacks.Prelude.{
  ℕ, ◌≡◌, ◌⊎◌, ◌↔◌, refl, sym, ap, ◌∙◌, Bool, true, false, ◌||◌, List, [], ◌∷◌, ◌++◌, Option, none,
  some, inl, inr, arith, append_assoc, append-nil, Bool-cases, Option-cases,
}
use termux_stacks.Ordered.Key.{Text, text, text_cmp, text_key, nat_key, ==_iff, ◌==◌}
use termux_stacks.Text.{starts_with, strip_prefix, split, push_front}
use termux_stacks.Manifest.Names.{is_normalized_absolute_path, mount_targets_overlap}
use termux_stacks.Logs.Lines.{split_head, split-append}

-- The components of an absolute path, none for the root.
abbrev pub components : Text → List Text
components [] = []
components (c ∷ []) = []
components (c ∷ d ∷ s) = split (d ∷ s) b'/'

abbrev pub IsPrefix : List Text → List Text → Type 0
IsPrefix xs ys = (rest : List Text) × (xs ++ rest ≡ ys)

abbrev join : List Text → Text
join [] = []
join (x ∷ []) = x
join (x ∷ y ∷ ys) = x ++ b'/' ∷ join (y ∷ ys)

join-push_front :
    (c : ℕ) (x : Text) (xs : List Text) → join (push_front c (x ∷ xs)) ≡ c ∷ join (x ∷ xs)
join-push_front c x [] = refl
join-push_front c x (y ∷ ys) = refl

join-split : (s : Text) → join (split s b'/') ≡ s
unfolding split
join-split [] = refl
join-split (c ∷ s) =
    let (x, xs, shape) = split_head s b'/' in
    let whole : join (x ∷ xs) ≡ s = ap join (sym shape) ∙ join-split s in
    elim (Bool-cases (c == b'/')) [
      | inl e ↦ rw (e, shape) (ground (arith, whole, ==_iff c b'/', e))
      | inr e ↦ rw (e, shape) (join-push_front c x xs ∙ ap (λ t. c ∷ t) whole)
    ]

join-append :
    (x : Text) (xs : List Text) (y : Text) (ys : List Text)
    → join ((x ∷ xs) ++ y ∷ ys) ≡ join (x ∷ xs) ++ b'/' ∷ join (y ∷ ys)
join-append x [] y ys = refl
join-append x (z ∷ zs) y ys =
    ap (λ t. x ++ b'/' ∷ t) (join-append z zs y ys)
    ∙ sym (append_assoc x (b'/' ∷ join (z ∷ zs)) (b'/' ∷ join (y ∷ ys)))

strip_prefix-append : (p r : Text) → strip_prefix (p ++ r) p ≡ some r
unfolding strip_prefix
strip_prefix-append [] r = strip_nil r
  where
    strip_nil : (r : Text) → strip_prefix r [] ≡ some r
    strip_nil [] = refl
    strip_nil (c ∷ r) = refl
strip_prefix-append (c ∷ p) r = ground (arith, strip_prefix-append p r, ==_iff c c)

strip_prefix-some : (s p r : Text) → strip_prefix s p ≡ some r → s ≡ p ++ r
unfolding strip_prefix
strip_prefix-some [] [] r h = ground (arith, h)
strip_prefix-some (c ∷ s) [] r h = ground (arith, h)
strip_prefix-some [] (d ∷ p) r h = absurd (ground (arith, h))
strip_prefix-some (c ∷ s) (d ∷ p) r h = elim (Bool-cases (c == d)) [
  | inl e ↦ ground (arith, h, e, ==_iff c d, strip_prefix-some s p r)
  | inr e ↦ absurd (ground (arith, h, e))
]

-- A text's pieces are the first of another's exactly if it is the other or stands in front of a
-- slash in it.
prefix_cut :
    (a b : Text)
    → IsPrefix (split a b'/') (split b b'/')
    → (a ≡ b) ⊎ ((r : Text) × (b ≡ a ++ b'/' ∷ r))
prefix_cut a b ([], e) =
    inl (sym (join-split a) ∙ ap join (sym (append-nil (split a b'/')) ∙ e) ∙ join-split b)
prefix_cut a b (y ∷ ys, e) =
    let (x, xs, shape) = split_head a b'/' in
    let whole : join (x ∷ xs) ≡ a = ap join (sym shape) ∙ join-split a in
    let parts : (x ∷ xs) ++ y ∷ ys ≡ split b b'/' = ap (λ l. l ++ y ∷ ys) (sym shape) ∙ e in
    inr (
      join (y ∷ ys),
      sym (join-split b)
          ∙ ap join (sym parts)
          ∙ join-append x xs y ys
          ∙ ap (λ t. t ++ b'/' ∷ join (y ∷ ys)) whole,
    )

cut_prefix : (a b r : Text) → b ≡ a ++ b'/' ∷ r → IsPrefix (split a b'/') (split b b'/')
cut_prefix a b r e = (split r b'/', sym (ap (λ t. split t b'/') e ∙ split-append a b'/' r))

slash_head : (r : Text) → starts_with r (text "/") ≡ true → (r' : Text) × (r ≡ b'/' ∷ r')
unfolding starts_with
slash_head [] h = absurd (ground (arith, h))
slash_head (c ∷ r) h = (r, ground (arith, h, ==_iff c b'/'))

-- The tests of `mount_targets_overlap` behind the leading slash.
abbrev slash_follows : Option Text → Bool
slash_follows none = false
slash_follows (some suffix) = starts_with suffix (text "/")

follows_prefix :
    (a b : Text) → slash_follows (strip_prefix b a) ≡ true → IsPrefix (split a b'/') (split b b'/')
follows_prefix a b h = elim (Option-cases (strip_prefix b a)) [
  | inl nothing ↦ absurd (ground (arith, h, nothing))
  | inr (r, e) ↦
      let (r', slash) = slash_head r (ground (arith, h, e)) in
      cut_prefix a b r' (strip_prefix-some b a r e ∙ ap (λ t. a ++ t) slash)
]

prefix_follows :
    (a b : Text)
    → IsPrefix (split a b'/') (split b b'/')
    → (a ≡ b) ⊎ (slash_follows (strip_prefix b a) ≡ true)
unfolding starts_with
prefix_follows a b p = elim (prefix_cut a b p) [
  | inl e ↦ inl e
  | inr (r, e) ↦ inr (rw (e, strip_prefix-append a (b'/' ∷ r)) refl)
]

-- The tests on paths other than the root, behind the slash that each begins with.
abbrev tests : Text → Text → Bool
tests a b = a == b || slash_follows (strip_prefix b a) || slash_follows (strip_prefix a b)

overlap_tests :
    (c d : ℕ) (a b : Text)
    → mount_targets_overlap (b'/' ∷ c ∷ a) (b'/' ∷ d ∷ b) ≡ tests (c ∷ a) (d ∷ b)
unfolding mount_targets_overlap strip_prefix text_cmp
overlap_tests c d a b = refl

root_overlaps :
    (a : Text)
    → (mount_targets_overlap (b'/' ∷ []) a ≡ true) × (mount_targets_overlap a (b'/' ∷ []) ≡ true)
unfolding mount_targets_overlap text_cmp
root_overlaps a = (refl, ground (arith, ==_iff a (text "/")))

tests_iff :
    (a b : Text)
    → (tests a b ≡ true)
      ↔ (IsPrefix (split a b'/') (split b b'/') ⊎ IsPrefix (split b b'/') (split a b'/'))
tests_iff a b = (
  λ h. elim (Bool-cases (a == b)) [
    | inl same ↦ inl ([], append-nil (split a b'/') ∙ ap (λ t. split t b'/') ((==_iff a b).0 same))
    | inr other ↦ elim (Bool-cases (slash_follows (strip_prefix b a))) [
      | inl e ↦ inl (follows_prefix a b e)
      | inr e ↦ inr (follows_prefix b a (ground (arith, h, other, e)))
    ]
  ],
  λ p. elim p [
    | inl q ↦ elim (prefix_follows a b q) [
      | inl e ↦ ground (arith, (==_iff a b).1 e)
      | inr e ↦ ground (arith, e)
    ]
    | inr q ↦ elim (prefix_follows b a q) [
      | inl e ↦ ground (arith, (==_iff a b).1 (sym e))
      | inr e ↦ ground (arith, e)
    ]
  ],
)

slash_first :
    (path : Text) → is_normalized_absolute_path path ≡ true → (s : Text) × (path ≡ b'/' ∷ s)
unfolding is_normalized_absolute_path
slash_first path h = slash_head path (ground (arith, h))

slash_overlap_iff :
    (a b : Text)
    → (mount_targets_overlap (b'/' ∷ a) (b'/' ∷ b) ≡ true) ↔ (
        IsPrefix (components (b'/' ∷ a)) (components (b'/' ∷ b))
        ⊎ IsPrefix (components (b'/' ∷ b)) (components (b'/' ∷ a)))
slash_overlap_iff [] b = (λ _. inl (components (b'/' ∷ b), refl), λ _. (root_overlaps (b'/' ∷ b)).0)
slash_overlap_iff (c ∷ a) [] =
    (λ _. inr (components (b'/' ∷ c ∷ a), refl), λ _. (root_overlaps (b'/' ∷ c ∷ a)).1)
slash_overlap_iff (c ∷ a) (d ∷ b) = (
  λ h. (tests_iff (c ∷ a) (d ∷ b)).0 (sym (overlap_tests c d a b) ∙ h),
  λ p. overlap_tests c d a b ∙ (tests_iff (c ∷ a) (d ∷ b)).1 p,
)

-- Two normalized absolute targets overlap exactly if the components of one are the first
-- components of the other: one path is the other or a directory above it.
pub mount_targets_overlap_iff :
    (a b : Text)
    → is_normalized_absolute_path a ≡ true
    → is_normalized_absolute_path b ≡ true
    → (mount_targets_overlap a b ≡ true)
      ↔ (IsPrefix (components a) (components b) ⊎ IsPrefix (components b) (components a))
mount_targets_overlap_iff a b h k =
    let (a', e) = slash_first a h in
    let (b', f) = slash_first b k in rw (e, f) (slash_overlap_iff a' b')
