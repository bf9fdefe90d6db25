-- ===== src/Logs/Lines.antt =====
-- Lists cut at a place and texts cut at newlines, for src/logs.rs.
use termux_stacks.Prelude.{
  ℕ, zero, suc, ◌-◌, ◌≤◌, ◌<◌, ◌≡◌, refl, ap, ◌∙◌, List, [], ◌∷◌, ◌++◌, some, arith, inl, inr,
  Bool-cases, length, length-append, append_assoc,
}
use termux_stacks.Text.{split}
use termux_stacks.Ordered.Key.{==_iff, nat_key, ◌==◌}
use termux_stacks.Logs.{take, drop, after_newline, pop_newline, lines_of}

module _ {ℓ} {A : Type ℓ} where
  take_nil : (k : ℕ) → take {A = A} k [] ≡ []
  unfolding take
  take_nil zero = refl
  take_nil (suc k) = refl

  pub drop-take : (n k : ℕ) (xs : List A) → drop n (take k xs) ≡ take (k - n) (drop n xs)
  unfolding take drop
  drop-take zero k xs = ground arith
  drop-take (suc n) zero xs = ground arith
  drop-take (suc n) (suc k) [] = ground (arith, take_nil (suc k - suc n))
  drop-take (suc n) (suc k) (x ∷ xs) = ground (arith, drop-take n k xs)

  pub take-drop : (n : ℕ) (xs : List A) → take n xs ++ drop n xs ≡ xs
  unfolding take drop
  take-drop zero xs = refl
  take-drop (suc n) [] = refl
  take-drop (suc n) (x ∷ xs) = ap (λ ys. x ∷ ys) (take-drop n xs)

  pub length-drop : (n : ℕ) (xs : List A) → length (drop n xs) ≡ length xs - n
  unfolding drop
  length-drop zero xs = omega arith
  length-drop (suc n) [] = omega arith
  length-drop (suc n) (x ∷ xs) = omega (arith, length-drop n xs)

  -- The last elements of a list, `count` of them or all.
  pub record IsLastOf (count : ℕ) (all last : List A) : Type ℓ where
    pub front : List A
    pub splits : front ++ last ≡ all
    pub at_most : length last ≤ count
    pub all_if_fewer : length last < count → front ≡ []

  take_none : (n : ℕ) (xs : List A) → n ≡ 0 → take n xs ≡ []
  unfolding take
  take_none zero xs h = refl
  take_none (suc n) xs h = absurd (omega arith)

  pub drop-IsLastOf :
      (count : ℕ) (all : List A) → IsLastOf count all (drop (length all - count) all)
  drop-IsLastOf count all = record {
    front = take (length all - count) all;
    splits = take-drop (length all - count) all;
    at_most = omega (arith, length-drop (length all - count) all);
    all_if_fewer = λ h.
        take_none (length all - count) all (omega (arith, length-drop (length all - count) all));
  }

  -- The last elements of a long enough end are the last elements of the whole.
  pub append-IsLastOf :
      (count : ℕ) (more all last : List A)
      → count ≤ length all
      → IsLastOf count all last
      → IsLastOf count (more ++ all) last
  append-IsLastOf count more all last long l = record {
    front = more ++ l.front;
    splits = append_assoc more l.front last ∙ ap (λ ys. more ++ ys) l.splits;
    at_most = l.at_most;
    all_if_fewer = λ h. absurd (
        omega
          (arith, ap length l.splits, ap length (l.all_if_fewer h), length-append l.front last));
  }

-- Cut behind the first newline, the bytes are what stood before it, the newline and the rest.
pub after_newline-splits :
    (bytes rest : List ℕ)
    → after_newline bytes ≡ some rest
    → (front : List ℕ) × (bytes ≡ front ++ b'\n' ∷ rest)
unfolding after_newline
after_newline-splits [] rest h = absurd (ground arith)
after_newline-splits (b ∷ bytes) rest h = elim (Bool-cases (b == b'\n')) [
  | inl newline ↦ ([], ground (arith, h, newline, ==_iff b b'\n'))
  | inr other ↦
      let (front, splits) = after_newline-splits bytes rest (ground (arith, h, other)) in
      (b ∷ front, ap (λ ys. b ∷ ys) splits)
]

pub pop_newline-behind :
    (front : List ℕ) (b : ℕ) (rest : List ℕ)
    → pop_newline (front ++ b'\n' ∷ b ∷ rest) ≡ front ++ b'\n' ∷ pop_newline (b ∷ rest)
unfolding pop_newline
pop_newline-behind [] b rest = refl
pop_newline-behind (c ∷ []) b rest = refl
pop_newline-behind (c ∷ d ∷ front) b rest =
    ap (λ bytes. c ∷ bytes) (pop_newline-behind (d ∷ front) b rest)

pub split_head : (s : List ℕ) (p : ℕ) → (x : List ℕ) × (xs : List (List ℕ)) × (split s p ≡ x ∷ xs)
unfolding split
split_head [] p = ([], [], refl)
split_head (c ∷ s) p = elim (Bool-cases (c == p)) [
  | inl e ↦ ([], split s p, rw e refl)
  | inr e ↦ let (x, xs, h) = split_head s p in (c ∷ x, xs, rw (e, h) refl)
]

pub split-append :
    (front : List ℕ) (p : ℕ) (rest : List ℕ)
    → split (front ++ p ∷ rest) p ≡ split front p ++ split rest p
unfolding split
split-append [] p rest = ground (arith, ==_iff p p)
split-append (c ∷ front) p rest =
    let (x, xs, h) = split_head front p in ground (arith, split-append front p rest, h)

lines_of-split : (bytes : List ℕ) → 1 ≤ length (lines_of bytes) → lines_of bytes ≡ split bytes b'\n'
unfolding lines_of
lines_of-split [] h = absurd (omega arith)
lines_of-split (b ∷ bytes) h = refl

lines_of-newline :
    (front rest : List ℕ) → lines_of (front ++ b'\n' ∷ rest) ≡ split (front ++ b'\n' ∷ rest) b'\n'
unfolding lines_of
lines_of-newline [] rest = refl
lines_of-newline (b ∷ front) rest = refl

no_lines : 1 ≤ length (lines_of (pop_newline [])) → ⊥
unfolding lines_of pop_newline
no_lines h = omega arith

-- Behind a newline, lines are those of the rest with others in front.
pub lines-behind :
    (front rest : List ℕ)
    → 1 ≤ length (lines_of (pop_newline rest))
    → lines_of (pop_newline (front ++ b'\n' ∷ rest))
      ≡ split front b'\n' ++ lines_of (pop_newline rest)
lines-behind front [] h = absurd (no_lines h)
lines-behind front (b ∷ rest) h =
    rw (pop_newline-behind front b rest, lines_of-split (pop_newline (b ∷ rest)) h)
      (lines_of-newline front (pop_newline (b ∷ rest))
        ∙ split-append front b'\n' (pop_newline (b ∷ rest)))
