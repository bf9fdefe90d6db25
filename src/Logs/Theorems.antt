-- ===== src/Logs/Theorems.antt =====
-- What the bounded tail returns (src/logs.rs): the last lines of the whole file.
use termux_stacks.Prelude.{
  ℕ, zero, suc, append_assoc, ◌-◌, ◌≤◌, ◌≡◌, refl, sym, ap, ◌∙◌, subst, Bool, true, false, not,
  ◌&&◌, inl, inr, List, [], ◌∷◌, ◌++◌, map, some, arith, length, ltb, ◌==◌, Bool-cases,
  Option-cases,
}
use termux_stacks.Prelude.Outcome.{Outcome, done}
use termux_stacks.Ordered.Key.{Text}
use termux_stacks.Text.{split}
use termux_stacks.Logs.{
  max_stream_bytes, Error, Metadata, LogFile, take, drop, is_unsafe_before, is_unsafe_after,
  after_newline, pop_newline, lines_of, finish, cut_prefix, read_tail, tail,
}
use termux_stacks.Logs.Lines.{
  drop-take, take-drop, IsLastOf, drop-IsLastOf, append-IsLastOf, after_newline-splits,
  lines-behind,
}

length-map {ℓ κ} :
    {A : Type ℓ} {B : Type κ} (f : A → B) (xs : List A) → length (map f xs) ≡ length xs
length-map f [] = refl
length-map f (x ∷ xs) = ap suc (length-map f xs)

map-append {ℓ κ} :
    {A : Type ℓ} {B : Type κ} (f : A → B) (xs ys : List A) → map f (xs ++ ys) ≡ map f xs ++ map f ys
map-append f [] ys = refl
map-append f (x ∷ xs) ys = ap (λ zs. f x ∷ zs) (map-append f xs ys)

done-eq : {a b : List Text} → ◌≡◌ {A = Outcome Error (List Text)} (done a) (done b) → a ≡ b
done-eq h = ground (arith, h)

module _ (decode : List ℕ → Text) where
  -- The lines of a file, each without its newline, decoded.
  abbrev pub text_lines : List ℕ → List Text
  text_lines bytes = map decode (lines_of (pop_newline bytes))

  finish-IsLastOf :
      (truncated : Bool) (lines : ℕ) (bytes : List ℕ) (found : List Text)
      → finish decode truncated lines bytes ≡ done found
      → IsLastOf lines (text_lines bytes) found
  unfolding finish
  finish-IsLastOf truncated lines bytes found h =
      elim (Bool-cases (truncated && ltb (length (text_lines bytes)) lines)) [
        | inl short ↦ absurd (ground (arith, h, short))
        | inr enough ↦
            subst (λ l. IsLastOf lines (text_lines bytes) l) (done-eq (rw enough at h))
              (drop-IsLastOf lines (text_lines bytes))
      ]

  finish-enough :
      (lines : ℕ) (bytes : List ℕ) (found : List Text)
      → finish decode true lines bytes ≡ done found
      → lines ≤ length (text_lines bytes)
  unfolding finish
  finish-enough lines bytes found h = ground arith

  cut_prefix-IsLastOf :
      (front : List ℕ) (truncated : Bool) (lines : ℕ) (bytes : List ℕ) (found : List Text)
      → 1 ≤ lines
      → (truncated ≡ false → front ≡ [])
      → cut_prefix decode truncated lines bytes ≡ done found
      → IsLastOf lines (text_lines (front ++ bytes)) found
  unfolding cut_prefix
  cut_prefix-IsLastOf front false lines bytes found some_lines whole h =
      rw (whole refl) (finish-IsLastOf false lines bytes found h)
  cut_prefix-IsLastOf front true lines bytes found some_lines whole h =
      elim (Option-cases (after_newline bytes)) [
        | inl nothing ↦ absurd (ground (arith, h, nothing))
        | inr (rest, cut) ↦
            let finished : finish decode true lines rest ≡ done found = ground (arith, h, cut) in
            let enough = finish-enough lines rest found finished in
            let (skipped, splits) = after_newline-splits bytes rest cut in
            let all_lines : text_lines (front ++ bytes)
                ≡ map decode (split (front ++ skipped) b'\n') ++ text_lines rest =
              ap text_lines
                (ap (λ bs. front ++ bs) splits ∙ sym (append_assoc front skipped (b'\n' ∷ rest)))
              ∙ ap (map decode) (
                  lines-behind (front ++ skipped) rest
                    (omega (arith, length-map decode (lines_of (pop_newline rest)))))
              ∙ map-append decode (split (front ++ skipped) b'\n') (lines_of (pop_newline rest)) in
            rw all_lines (
              append-IsLastOf lines (map decode (split (front ++ skipped) b'\n')) (text_lines rest)
                found enough (finish-IsLastOf true lines rest found finished))
      ]

  take_none : (n : ℕ) (xs : List ℕ) → n ≡ 0 → take n xs ≡ []
  unfolding take
  take_none zero xs h = refl
  take_none (suc n) xs h = absurd (omega arith)

  read_tail-IsLastOf :
      (size : ℕ) (content : List ℕ) (lines : ℕ) (found : List Text)
      → 1 ≤ lines
      → read_tail decode size content lines ≡ done found
      → IsLastOf lines (text_lines (take size content)) found
  unfolding read_tail
  read_tail-IsLastOf size content lines found some_lines h =
      let start = size - max_stream_bytes in
      let snapshot = take size content in
      subst (λ bytes. IsLastOf lines (text_lines bytes) found) (take-drop start snapshot)
        (cut_prefix-IsLastOf (take start snapshot) (not (start == 0)) lines (drop start snapshot)
          found some_lines (λ whole. take_none start snapshot (ground arith))
          (rw (drop-take start size content) h))

  -- When a tail is returned, it is the last lines of what the file held when it was opened, as
  -- many as asked for or all of them, although only the last 64 KiB are read and the file may have
  -- grown since.
  pub tail-IsLastOf :
      (file : LogFile) (lines : ℕ) (found : List Text)
      → tail decode file lines ≡ done found
      → (after : Metadata) × (file.after ≡ some after)
        × IsLastOf lines (text_lines (take after.len file.content)) found
  unfolding tail
  tail-IsLastOf file lines found h = elim (Option-cases file.before) [
    | inl nothing ↦ absurd (ground (arith, h, nothing))
    | inr (before, seen) ↦ elim (Option-cases file.after) [
      | inl nothing ↦ absurd (ground (arith, h, seen, nothing))
      | inr (after, opened) ↦ (
        after,
        opened,
        read_tail-IsLastOf after.len file.content lines found (ground (arith, h, seen, opened))
            (ground (arith, h, seen, opened)),
      )
    ]
  ]

  read_tail_returns :
      (size : ℕ) (content : List ℕ) (lines : ℕ)
      → size ≤ max_stream_bytes
      → (found : List Text) × (read_tail decode size content lines ≡ done found)
  unfolding read_tail cut_prefix finish
  read_tail_returns size content lines small =
      let whole : (size - max_stream_bytes == 0) ≡ true = ground arith in rw whole (_, refl)

  -- The tail of a private regular file that has at most 64 KiB when it is opened is always
  -- returned, and it is the last lines of the file, as many as asked for or all of them.
  pub tail_whole :
      (file : LogFile) (before after : Metadata) (lines : ℕ)
      → file.before ≡ some before
      → file.after ≡ some after
      → is_unsafe_before before ≡ false
      → is_unsafe_after before after ≡ false
      → 1 ≤ lines
      → lines ≤ 200
      → after.len ≤ max_stream_bytes
      → (found : List Text) × (tail decode file lines ≡ done found)
        × IsLastOf lines (text_lines (take after.len file.content)) found
  unfolding tail
  tail_whole file before after lines seen opened safe same some_lines few small =
      let (found, read) = read_tail_returns after.len file.content lines small in
      (
        found,
        ground (arith, seen, opened, safe, same, read),
        read_tail-IsLastOf after.len file.content lines found some_lines read,
      )
