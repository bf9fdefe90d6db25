-- ===== src/Logs.antt =====
-- The bounded tail of a log file (src/logs.rs). What the file system says enters as a record:
-- the metadata before and after opening, and the bytes that are there when they are read, which
-- may be more than the length that was seen, since the service may go on writing.
pub mod Lines
pub mod Theorems
use termux_stacks.Prelude.{
  ℕ, suc, zero, ◌-◌, ◌*◌, ◌%◌, Bool, true, false, not, ◌&&◌, ◌||◌, List, [], ◌∷◌, map, Option, none,
  some, ltb, leb, ◌==◌, if◌then◌else◌, length, is_empty,
}
use termux_stacks.Prelude.Outcome.{Outcome, done, failed}
use termux_stacks.Text.{split}
use termux_stacks.Ordered.Key.{Text}

abbrev pub max_stream_bytes : ℕ
max_stream_bytes = 64 * 1024

pub data Error : Type 0 where
  io unsafe_path too_large : Error
  invalid_tail : ℕ → Error

pub record Metadata : Type 0 where
  pub is_symlink : Bool
  pub is_file : Bool
  pub mode : ℕ
  pub dev : ℕ
  pub ino : ℕ
  pub len : ℕ

-- `none` where the call fails. `content` is what the opened file holds when it is read.
pub record LogFile : Type 0 where
  pub before : Option Metadata
  pub after : Option Metadata
  pub content : List ℕ

unfoldable pub take {ℓ} : {A : Type ℓ} → ℕ → List A → List A
take zero xs = []
take (suc n) [] = []
take (suc n) (x ∷ xs) = x ∷ take n xs

unfoldable pub drop {ℓ} : {A : Type ℓ} → ℕ → List A → List A
drop zero xs = xs
drop (suc n) [] = []
drop (suc n) (x ∷ xs) = drop n xs

-- `mode & 0o077`: the low six bits.
abbrev pub is_open_to_others : Metadata → Bool
is_open_to_others m = not (m.mode % 64 == 0)

unfoldable pub is_unsafe_before : Metadata → Bool
is_unsafe_before before = before.is_symlink || not before.is_file || is_open_to_others before

unfoldable pub is_unsafe_after : Metadata → Metadata → Bool
is_unsafe_after before after =
    not after.is_file || not (before.dev == after.dev) || not (before.ino == after.ino)

-- The bytes behind the first newline, if there is one.
unfoldable pub after_newline : List ℕ → Option (List ℕ)
after_newline [] = none
after_newline (b ∷ bytes) =
    let rest = after_newline bytes in if b == b'\n' then some bytes else rest

-- The bytes without a newline at their end.
unfoldable pub pop_newline : List ℕ → List ℕ
pop_newline [] = []
pop_newline (b ∷ []) = if b == b'\n' then [] else b ∷ []
pop_newline (b ∷ c ∷ bytes) = b ∷ pop_newline (c ∷ bytes)

unfoldable pub lines_of : List ℕ → List (List ℕ)
unfolding split
lines_of [] = []
lines_of (b ∷ bytes) = split (b ∷ bytes) b'\n'

-- `decode` is `String::from_utf8_lossy`.
module _ (decode : List ℕ → Text) where
  unfoldable pub finish : Bool → ℕ → List ℕ → Outcome Error (List Text)
  unfolding pop_newline lines_of drop
  finish truncated requested bytes =
      let all_lines = map decode (lines_of (pop_newline bytes)) in
      if truncated && ltb (length all_lines) requested
      then failed too_large
      else done (drop (length all_lines - requested) all_lines)

  unfoldable pub cut_prefix : Bool → ℕ → List ℕ → Outcome Error (List Text)
  unfolding after_newline finish
  cut_prefix true requested bytes = elim (after_newline bytes) [
    | none ↦ failed too_large
    | some rest ↦ finish true requested rest
  ]
  cut_prefix false requested bytes = finish false requested bytes

  unfoldable pub read_tail : ℕ → List ℕ → ℕ → Outcome Error (List Text)
  unfolding cut_prefix take drop
  read_tail size content lines =
      let start = size - max_stream_bytes in
      cut_prefix (not (start == 0)) lines (take (size - start) (drop start content))

  unfoldable pub tail : LogFile → ℕ → Outcome Error (List Text)
  unfolding read_tail is_unsafe_before is_unsafe_after
  tail file lines =
      if not (leb 1 lines && leb lines 200) then failed (invalid_tail lines) else elim file.before [
        | none ↦ failed io
        | some before ↦ if is_unsafe_before before then failed unsafe_path else elim file.after [
          | none ↦ failed io
          | some after ↦
              if is_unsafe_after before after
              then failed unsafe_path
              else read_tail after.len file.content lines
        ]
      ]
