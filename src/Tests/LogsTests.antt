-- ===== src/Tests/LogsTests.antt =====
-- The bounded tail at a file of three lines.
use termux_stacks.Prelude.{ℕ, List, [], ◌∷◌, true, false, some, ◌≡◌, refl, arith}
use termux_stacks.Prelude.Outcome.{done}
use termux_stacks.Ordered.Key.{Text, text, nat_key}
use termux_stacks.Text.{split}
use termux_stacks.Logs
use termux_stacks.Logs.{Metadata, LogFile, take, tail}
use termux_stacks.Logs.Lines.{IsLastOf}
use termux_stacks.Logs.Theorems.{text_lines, tail-IsLastOf, tail_whole}

abbrev metadata : Metadata
metadata = record { is_symlink = false; is_file = true; mode = 384; dev = 7; ino = 42; len = 14 }

-- The service has begun a fourth line since the file was opened.
abbrev log : LogFile
log = record { before = some metadata; after = some metadata; content = text "one\ntwo\nthree\nfo" }

abbrev ascii : List ℕ → Text
ascii bytes = bytes

tail-two : tail ascii log 2 ≡ done (text "two" ∷ text "three" ∷ [])
unfolding tail Logs.read_tail Logs.cut_prefix Logs.finish Logs.is_unsafe_before Logs.is_unsafe_after
    take Logs.drop Logs.after_newline Logs.pop_newline Logs.lines_of split
tail-two = refl

tail-IsLastOf_example :
    (after : Metadata) × (log.after ≡ some after)
    × IsLastOf 2 (text_lines ascii (take after.len log.content)) (text "two" ∷ text "three" ∷ [])
tail-IsLastOf_example = tail-IsLastOf ascii log 2 (text "two" ∷ text "three" ∷ []) tail-two

safe : (Logs.is_unsafe_before metadata ≡ false) × (Logs.is_unsafe_after metadata metadata ≡ false)
unfolding Logs.is_unsafe_before Logs.is_unsafe_after
safe = (refl, refl)

tail_whole_example :
    (found : List Text) × (tail ascii log 200 ≡ done found)
    × IsLastOf 200 (text_lines ascii (take 14 log.content)) found
tail_whole_example =
    tail_whole ascii log metadata metadata 200 refl refl safe.0 safe.1 (omega arith) (omega arith)
      (omega arith)
