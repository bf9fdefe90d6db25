-- ===== src/Engine.antt =====
-- The adapter of the `proot-distro` command (src/engine.rs). What the command does is a parameter:
-- the output for each argument list, none where it cannot be started. So are the two readings of
-- its bytes as text, the strict one and the lossy one.
pub mod Sessions
pub mod Arguments
use termux_stacks.Prelude.{
  ℕ, ◌+◌, ◌*◌, ◌^◌, Bool, true, false, not, ◌&&◌, ◌||◌, List, [], ◌∷◌, ◌++◌, Option, none, some,
  ltb, if◌then◌else◌, all, any, is_empty, length,
}
use termux_stacks.Prelude.Outcome.{Outcome, done, failed, ◌>>=◌}
use termux_stacks.Ordered.Key.{Text, text, text_key, nat_key, text_cmp, ◌==◌}
use termux_stacks.Ordered.Map.{BTreeMap}
use termux_stacks.Ordered.Set
use termux_stacks.Ordered.Set.{BTreeSet, contains}
use termux_stacks.Text.{starts_with, is_ascii_digit, split}
use termux_stacks.Manifest.Literal.{decimal}
use termux_stacks.Logs.{take}

pub data Error : Type 0 where
  spawn : Text → Error
  unsuccessful : Text → Text → Error
  no_version : Error
  no_command invalid_session_output : Text → Error
  source_not_utf8 source_has_colon : List ℕ → Error

pub record Output : Type 0 where
  pub success : Bool
  pub stdout : List ℕ
  pub stderr : List ℕ

pub record Bind : Type 0 where
  pub source : List ℕ
  pub target : Text

pub record RunOptions : Type 0 where
  pub command : Option (List Text)
  pub environment : BTreeMap Text Text
  pub binds : List Bind

-- `str::lines`: a line ends at a newline or behind the last one, and its newline may have a
-- carriage return in front.
abbrev pub strip_return : Text → Text
strip_return [] = []
strip_return (c ∷ []) = if c == b'\r' then [] else c ∷ []
strip_return (c ∷ d ∷ s) = c ∷ strip_return (d ∷ s)

unfoldable pub end_lines : List Text → List Text
end_lines [] = []
end_lines (last ∷ []) = if is_empty last then [] else last ∷ []
end_lines (line ∷ next ∷ rest) = strip_return line ∷ end_lines (next ∷ rest)

unfoldable pub text_lines : Text → List Text
unfolding end_lines split
text_lines s = end_lines (split s b'\n')

-- The loop over the lines of `ps --quiet`.
unfoldable pub sessions_from : List Text → List ℕ → BTreeSet ℕ → Outcome Error (List ℕ)
unfolding decimal
sessions_from [] sessions unique = done sessions
sessions_from (line ∷ rest) sessions unique =
    let skipped = sessions_from rest sessions unique in
    if is_empty line
    then skipped
    else if not (all is_ascii_digit line)
    then failed (invalid_session_output line)
    else elim (decimal line) [
      | none ↦ failed (invalid_session_output line)
      | some session ↦
          let more = sessions_from rest (sessions ++ session ∷ []) (Set.insert session unique) in
          if ltb 4294967295 session
          then failed (invalid_session_output line)
          else if session == 0 || contains session unique
          then failed (invalid_session_output line)
          else more
    ]

module _ (from_utf8 : List ℕ → Option Text) where
  unfoldable pub parse_session_output : List ℕ → Outcome Error (List ℕ)
  unfolding text_lines sessions_from
  parse_session_output bytes = elim (from_utf8 bytes) [
    | none ↦ failed (invalid_session_output (text "<non-UTF-8>"))
    | some stdout ↦ sessions_from (text_lines stdout) [] []
  ]

abbrev pub max_diagnostic : ℕ
max_diagnostic = 16 * 1024

module _ (from_utf8_lossy : List ℕ → Text) where
  unfoldable pub bounded_text : List ℕ → Text
  unfolding take
  bounded_text bytes =
      let cut = from_utf8_lossy (take max_diagnostic bytes) in
      if ltb max_diagnostic (length bytes) then cut ++ text "\n[diagnostic truncated]" else cut

-- The arguments behind `run --isolated` for the environment.
unfoldable pub environment_arguments : BTreeMap Text Text → List Text
environment_arguments [] = []
environment_arguments ((key, value) ∷ rest) =
    text "--env" ∷ (key ++ b'=' ∷ value) ∷ environment_arguments rest

module _ (from_utf8 : List ℕ → Option Text) where
  unfoldable pub bind_arguments : List Bind → Outcome Error (List Text)
  bind_arguments [] = done []
  bind_arguments (binding ∷ rest) =
      let others = bind_arguments rest in
      elim (from_utf8 binding.source) [
        | none ↦ failed (source_not_utf8 binding.source)
        | some source ↦
            if any (λ c. c == b':') source then failed (source_has_colon binding.source) else do
              arguments ← others
              done (text "--bind" ∷ (source ++ b':' ∷ binding.target) ∷ arguments)
      ]

  abbrev pub command_arguments : Option (List Text) → List Text
  command_arguments none = []
  command_arguments (some command) = text "--" ∷ command

  -- The whole argument list of `run`.
  unfoldable pub run_arguments : Text → RunOptions → Outcome Error (List Text)
  unfolding bind_arguments environment_arguments
  run_arguments alias options = do
    binds ← bind_arguments options.binds
    done (
        text "run"
        ∷ text "--isolated"
        ∷ (environment_arguments options.environment
            ++ binds
            ++ alias ∷ command_arguments options.command))

-- `combined.split(..)`, cut where the character is no digit and no dot.
unfoldable pub version_tokens : Text → List Text
version_tokens [] = [] ∷ []
version_tokens (c ∷ s) = elim (version_tokens s) [
  | [] ↦ []
  | token ∷ tokens ↦
      if is_ascii_digit c || c == b'.' then (c ∷ token) ∷ tokens else [] ∷ token ∷ tokens
]

-- `str::contains`.
unfoldable pub contains_text : Text → Text → Bool
unfolding starts_with
contains_text [] part = starts_with [] part
contains_text (c ∷ s) part = starts_with (c ∷ s) part || contains_text s part

unfoldable pub check_commands : Text → List Text → Outcome Error (Unit {0})
unfolding contains_text
check_commands combined [] = done tt
check_commands combined (required ∷ rest) =
    let others = check_commands combined rest in
    if not (contains_text combined required) then failed (no_command required) else others

module _ (start : List Text → Option Output) (from_utf8 : List ℕ → Option Text)
    (from_utf8_lossy : List ℕ → Text) where
  unfoldable pub output : Text → List Text → Outcome Error Output
  output operation arguments = elim (start arguments) [
    | none ↦ failed (spawn operation)
    | some o ↦ done o
  ]

  unfoldable pub unsuccessful_output : Text → Output → Error
  unfolding bounded_text
  unsuccessful_output operation o = unsuccessful operation (bounded_text from_utf8_lossy o.stderr)

  unfoldable pub probe : Outcome Error (Unit {0})
  unfolding output unsuccessful_output version_tokens check_commands text_cmp
  probe = do
    o ← output (text "capability probe") (text "help" ∷ [])
    let combined = from_utf8_lossy o.stdout ++ b'\n' ∷ from_utf8_lossy o.stderr
    if not o.success
        then failed (unsuccessful_output (text "capability probe") o)
        else if not (any (λ token. token == text "5.6.0") (version_tokens combined))
        then failed no_version
        else check_commands combined
            (text "install" ∷ text "run" ∷ text "ps" ∷ text "kill" ∷ text "remove" ∷ [])

  unfoldable pub install : Text → Text → Text → Outcome Error (Unit {0})
  unfolding output unsuccessful_output
  install architecture alias image = do
    o ←
        output (text "install") (
          text "install"
          ∷ text "--architecture"
          ∷ architecture
          ∷ text "--name"
          ∷ alias
          ∷ image
          ∷ [])
    if o.success then done tt else failed (unsuccessful_output (text "install") o)

  unfoldable pub sessions : Outcome Error (List ℕ)
  unfolding output unsuccessful_output parse_session_output
  sessions = do
    o ← output (text "ps --quiet") (text "ps" ∷ text "--quiet" ∷ [])
    if not o.success
        then failed (unsuccessful_output (text "ps --quiet") o)
        else parse_session_output from_utf8 o.stdout
