-- ===== src/Cli.antt =====
-- The command line (src/cli.rs: `parse` and its helpers). An `OsString` is a text, or bytes that
-- are not UTF-8. An error message is kept as its format string with its arguments.
pub mod Grammar
mod Arguments
pub mod Theorems
use termux_stacks.Prelude.{
  ℕ, Bool, true, false, not, ◌&&◌, ◌||◌, List, [], ◌∷◌, Option, none, some, ltb, if◌then◌else◌, all,
  is_empty,
}
use termux_stacks.Prelude.Outcome.{Outcome, done, failed, ◌>>=◌}
use termux_stacks.Ordered.Key.{Text, text, text_key, nat_key, text_cmp, ◌==◌}
use termux_stacks.Text.{is_ascii_digit}
use termux_stacks.Manifest.Literal.{decimal}

pub data OsString : Type 0 where
  unicode : Text → OsString
  other_bytes : List ℕ → OsString

pub data Command : Type 0 where
  help version daemon : Command
  config_validate up : OsString → Command
  status down : Text → Command
  logs : Text → Text → ℕ → Command
  restart : Text → Text → Command

pub data Problem : Type 0 where
  missing_action missing_manifest_path missing_tail_value bad_tail : Problem
  unknown_action unexpected_argument unknown_command : OsString → Problem
  missing_stack missing_service missing_argument : Text → Problem
  not_utf8 tail_not_utf8 : OsString → Problem

abbrev pub Parsed : Type 0
Parsed = Outcome Problem Command

abbrev pub default_log_tail : ℕ
default_log_tail = 200

abbrev pub max_log_tail : ℕ
max_log_tail = 200

-- `argument == OsStr::new(name)`.
unfoldable pub is : OsString → Text → Bool
unfolding text_cmp
is (unicode s) name = s == name
is (other_bytes bytes) name = false

unfoldable pub no_extra_args : List OsString → Command → Parsed
no_extra_args [] command = done command
no_extra_args (argument ∷ args) command = failed (unexpected_argument argument)

unfoldable pub into_string : OsString → Outcome Problem Text
into_string (unicode s) = done s
into_string (other_bytes bytes) = failed (not_utf8 (other_bytes bytes))

-- The argument and those behind it.
unfoldable pub next_utf8 : List OsString → Problem → Outcome Problem (Text × List OsString)
unfolding into_string
next_utf8 [] missing = failed missing
next_utf8 (argument ∷ args) missing = do s ← into_string argument; done (s, args)

unfoldable pub parse_log_tail : Text → Outcome Problem ℕ
unfolding decimal
parse_log_tail value =
    if is_empty value || not (all is_ascii_digit value)
    then failed bad_tail
    else elim (decimal value) [
      | none ↦ failed bad_tail
      | some tail ↦
          if ltb 65535 tail
          then failed bad_tail
          else if tail == 0 || ltb max_log_tail tail
          then failed bad_tail
          else done tail
    ]

unfoldable pub tail_value : OsString → Outcome Problem Text
tail_value (unicode s) = done s
tail_value (other_bytes bytes) = failed (tail_not_utf8 (other_bytes bytes))

unfoldable pub log_options : Text → Text → List OsString → Parsed
unfolding is tail_value parse_log_tail no_extra_args
log_options stack service [] = done (logs stack service default_log_tail)
log_options stack service (option ∷ []) =
    if not (is option (text "--tail"))
    then failed (unexpected_argument option)
    else failed missing_tail_value
log_options stack service (option ∷ raw ∷ args) =
    if not (is option (text "--tail")) then failed (unexpected_argument option) else do
      raw_tail ← tail_value raw
      tail ← parse_log_tail raw_tail
      no_extra_args args (logs stack service tail)

unfoldable pub parse_logs : List OsString → Parsed
unfolding next_utf8 log_options
parse_logs args = do
  (stack, args) ← next_utf8 args (missing_stack (text "logs"))
  (service, args) ← next_utf8 args (missing_service (text "logs"))
  log_options stack service args

unfoldable pub parse_service_command : List OsString → Text → (Text → Text → Command) → Parsed
unfolding next_utf8 no_extra_args
parse_service_command args command_name build = do
  (stack, args) ← next_utf8 args (missing_stack command_name)
  (service, args) ← next_utf8 args (missing_service command_name)
  no_extra_args args (build stack service)

unfoldable pub one_path_arg : List OsString → Text → (OsString → Command) → Parsed
unfolding no_extra_args
one_path_arg [] command_name build = failed (missing_argument command_name)
one_path_arg (value ∷ args) command_name build = no_extra_args args (build value)

unfoldable pub one_string_arg : List OsString → Text → (Text → Command) → Parsed
unfolding no_extra_args into_string
one_string_arg [] command_name build = failed (missing_argument command_name)
one_string_arg (value ∷ args) command_name build = do
  s ← into_string value
  no_extra_args args (build s)

unfoldable pub parse_config : List OsString → Parsed
unfolding is no_extra_args
parse_config [] = failed missing_action
parse_config (action ∷ args) =
    if not (is action (text "validate")) then failed (unknown_action action) else elim args [
      | [] ↦ failed missing_manifest_path
      | path ∷ rest ↦ no_extra_args rest (config_validate path)
    ]

abbrev is_help : OsString → Bool
unfolding is
is_help argument = is argument (text "-h") || is argument (text "--help")

unfoldable pub parse_daemon : List OsString → Parsed
unfolding is
parse_daemon [] = done daemon
parse_daemon (second ∷ args) =
    if is_help second && is_empty args then done help else failed (unexpected_argument second)

unfoldable pub parse : List OsString → Parsed
unfolding is no_extra_args parse_config one_path_arg one_string_arg parse_logs parse_service_command
    parse_daemon
parse [] = done help
parse (first ∷ args) =
    if is first (text "-h") || is first (text "--help")
    then no_extra_args args help
    else if is first (text "-V") || is first (text "--version")
    then no_extra_args args version
    else if is first (text "config")
    then parse_config args
    else if is first (text "up")
    then one_path_arg args (text "up") up
    else if is first (text "status")
    then one_string_arg args (text "status") status
    else if is first (text "down")
    then one_string_arg args (text "down") down
    else if is first (text "logs")
    then parse_logs args
    else if is first (text "restart")
    then parse_service_command args (text "restart") restart
    else if is first (text "daemon")
    then parse_daemon args
    else failed (unknown_command first)
