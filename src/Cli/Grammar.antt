-- ===== src/Cli/Grammar.antt =====
-- The command line that each command has (src/cli.rs), and that `parse` reads it so.
use termux_stacks.Prelude.{
  ℕ, ◌+◌, ◌-◌, ◌*◌, ◌≤◌, ◌≡◌, ◌↔◌, refl, true, inl, inr, List, [], ◌∷◌, some, arith, all,
  Option-cases,
}
use termux_stacks.Prelude.Outcome.{done}
use termux_stacks.Ordered.Key.{Text, text, text_cmp, text_key, nat_key, ==_iff}
use termux_stacks.Text.{is_ascii_digit}
use termux_stacks.Manifest.Literal.{decimal, decimal_from}
use termux_stacks.Cli.{
  OsString, unicode, other_bytes, Command, help, version, daemon, config_validate, up, status, down,
  logs, restart, is, no_extra_args, into_string, next_utf8, parse_log_tail, tail_value, log_options,
  parse_logs, parse_service_command, one_path_arg, one_string_arg, parse_config, parse_daemon,
  parse,
}

-- A number of lines that may be asked for, and its digits.
pub record IsTail (digits : Text) (tail : ℕ) : Type 0 where
  pub value : decimal digits ≡ some tail
  pub positive : 1 ≤ tail
  pub at_most : tail ≤ 200

-- The arguments that invoke a command.
pub data Invokes : Command → List OsString → Type 0 where
  no_arguments : Invokes help []
  help_short : Invokes help (unicode (text "-h") ∷ [])
  help_long : Invokes help (unicode (text "--help") ∷ [])
  version_short : Invokes version (unicode (text "-V") ∷ [])
  version_long : Invokes version (unicode (text "--version") ∷ [])
  validate_file :
      (file : OsString)
      → Invokes
          (config_validate file)
          (unicode (text "config") ∷ unicode (text "validate") ∷ file ∷ [])
  up_file : (file : OsString) → Invokes (up file) (unicode (text "up") ∷ file ∷ [])
  status_of : (stack : Text) → Invokes (status stack) (unicode (text "status") ∷ unicode stack ∷ [])
  down_stack : (stack : Text) → Invokes (down stack) (unicode (text "down") ∷ unicode stack ∷ [])
  logs_default :
      (stack service : Text)
      → Invokes
          (logs stack service 200)
          (unicode (text "logs") ∷ unicode stack ∷ unicode service ∷ [])
  logs_tail :
      (stack service digits : Text) (tail : ℕ)
      → IsTail digits tail
      → Invokes (logs stack service tail) (
          unicode (text "logs")
          ∷ unicode stack
          ∷ unicode service
          ∷ unicode (text "--tail")
          ∷ unicode digits
          ∷ [])
  restart_service :
      (stack service : Text)
      → Invokes
          (restart stack service)
          (unicode (text "restart") ∷ unicode stack ∷ unicode service ∷ [])
  run_daemon : Invokes daemon (unicode (text "daemon") ∷ [])
  daemon_help_short : Invokes help (unicode (text "daemon") ∷ unicode (text "-h") ∷ [])
  daemon_help_long : Invokes help (unicode (text "daemon") ∷ unicode (text "--help") ∷ [])

decimal_from-digits :
    (acc : ℕ) (s : Text) (n : ℕ) → decimal_from acc s ≡ some n → all is_ascii_digit s ≡ true
unfolding decimal_from
decimal_from-digits acc [] n h = refl
decimal_from-digits acc (c ∷ s) n h =
    ground (arith, h, decimal_from-digits (acc * 10 + (c - b'0')) s n)

pub parse_log_tail_iff :
    (digits : Text) (tail : ℕ) → (parse_log_tail digits ≡ done tail) ↔ IsTail digits tail
unfolding parse_log_tail decimal
parse_log_tail_iff [] tail =
    (λ h. absurd (ground (arith, h)), λ t. absurd (ground (arith, t.value)))
parse_log_tail_iff (c ∷ s) tail = (
  λ h. elim (Option-cases (decimal_from 0 (c ∷ s))) [
    | inl nothing ↦ absurd (ground (arith, h, nothing))
    | inr (n, value) ↦ record {
      value = ground (arith, h, value);
      positive = ground (arith, h, value);
      at_most = ground (arith, h, value);
    }
  ],
  λ t. ground (arith, t.value, t.positive, t.at_most, decimal_from-digits 0 (c ∷ s) tail),
)

pub is_eq : (argument : OsString) (name : Text) → is argument name ≡ true → argument ≡ unicode name
unfolding is
is_eq (unicode s) name h = ground (arith, ==_iff s name)
is_eq (other_bytes bytes) name h = absurd (ground arith)

pub no_extra_args-done :
    (args : List OsString) (c d : Command) → no_extra_args args c ≡ done d → (args ≡ []) × (c ≡ d)
unfolding no_extra_args
no_extra_args-done [] c d h = (refl, ground (arith, h))
no_extra_args-done (a ∷ args) c d h = absurd (ground (arith, h))

pub Invokes-parse : (c : Command) (args : List OsString) → Invokes c args → parse args ≡ done c
unfolding parse is text_cmp no_extra_args into_string next_utf8 tail_value log_options parse_logs
    parse_service_command one_path_arg one_string_arg parse_config parse_daemon
Invokes-parse _ _ no_arguments = refl
Invokes-parse _ _ help_short = refl
Invokes-parse _ _ help_long = refl
Invokes-parse _ _ version_short = refl
Invokes-parse _ _ version_long = refl
Invokes-parse _ _ (validate_file file) = refl
Invokes-parse _ _ (up_file file) = refl
Invokes-parse _ _ (status_of stack) = refl
Invokes-parse _ _ (down_stack stack) = refl
Invokes-parse _ _ (logs_default stack service) = refl
Invokes-parse _ _ (logs_tail stack service digits tail t) =
    rw ((parse_log_tail_iff digits tail).1 t) refl
Invokes-parse _ _ (restart_service stack service) = refl
Invokes-parse _ _ run_daemon = refl
Invokes-parse _ _ daemon_help_short = refl
Invokes-parse _ _ daemon_help_long = refl
