-- ===== src/Cli/Arguments.antt =====
-- What the arguments behind the first one are where they are read (src/cli.rs).
use termux_stacks.Prelude.{ℕ, ◌≡◌, ◌⊎◌, refl, ap, subst, inl, inr, List, [], ◌∷◌, arith, Bool-cases}
use termux_stacks.Prelude.Outcome.{Outcome, done, failed}
use termux_stacks.Ordered.Key.{Text, text, text_key, nat_key}
use termux_stacks.Cli.{
  OsString, unicode, other_bytes, Command, help, daemon, config_validate, logs, Problem, is,
  into_string, next_utf8, parse_log_tail, tail_value, log_options, parse_logs,
  parse_service_command, one_path_arg, one_string_arg, parse_config, parse_daemon,
}
use termux_stacks.Cli.Grammar.{
  Invokes, validate_file, logs_default, logs_tail, run_daemon, daemon_help_short, daemon_help_long,
  parse_log_tail_iff, is_eq, no_extra_args-done,
}

pub one_path_arg-done :
    (args : List OsString) (name : Text) (build : OsString → Command) (c : Command)
    → one_path_arg args name build ≡ done c
    → (value : OsString) × (args ≡ value ∷ []) × (build value ≡ c)
unfolding one_path_arg
one_path_arg-done [] name build c h = absurd (ground (arith, h))
one_path_arg-done (value ∷ args) name build c h =
    let (nothing, e) = no_extra_args-done args (build value) c h in
    (value, ap (λ xs. value ∷ xs) nothing, e)

pub one_string_arg-done :
    (args : List OsString) (name : Text) (build : Text → Command) (c : Command)
    → one_string_arg args name build ≡ done c
    → (value : Text) × (args ≡ unicode value ∷ []) × (build value ≡ c)
unfolding one_string_arg into_string
one_string_arg-done [] name build c h = absurd (ground (arith, h))
one_string_arg-done (other_bytes bytes ∷ args) name build c h = absurd (ground (arith, h))
one_string_arg-done (unicode value ∷ args) name build c h =
    let (nothing, e) = no_extra_args-done args (build value) c h in
    (value, ap (λ xs. unicode value ∷ xs) nothing, e)

pub parse_service_command-done :
    (args : List OsString) (name : Text) (build : Text → Text → Command) (c : Command)
    → parse_service_command args name build ≡ done c
    → (stack service : Text) × (args ≡ unicode stack ∷ unicode service ∷ [])
      × (build stack service ≡ c)
unfolding parse_service_command next_utf8 into_string
parse_service_command-done [] name build c h = absurd (ground (arith, h))
parse_service_command-done (other_bytes _ ∷ _) name build c h = absurd (ground (arith, h))
parse_service_command-done (unicode _ ∷ []) name build c h = absurd (ground (arith, h))
parse_service_command-done (unicode _ ∷ other_bytes _ ∷ _) name build c h =
    absurd (ground (arith, h))
parse_service_command-done (unicode stack ∷ unicode service ∷ args) name build c h =
    let (nothing, e) = no_extra_args-done args (build stack service) c h in
    (stack, service, ap (λ xs. unicode stack ∷ unicode service ∷ xs) nothing, e)

pub parse_config-Invokes :
    (args : List OsString) (c : Command)
    → parse_config args ≡ done c
    → Invokes c (unicode (text "config") ∷ args)
unfolding parse_config
parse_config-Invokes [] c h = absurd (ground (arith, h))
parse_config-Invokes (action ∷ []) c h = absurd (ground (arith, h))
parse_config-Invokes (action ∷ file ∷ rest) c h = elim (Bool-cases (is action (text "validate"))) [
  | inl e ↦
      let (nothing, same) = no_extra_args-done rest (config_validate file) c (rw e at h) in
      rw (is_eq action (text "validate") e, nothing)
        (subst (λ c. Invokes c (unicode (text "config") ∷ unicode (text "validate") ∷ file ∷ []))
          same (validate_file file))
  | inr e ↦ absurd (ground (arith, h, e))
]

pub parse_daemon-Invokes :
    (args : List OsString) (c : Command)
    → parse_daemon args ≡ done c
    → Invokes c (unicode (text "daemon") ∷ args)
unfolding parse_daemon
parse_daemon-Invokes [] c h = let same : c ≡ daemon = ground (arith, h) in rw same run_daemon
parse_daemon-Invokes (second ∷ extra ∷ args) c h = absurd (ground (arith, h))
parse_daemon-Invokes (second ∷ []) c h = elim (Bool-cases (is second (text "-h"))) [
  | inl e ↦
      let same : c ≡ help = ground (arith, h, e) in
      rw (same, is_eq second (text "-h") e) daemon_help_short
  | inr other ↦ elim (Bool-cases (is second (text "--help"))) [
    | inl e ↦
        let same : c ≡ help = ground (arith, h, other, e) in
        rw (same, is_eq second (text "--help") e) daemon_help_long
    | inr e ↦ absurd (ground (arith, h, other, e))
  ]
]

tail_cases :
    (digits : Text)
    → ((tail : ℕ) × (parse_log_tail digits ≡ done tail))
      ⊎ ((p : Problem) × (parse_log_tail digits ≡ failed p))
tail_cases digits = outcome_cases (parse_log_tail digits) refl
  where
    outcome_cases :
        (o : Outcome Problem ℕ)
        → parse_log_tail digits ≡ o
        → ((tail : ℕ) × (parse_log_tail digits ≡ done tail))
          ⊎ ((p : Problem) × (parse_log_tail digits ≡ failed p))
    outcome_cases (done tail) h = inl (tail, h)
    outcome_cases (failed p) h = inr (p, h)

log_options-Invokes :
    (stack service : Text) (args : List OsString) (c : Command)
    → log_options stack service args ≡ done c
    → Invokes c (unicode (text "logs") ∷ unicode stack ∷ unicode service ∷ args)
unfolding log_options tail_value
log_options-Invokes stack service [] c h =
    let same : c ≡ logs stack service 200 = ground (arith, h) in
    rw same (logs_default stack service)
log_options-Invokes stack service (option ∷ []) c h = absurd (ground (arith, h))
log_options-Invokes stack service (option ∷ other_bytes bytes ∷ args) c h =
    absurd (ground (arith, h))
log_options-Invokes stack service (option ∷ unicode raw ∷ args) c h =
    elim (Bool-cases (is option (text "--tail"))) [
      | inr e ↦ absurd (ground (arith, h, e))
      | inl e ↦ elim (tail_cases raw) [
        | inr (p, bad) ↦ absurd (ground (arith, h, e, bad))
        | inl (tail, good) ↦
            let (nothing, same) =
              no_extra_args-done args (logs stack service tail) c (rw (e, good) at h) in
            rw (is_eq option (text "--tail") e, nothing)
              (subst
                (λ c. Invokes c (
                  unicode (text "logs")
                  ∷ unicode stack
                  ∷ unicode service
                  ∷ unicode (text "--tail")
                  ∷ unicode raw
                  ∷ []))
                same (logs_tail stack service raw tail ((parse_log_tail_iff raw tail).0 good)))
      ]
    ]

pub parse_logs-Invokes :
    (args : List OsString) (c : Command)
    → parse_logs args ≡ done c
    → Invokes c (unicode (text "logs") ∷ args)
unfolding parse_logs next_utf8 into_string
parse_logs-Invokes [] c h = absurd (ground (arith, h))
parse_logs-Invokes (other_bytes _ ∷ _) c h = absurd (ground (arith, h))
parse_logs-Invokes (unicode _ ∷ []) c h = absurd (ground (arith, h))
parse_logs-Invokes (unicode _ ∷ other_bytes _ ∷ _) c h = absurd (ground (arith, h))
parse_logs-Invokes (unicode stack ∷ unicode service ∷ args) c h =
    log_options-Invokes stack service args c h
