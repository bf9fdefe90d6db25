-- ===== src/Cli/Theorems.antt =====
-- `parse` reads no other command lines than those that invoke a command (src/cli.rs).
use termux_stacks.Prelude.{
  ◌≡◌, ◌↔◌, refl, subst, Bool, true, false, ◌||◌, inl, inr, List, [], ◌∷◌, arith, Bool-cases,
}
use termux_stacks.Prelude.Outcome.{done}
use termux_stacks.Ordered.Key.{Text, text, text_key, nat_key}
use termux_stacks.Cli.{
  OsString, unicode, Command, help, version, up, status, down, restart, is, no_extra_args,
  parse_service_command, one_path_arg, one_string_arg, parse,
}
use termux_stacks.Cli.Grammar.{
  Invokes, no_arguments, help_short, help_long, version_short, version_long, up_file, status_of,
  down_stack, restart_service, is_eq, no_extra_args-done, Invokes-parse,
}
use termux_stacks.Cli.Arguments.{
  one_path_arg-done, one_string_arg-done, parse_service_command-done, parse_config-Invokes,
  parse_daemon-Invokes, parse_logs-Invokes,
}

one_word :
    (word : Text) (c d : Command) (args : List OsString)
    → Invokes c (unicode word ∷ [])
    → no_extra_args args c ≡ done d
    → Invokes d (unicode word ∷ args)
one_word word c d args known h =
    let (nothing, same) = no_extra_args-done args c d h in
    rw nothing (subst (λ d. Invokes d (unicode word ∷ [])) same known)

either : {A : Type 0} (p q : Bool) → (p || q) ≡ true → (p ≡ true → A) → (q ≡ true → A) → A
either true q h f g = f refl
either false q h f g = g h

up-Invokes :
    (args : List OsString) (c : Command)
    → one_path_arg args (text "up") up ≡ done c
    → Invokes c (unicode (text "up") ∷ args)
up-Invokes args c h =
    let (value, shape, same) = one_path_arg-done args (text "up") up c h in
    rw shape (subst (λ c. Invokes c (unicode (text "up") ∷ value ∷ [])) same (up_file value))

status-Invokes :
    (args : List OsString) (c : Command)
    → one_string_arg args (text "status") status ≡ done c
    → Invokes c (unicode (text "status") ∷ args)
status-Invokes args c h =
    let (value, shape, same) = one_string_arg-done args (text "status") status c h in
    rw shape
      (subst (λ c. Invokes c (unicode (text "status") ∷ unicode value ∷ [])) same (status_of value))

down-Invokes :
    (args : List OsString) (c : Command)
    → one_string_arg args (text "down") down ≡ done c
    → Invokes c (unicode (text "down") ∷ args)
down-Invokes args c h =
    let (value, shape, same) = one_string_arg-done args (text "down") down c h in
    rw shape
      (subst (λ c. Invokes c (unicode (text "down") ∷ unicode value ∷ [])) same (down_stack value))

restart-Invokes :
    (args : List OsString) (c : Command)
    → parse_service_command args (text "restart") restart ≡ done c
    → Invokes c (unicode (text "restart") ∷ args)
restart-Invokes args c h =
    let (stack, service, shape, same) =
      parse_service_command-done args (text "restart") restart c h in
    rw shape (
      subst (λ c. Invokes c (unicode (text "restart") ∷ unicode stack ∷ unicode service ∷ [])) same
        (restart_service stack service))

-- Where the first argument is no flag.
word-Invokes :
    (first : OsString) (args : List OsString) (c : Command)
    → (is first (text "-h") || is first (text "--help")) ≡ false
    → (is first (text "-V") || is first (text "--version")) ≡ false
    → parse (first ∷ args) ≡ done c
    → Invokes c (first ∷ args)
unfolding parse
word-Invokes first args c h_flag v_flag h = elim (Bool-cases (is first (text "config"))) [
  | inl e ↦
      rw (is_eq first (text "config") e) (parse_config-Invokes args c (rw (h_flag, v_flag, e) at h))
  | inr not_config ↦ elim (Bool-cases (is first (text "up"))) [
    | inl e ↦
        rw (is_eq first (text "up") e) (up-Invokes args c (rw (h_flag, v_flag, not_config, e) at h))
    | inr not_up ↦ elim (Bool-cases (is first (text "status"))) [
      | inl e ↦
          rw (is_eq first (text "status") e)
            (status-Invokes args c (rw (h_flag, v_flag, not_config, not_up, e) at h))
      | inr not_status ↦ elim (Bool-cases (is first (text "down"))) [
        | inl e ↦
            rw (is_eq first (text "down") e)
              (down-Invokes args c (rw (h_flag, v_flag, not_config, not_up, not_status, e) at h))
        | inr not_down ↦ elim (Bool-cases (is first (text "logs"))) [
          | inl e ↦ rw (is_eq first (text "logs") e) (
              parse_logs-Invokes args c
                (rw (h_flag, v_flag, not_config, not_up, not_status, not_down, e) at h))
          | inr not_logs ↦ elim (Bool-cases (is first (text "restart"))) [
            | inl e ↦ rw (is_eq first (text "restart") e) (
                restart-Invokes args c
                  (rw (h_flag, v_flag, not_config, not_up, not_status, not_down, not_logs, e) at h))
            | inr not_restart ↦ elim (Bool-cases (is first (text "daemon"))) [
              | inl e ↦ rw (is_eq first (text "daemon") e) (
                  parse_daemon-Invokes args c (
                    rw
                      (
                        h_flag, v_flag, not_config, not_up, not_status, not_down, not_logs,
                        not_restart, e,
                      )
                      at h))
              | inr not_daemon ↦ absurd (
                  ground (
                    arith,
                    rw
                        (
                          h_flag, v_flag, not_config, not_up, not_status, not_down, not_logs,
                          not_restart, not_daemon,
                        )
                        at h,
                  ))
            ]
          ]
        ]
      ]
    ]
  ]
]

parse-Invokes : (args : List OsString) (c : Command) → parse args ≡ done c → Invokes c args
unfolding parse
parse-Invokes [] c h = let same : c ≡ help = ground (arith, h) in rw same no_arguments
parse-Invokes (first ∷ args) c h =
    elim (Bool-cases (is first (text "-h") || is first (text "--help"))) [
      | inl e ↦
          let h' = rw e at h in
          either (is first (text "-h")) (is first (text "--help")) e
            (λ e. rw (is_eq first (text "-h") e) (one_word (text "-h") help c args help_short h'))
            (λ e.
              rw (is_eq first (text "--help") e)
                (one_word (text "--help") help c args help_long h'))
      | inr e1 ↦ elim (Bool-cases (is first (text "-V") || is first (text "--version"))) [
        | inl e ↦
            let h' = rw (e1, e) at h in
            either (is first (text "-V")) (is first (text "--version")) e
              (λ e.
                rw (is_eq first (text "-V") e)
                  (one_word (text "-V") version c args version_short h'))
              (λ e.
                rw (is_eq first (text "--version") e)
                  (one_word (text "--version") version c args version_long h'))
        | inr e2 ↦ word-Invokes first args c e1 e2 h
      ]
    ]

-- Arguments are read as a command exactly if they are a command line that invokes it.
pub parse_iff : (args : List OsString) (c : Command) → (parse args ≡ done c) ↔ Invokes c args
parse_iff args c = (parse-Invokes args c, Invokes-parse c args)
