-- ===== src/Tests/EngineTests.antt =====
-- The engine's output and arguments at concrete values.
use termux_stacks.Prelude.{ℕ, List, [], ◌∷◌, Option, some, true, map, ◌≡◌, ◌↔◌, refl}
use termux_stacks.Prelude.Outcome.{done, failed}
use termux_stacks.Ordered.Key.{Text, text, text_cmp, nat_key, pair_key}
use termux_stacks.Ordered.Set
use termux_stacks.Ordered.Set.{IsDistinct}
use termux_stacks.Text.{split, starts_with}
use termux_stacks.Manifest.Literal.{decimal, decimal_from}
use termux_stacks.Logs.{take}
use termux_stacks.Engine
use termux_stacks.Engine.{Bind, Output, text_lines, parse_session_output, bind_arguments, probe}
use termux_stacks.Engine.Sessions.{Lists, parse_session_output_iff}
use termux_stacks.Engine.Arguments.{readable, spelled, read_binds, read_binds-bind_arguments}

abbrev ascii : List ℕ → Option Text
ascii bytes = some bytes

abbrev listing : List ℕ
listing = text "7\n\n42\r\n"

parse_sessions :
    (parse_session_output ascii listing ≡ done (7 ∷ 42 ∷ []))
    × (parse_session_output ascii (text "7\n07\n")
        ≡ failed (Engine.invalid_session_output (text "07")))
unfolding parse_session_output text_lines Engine.end_lines Engine.sessions_from split decimal
    decimal_from Set.insert
parse_sessions = (refl, refl)

parse_session_output_iff_example : (parse_session_output ascii listing ≡ done (7 ∷ 42 ∷ [])) ↔ (
    (stdout : Text) × (ascii listing ≡ some stdout)
    × Lists (text_lines stdout) (7 ∷ 42 ∷ [])
    × IsDistinct {K = ℕ} (7 ∷ 42 ∷ []))
parse_session_output_iff_example = parse_session_output_iff ascii listing (7 ∷ 42 ∷ [])

abbrev binds : List Bind
binds = record { source = text "/srv/notes"; target = text "/data" } ∷ []

abbrev arguments : List Text
arguments = text "--bind" ∷ text "/srv/notes:/data" ∷ []

spells : bind_arguments ascii binds ≡ done arguments
unfolding bind_arguments
spells = refl

read_binds-bind_arguments_example : map readable (read_binds arguments) ≡ map (spelled ascii) binds
read_binds-bind_arguments_example = read_binds-bind_arguments ascii binds arguments spells

abbrev reply : List Text → Option Output
reply _ = some (record {
  success = true;
  stdout = text "install run ps kill remove proot-distro 5.6.0\n";
  stderr = [];
})

probes : probe reply ascii (λ bytes. bytes) ≡ done tt
unfolding probe Engine.output Engine.unsuccessful_output Engine.bounded_text take
    Engine.version_tokens Engine.check_commands Engine.contains_text starts_with text_cmp
probes = refl
