-- ===== src/Tests/CliTests.antt =====
-- Command lines as `parse` reads them.
use termux_stacks.Prelude.{List, [], ◌∷◌, ◌≡◌, ◌↔◌, refl}
use termux_stacks.Prelude.Outcome.{done, failed}
use termux_stacks.Ordered.Key.{text}
use termux_stacks.Cli.{OsString, unicode, logs, bad_tail, parse}
use termux_stacks.Cli
use termux_stacks.Cli.Grammar.{Invokes}
use termux_stacks.Cli.Theorems.{parse_iff}
use termux_stacks.Ordered.Key.{text_cmp}
use termux_stacks.Manifest.Literal.{decimal, decimal_from}

abbrev arguments : List OsString
arguments =
    unicode (text "logs")
    ∷ unicode (text "notes")
    ∷ unicode (text "api")
    ∷ unicode (text "--tail")
    ∷ unicode (text "020")
    ∷ []

parse-tail :
    (parse arguments ≡ done (logs (text "notes") (text "api") 20))
    × (Cli.parse_log_tail (text "201") ≡ failed bad_tail)
    × (Cli.parse_log_tail (text "+20") ≡ failed bad_tail)
unfolding parse Cli.is Cli.no_extra_args Cli.into_string Cli.next_utf8 Cli.parse_log_tail
    Cli.tail_value Cli.log_options Cli.parse_logs text_cmp decimal decimal_from
parse-tail = (refl, refl, refl)

parse_iff_example :
    (parse arguments ≡ done (logs (text "notes") (text "api") 20))
    ↔ Invokes (logs (text "notes") (text "api") 20) arguments
parse_iff_example = parse_iff arguments (logs (text "notes") (text "api") 20)
