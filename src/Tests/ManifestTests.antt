-- ===== src/Tests/ManifestTests.antt =====
-- The manifest's theorems at the sample.
use termux_stacks.Prelude.{List, map, ◌≡◌, ◌↔◌, ◌⊎◌, refl, true}
use termux_stacks.Ordered.Key.{Text, text, text_key}
use termux_stacks.Manifest.Error.{ok}
use termux_stacks.Manifest.Cursor
use termux_stacks.Manifest.Cursor.Tree.{node_of}
use termux_stacks.Manifest.Validate.{validate, read_document, parse, Parsed, event}
use termux_stacks.Manifest.Validate.Theorems.{IsValid, validate-IsValid}
use termux_stacks.Manifest.Validate.Document.{IsDocument, read_document_iff}
use termux_stacks.Manifest.Validate.Totality.{parse-IsSound}
use termux_stacks.Manifest.Cursor.Total.{IsSound}
use termux_stacks.Manifest.Names.{is_valid_name, is_normalized_absolute_path, mount_targets_overlap}
use termux_stacks.Manifest.Names.Overlap.{components, IsPrefix, mount_targets_overlap_iff}
use termux_stacks.Manifest.Names.Laws.{IsName, is_valid_name_iff}
use termux_stacks.Tests.Sample.{sample_tree, sample_events, sample, manifest_code}

validate-sample : validate (node_of sample_tree) ≡ ok sample
unfolding manifest_code
validate-sample = refl

validate-IsValid_example : IsValid sample
validate-IsValid_example = validate-IsValid (node_of sample_tree) sample validate-sample

read_document_iff_example :
    (read_document sample_events ≡ ok (node_of sample_tree))
    ↔ IsDocument sample_events (node_of sample_tree)
read_document_iff_example = read_document_iff sample_events (node_of sample_tree)

abbrev sample_parser : Text → List Parsed
sample_parser _ = map (λ e. event e.0 e.1) sample_events

parse-sample : parse sample_parser (text "apiVersion") ≡ ok sample
unfolding manifest_code parse Cursor.expect_stream_start Cursor.next Cursor.new
    Cursor.expect_document_start Cursor.node Cursor.read_value Cursor.read_key Cursor.admit_key
    Cursor.put_back Cursor.expect_document_end Cursor.expect_stream_end
parse-sample = refl

parse-IsSound_example : IsSound (parse sample_parser (text "apiVersion"))
parse-IsSound_example = parse-IsSound sample_parser (text "apiVersion")

is_valid_name_iff_example : (is_valid_name (text "notes-2") ≡ true) ↔ IsName (text "notes-2")
is_valid_name_iff_example = is_valid_name_iff (text "notes-2")

normalized :
    (is_normalized_absolute_path (text "/data") ≡ true)
    × (is_normalized_absolute_path (text "/data/db") ≡ true)
unfolding manifest_code
normalized = (refl, refl)

mount_targets_overlap_iff_example :
    (mount_targets_overlap (text "/data") (text "/data/db") ≡ true) ↔ (
      IsPrefix (components (text "/data")) (components (text "/data/db"))
      ⊎ IsPrefix (components (text "/data/db")) (components (text "/data")))
mount_targets_overlap_iff_example =
    mount_targets_overlap_iff (text "/data") (text "/data/db") normalized.0 normalized.1
