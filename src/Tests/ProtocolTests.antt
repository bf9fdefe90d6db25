-- ===== src/Tests/ProtocolTests.antt =====
-- Frames and envelopes at concrete values.
use termux_stacks.Prelude.{
  ℕ, Bool, true, false, List, ◌∷◌, ◌++◌, Option, none, some, ◌≡◌, ◌≤◌, ◌↔◌, ◌⊎◌, refl, arith,
  length,
}
use termux_stacks.Prelude.Outcome.{done}
use termux_stacks.Ordered.Key.{text, text_key, text_cmp, ◌==◌}
use termux_stacks.Protocol
use termux_stacks.Protocol.{
  max_frame_bytes, Request, logs, Response, success, read_json_line, write_frame, validate_envelope,
  validate, is_some,
}
use termux_stacks.Protocol.Envelope.{IsEnvelope, validate_envelope_iff, validate_iff}
use termux_stacks.Protocol.Frames.{read_json_line-write_frame, read_json_line-splits}

abbrev encode : Bool → List ℕ
encode true = text "true"
encode false = text "false"

unfoldable decode : List ℕ → Option Bool
unfolding text_cmp
decode bytes = elim (bytes == text "true") [
  | true ↦ some true
  | false ↦ elim (bytes == text "false") [ true ↦ some false | false ↦ none ]
]

decodes : decode (text "true") ≡ some true
unfolding decode
decodes = refl

writes : write_frame encode true ≡ done (text "true\n")
unfolding write_frame
writes = refl

reads : read_json_line decode (text "true\nfalse\n") ≡ (done (some true), text "false\n")
unfolding read_json_line Protocol.decode_frame Protocol.read_until Protocol.strip_newline decode
reads = refl

read_json_line-write_frame_example :
    read_json_line decode (text "true\n" ++ text "false\n") ≡ (done (some true), text "false\n")
read_json_line-write_frame_example =
    read_json_line-write_frame encode decode true (text "true\n") (text "false\n")
      (ground arith, (ground arith, (ground arith, (ground arith, tt)))) decodes writes

read_json_line-splits_example :
    (body : List ℕ) × (text "true\nfalse\n" ≡ body ++ b'\n' ∷ text "false\n")
    × (length body ≤ max_frame_bytes)
    × (decode body ≡ some true)
read_json_line-splits_example =
    read_json_line-splits decode (text "true\nfalse\n") (text "false\n") true reads

abbrev request : Request
request = logs 2 (text "cli-1.2") (text "notes") (text "api") 200

accepts : validate_envelope request ≡ done tt
unfolding validate_envelope Protocol.protocol_version Protocol.request_id
accepts = (validate_envelope_iff request).1 (record {
  version = refl;
  id = record {
    nonempty = omega arith;
    short = omega arith;
    chars = (
      ground arith,
      (
        ground arith,
        (ground arith, (ground arith, (ground arith, (ground arith, (ground arith, tt))))),
      ),
    );
  };
  tail = (omega arith, omega arith);
})

validate_envelope_iff_example : (validate_envelope request ≡ done tt) ↔ IsEnvelope request
validate_envelope_iff_example = validate_envelope_iff request

abbrev response : Response Bool
response = record { version_of = 2; id = text "a"; is_ok = true; result = some true; error = none }

same_response : success Bool (text "a") true ≡ response
unfolding success
same_response = refl

validate_iff_example : (validate Bool response (text "a") ≡ done tt) ↔ (
    (response.version_of ≡ 2)
    × (response.id ≡ text "a")
    × (((response.is_ok ≡ true) × (is_some response.result ≡ true) × (response.error ≡ none))
        ⊎ ((response.is_ok ≡ false) × (response.result ≡ none) × (is_some response.error ≡ true))))
validate_iff_example = validate_iff response (text "a")
