-- ===== src/Protocol.antt =====
-- The control protocol (src/protocol.rs): requests, responses and newline-terminated frames. JSON
-- is a library: its values, `encode` and `decode` are parameters. A reader is the list of the
-- bytes that the peer sends until the end of its stream; reading and writing do not fail.
pub mod Envelope
pub mod Frames
use termux_stacks.Prelude.{
  ℕ, suc, zero, ◌+◌, ◌*◌, Bool, true, false, not, ◌&&◌, ◌||◌, List, [], ◌∷◌, ◌++◌, Option, none,
  some, ltb, if◌then◌else◌, all, is_empty, length,
}
use termux_stacks.Prelude.Outcome.{Outcome, done, failed, ◌>>=◌}
use termux_stacks.Ordered.Key.{Text, text_key, nat_key, text_cmp, ◌==◌}
use termux_stacks.Text.{len, is_ascii_alphanumeric}

abbrev pub version : ℕ
version = 2

abbrev pub max_frame_bytes : ℕ
max_frame_bytes = 1024 * 1024

abbrev pub max_log_tail : ℕ
max_log_tail = 200

pub data Request : Type 0 where
  up : ℕ → Text → Text → Text → Request
  status down : ℕ → Text → Text → Request
  logs : ℕ → Text → Text → Text → ℕ → Request
  restart : ℕ → Text → Text → Text → Request

unfoldable pub protocol_version : Request → ℕ
protocol_version (up v id manifest manifest_base) = v
protocol_version (status v id stack) = v
protocol_version (down v id stack) = v
protocol_version (logs v id stack service tail) = v
protocol_version (restart v id stack service) = v

unfoldable pub request_id : Request → Text
request_id (up v id manifest manifest_base) = id
request_id (status v id stack) = id
request_id (down v id stack) = id
request_id (logs v id stack service tail) = id
request_id (restart v id stack service) = id

-- `bad_json` stands for what the JSON library refuses.
pub data ProtocolError : Type 0 where
  missing_newline frame_too_large bad_json : ProtocolError
  bad_version : ℕ → ProtocolError
  invalid_request_id invalid_log_tail mismatched_request_id invalid_response : ProtocolError

abbrev pub is_id_char : ℕ → Bool
is_id_char c = is_ascii_alphanumeric c || c == b'-' || c == b'_' || c == b'.'

abbrev pub has_bad_tail : Request → Bool
has_bad_tail (up v id manifest manifest_base) = false
has_bad_tail (status v id stack) = false
has_bad_tail (down v id stack) = false
has_bad_tail (logs v id stack service tail) = tail == 0 || ltb max_log_tail tail
has_bad_tail (restart v id stack service) = false

unfoldable pub validate_envelope : Request → Outcome ProtocolError (Unit {0})
unfolding protocol_version request_id
validate_envelope request =
    if not (protocol_version request == version)
    then failed (bad_version (protocol_version request))
    else if is_empty (request_id request)
        || ltb 128 (len (request_id request))
        || not (all is_id_char (request_id request))
    then failed invalid_request_id
    else if has_bad_tail request
    then failed invalid_log_tail
    else done tt

pub record ResponseError : Type 0 where
  pub code : Text
  pub message : Text

unfoldable pub is_some {ℓ} : {A : Type ℓ} → Option A → Bool
is_some none = false
is_some (some a) = true

abbrev pub differ : Bool → Bool → Bool
differ true b = not b
differ false b = b

module _ (Value : Type 0) where
  pub record Response : Type 0 where
    pub version_of : ℕ
    pub id : Text
    pub is_ok : Bool
    pub result : Option Value
    pub error : Option ResponseError

  unfoldable pub success : Text → Value → Response
  success id result = record {
    version_of = version;
    id = id;
    is_ok = true;
    result = some result;
    error = none;
  }

  unfoldable pub failure : Text → Text → Text → Response
  failure id code message = record {
    version_of = version;
    id = id;
    is_ok = false;
    result = none;
    error = some (record { code = code; message = message });
  }

  unfoldable pub validate : Response → Text → Outcome ProtocolError (Unit {0})
  unfolding text_cmp is_some
  validate response id =
      if not (response.version_of == version)
      then failed (bad_version response.version_of)
      else if not (response.id == id)
      then failed mismatched_request_id
      else if differ response.is_ok (is_some response.result)
          || not (differ response.is_ok (is_some response.error))
      then failed invalid_response
      else done tt

-- `read_until(b'\n')` on the first `limit` bytes: what is read, and what is left.
unfoldable pub read_until : ℕ → List ℕ → List ℕ × List ℕ
read_until zero bytes = ([], bytes)
read_until (suc limit) [] = ([], [])
read_until (suc limit) (b ∷ bytes) =
    let (frame, rest) = read_until limit bytes in
    if b == b'\n' then (b ∷ [], bytes) else (b ∷ frame, rest)

-- The frame without its last byte, if that is a newline.
unfoldable pub strip_newline : List ℕ → Option (List ℕ)
strip_newline [] = none
strip_newline (b ∷ []) = if b == b'\n' then some [] else none
strip_newline (b ∷ c ∷ frame) = elim (strip_newline (c ∷ frame)) [
  | none ↦ none
  | some body ↦ some (b ∷ body)
]

module _ {Json : Type 0} (decode : List ℕ → Option Json) where
  unfoldable pub decode_frame : List ℕ → Outcome ProtocolError (Option Json)
  unfolding strip_newline
  decode_frame frame = elim (strip_newline frame) [
    | none ↦
        if ltb max_frame_bytes (length frame)
        then failed frame_too_large
        else failed missing_newline
    | some body ↦
        if ltb max_frame_bytes (length body)
        then failed frame_too_large
        else elim (decode body) [ none ↦ failed bad_json | some value ↦ done (some value) ]
  ]

  -- The value that is read, `none` at the end of the stream, and the bytes that are left.
  unfoldable pub read_json_line : List ℕ → Outcome ProtocolError (Option Json) × List ℕ
  unfolding read_until decode_frame
  read_json_line bytes =
      let (frame, rest) = read_until (max_frame_bytes + 2) bytes in
      (if is_empty frame then done none else decode_frame frame, rest)

module _ {Json : Type 0} (encode : Json → List ℕ) where
  -- The bytes that are written.
  unfoldable pub write_frame : Json → Outcome ProtocolError (List ℕ)
  write_frame value =
      if ltb max_frame_bytes (length (encode value))
      then failed frame_too_large
      else done (encode value ++ b'\n' ∷ [])
