-- ===== src/Protocol/Frames.antt =====
-- Frames of the control protocol, written and read (src/protocol.rs: `write_frame`,
-- `read_json_line`).
use termux_stacks.Prelude.{
  ℕ, zero, suc, ◌+◌, ◌≤◌, ◌<◌, ◌≡◌, ◌≢◌, refl, ap, sym, ◌∙◌, false, List, [], ◌∷◌, ◌++◌, Option,
  none, some, inl, inr, arith, length, append_assoc, All, ltb, ◌==◌, is_empty, Bool-cases,
  Option-cases, if◌then◌else◌,
}
use termux_stacks.Prelude.Outcome.{done}
use termux_stacks.Protocol.{
  max_frame_bytes, read_until, strip_newline, decode_frame, read_json_line, write_frame,
}

-- Bytes without a newline.
abbrev pub IsLine : List ℕ → Type 0
IsLine body = All (λ b. b ≢ b'\n') body

read_until-line :
    (limit : ℕ) (body rest : List ℕ)
    → IsLine body
    → length body < limit
    → read_until limit (body ++ b'\n' ∷ rest) ≡ (body ++ b'\n' ∷ [], rest)
unfolding read_until
read_until-line zero body rest line short = absurd (omega arith)
read_until-line (suc limit) [] rest line short = refl
read_until-line (suc limit) (b ∷ body) rest (other, line) short =
    ground (arith, other, read_until-line limit body rest line (omega arith))

strip_newline-line : (body : List ℕ) → strip_newline (body ++ b'\n' ∷ []) ≡ some body
unfolding strip_newline
strip_newline-line [] = refl
strip_newline-line (b ∷ []) = refl
strip_newline-line (b ∷ c ∷ body) = rw (strip_newline-line (c ∷ body)) refl

is_empty-line : (body : List ℕ) → is_empty (body ++ b'\n' ∷ []) ≡ false
is_empty-line [] = refl
is_empty-line (b ∷ body) = refl

decode_frame-line :
    {Json : Type 0} (decode : List ℕ → Option Json) (body : List ℕ) (value : Json)
    → length body ≤ max_frame_bytes
    → decode body ≡ some value
    → decode_frame decode (body ++ b'\n' ∷ []) ≡ done (some value)
unfolding decode_frame
decode_frame-line decode body value fits decodes =
    let test : ltb max_frame_bytes (length body) ≡ false = ground arith in
    rw (strip_newline-line body, test, decodes, decode_frame) refl

-- A frame that is written is read as the value that was written, and what follows it is left to
-- be read: where the value's encoding has no newline and decodes to the value.
pub read_json_line-write_frame :
    {Json : Type 0} (encode : Json → List ℕ) (decode : List ℕ → Option Json) (value : Json)
    (frame rest : List ℕ)
    → IsLine (encode value)
    → decode (encode value) ≡ some value
    → write_frame encode value ≡ done frame
    → read_json_line decode (frame ++ rest) ≡ (done (some value), rest)
unfolding write_frame read_json_line
read_json_line-write_frame encode decode value frame rest line decodes h =
    elim (Bool-cases (ltb max_frame_bytes (length (encode value)))) [
      | inl long ↦ absurd (ground (arith, h, long))
      | inr fits ↦
          let written : frame ≡ encode value ++ b'\n' ∷ [] = ground (arith, h, fits) in
          rw
            (
              written,
              append_assoc (encode value) (b'\n' ∷ []) rest,
              read_until-line (max_frame_bytes + 2) (encode value) rest line (ground (arith, fits)),
              is_empty-line (encode value),
              decode_frame-line decode (encode value) value (ground (arith, fits)) decodes,
            )
            refl
    ]

-- What one read takes off the stream.
pub record IsTaken (limit : ℕ) (bytes frame rest : List ℕ) : Type 0 where
  pub splits : frame ++ rest ≡ bytes
  pub bounded : length frame ≤ limit

read_until-IsTaken :
    (limit : ℕ) (bytes : List ℕ)
    → IsTaken limit bytes (read_until limit bytes).0 (read_until limit bytes).1
unfolding read_until
read_until-IsTaken zero bytes = record { splits = refl; bounded = omega arith }
read_until-IsTaken (suc limit) [] = record { splits = refl; bounded = omega arith }
read_until-IsTaken (suc limit) (b ∷ bytes) =
    let t = read_until-IsTaken limit bytes in
    elim (Bool-cases (b == b'\n')) [
      | inl newline ↦ rw newline (record { splits = refl; bounded = omega arith })
      | inr other ↦
          rw other
            (record { splits = ap (λ bs. b ∷ bs) t.splits; bounded = omega (arith, t.bounded) })
    ]

strip_newline-eq :
    (frame body : List ℕ) → strip_newline frame ≡ some body → frame ≡ body ++ b'\n' ∷ []
unfolding strip_newline
strip_newline-eq [] body h = absurd (ground (arith, h))
strip_newline-eq (b ∷ []) body h = ground (arith, h)
strip_newline-eq (b ∷ c ∷ frame) body h = elim (Option-cases (strip_newline (c ∷ frame))) [
  | inl nothing ↦ absurd (ground (arith, h, nothing))
  | inr (more, e) ↦
      let first : body ≡ b ∷ more = ground (arith, h, e) in
      rw first (ap (λ bs. b ∷ bs) (strip_newline-eq (c ∷ frame) more e))
]

decode_frame-some :
    {Json : Type 0} (decode : List ℕ → Option Json) (frame : List ℕ) (value : Json)
    → decode_frame decode frame ≡ done (some value)
    → (body : List ℕ) × (frame ≡ body ++ b'\n' ∷ [])
      × (length body ≤ max_frame_bytes)
      × (decode body ≡ some value)
unfolding decode_frame
decode_frame-some decode frame value h = elim (Option-cases (strip_newline frame)) [
  | inl nothing ↦ absurd (ground (arith, h, nothing))
  | inr (body, e) ↦ elim (Option-cases (decode body)) [
    | inl bad ↦ absurd (ground (arith, h, e, bad))
    | inr (v, good) ↦ (
      body,
      strip_newline-eq frame body e,
      ground (arith, h, e, good),
      ground (arith, h, e, good),
    )
  ]
]

nonempty_frame :
    {Json : Type 0} (decode : List ℕ → Option Json) (frame : List ℕ) (value : Json)
    → (if is_empty frame then done none else decode_frame decode frame) ≡ done (some value)
    → decode_frame decode frame ≡ done (some value)
nonempty_frame decode frame value h = ground (arith, h)

-- A value that is read stands at the head of the stream in a frame of at most 1 MiB with its
-- newline; the rest of the stream is left.
pub read_json_line-splits :
    {Json : Type 0} (decode : List ℕ → Option Json) (bytes rest : List ℕ) (value : Json)
    → read_json_line decode bytes ≡ (done (some value), rest)
    → (body : List ℕ) × (bytes ≡ body ++ b'\n' ∷ rest)
      × (length body ≤ max_frame_bytes)
      × (decode body ≡ some value)
unfolding read_json_line
read_json_line-splits decode bytes rest value h =
    let frame = (read_until (max_frame_bytes + 2) bytes).0 in
    let t = read_until-IsTaken (max_frame_bytes + 2) bytes in
    let left : (read_until (max_frame_bytes + 2) bytes).1 ≡ rest = ap (λ p. p.1) h in
    let (body, shape, fits, decodes) =
      decode_frame-some decode frame value (nonempty_frame decode frame value (ap (λ p. p.0) h)) in
    (
      body,
      sym t.splits
          ∙ ap (λ r. frame ++ r) left
          ∙ ap (λ f. f ++ rest) shape
          ∙ append_assoc body (b'\n' ∷ []) rest,
      fits,
      decodes,
    )
