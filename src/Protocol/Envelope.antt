-- ===== src/Protocol/Envelope.antt =====
-- Which requests and responses pass their checks (src/protocol.rs: `validate_envelope`,
-- `Response::validate`).
use termux_stacks.Prelude.{
  ℕ, ◌≤◌, ◌≡◌, ◌⊎◌, ◌↔◌, refl, true, false, [], ◌∷◌, none, arith, All, all, is_empty, length,
}
use termux_stacks.Prelude.Outcome.{done}
use termux_stacks.Ordered.Key.{Text, text_key, nat_key, ==_iff}
use termux_stacks.Text.{len, utf8_width}
use termux_stacks.Protocol.{
  Request, up, status, down, logs, restart, protocol_version, request_id, is_id_char, has_bad_tail,
  validate_envelope, is_some, Response, validate,
}

-- [A-Za-z0-9._-]
abbrev pub IsIdChar : ℕ → Type 0
IsIdChar c =
    ((b'a' ≤ c) × (c ≤ b'z'))
    ⊎ ((b'A' ≤ c) × (c ≤ b'Z'))
    ⊎ ((b'0' ≤ c) × (c ≤ b'9'))
    ⊎ (c ≡ b'-')
    ⊎ (c ≡ b'_')
    ⊎ (c ≡ b'.')

pub record IsRequestId (id : Text) : Type 0 where
  pub nonempty : 1 ≤ length id
  pub short : length id ≤ 128
  pub chars : All IsIdChar id

abbrev pub HasTail : Request → Type 0
HasTail (up v id manifest manifest_base) = Unit
HasTail (status v id stack) = Unit
HasTail (down v id stack) = Unit
HasTail (logs v id stack service tail) = (1 ≤ tail) × (tail ≤ 200)
HasTail (restart v id stack service) = Unit

pub record IsEnvelope (request : Request) : Type 0 where
  pub version : protocol_version request ≡ 2
  pub id : IsRequestId (request_id request)
  pub tail : HasTail request

IsIdChar-iff : (c : ℕ) → (is_id_char c ≡ true) ↔ IsIdChar c
IsIdChar-iff c = ground arith

all_id_chars : (s : Text) → all is_id_char s ≡ true → All IsIdChar s
all_id_chars [] h = tt
all_id_chars (c ∷ s) h =
    ((IsIdChar-iff c).0 (ground (arith, h)), all_id_chars s (ground (arith, h)))

id_chars_all : (s : Text) → All IsIdChar s → all is_id_char s ≡ true
id_chars_all [] h = refl
id_chars_all (c ∷ s) (p, h) = ground (arith, (IsIdChar-iff c).1 p, id_chars_all s h)

len-length : (s : Text) → All IsIdChar s → len s ≡ length s
unfolding len utf8_width
len-length [] h = refl
len-length (c ∷ s) (p, h) = ground (arith, p, len-length s h)

nonempty_length : (s : Text) → is_empty s ≡ false → 1 ≤ length s
nonempty_length [] h = absurd (ground (arith, h))
nonempty_length (c ∷ s) h = omega arith

length_nonempty : (s : Text) → 1 ≤ length s → is_empty s ≡ false
length_nonempty [] h = absurd (omega arith)
length_nonempty (c ∷ s) h = refl

tail_in_range : (request : Request) → has_bad_tail request ≡ false → HasTail request
tail_in_range (up v id manifest manifest_base) h = tt
tail_in_range (status v id stack) h = tt
tail_in_range (down v id stack) h = tt
tail_in_range (logs v id stack service tail) h = (ground (arith, h), ground (arith, h))
tail_in_range (restart v id stack service) h = tt

range_tail : (request : Request) → HasTail request → has_bad_tail request ≡ false
range_tail (up v id manifest manifest_base) h = refl
range_tail (status v id stack) h = refl
range_tail (down v id stack) h = refl
range_tail (logs v id stack service tail) (low, high) = ground arith
range_tail (restart v id stack service) h = refl

-- A request passes the check of its envelope exactly if it has version 2, an identifier of 1 to
-- 128 characters of [A-Za-z0-9._-], and, where it asks for logs, 1 to 200 lines.
pub validate_envelope_iff :
    (request : Request) → (validate_envelope request ≡ done tt) ↔ IsEnvelope request
unfolding validate_envelope
validate_envelope_iff request = (
  λ h.
      let chars = all_id_chars (request_id request) (ground (arith, h)) in
      record {
        version = ground (arith, h);
        id = record {
          nonempty = nonempty_length (request_id request) (ground (arith, h));
          short = ground (arith, h, len-length (request_id request) chars);
          chars = chars;
        };
        tail = tail_in_range request (ground (arith, h));
      },
  λ e. ground (
    arith,
    e.version,
    e.id.short,
    len-length (request_id request) e.id.chars,
    length_nonempty (request_id request) e.id.nonempty,
    id_chars_all (request_id request) e.id.chars,
    range_tail request e.tail,
  ),
)

-- A response passes the check for a request's identifier exactly if it has version 2 and that
-- identifier, and either a result and no error or, as it says, an error and no result.
pub validate_iff :
    {Value : Type 0} (response : Response Value) (id : Text)
    → (validate Value response id ≡ done tt) ↔ (
        (response.version_of ≡ 2)
        × (response.id ≡ id)
        × (((response.is_ok ≡ true) × (is_some response.result ≡ true) × (response.error ≡ none))
            ⊎ ((response.is_ok ≡ false)
                × (response.result ≡ none)
                × (is_some response.error ≡ true))))
unfolding validate is_some
validate_iff response id = (
  λ h. (ground (arith, h), ground (arith, h, ==_iff response.id id), ground (arith, h)),
  λ h. ground (arith, h, ==_iff response.id id),
)
