-- ===== src/Manifest/Error.antt =====
-- Errors of the manifest module (src/manifest.rs). A message is kept unrendered: the format string
-- as a constructor, with its arguments. A field's path is a tree of the same kind.
use termux_stacks.Prelude.{ℕ, Option, List, ◌≡◌, refl}
use termux_stacks.Ordered.Key.{Text}

pub record Location : Type 0 where
  pub line : ℕ
  pub column : ℕ

-- "name", "{path}.{key}" and "{path}[{index}]".
pub data FieldPath : Type 0 where
  field : Text → FieldPath
  member : FieldPath → Text → FieldPath
  item : FieldPath → ℕ → FieldPath

pub data ErrorKind : Type 0 where
  io invalid_manifest : ErrorKind

pub data Message : Type 0 where
  cannot_inspect not_regular_file cannot_read : Message
  exceeds_bytes parser_error too_many_events : Message
  invalid_stream manifest_empty expected_document content_after_document : Message
  incomplete_document several_documents incomplete_stream : Message
  exceeds_depth exceeds_nodes unexpected_end unexpected_event : Message
  alias_not_allowed anchor_not_allowed tag_not_allowed scalar_too_long : Message
  unterminated_sequence sequence_too_long : Message
  unterminated_mapping mapping_too_long key_too_long key_not_scalar merge_key : Message
  duplicate_key : Text → Message
  not_string not_array not_integer not_mapping : FieldPath → Message
  unknown_field missing_field : FieldPath → Message
  bad_api_version bad_kind no_services : Message
  bad_name bad_image empty_command contains_nul empty_argument : FieldPath → Message
  bad_environment_key reserved_environment_key : Text → Message
  bad_mount_type empty_path target_colon target_not_normalized : FieldPath → Message
  undeclared_volume target_overlaps : FieldPath → Text → Message
  bad_address port_range : FieldPath → Message
  duplicate_port : FieldPath → ℕ → FieldPath → Message
  duplicate_dependency unknown_service : FieldPath → Text → Message
  bad_restart : FieldPath → Message
  cyclic : List Text → Message

pub record Error : Type 0 where
  pub kind : ErrorKind
  pub message : Message
  pub location : Option Location

unfoldable pub invalid : Message → Option Location → Error
invalid message location = record {
  kind = invalid_manifest;
  message = message;
  location = location;
}

-- What is no value of the source's `Result`: a panic, and the end of the model's fuel.
pub data Fault : Type 0 where
  panic out_of_fuel : Fault

pub data Result {ℓ} (Value : Type ℓ) : Type ℓ where
  fault : Fault → Result Value
  err : Error → Result Value
  ok : Value → Result Value

-- The operator `?` of the source.
infixl 5 ◌>>=◌
abbrev pub ◌>>=◌ {ℓ κ} :
    {Value : Type ℓ} {Next : Type κ} → Result Value → (Value → Result Next) → Result Next
fault problem >>= rest = fault problem
err problem >>= rest = err problem
ok value >>= rest = rest value

infixl 5 ◌>>◌
abbrev pub ◌>>◌ {κ} : {Next : Type κ} → Result (Unit {0}) → Result Next → Result Next
first >> rest = first >>= λ done. rest

-- A chain that succeeds: its first step succeeds, and so does the rest on what that step gives.
pub bind_ok {ℓ κ μ} :
    {Value : Type ℓ} {Next : Type κ} {Goal : Type μ} (first : Result Value)
    (rest : Value → Result Next) {last : Next}
    → (first >>= rest) ≡ ok last
    → ((value : Value) → first ≡ ok value → rest value ≡ ok last → Goal)
    → Goal
bind_ok (fault problem) rest h use_parts = absurd (cc)
bind_ok (err problem) rest h use_parts = absurd (cc)
bind_ok (ok value) rest h use_parts = use_parts value refl h

pub bind_parts {ℓ κ} :
    {Value : Type ℓ} {Next : Type κ} (first : Result Value) (rest : Value → Result Next)
    {last : Next}
    → (first >>= rest) ≡ ok last
    → (value : Value) × (first ≡ ok value) × (rest value ≡ ok last)
bind_parts first rest h = bind_ok first rest h λ value e k. (value, e, k)
