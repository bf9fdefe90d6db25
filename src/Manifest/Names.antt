-- ===== src/Manifest/Names.antt =====
-- Names, environment keys and mount targets (src/manifest.rs: `validate_name`,
-- `valid_environment_name`, `reserved_environment_name`, `is_normalized_absolute_path`,
-- `mount_targets_overlap`).
pub mod Laws
pub mod Overlap
use termux_stacks.Prelude.{
  ℕ, ◌≡◌, refl, arith, Bool, true, false, not, ◌&&◌, ◌||◌, List, [], ◌∷◌, Option, none, some, leb,
  if◌then◌else◌, all,
}
use termux_stacks.Ordered.Key.{Text, text, text_key, nat_key, text_cmp, ◌==◌}
use termux_stacks.Ordered.Set.{contains}
use termux_stacks.Text.{
  len, starts_with, strip_prefix, ends_with_char, split, is_ascii_lowercase, is_ascii_uppercase,
  is_ascii_digit, is_ascii_alphanumeric,
}
use termux_stacks.Manifest.Error.{
  Location, FieldPath, field, Result, panic, fault, ok, err, invalid, bad_name,
}

abbrev pub is_name_char : ℕ → Bool
is_name_char c = is_ascii_lowercase c || is_ascii_digit c || c == b'-'

abbrev pub starts_lowercase : Text → Bool
starts_lowercase [] = false
starts_lowercase (c ∷ s) = is_ascii_lowercase c

-- The value of the test.
unfoldable pub is_valid_name : Text → Bool
is_valid_name name =
    leb 1 (len name)
    && leb (len name) 48
    && starts_lowercase name
    && all is_name_char name
    && not (starts_with name (text "termux-stacks-"))

abbrev first_byte : Text → Result ℕ
first_byte [] = fault panic
first_byte (c ∷ s) = ok c

abbrev check_first : Result ℕ → Text → Result Bool
check_first (fault f) name = fault f
check_first (err e) name = err e
check_first (ok c) name = ok (
    is_ascii_lowercase c && all is_name_char name && not (starts_with name (text "termux-stacks-")))

-- The same with the panic of the index `bytes[0]`.
unfoldable pub test_name : Text → Result Bool
test_name name =
    if leb 1 (len name) && leb (len name) 48 then check_first (first_byte name) name else ok false

pub test_name_lem : (name : Text) → test_name name ≡ ok (is_valid_name name)
unfolding test_name is_valid_name len
test_name_lem [] = refl
test_name_lem (c ∷ s) = ground arith

abbrev verdict : Result Bool → FieldPath → Option Location → Result (Unit {0})
verdict (fault f) path location = fault f
verdict (err e) path location = err e
verdict (ok valid) path location = if valid then ok tt else err (invalid (bad_name path) location)

unfoldable pub validate_name : Text → FieldPath → Option Location → Result (Unit {0})
unfolding test_name
validate_name name path location = verdict (test_name name) path location

pub validate_name-ok :
    (name : Text) (path : FieldPath) (location : Option Location)
    → validate_name name path location ≡ ok tt
    → is_valid_name name ≡ true
unfolding validate_name
validate_name-ok name path location h = ground (arith, test_name_lem name)

unfoldable pub validate_stack_name : Text → Result (Unit {0})
unfolding validate_name
validate_stack_name name = validate_name name (field (text "stack name")) none

abbrev is_key_start : ℕ → Bool
is_key_start c = is_ascii_uppercase c || is_ascii_lowercase c || c == b'_'

abbrev is_key_char : ℕ → Bool
is_key_char c = is_ascii_alphanumeric c || c == b'_'

unfoldable pub valid_environment_name : Text → Bool
valid_environment_name [] = false
valid_environment_name (c ∷ s) = is_key_start c && all is_key_char s

abbrev pub reserved : List Text
reserved =
    text "ANDROID_ART_ROOT"
    ∷ text "ANDROID_DATA"
    ∷ text "ANDROID_I18N_ROOT"
    ∷ text "ANDROID_ROOT"
    ∷ text "ANDROID_RUNTIME_ROOT"
    ∷ text "ANDROID_TZDATA_ROOT"
    ∷ text "BOOTCLASSPATH"
    ∷ text "COLORTERM"
    ∷ text "DEX2OATBOOTCLASSPATH"
    ∷ text "EXTERNAL_STORAGE"
    ∷ text "HOME"
    ∷ text "MOZ_FAKE_NO_SANDBOX"
    ∷ text "PREFIX"
    ∷ text "PULSE_SERVER"
    ∷ text "TERM"
    ∷ text "TMPDIR"
    ∷ text "USER"
    ∷ []

unfoldable pub reserved_environment_name : Text → Bool
unfolding starts_with text_cmp
reserved_environment_name name =
    starts_with name (text "PROOT_") || starts_with name (text "LD_") || contains name reserved

abbrev pub is_plain_component : Text → Bool
is_plain_component [] = false
is_plain_component (c ∷ s) = not ((c ∷ s) == text ".") && not ((c ∷ s) == text "..")

abbrev pub skip_first : List Text → List Text
skip_first [] = []
skip_first (x ∷ xs) = xs

unfoldable pub is_normalized_absolute_path : Text → Bool
unfolding starts_with split ends_with_char text_cmp
is_normalized_absolute_path path =
    if not (starts_with path (text "/")) || contains 0 path
    then false
    else if path == text "/"
    then true
    else not (ends_with_char path b'/') && all is_plain_component (skip_first (split path b'/'))

abbrev follows_slash : Option Text → Bool
follows_slash none = false
follows_slash (some suffix) = starts_with suffix (text "/")

unfoldable pub mount_targets_overlap : Text → Text → Bool
unfolding strip_prefix starts_with text_cmp
mount_targets_overlap first second =
    first == text "/"
    || second == text "/"
    || first == second
    || follows_slash (strip_prefix second first)
    || follows_slash (strip_prefix first second)
