-- ===== src/Manifest/Literal.antt =====
-- Which plain scalars are no strings (src/manifest.rs, `is_plain_core_literal`), with the grammars
-- of `str::parse` for `i64` and `f64` in Rust's standard library.
use termux_stacks.Prelude.{
  ℕ, zero, suc, ◌+◌, ◌-◌, ◌*◌, ◌^◌, ◌≡◌, refl, Bool, true, false, not, ◌&&◌, ◌||◌, List, [], ◌∷◌,
  Option, none, some, ltb, leb, if◌then◌else◌, all, is_empty,
}
use termux_stacks.Ordered.Key.{Text, text, ◌==◌, nat_key, text_key, text_cmp}
use termux_stacks.Ordered.Set.{contains}
use termux_stacks.Text.{strip_prefix, is_ascii_digit, to_ascii_lowercase}

-- `negsuc n` is -(n + 1).
pub data ℤ : Type 0 where
  pos : ℕ → ℤ
  negsuc : ℕ → ℤ

-- The digits of a number, most significant first, read from the accumulator on.
unfoldable pub decimal_from : ℕ → Text → Option ℕ
decimal_from acc [] = some acc
decimal_from acc (c ∷ s) =
    let rest = decimal_from (acc * 10 + (c - b'0')) s in if is_ascii_digit c then rest else none

unfoldable pub decimal : Text → Option ℕ
unfolding decimal_from
decimal [] = none
decimal (c ∷ s) = decimal_from 0 (c ∷ s)

abbrev in_range : Bool → ℕ → Option ℤ
in_range true zero = some (pos 0)
in_range true (suc n) = if ltb n (2 ^ 63) then some (negsuc n) else none
in_range false n = if ltb n (2 ^ 63) then some (pos n) else none

abbrev signed : Bool → Option ℕ → Option ℤ
signed minus none = none
signed minus (some n) = in_range minus n

-- `value.parse::<i64>()`
unfoldable pub parse_i64 : Text → Option ℤ
unfolding decimal
parse_i64 [] = none
parse_i64 (c ∷ s) =
    if c == b'-'
    then signed true (decimal s)
    else if c == b'+'
    then signed false (decimal s)
    else signed false (decimal (c ∷ s))

unfoldable pub skip_sign : Text → Text
skip_sign [] = []
skip_sign (c ∷ s) = if c == b'-' || c == b'+' then s else c ∷ s

-- The number of leading digits, and what follows them.
unfoldable pub span_digits : Text → ℕ × Text
span_digits [] = (0, [])
span_digits (c ∷ s) =
    let (n, rest) = span_digits s in if is_ascii_digit c then (n + 1, rest) else (0, c ∷ s)

abbrev fraction : Text → ℕ × Text
fraction [] = (0, [])
fraction (c ∷ s) = if c == b'.' then span_digits s else (0, c ∷ s)

abbrev digits_only : Text → Bool
digits_only s = not (is_empty s) && all is_ascii_digit s

abbrev exponent : Text → Bool
exponent [] = true
exponent (c ∷ s) = c == b'e' && digits_only (skip_sign s)

abbrev number_tail : ℕ × Text → ℕ × Text → Bool
number_tail whole part = ltb 0 (whole.0 + part.0) && exponent part.1

-- `value.parse::<f64>().is_ok()`, of a text in lower case.
unfoldable pub is_f64 : Text → Bool
unfolding skip_sign span_digits text_cmp
is_f64 s =
    let body = skip_sign s in
    let whole = span_digits body in
    contains body (text "inf" ∷ text "infinity" ∷ text "nan" ∷ [])
    || number_tail whole (fraction whole.1)

abbrev is_hex_digit : ℕ → Bool
is_hex_digit c = is_ascii_digit c || (leb b'a' c && leb c b'f')

abbrev is_octal_digit : ℕ → Bool
is_octal_digit c = leb b'0' c && leb c b'7'

abbrev radix_digits : (ℕ → Bool) → Text → Bool
radix_digits p s = not (is_empty s) && all p s

abbrev is_some : {A : Type 0} → Option A → Bool
is_some none = false
is_some (some a) = true

abbrev core_words : List Text
core_words =
    text "~"
    ∷ text "null"
    ∷ text "true"
    ∷ text "false"
    ∷ text ".nan"
    ∷ text ".inf"
    ∷ text "+.inf"
    ∷ text "-.inf"
    ∷ []

abbrev octal_literal : Text → Bool
octal_literal lower = elim (strip_prefix lower (text "0o")) [
  | some octal ↦ radix_digits is_octal_digit octal
  | none ↦ false
]

abbrev hex_or_octal : Text → Bool
hex_or_octal lower = elim (strip_prefix lower (text "0x")) [
  | some hex ↦ radix_digits is_hex_digit hex
  | none ↦ octal_literal lower
]

unfoldable pub is_plain_core_literal : Text → Bool
unfolding text_cmp to_ascii_lowercase parse_i64 is_f64 strip_prefix
is_plain_core_literal value =
    let lower = to_ascii_lowercase value in
    if contains lower core_words
    then true
    else if is_some (parse_i64 value) || is_f64 lower
    then true
    else hex_or_octal lower

literal_tests :
    (is_plain_core_literal (text "Null") ≡ true)
    × (is_plain_core_literal (text "-9223372036854775808") ≡ true)
    × (is_plain_core_literal (text "1.5E+3") ≡ true)
    × (is_plain_core_literal (text "0xFf") ≡ true)
    × (is_plain_core_literal (text "0o8") ≡ false)
    × (is_plain_core_literal (text "127.0.0.1") ≡ false)
    × (is_plain_core_literal (text "notes") ≡ false)
unfolding is_plain_core_literal
literal_tests = (refl, refl, refl, refl, refl, refl, refl)
