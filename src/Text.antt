-- ===== src/Text.antt =====
-- The operations of Rust's `str` that the program uses, on texts as lists of code points.
use termux_stacks.Prelude.{
  ℕ, ◌+◌, Bool, true, false, ◌&&◌, ◌||◌, List, [], ◌∷◌, map, Option, none, some, ltb, leb,
  if◌then◌else◌,
}
use termux_stacks.Ordered.Key.{Text, ◌==◌, nat_key, text_key}

-- The bytes of a code point in UTF-8, and `str::len`.
unfoldable pub utf8_width : ℕ → ℕ
utf8_width c = if ltb c 0x80 then 1 else if ltb c 0x800 then 2 else if ltb c 0x10000 then 3 else 4

unfoldable pub len : Text → ℕ
unfolding utf8_width
len [] = 0
len (c ∷ s) = utf8_width c + len s

unfoldable pub starts_with : Text → Text → Bool
starts_with s [] = true
starts_with [] (p ∷ ps) = false
starts_with (c ∷ s) (p ∷ ps) = c == p && starts_with s ps

unfoldable pub strip_prefix : Text → Text → Option Text
strip_prefix s [] = some s
strip_prefix [] (p ∷ ps) = none
strip_prefix (c ∷ s) (p ∷ ps) = let rest = strip_prefix s ps in if c == p then rest else none

unfoldable pub ends_with_char : Text → ℕ → Bool
ends_with_char [] p = false
ends_with_char (c ∷ []) p = c == p
ends_with_char (c ∷ d ∷ s) p = ends_with_char (d ∷ s) p

-- `str::split` at one character: the first piece is put before the others.
abbrev pub push_front : ℕ → List Text → List Text
push_front c [] = (c ∷ []) ∷ []
push_front c (piece ∷ pieces) = (c ∷ piece) ∷ pieces

unfoldable pub split : Text → ℕ → List Text
split [] p = [] ∷ []
split (c ∷ s) p = let rest = split s p in if c == p then [] ∷ rest else push_front c rest

abbrev pub is_ascii_lowercase : ℕ → Bool
is_ascii_lowercase c = leb b'a' c && leb c b'z'

abbrev pub is_ascii_uppercase : ℕ → Bool
is_ascii_uppercase c = leb b'A' c && leb c b'Z'

abbrev pub is_ascii_digit : ℕ → Bool
is_ascii_digit c = leb b'0' c && leb c b'9'

abbrev pub is_ascii_alphanumeric : ℕ → Bool
is_ascii_alphanumeric c = is_ascii_lowercase c || is_ascii_uppercase c || is_ascii_digit c

-- `char::is_control`: the Unicode category Cc.
abbrev pub is_control : ℕ → Bool
is_control c = ltb c 0x20 || (leb 0x7f c && ltb c 0xa0)

unfoldable pub to_ascii_lowercase : Text → Text
to_ascii_lowercase s = map (λ c. if is_ascii_uppercase c then c + 32 else c) s
