-- ===== src/Manifest/Names/Laws.antt =====
-- Which names are valid (src/manifest.rs: `validate_name`), by their characters.
use termux_stacks.Prelude.{
  ℕ, ◌≤◌, ◌≡◌, ◌⊎◌, ◌↔◌, refl, true, false, [], ◌∷◌, arith, length, all, All,
}
use termux_stacks.Ordered.Key.{Text, text, nat_key}
use termux_stacks.Text.{len, utf8_width, starts_with}
use termux_stacks.Manifest.Names.{is_name_char, is_valid_name}

-- [a-z0-9-]
abbrev pub IsNameChar : ℕ → Type 0
IsNameChar c = ((b'a' ≤ c) × (c ≤ b'z')) ⊎ ((b'0' ≤ c) × (c ≤ b'9')) ⊎ (c ≡ b'-')

abbrev pub StartsLowercase : Text → Type 0
StartsLowercase [] = ⊥
StartsLowercase (c ∷ s) = (b'a' ≤ c) × (c ≤ b'z')

-- One to 48 characters of [a-z0-9-], the first a letter, and not behind the engine's prefix.
pub record IsName (name : Text) : Type 0 where
  pub short : length name ≤ 48
  pub letter_first : StartsLowercase name
  pub chars : All IsNameChar name
  pub not_prefixed : starts_with name (text "termux-stacks-") ≡ false

IsNameChar-iff : (c : ℕ) → (is_name_char c ≡ true) ↔ IsNameChar c
IsNameChar-iff c = ground arith

all_name_chars : (s : Text) → all is_name_char s ≡ true → All IsNameChar s
all_name_chars [] h = tt
all_name_chars (c ∷ s) h = (ground arith, all_name_chars s (ground arith))

name_chars_all : (s : Text) → All IsNameChar s → all is_name_char s ≡ true
name_chars_all [] h = refl
name_chars_all (c ∷ s) (p, h) = ground (arith, name_chars_all s h)

-- Such a name has one byte to a character.
pub len-length : (s : Text) → All IsNameChar s → len s ≡ length s
unfolding len utf8_width
len-length [] h = refl
len-length (c ∷ s) (p, h) = ground (arith, len-length s h)

valid-IsName : (name : Text) → is_valid_name name ≡ true → IsName name
unfolding is_valid_name
valid-IsName [] h = absurd (ground arith)
valid-IsName (c ∷ s) h =
    let chars = all_name_chars (c ∷ s) (ground arith) in
    record {
      short = ground (arith, len-length (c ∷ s) chars);
      letter_first = (ground arith, ground arith);
      chars = chars;
      not_prefixed = ground arith;
    }

IsName-valid : (name : Text) → IsName name → is_valid_name name ≡ true
unfolding is_valid_name
IsName-valid [] h = elim h.letter_first [ ]
IsName-valid (c ∷ s) h = ground (
  arith,
  len-length (c ∷ s) h.chars,
  name_chars_all (c ∷ s) h.chars,
  h.short,
  h.letter_first,
  h.not_prefixed,
)

-- The test accepts exactly the names of the documented form.
pub is_valid_name_iff : (name : Text) → (is_valid_name name ≡ true) ↔ IsName name
is_valid_name_iff name = (valid-IsName name, IsName-valid name)
