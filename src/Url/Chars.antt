-- ===== src/Url/Chars.antt =====
-- c/url_parser.c: the classes of characters, as bytes, in the C locale.
use browserhistory.Prelude.{
  ℕ, ◌+◌, ◌-◌, ◌*◌, Bool, ◌&&◌, ◌||◌, Option, none, some, leb, ◌==◌, if◌then◌else◌,
}

abbrev pub within : ℕ → ℕ → ℕ → Bool
within lo hi c = leb lo c && leb c hi

abbrev pub is_digit : ℕ → Bool
is_digit c = within b'0' b'9' c

abbrev pub is_upper : ℕ → Bool
is_upper c = within b'A' b'Z' c

abbrev pub is_lower : ℕ → Bool
is_lower c = within b'a' b'z' c

abbrev pub is_alpha : ℕ → Bool
is_alpha c = is_upper c || is_lower c

abbrev pub is_alnum : ℕ → Bool
is_alnum c = is_alpha c || is_digit c

abbrev pub to_lower : ℕ → ℕ
to_lower c = if is_upper c then c + 32 else c

-- -1 is `none`.
unfoldable pub hex_digit_value : ℕ → Option ℕ
hex_digit_value c =
    if is_digit c
    then some (c - b'0')
    else if within b'a' b'f' c
    then some (10 + (c - b'a'))
    else if within b'A' b'F' c
    then some (10 + (c - b'A'))
    else none

unfoldable pub is_unreserved : ℕ → Bool
is_unreserved c = is_alnum c || c == b'-' || c == b'.' || c == b'_' || c == b'~'

unfoldable pub is_scheme_char : Bool → ℕ → Bool
is_scheme_char first c =
    if first then is_alpha c else is_alnum c || c == b'+' || c == b'-' || c == b'.'

-- The byte of two hexadecimal digits.
unfoldable pub hex_byte : ℕ → ℕ → Option ℕ
unfolding hex_digit_value
hex_byte h l = elim (hex_digit_value h) [
  | none ↦ none
  | some hi ↦ elim (hex_digit_value l) [ none ↦ none | some lo ↦ some (16 * hi + lo) ]
]
