-- ===== src/Config/Value.antt =====
-- c/config_parser.c, the types of values: detect_type, parse_bool, and the coercion of an entry.
use browserhistory.Prelude.{
  ℕ, Bool, true, false, not, ◌&&◌, ◌||◌, List, [], ◌∷◌, ◌==◌, if◌then◌else◌,
}
use browserhistory.Prelude.Int.{ℤ, pos}
use browserhistory.Prelude.Text.{Bytes, codes, is_nonempty, span}
use browserhistory.Url.Chars.{is_digit}
use browserhistory.Strings.{eq_nocase, atoi}
use browserhistory.Config.{
  ConfigValueType, type_string, type_int, type_float, type_bool, type_array, ConfigEntry, Floats,
}

unfoldable pub is_any_of : Bytes → List Bytes → Bool
is_any_of value [] = false
is_any_of value (word ∷ words) = eq_nocase value word || is_any_of value words

abbrev pub true_words : List Bytes
true_words = codes "true" ∷ codes "yes" ∷ codes "on" ∷ codes "1" ∷ []

abbrev pub false_words : List Bytes
false_words = codes "false" ∷ codes "no" ∷ codes "off" ∷ codes "0" ∷ []

unfoldable pub parse_bool : Bytes → Bool
parse_bool value = is_any_of value true_words

-- The loop over a number, with `has_dot` and `has_digit`.
unfoldable pub number_type : Bool → Bool → Bytes → ConfigValueType
number_type has_dot has_digit [] =
    if has_digit then if has_dot then type_float else type_int else type_string
number_type has_dot has_digit (c ∷ s) = elim (c == b'.') [
  | true ↦ if has_dot then type_string else number_type true has_digit s
  | false ↦ if is_digit c then number_type has_dot true s else type_string
]

abbrev pub behind_sign : Bytes → Bytes
behind_sign [] = []
behind_sign (c ∷ s) = if c == b'-' || c == b'+' then s else c ∷ s

abbrev pub holds_byte : ℕ → Bytes → Bool
holds_byte c s = is_nonempty (span (λ d. not (d == c)) s).1

unfoldable pub detect_type : Bytes → ConfigValueType
detect_type value =
    if not (is_nonempty value)
    then type_string
    else if is_any_of value true_words || is_any_of value false_words
    then type_bool
    else if holds_byte b',' value && not (holds_byte b' ' value)
    then type_array
    else number_type false false (behind_sign value)

abbrev pub bit : Bool → ℤ
bit false = pos 0
bit true = pos 1

-- The entry with its type and the values that go with it, as the parser stores them.
module _ (floats : Floats) where
  unfoldable pub coerce_as : ConfigValueType → ConfigEntry → ConfigEntry
  coerce_as type_int e =
      let n = atoi e.expanded_value in
      record e { type = type_int; int_value = n; float_value = floats.of_int n }
  coerce_as type_float e =
      let f = floats.of_text e.expanded_value in
      record e { type = type_float; float_value = f; int_value = floats.to_int f }
  coerce_as type_bool e =
      let b = parse_bool e.expanded_value in
      record e { type = type_bool; bool_value = b; int_value = bit b }
  coerce_as type_string e = record e { type = type_string }
  coerce_as type_array e = record e { type = type_array }

  unfoldable pub coerce : ConfigEntry → ConfigEntry
  coerce e = coerce_as (detect_type e.expanded_value) e

  -- The same for a default, which stores fewer values.
  unfoldable pub coerce_default_as : ConfigValueType → ConfigEntry → ConfigEntry
  coerce_default_as type_int e =
      let n = atoi e.expanded_value in
      record e { type = type_int; int_value = n; float_value = floats.of_int n }
  coerce_default_as type_float e = record e {
    type = type_float;
    float_value = floats.of_text e.expanded_value;
  }
  coerce_default_as type_bool e = record e {
    type = type_bool;
    bool_value = parse_bool e.expanded_value;
  }
  coerce_default_as type_string e = record e { type = type_string }
  coerce_default_as type_array e = record e { type = type_array }

  unfoldable pub coerce_default : ConfigEntry → ConfigEntry
  coerce_default e = coerce_default_as (detect_type e.expanded_value) e
