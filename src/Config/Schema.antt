-- ===== src/Config/Schema.antt =====
-- c/config_parser.c: config_validate and config_apply_defaults. A schema is a list without its NULL
-- at the end.
pub mod Defaults
use browserhistory.Prelude.{
  ℕ, zero, suc, ◌+◌, ◌-◌, ◌*◌, ◌/◌, ◌%◌, ◌^◌, ◌≤◌, ◌<◌, ◌≡◌, refl, sym, ap, ◌∙◌, ◌≢◌, ◌↔◌, ◌⊎◌, inl,
  inr, Bool, true, false, not, ◌&&◌, ◌||◌, Option, none, some, List, [], ◌∷◌, ◌++◌, map, append-nil,
  append_assoc, arith, ltb, leb, ◌==◌, if◌then◌else◌, Bool-cases, Option-cases, length, get_elem?,
  get_or, take, drop, length-append, length-take, length-drop, take-eq_self, drop-eq_nil,
  take-append_self, drop-append_self,
}
use browserhistory.Prelude.Int.{ℤ, pos, negsuc, minus_one, is_positive, is_nat, pos_part}
use browserhistory.Prelude.Text.{
  Bytes, codes, copy_into, is_nonempty, str_eq, c_string, span, NoNul, AreBytes, c_string-NoNul,
}
use browserhistory.Csv.Write.{print_int}
use browserhistory.Config.{
  ConfigValueType, type_string, type_int, type_float, type_bool, type_array, ConfigEntry, Config,
  Floats, max_keys, max_key_len, max_value_len,
}
use browserhistory.Config.Value.{coerce_default}
use browserhistory.Config.Lookup.{find_entry}
use browserhistory.Config.Parse.{is_listed}

pub record ConfigSchema : Type 0 where
  pub section : Bytes
  pub key : Bytes
  pub expected_type : ConfigValueType
  pub required : Bool
  pub default_value : Option Bytes
  pub int_min : ℤ
  pub int_max : ℤ
  pub enum_values : Option (List Bytes)

abbrev pub type_number : ConfigValueType → ℕ
type_number type_string = 0
type_number type_int = 1
type_number type_float = 2
type_number type_bool = 3
type_number type_array = 4

unfoldable pub lt_int : ℤ → ℤ → Bool
lt_int (pos a) (pos b) = ltb a b
lt_int (pos a) (negsuc b) = false
lt_int (negsuc a) (pos b) = true
lt_int (negsuc a) (negsuc b) = ltb b a

abbrev pub is_range : ConfigSchema → Bool
is_range s = not (is_nat s.int_min 0) || not (is_nat s.int_max 0)

abbrev pub message : Bytes → ConfigSchema → Bytes → Bytes
message front s back = copy_into 256 (front ++ (s.section ++ (codes "]." ++ (s.key ++ back))))

abbrev pub type_message : ConfigSchema → ConfigEntry → Bytes
type_message s e = message (codes "Key [") s (
    codes " has wrong type (expected "
    ++ (print_int (pos (type_number s.expected_type))
        ++ (codes ", got " ++ (print_int (pos (type_number e.type)) ++ codes ")"))))

abbrev pub range_message : ConfigSchema → ConfigEntry → Bytes
range_message s e = message (codes "Key [") s (
    codes " value "
    ++ (print_int e.int_value
        ++ (codes " out of range ["
            ++ (print_int s.int_min ++ (codes ", " ++ (print_int s.int_max ++ codes "]"))))))

abbrev pub enum_message : ConfigSchema → ConfigEntry → Bytes
enum_message s e =
    message (codes "Key [") s
      (codes " value '" ++ (e.expanded_value ++ codes "' not in allowed values"))

abbrev pub is_allowed : Option (List Bytes) → Bytes → Bool
is_allowed none value = true
is_allowed (some values) value = is_listed value values

-- The error message of an entry that is there, if it has an error.
unfoldable pub check_entry : ConfigSchema → ConfigEntry → Option Bytes
check_entry s e =
    if not (type_number s.expected_type == 0)
      && not (type_number e.type == type_number s.expected_type)
    then some (type_message s e)
    else if type_number e.type == 1
        && is_range s
        && (lt_int e.int_value s.int_min || lt_int s.int_max e.int_value)
    then some (range_message s e)
    else if not (is_allowed s.enum_values e.expanded_value)
    then some (enum_message s e)
    else none

abbrev pub check_found : ConfigSchema → Option ConfigEntry → Option Bytes
check_found s none =
    if s.required then some (message (codes "Required key [") s (codes " is missing")) else none
check_found s (some e) = check_entry s e

-- The message that is stored for -1, or `none` for 0.
unfoldable pub config_validate : Config → List ConfigSchema → Option Bytes
config_validate config [] = none
config_validate config (s ∷ schema) = elim (check_found s (find_entry config s.section s.key)) [
  | none ↦ config_validate config schema
  | some msg ↦ some msg
]

module _ (floats : Floats) where
  unfoldable pub default_entry : ConfigSchema → Bytes → ConfigEntry
  default_entry s value = coerce_default floats (record {
    section = copy_into max_key_len s.section;
    key = copy_into max_key_len s.key;
    raw_value = copy_into max_value_len value;
    expanded_value = copy_into max_value_len value;
    type = type_string;
    int_value = pos 0;
    float_value = 0;
    bool_value = false;
    line_number = 0;
  })

  abbrev pub add_default : ConfigSchema → Option Bytes → Option ConfigEntry → Config → Config
  add_default s none found config = config
  add_default s (some value) (some e) config = config
  add_default s (some value) none config = record config {
    entries = config.entries ++ default_entry s value ∷ [];
  }

  unfoldable pub config_apply_defaults : List ConfigSchema → Config → Config
  config_apply_defaults [] config = config
  config_apply_defaults (s ∷ schema) config =
      let next = add_default s s.default_value (find_entry config s.section s.key) config in
      let rest = config_apply_defaults schema next in
      if leb max_keys (length config.entries) then config else rest
