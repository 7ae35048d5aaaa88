-- ===== src/Config/Lookup.antt =====
-- c/config_parser.c, the lookup of keys. A section that is NULL is the empty one.
use browserhistory.Prelude.{ℕ, Bool, ◌&&◌, Option, none, some, List, [], ◌∷◌, if◌then◌else◌}
use browserhistory.Prelude.Int.{ℤ}
use browserhistory.Prelude.Text.{Bytes, str_eq}
use browserhistory.Strings.{atoi}
use browserhistory.Config.{
  ConfigValueType, type_int, type_float, type_bool, ConfigEntry, Config, Floats,
}
use browserhistory.Config.Value.{parse_bool}

abbrev pub is_entry : Bytes → Bytes → ConfigEntry → Bool
is_entry section key e = str_eq e.section section && str_eq e.key key

unfoldable pub find_in : List ConfigEntry → Bytes → Bytes → Option ConfigEntry
find_in [] section key = none
find_in (e ∷ es) section key =
    let later = find_in es section key in if is_entry section key e then some e else later

unfoldable pub find_entry : Config → Bytes → Bytes → Option ConfigEntry
find_entry config section key = find_in config.entries section key

unfoldable pub config_get_string : Config → Bytes → Bytes → Bytes → Bytes
config_get_string config section key default_val = elim (find_entry config section key) [
  | none ↦ default_val
  | some e ↦ e.expanded_value
]

abbrev pub int_of : ConfigEntry → ConfigValueType → ℤ
int_of e type_int = e.int_value
int_of e type_float = e.int_value
int_of e _ = atoi e.expanded_value

unfoldable pub config_get_int : Config → Bytes → Bytes → ℤ → ℤ
config_get_int config section key default_val = elim (find_entry config section key) [
  | none ↦ default_val
  | some e ↦ int_of e e.type
]

abbrev pub float_of : Floats → ConfigEntry → ConfigValueType → ℕ
float_of floats e type_float = e.float_value
float_of floats e type_int = e.float_value
float_of floats e _ = floats.of_text e.expanded_value

unfoldable pub config_get_float : Floats → Config → Bytes → Bytes → ℕ → ℕ
config_get_float floats config section key default_val = elim (find_entry config section key) [
  | none ↦ default_val
  | some e ↦ float_of floats e e.type
]

abbrev pub bool_of : ConfigEntry → ConfigValueType → Bool
bool_of e type_bool = e.bool_value
bool_of e _ = parse_bool e.expanded_value

unfoldable pub config_get_bool : Config → Bytes → Bytes → Bool → Bool
config_get_bool config section key default_val = elim (find_entry config section key) [
  | none ↦ default_val
  | some e ↦ bool_of e e.type
]
