-- ===== src/Config.antt =====
-- c/config_parser.c and c/config_parser.h: the configuration of the program. A float is its bit
-- pattern; its conversions are the parameter `floats`, `getenv` is `env`.
pub mod Expand
pub mod Value
pub mod Text
pub mod Lookup
pub mod Parse
pub mod Schema
mod Tests
use browserhistory.Prelude.{
  ℕ, zero, suc, ◌+◌, ◌-◌, ◌*◌, ◌/◌, ◌%◌, ◌^◌, ◌≤◌, ◌<◌, ◌≡◌, refl, sym, ap, ◌∙◌, ◌≢◌, ◌↔◌, ◌⊎◌, inl,
  inr, Bool, true, false, not, ◌&&◌, ◌||◌, Option, none, some, List, [], ◌∷◌, ◌++◌, map, append-nil,
  append_assoc, arith, ltb, leb, ◌==◌, if◌then◌else◌, Bool-cases, Option-cases, length, get_elem?,
  get_or, take, drop, length-append, length-take, length-drop, take-eq_self, drop-eq_nil,
  take-append_self, drop-append_self,
}
use browserhistory.Prelude.Int.{ℤ, pos, negsuc, minus_one, is_positive, is_nat, pos_part}
use browserhistory.Prelude.Text.{
  Bytes, codes, copy_into, is_nonempty, str_eq, c_string, span, NoNul, AreBytes, c_string-NoNul,
}

abbrev pub max_sections : ℕ
max_sections = 64

abbrev pub max_keys : ℕ
max_keys = 256

abbrev pub max_key_len : ℕ
max_key_len = 128

abbrev pub max_value_len : ℕ
max_value_len = 2048

abbrev pub max_includes : ℕ
max_includes = 8

pub data ConfigValueType : Type 0 where
  type_string type_int type_float type_bool type_array : ConfigValueType

pub record ConfigEntry : Type 0 where
  pub section : Bytes
  pub key : Bytes
  pub raw_value : Bytes
  pub expanded_value : Bytes
  pub type : ConfigValueType
  pub int_value : ℤ
  pub float_value : ℕ
  pub bool_value : Bool
  pub line_number : ℕ

-- The lists stand for the arrays with their counts.
pub record Config : Type 0 where
  pub entries : List ConfigEntry
  pub sections : List Bytes
  pub include_paths : List Bytes
  pub filepath : Bytes
  pub error_line : ℕ
  pub error_msg : Bytes

-- `(float)n`, `(float)atof(s)` and `(int)f`
pub record Floats : Type 0 where
  pub of_int : ℤ → ℕ
  pub of_text : Bytes → ℕ
  pub to_int : ℕ → ℤ

abbrev pub no_config : Config
no_config = record {
  entries = [];
  sections = [];
  include_paths = [];
  filepath = [];
  error_line = 0;
  error_msg = [];
}
