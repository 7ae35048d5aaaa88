-- ===== src/Config/Tests.antt =====
-- c/config_parser.c: the theorems at concrete inputs, and runs of the code.
use browserhistory.Prelude.{
  suc, ◌+◌, ◌<◌, ◌≡◌, refl, ◌⊎◌, false, Option, none, some, [], ◌∷◌, arith, length,
}
use browserhistory.Prelude.Int.{pos}
use browserhistory.Prelude.Text.{Bytes, codes, str_eq, span}
use browserhistory.Strings.{eq_nocase}
use browserhistory.Config.{type_float, type_bool, no_config, Floats, max_includes}
use browserhistory.Config.Expand.{config_expand_env}
use browserhistory.Config.Expand.Bounds.{config_expand_env-length}
use browserhistory.Config.Value.{
  is_any_of, detect_type, number_type, coerce_default, coerce_default_as,
}
use browserhistory.Config.Lookup.{find_in, find_entry, config_get_int}
use browserhistory.Config.Parse.{parse_buffer_internal}
use browserhistory.Config.Parse.Depth.{parse_buffer_internal-max_includes}
use browserhistory.Config.Schema.{ConfigSchema, default_entry, config_apply_defaults}
use browserhistory.Config.Schema.Defaults.{AllProvided, config_apply_defaults-AllProvided}

-- One variable is set.
abbrev home : Bytes → Option Bytes
home name = some (codes "/home/a")

-- Every float is zero.
abbrev zero_floats : Floats
zero_floats = record { of_int = λ n. 0; of_text = λ s. 0; to_int = λ f. pos 0 }

-- Every file includes itself and another one.
abbrev loops : Bytes → Option Bytes
loops path = some (codes "@include a.ini")

config_expand_env-length_example : length (config_expand_env home 8 (codes "${HOME}/history")) < 8
config_expand_env-length_example =
    config_expand_env-length home 8 (codes "${HOME}/history") (omega arith)

parse_buffer_internal-max_includes_example :
    parse_buffer_internal zero_floats home loops
      (suc (max_includes + 3))
      []
      (codes "@include a.ini")
      no_config
    ≡ parse_buffer_internal zero_floats home loops
        (suc max_includes)
        []
        (codes "@include a.ini")
        no_config
parse_buffer_internal-max_includes_example =
    parse_buffer_internal-max_includes zero_floats home loops 3 [] (codes "@include a.ini")
      no_config

abbrev half : ConfigSchema
half = record {
  section = codes "ui";
  key = codes "scale";
  expected_type = type_float;
  required = false;
  default_value = some (codes "2.5");
  int_min = pos 0;
  int_max = pos 0;
  enum_values = none;
}

config_apply_defaults-AllProvided_example :
    AllProvided (config_apply_defaults zero_floats (half ∷ []) no_config) (half ∷ [])
    × ((section key : Bytes)
        → (find_entry no_config section key ≡ none)
          ⊎ (find_entry (config_apply_defaults zero_floats (half ∷ []) no_config) section key
              ≡ find_entry no_config section key))
config_apply_defaults-AllProvided_example =
    config_apply_defaults-AllProvided zero_floats (half ∷ []) no_config
      ((omega arith, omega arith), tt)

-- The text 1 is a truth value, so that a schema that expects a number refuses it.
one_is_bool : detect_type (codes "1") ≡ type_bool
unfolding detect_type is_any_of eq_nocase
one_is_bool = refl

-- The integer of a default that is a float is 0, whatever the conversion of floats gives.
float_default :
    (floats : Floats)
    → config_get_int
        (config_apply_defaults floats (half ∷ []) no_config)
        (codes "ui")
        (codes "scale")
        (pos 7)
      ≡ pos 0
unfolding config_get_int config_apply_defaults find_entry find_in default_entry coerce_default
    coerce_default_as detect_type is_any_of eq_nocase number_type str_eq span
float_default floats = refl
