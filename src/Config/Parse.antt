-- ===== src/Config/Parse.antt =====
-- c/config_parser.c, parse_buffer_internal and config_parse_buffer. The parameter `files` gives the
-- contents of an included file that can be read and has a byte and fewer than 10 MB.
pub mod Paths
pub mod Depth
use browserhistory.Prelude.{
  ℕ, zero, suc, ◌+◌, ◌-◌, ◌*◌, ◌/◌, ◌%◌, ◌^◌, ◌≤◌, ◌<◌, ◌≡◌, refl, sym, ap, ◌∙◌, ◌≢◌, ◌↔◌, ◌⊎◌, inl,
  inr, Bool, true, false, not, ◌&&◌, ◌||◌, Option, none, some, List, [], ◌∷◌, ◌++◌, map, append-nil,
  append_assoc, arith, ltb, leb, ◌==◌, if◌then◌else◌, Bool-cases, Option-cases, length, get_elem?,
  get_or, take, drop, length-append, length-take, length-drop, take-eq_self, drop-eq_nil,
  take-append_self, drop-append_self,
}
use browserhistory.Prelude.Int.{ℤ, pos, negsuc, minus_one, is_positive, is_nat, pos_part}
use browserhistory.Prelude.Text.{
  Bytes, codes, copy_into, is_nonempty, str_eq, c_string, span, NoNul, AreBytes, c_string-NoNul,
}
use browserhistory.Strings.{has_prefix}
use browserhistory.Config.{
  ConfigValueType, type_string, ConfigEntry, Config, no_config, Floats, max_sections, max_keys,
  max_key_len, max_value_len, max_includes,
}
use browserhistory.Config.Expand.{config_expand_env}
use browserhistory.Config.Value.{coerce}
use browserhistory.Config.Text.{
  trim_whitespace, strip_quotes, strip_comment, split_from, line_size, Accumulated, join_line,
}

unfoldable pub is_listed : Bytes → List Bytes → Bool
is_listed s [] = false
is_listed s (t ∷ ts) = str_eq t s || is_listed s ts

-- The configuration, the section, and whether the parser goes on.
pub record Reading : Type 0 where
  pub config : Config
  pub section : Bytes
  pub ok : Bool

abbrev pub reads_on : Config → Bytes → Reading
reads_on config section = record { config = config; section = section; ok = true }

-- What stands between the brackets, and the list of sections behind it.
unfoldable pub section_name : Bytes → Bytes
section_name inner = trim_whitespace (copy_into max_key_len inner)

unfoldable pub add_section : Bytes → Config → Config
add_section section config =
    if not (is_listed section config.sections) && ltb (length config.sections) max_sections
    then record config { sections = config.sections ++ copy_into max_key_len section ∷ [] }
    else config

-- What is behind the opening bracket; without a closing one the line has no effect.
unfoldable pub read_section : Bytes → Bytes → Config → Reading
read_section section s config =
    let (inner, close) = span (λ c. not (c == b']')) s in
    if is_nonempty close
    then reads_on (add_section (section_name inner) config) (section_name inner)
    else reads_on config section

abbrev pub too_many : Bytes
too_many = codes "Too many config entries (max 256)"

-- The text of a line as the parser sees it.
abbrev pub line_text : Bytes → Bytes
line_text line = trim_whitespace (c_string (take (line_size - 1) line))

module _ (floats : Floats) (env : Bytes → Option Bytes) where
  unfoldable pub new_entry : Bytes → Bytes → Bytes → ℕ → ConfigEntry
  new_entry section key val line_number = coerce floats (record {
    section = copy_into max_key_len section;
    key = copy_into max_key_len key;
    raw_value = copy_into max_value_len val;
    expanded_value = config_expand_env env max_value_len (copy_into max_value_len val);
    type = type_string;
    int_value = pos 0;
    float_value = 0;
    bool_value = false;
    line_number = line_number;
  })

  unfoldable pub store_entry : Bytes → Bytes → Bytes → ℕ → Config → Reading
  store_entry section key val line_number config =
      if leb max_keys (length config.entries)
      then record {
        config = record config { error_line = line_number; error_msg = too_many };
        section = section;
        ok = false;
      }
      else reads_on
          (record config { entries = config.entries ++ new_entry section key val line_number ∷ [] })
          section

  abbrev pub clean_value : Bytes → Bytes
  clean_value s = strip_quotes (trim_whitespace (strip_comment false (trim_whitespace s)))

  -- A line with an equals sign.
  unfoldable pub read_pair : Bytes → ℕ → Bytes → Config → Reading
  read_pair section line_number trimmed config =
      let (front, back) = span (λ c. not (c == b'=')) trimmed in
      let key = trim_whitespace (copy_into max_key_len front) in
      if is_nonempty back
      then store_entry section key (clean_value (drop 1 back)) line_number config
      else reads_on config section

  module _ (files : Bytes → Option Bytes) where
    -- The argument `parse` is the parser on the included file.
    unfoldable pub include_path :
        (Bytes → Bytes → Config → Config) → Bytes → Bytes → Config → Config
    include_path parse section path config =
        let paths = config.include_paths ++ copy_into max_value_len path ∷ [] in
        let listed = record config { include_paths = paths } in
        if is_nonempty path
          && not (is_listed path config.include_paths)
          && ltb (length config.include_paths) max_includes
        then elim (files path) [ none ↦ listed | some text ↦ parse section text listed ]
        else config

    unfoldable pub read_line :
        (Bytes → Bytes → Config → Config) → Bytes → ℕ → Bytes → Config → Reading
    read_line parse section line_number [] config = reads_on config section
    read_line parse section line_number (c ∷ s) config =
        if c == b'#' || c == b';'
        then reads_on config section
        else if has_prefix (codes "@include") (c ∷ s)
        then reads_on
            (include_path parse section (strip_quotes (trim_whitespace (drop 8 (c ∷ s)))) config)
            section
        else if c == b'['
        then read_section section s config
        else read_pair section line_number (c ∷ s) config

    abbrev pub read_joined :
        (Bytes → Bytes → Config → Config) → Bytes → ℕ → Option Bytes → Config → Reading
    read_joined parse section line_number none config = reads_on config section
    read_joined parse section line_number (some line) config =
        read_line parse section line_number (line_text line) config

    -- The loop over the lines; `n` of them have been read.
    unfoldable pub read_lines :
        (Bytes → Bytes → Config → Config) → Accumulated → ℕ → List Bytes → Reading → Reading
    read_lines parse accum n [] r = r
    read_lines parse accum n (line ∷ lines) r =
        let (next, joined) = join_line accum line in
        let done = read_joined parse r.section (n + 1) joined r.config in
        elim done.ok [ true ↦ read_lines parse next (n + 1) lines done | false ↦ done ]

    -- `fuel` bounds the depth of inclusion: each file that is included takes a place of the list of
    -- paths, which has eight. What an included file returns is not looked at.
    unfoldable pub parse_buffer_internal : ℕ → Bytes → Bytes → Config → Reading
    parse_buffer_internal zero section text config = reads_on config section
    parse_buffer_internal (suc fuel) section text config =
        read_lines (λ s t c. (parse_buffer_internal fuel s t c).config) none 0
          (split_from false text) (reads_on config section)

    -- The configuration and whether 0 is returned; nothing is done on no data.
    unfoldable pub config_parse_buffer : Bytes → Option (Config × Bool)
    config_parse_buffer [] = none
    config_parse_buffer (c ∷ text) =
        let r = parse_buffer_internal (max_includes + 1) [] (c ∷ text) no_config in
        some (r.config, r.ok)
