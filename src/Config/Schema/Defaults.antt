-- ===== src/Config/Schema/Defaults.antt =====
-- c/config_parser.c: what config_apply_defaults keeps and adds.
use mathlib.Core.Path.{subst}
use browserhistory.Prelude.{
  leb→le, ◌≤◌, ◌<◌, ◌≡◌, refl, sym, ◌∙◌, ◌⊎◌, inl, inr, true, false, Option, none, some, List, [],
  ◌∷◌, ◌++◌, arith, leb, Bool-cases, Option-cases, length, take-eq_self,
}
use browserhistory.Prelude.Int.{pos}
use browserhistory.Prelude.Text.{str_eq_refl, Bytes, copy_into}
use browserhistory.Config.{
  ConfigValueType, type_string, type_int, type_float, type_bool, type_array, ConfigEntry, Config,
  Floats, max_keys, max_key_len,
}
use browserhistory.Config.Value.{coerce_default, coerce_default_as, detect_type}
use browserhistory.Config.Lookup.{is_entry, find_in, find_entry}
use browserhistory.Config.Schema.{
  coerce_default, ConfigSchema, default_entry, add_default, config_apply_defaults,
}

find_in-append :
    (es fs : List ConfigEntry) (section key : Bytes) {e : ConfigEntry}
    → find_in es section key ≡ some e
    → find_in (es ++ fs) section key ≡ some e
unfolding find_in
find_in-append [] fs section key h = cc
find_in-append (x ∷ es) fs section key h = elim (Bool-cases (is_entry section key x)) [
  | inl d ↦ rw d (rw d at h)
  | inr d ↦ rw d (find_in-append es fs section key (rw d at h))
]

find_in_last :
    (es : List ConfigEntry) (x : ConfigEntry) (section key : Bytes)
    → find_in es section key ≡ none
    → is_entry section key x ≡ true
    → find_in (es ++ x ∷ []) section key ≡ some x
unfolding find_in
find_in_last [] x section key h k = rw k refl
find_in_last (y ∷ es) x section key h k = elim (Bool-cases (is_entry section key y)) [
  | inl d ↦ cc (rw d at h)
  | inr d ↦ rw d (find_in_last es x section key (rw d at h) k)
]

-- The names of an item fit the fields of an entry.
abbrev pub FitsNames : ConfigSchema → Type 0
FitsNames s = (length s.section < max_key_len) × (length s.key < max_key_len)

abbrev pub AllFitNames : List ConfigSchema → Type 0
AllFitNames [] = Unit
AllFitNames (s ∷ schema) = FitsNames s × AllFitNames schema

-- The item has no default, or its key is found, or the table is full.
abbrev pub IsProvided : Config → ConfigSchema → Type 0
IsProvided c s =
    (s.default_value ≡ none)
    ⊎ ((e : ConfigEntry) × (find_entry c s.section s.key ≡ some e))
    ⊎ (max_keys ≤ length c.entries)

abbrev pub AllProvided : Config → List ConfigSchema → Type 0
AllProvided c [] = Unit
AllProvided c (s ∷ schema) = IsProvided c s × AllProvided c schema

AllProvided-full :
    (c : Config) (schema : List ConfigSchema) → max_keys ≤ length c.entries → AllProvided c schema
AllProvided-full c [] h = tt
AllProvided-full c (s ∷ schema) h = (inr (inr h), AllProvided-full c schema h)

module _ (floats : Floats) where
  coerce_default-names :
      (t : ConfigValueType) (e : ConfigEntry)
      → ((coerce_default_as floats t e).section ≡ e.section)
        × ((coerce_default_as floats t e).key ≡ e.key)
  unfolding coerce_default_as
  coerce_default-names type_string e = (refl, refl)
  coerce_default-names type_int e = (refl, refl)
  coerce_default-names type_float e = (refl, refl)
  coerce_default-names type_bool e = (refl, refl)
  coerce_default-names type_array e = (refl, refl)

  default_entry-is_entry :
      (s : ConfigSchema) (value : Bytes)
      → FitsNames s
      → is_entry s.section s.key (default_entry floats s value) ≡ true
  unfolding default_entry coerce_default
  default_entry-is_entry s value h =
      let text = copy_into 2048 value in
      let plain : ConfigEntry = record {
        section = copy_into max_key_len s.section;
        key = copy_into max_key_len s.key;
        raw_value = text;
        expanded_value = text;
        type = type_string;
        int_value = pos 0;
        float_value = 0;
        bool_value = false;
        line_number = 0;
      } in
      let names = coerce_default-names (detect_type text) plain in
      rw
        (
          names.0,
          names.1,
          take-eq_self 127 s.section (omega (arith, h.0)),
          take-eq_self 127 s.key (omega (arith, h.1)),
          str_eq_refl s.section,
          str_eq_refl s.key,
        )
        refl

  add_default-find_entry :
      (s : ConfigSchema) (value : Option Bytes) (found : Option ConfigEntry) (c : Config)
      (section key : Bytes) {e : ConfigEntry}
      → find_entry c section key ≡ some e
      → find_entry (add_default floats s value found c) section key ≡ some e
  unfolding find_entry
  add_default-find_entry s none found c section key h = h
  add_default-find_entry s (some value) (some f) c section key h = h
  add_default-find_entry s (some value) none c section key h =
      find_in-append c.entries (default_entry floats s value ∷ []) section key h

  defaults_keep :
      (schema : List ConfigSchema) (c : Config) (section key : Bytes) {e : ConfigEntry}
      → find_entry c section key ≡ some e
      → find_entry (config_apply_defaults floats schema c) section key ≡ some e
  unfolding config_apply_defaults
  defaults_keep [] c section key h = h
  defaults_keep (s ∷ schema) c section key h = elim (Bool-cases (leb max_keys (length c.entries))) [
    | inl d ↦ rw (d, config_apply_defaults) h
    | inr d ↦
        let found = find_entry c s.section s.key in
        rw (d, config_apply_defaults)
          (defaults_keep schema (add_default floats s s.default_value found c) section key
            (add_default-find_entry s s.default_value found c section key h))
  ]

  -- A key that is not found is found once its default is added.
  add_default-provides :
      (s : ConfigSchema) (value : Option Bytes) (found : Option ConfigEntry) (c : Config)
      → FitsNames s
      → find_entry c s.section s.key ≡ found
      → (value ≡ none)
        ⊎ ((e : ConfigEntry) × (find_entry (add_default floats s value found c) s.section s.key
              ≡ some e))
  unfolding find_entry
  add_default-provides s none found c h f = inl refl
  add_default-provides s (some value) (some e) c h f = inr (e, f)
  add_default-provides s (some value) none c h f = inr (
    default_entry floats s value,
    find_in_last c.entries (default_entry floats s value) s.section s.key f
        (default_entry-is_entry s value h),
  )

  next_config : ConfigSchema → Config → Config
  next_config s c = add_default floats s s.default_value (find_entry c s.section s.key) c

  defaults_full :
      (s : ConfigSchema) (schema : List ConfigSchema) (c : Config)
      → leb max_keys (length c.entries) ≡ true
      → config_apply_defaults floats (s ∷ schema) c ≡ c
  unfolding config_apply_defaults
  defaults_full s schema c d = rw (d, config_apply_defaults) refl

  defaults_step :
      (s : ConfigSchema) (schema : List ConfigSchema) (c : Config)
      → leb max_keys (length c.entries) ≡ false
      → config_apply_defaults floats (s ∷ schema) c
        ≡ config_apply_defaults floats schema (next_config s c)
  unfolding config_apply_defaults next_config
  defaults_step s schema c d = rw (d, config_apply_defaults) refl

  defaults_first :
      (s : ConfigSchema) (schema : List ConfigSchema) (c : Config)
      → FitsNames s
      → IsProvided (config_apply_defaults floats schema (next_config s c)) s
  unfolding next_config
  defaults_first s schema c h =
      elim (add_default-provides s s.default_value (find_entry c s.section s.key) c h refl) [
        | inl none_given ↦ inl none_given
        | inr (e, found) ↦
            inr (inl (e, defaults_keep schema (next_config s c) s.section s.key found))
      ]

  defaults_provide :
      (schema : List ConfigSchema) (c : Config)
      → AllFitNames schema
      → AllProvided (config_apply_defaults floats schema c) schema
  defaults_provide [] c h = tt
  defaults_provide (s ∷ schema) c h = elim (Bool-cases (leb max_keys (length c.entries))) [
    | inl d ↦
        subst (λ r. AllProvided r (s ∷ schema)) (sym (defaults_full s schema c d))
          (AllProvided-full c (s ∷ schema) (leb→le max_keys (length c.entries) d))
    | inr d ↦
        subst (λ r. AllProvided r (s ∷ schema)) (sym (defaults_step s schema c d))
          (defaults_first s schema c h.0, defaults_provide schema (next_config s c) h.1)
  ]

  -- Applying the defaults of a schema leaves every key of the schema with a default found, unless the
  -- table is full, where the names fit their fields, and keeps what every key that was found before
  -- is found as.
  pub config_apply_defaults-AllProvided :
      (schema : List ConfigSchema) (c : Config)
      → AllFitNames schema
      → AllProvided (config_apply_defaults floats schema c) schema
        × ((section key : Bytes)
            → (find_entry c section key ≡ none)
              ⊎ (find_entry (config_apply_defaults floats schema c) section key
                  ≡ find_entry c section key))
  config_apply_defaults-AllProvided schema c h = (
    defaults_provide schema c h,
    λ section key. elim (Option-cases (find_entry c section key)) [
      | inl e ↦ inl e
      | inr (f, e) ↦ inr (defaults_keep schema c section key e ∙ sym e)
    ],
  )
