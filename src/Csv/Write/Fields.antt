-- ===== src/Csv/Write/Fields.antt =====
-- c/export_csv.c against c/csv_import.c: fields that are written and read back.
use browserhistory.Prelude.{
  ==_iff, ℕ, zero, suc, ◌≤◌, ◌<◌, ◌≡◌, refl, sym, ap, ◌∙◌, ◌⊎◌, inl, inr, true, false, [], ◌∷◌,
  ◌++◌, append_assoc, arith, ◌==◌, Bool-cases, length, take-eq_self, drop-eq_nil,
}
use browserhistory.Prelude.Text.{Bytes, span}
use browserhistory.Url.Print.RoundTrip.{Every, span-append}
use browserhistory.Csv.{CsvField, max_field_len}
use browserhistory.Csv.Row.{goes_on, quoted_value, quoted_field, unquoted_field, parse_field}
use browserhistory.Strings.{trim_end}
use browserhistory.Csv.Write.{is_special, needs_quoting, escape_quotes, csv_write_field}

-- The field fits the importer's buffer and is quoted or has no white space at its end.
abbrev pub FitsField : Bytes → Type 0
FitsField s = (length s < max_field_len) × ((needs_quoting s ≡ true) ⊎ (trim_end s ≡ s))

abbrev pub field_of : Bytes → CsvField
field_of s = record { value = s; was_quoted = needs_quoting s }

quoted_value_plain :
    (room c : ℕ) (s : Bytes)
    → (c == b'"') ≡ false
    → quoted_value (suc room) (c ∷ s) ≡ (c ∷ (quoted_value room s).0, (quoted_value room s).1)
unfolding quoted_value
quoted_value_plain zero c [] h = rw h refl
quoted_value_plain (suc room) c [] h = rw h refl
quoted_value_plain room c (d ∷ s) h = rw (h, quoted_value) refl

-- The byte ends a field.
abbrev pub IsEnd : ℕ → Type 0
IsEnd c = (c ≡ b',') ⊎ (c ≡ b'\r')

end_stops : (c : ℕ) → IsEnd c → goes_on b',' c ≡ false
end_stops c (inl e) = rw e refl
end_stops c (inr e) = rw e refl

end_plain : (c : ℕ) → IsEnd c → (c == b'"') ≡ false
end_plain c (inl e) = rw e refl
end_plain c (inr e) = rw e refl

abbrev behind_value : Bytes → Bytes
behind_value s = (span (goes_on b',') s).1

quoted_value-escape_quotes :
    (room : ℕ) (s : Bytes) (c : ℕ) (r : Bytes)
    → IsEnd c
    → length s ≤ room
    → ((quoted_value room (escape_quotes s ++ b'"' ∷ c ∷ r)).0 ≡ s)
      × (behind_value (quoted_value room (escape_quotes s ++ b'"' ∷ c ∷ r)).1 ≡ c ∷ r)
unfolding quoted_value escape_quotes span
quoted_value-escape_quotes zero [] c r h k = (refl, rw (end_stops c h, behind_value) refl)
quoted_value-escape_quotes zero (x ∷ s) c r h k = absurd (omega arith)
quoted_value-escape_quotes (suc room) [] c r h k =
    rw (end_plain c h, quoted_value) (refl, rw (end_stops c h, behind_value) refl)
quoted_value-escape_quotes (suc room) (x ∷ s) c r h k =
    let rest = escape_quotes s ++ b'"' ∷ c ∷ r in
    let (value, behind) = quoted_value-escape_quotes room s c r h (omega (arith, k)) in
    elim (Bool-cases (x == b'"')) [
      | inl e ↦
          let quote : b'"' ≡ x = sym ((==_iff x b'"').0 e) in
          rw (e, quoted_value) (ap (◌∷◌ b'"') value ∙ ap (λ y. y ∷ s) quote, behind)
      | inr e ↦ rw (e, quoted_value_plain room x rest e) (ap (◌∷◌ x) value, behind)
    ]

plain_goes_on : (c : ℕ) → is_special c ≡ false → goes_on b',' c ≡ true
plain_goes_on c h = ground arith

plain-Every : (s : Bytes) → needs_quoting s ≡ false → Every (goes_on b',') s
unfolding needs_quoting
plain-Every [] h = tt
plain-Every (c ∷ s) h = elim (Bool-cases (is_special c)) [
  | inl e ↦ cc (rw e at h)
  | inr e ↦ (plain_goes_on c e, plain-Every s (rw e at h))
]

unquoted_field-append :
    (s : Bytes) (c : ℕ) (r : Bytes)
    → length s < max_field_len
    → needs_quoting s ≡ false
    → trim_end s ≡ s
    → IsEnd c
    → unquoted_field b',' (s ++ c ∷ r) ≡ (record { value = s; was_quoted = false }, c ∷ r)
unfolding unquoted_field
unquoted_field-append s c r fits plain trimmed h =
    rw
      (
        span-append (goes_on b',') s (c ∷ r) (plain-Every s plain) (end_stops c h),
        take-eq_self 4095 s (omega (arith, fits)),
        drop-eq_nil 4095 s (omega (arith, fits)),
        trimmed,
      )
      refl

parse_field_plain :
    (s : Bytes) (c : ℕ) (r : Bytes)
    → needs_quoting s ≡ false
    → IsEnd c
    → parse_field b',' (s ++ c ∷ r) ≡ unquoted_field b',' (s ++ c ∷ r)
unfolding parse_field needs_quoting
parse_field_plain [] c r plain h = rw (end_plain c h) refl
parse_field_plain (x ∷ s) c r plain h = elim (Bool-cases (x == b'"')) [
  | inl e ↦ absurd (ground (arith, e, plain))
  | inr e ↦ rw e refl
]

quoted_text :
    (s : Bytes) (c : ℕ) (r : Bytes)
    → (escape_quotes s ++ b'"' ∷ []) ++ c ∷ r ≡ escape_quotes s ++ b'"' ∷ c ∷ r
quoted_text s c r = append_assoc (escape_quotes s) (b'"' ∷ []) (c ∷ r)

-- A field that is written is read back.
pub parse_field-csv_write_field :
    (s : Bytes) (c : ℕ) (r : Bytes)
    → FitsField s
    → IsEnd c
    → parse_field b',' (csv_write_field s ++ c ∷ r) ≡ (field_of s, c ∷ r)
unfolding csv_write_field parse_field quoted_field
parse_field-csv_write_field s c r fits h = elim (Bool-cases (needs_quoting s)) [
  | inl e ↦
      let (value, behind) = quoted_value-escape_quotes 4095 s c r h (omega (arith, fits.0)) in
      rw (e, quoted_text s c r, value, behind) refl
  | inr e ↦ elim fits.1 [
    | inl d ↦ cc
    | inr d ↦ rw e (parse_field_plain s c r e h ∙ unquoted_field-append s c r fits.0 e d h)
  ]
]
