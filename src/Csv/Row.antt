-- ===== src/Csv/Row.antt =====
-- c/csv_import.c, csv_parse_row. What is left of the data takes the place of the pointer `p`.
pub mod Progress
use browserhistory.Prelude.{
  ℕ, zero, suc, ◌+◌, ◌-◌, ◌*◌, ◌/◌, ◌%◌, ◌^◌, ◌≤◌, ◌<◌, ◌≡◌, refl, sym, ap, ◌∙◌, ◌≢◌, ◌↔◌, ◌⊎◌, inl,
  inr, Bool, true, false, not, ◌&&◌, ◌||◌, Option, none, some, List, [], ◌∷◌, ◌++◌, map, append-nil,
  append_assoc, arith, ltb, leb, ◌==◌, if◌then◌else◌, Bool-cases, Option-cases, length, get_elem?,
  get_or, take, drop, length-append, length-take, length-drop, take-eq_self, drop-eq_nil,
  take-append_self, drop-append_self,
}
use browserhistory.Prelude.Int.{ℤ, pos, negsuc, minus_one, is_positive, is_nat, pos_part}
use browserhistory.Prelude.Text.{
  Bytes, codes, copy_into, is_nonempty, str_eq, c_string, span, NoNul, AreBytes, c_string-NoNul,
}
use browserhistory.Strings.{trim_end}
use browserhistory.Csv.{CsvField, CsvRow, max_field_len, max_columns}

abbrev pub goes_on : ℕ → ℕ → Bool
goes_on delim c = not (c == delim || c == b'\n' || c == b'\r')

-- The loop over a quoted value, behind its opening quote; `room` is what the buffer still takes.
unfoldable pub quoted_value : ℕ → Bytes → Bytes × Bytes
quoted_value zero s = ([], s)
quoted_value (suc room) [] = ([], [])
quoted_value (suc room) (c ∷ []) = if c == b'"' then ([], []) else (c ∷ [], [])
quoted_value (suc room) (c ∷ d ∷ s) = elim (c == b'"') [
  | true ↦ elim (d == b'"') [
    | true ↦ let (value, rest) = quoted_value room s in (b'"' ∷ value, rest)
    | false ↦ ([], d ∷ s)
  ]
  | false ↦ let (value, rest) = quoted_value room (d ∷ s) in (c ∷ value, rest)
]

-- One field, and what stands behind it.
unfoldable pub quoted_field : ℕ → Bytes → CsvField × Bytes
quoted_field delim s =
    let (value, rest) = quoted_value (max_field_len - 1) s in
    (record { value = value; was_quoted = true }, (span (goes_on delim) rest).1)

unfoldable pub unquoted_field : ℕ → Bytes → CsvField × Bytes
unquoted_field delim s =
    let (front, back) = span (goes_on delim) s in
    (
      record { value = trim_end (take (max_field_len - 1) front); was_quoted = false },
      drop (max_field_len - 1) front ++ back,
    )

unfoldable pub parse_field : ℕ → Bytes → CsvField × Bytes
parse_field delim [] = unquoted_field delim []
parse_field delim (c ∷ s) = if c == b'"' then quoted_field delim s else unquoted_field delim (c ∷ s)

abbrev pub starts_with : ℕ → Bytes → Bool
starts_with c [] = false
starts_with c (d ∷ _) = d == c

-- The loop over the fields; `room` counts the columns that the row still has.
unfoldable pub parse_fields : ℕ → ℕ → Bytes → CsvRow × Bytes
parse_fields delim zero s = ([], s)
parse_fields delim (suc room) [] = ([], [])
parse_fields delim (suc room) (c ∷ s) =
    let (field, rest) = parse_field delim (c ∷ s) in
    let more = parse_fields delim room (drop 1 rest) in
    if starts_with delim rest then (field ∷ more.0, more.1) else (field ∷ [], rest)

abbrev pub skip_byte : ℕ → Bytes → Bytes
skip_byte c s = if starts_with c s then drop 1 s else s

unfoldable pub csv_parse_row : ℕ → Bytes → Option (CsvRow × Bytes)
csv_parse_row delim [] = none
csv_parse_row delim (c ∷ s) =
    let (row, rest) = parse_fields delim max_columns (c ∷ s) in
    some (row, skip_byte b'\n' (skip_byte b'\r' rest))
