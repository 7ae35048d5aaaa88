-- ===== src/Csv/Row/Progress.antt =====
-- c/csv_import.c: csv_parse_row goes forward.
use browserhistory.Prelude.{
  ℕ, zero, suc, ◌+◌, ◌-◌, ◌≤◌, ◌<◌, ◌≡◌, refl, sym, ◌≢◌, ◌⊎◌, inl, inr, Bool, true, false, some, [],
  ◌∷◌, arith, ◌==◌, Bool-cases, length, drop, length-append, length-drop,
}
use browserhistory.Prelude.Text.{Bytes, span}
use browserhistory.Csv.{CsvRow, max_field_len, max_columns}
use browserhistory.Csv.Row.{
  goes_on, quoted_value, quoted_field, unquoted_field, parse_field, parse_fields, skip_byte,
  csv_parse_row,
}

length-span :
    (test : ℕ → Bool) (s : Bytes) → length (span test s).0 + length (span test s).1 ≡ length s
unfolding span
length-span test [] = omega arith
length-span test (c ∷ s) = ground (arith, length-span test s)

quoted_value-length : (room : ℕ) (s : Bytes) → length (quoted_value room s).1 ≤ length s
unfolding quoted_value
quoted_value-length zero s = omega arith
quoted_value-length (suc room) [] = omega arith
quoted_value-length (suc room) (c ∷ []) = ground arith
quoted_value-length (suc room) (c ∷ d ∷ s) = elim (Bool-cases (c == b'"')) [
  | inl e ↦ elim (Bool-cases (d == b'"')) [
    | inl k ↦ rw (e, k, quoted_value) (omega (arith, quoted_value-length room s))
    | inr k ↦ rw (e, k, quoted_value) (omega arith)
  ]
  | inr e ↦ rw (e, quoted_value) (omega (arith, quoted_value-length room (d ∷ s)))
]

quoted_field-length : (delim : ℕ) (s : Bytes) → length (quoted_field delim s).1 ≤ length s
unfolding quoted_field
quoted_field-length delim s =
    let rest = (quoted_value (max_field_len - 1) s).1 in
    omega (arith, quoted_value-length (max_field_len - 1) s, length-span (goes_on delim) rest)

unquoted_field-length : (delim : ℕ) (s : Bytes) → length (unquoted_field delim s).1 ≤ length s
unfolding unquoted_field
unquoted_field-length delim s =
    let front = (span (goes_on delim) s).0 in
    let back = (span (goes_on delim) s).1 in
    omega (
      arith,
      length-append (drop (max_field_len - 1) front) back,
      length-drop (max_field_len - 1) front,
      length-span (goes_on delim) s,
    )

unquoted_field_shorter :
    (delim c : ℕ) (s : Bytes)
    → goes_on delim c ≡ true
    → length (unquoted_field delim (c ∷ s)).1 ≤ length s
unfolding unquoted_field span
unquoted_field_shorter delim c s h =
    let front = (span (goes_on delim) s).0 in
    let back = (span (goes_on delim) s).1 in
    rw h (
      omega (
        arith,
        length-append (drop (max_field_len - 2) front) back,
        length-drop (max_field_len - 2) front,
        length-span (goes_on delim) s,
      ))

unquoted_field_stays :
    (delim c : ℕ) (s : Bytes) → goes_on delim c ≡ false → (unquoted_field delim (c ∷ s)).1 ≡ c ∷ s
unfolding unquoted_field span
unquoted_field_stays delim c s h = rw h refl

parse_field-length : (delim : ℕ) (s : Bytes) → length (parse_field delim s).1 ≤ length s
unfolding parse_field
parse_field-length delim [] = unquoted_field-length delim []
parse_field-length delim (c ∷ s) =
    ground (arith, quoted_field-length delim s, unquoted_field-length delim (c ∷ s))

parse_fields-length : (delim room : ℕ) (s : Bytes) → length (parse_fields delim room s).1 ≤ length s
unfolding parse_fields
parse_fields-length delim zero s = omega arith
parse_fields-length delim (suc room) [] = omega arith
parse_fields-length delim (suc room) (c ∷ s) =
    let rest = (parse_field delim (c ∷ s)).1 in
    ground (
      arith,
      parse_field-length delim (c ∷ s),
      parse_fields-length delim room (drop 1 rest),
      length-drop 1 rest,
    )

skip_byte-length : (c : ℕ) (s : Bytes) → length (skip_byte c s) ≤ length s
skip_byte-length c [] = omega arith
skip_byte-length c (d ∷ s) = ground arith

fields_short :
    (delim room c : ℕ) (s : Bytes)
    → length (parse_field delim (c ∷ s)).1 ≤ length s
    → length (parse_fields delim (suc room) (c ∷ s)).1 ≤ length s
unfolding parse_fields
fields_short delim room c s h =
    let rest = (parse_field delim (c ∷ s)).1 in
    ground (arith, parse_fields-length delim room (drop 1 rest), length-drop 1 rest)

-- A field of no bytes ends at a delimiter or at the end of the line.
fields_stay :
    (delim room c : ℕ) (s : Bytes)
    → (parse_field delim (c ∷ s)).1 ≡ c ∷ s
    → (length (parse_fields delim (suc room) (c ∷ s)).1 ≤ length s)
      ⊎ (((parse_fields delim (suc room) (c ∷ s)).1 ≡ c ∷ s) × (c ≢ delim))
unfolding parse_fields
fields_stay delim room c s h = elim (Bool-cases (c == delim)) [
  | inl e ↦ inl (rw (h, e) (parse_fields-length delim room s))
  | inr e ↦ inr (rw (h, e) refl, ground (arith, e))
]

ends_line : (delim c : ℕ) → goes_on delim c ≡ false → c ≢ delim → (c ≡ b'\n') ⊎ (c ≡ b'\r')
ends_line delim c h k = ground (arith, k)

parse_fields_moves :
    (delim room c : ℕ) (s : Bytes)
    → (length (parse_fields delim (suc room) (c ∷ s)).1 ≤ length s)
      ⊎ (((parse_fields delim (suc room) (c ∷ s)).1 ≡ c ∷ s) × ((c ≡ b'\n') ⊎ (c ≡ b'\r')))
unfolding parse_field
parse_fields_moves delim room c s = elim (Bool-cases (c == b'"')) [
  | inl e ↦ inl (fields_short delim room c s (rw e (quoted_field-length delim s)))
  | inr e ↦ elim (Bool-cases (goes_on delim c)) [
    | inl k ↦ inl (fields_short delim room c s (rw e (unquoted_field_shorter delim c s k)))
    | inr k ↦ elim (fields_stay delim room c s (rw e (unquoted_field_stays delim c s k))) [
      | inl short ↦ inl short
      | inr (stays, other) ↦ inr (stays, ends_line delim c k other)
    ]
  ]
]

skip_ends :
    (c : ℕ) (s : Bytes)
    → (c ≡ b'\n') ⊎ (c ≡ b'\r')
    → length (skip_byte b'\n' (skip_byte b'\r' (c ∷ s))) ≤ length s
skip_ends c s h = ground (arith, skip_byte-length b'\n' s)

-- A row takes a byte of the data at least.
pub csv_parse_row_shorter :
    (delim c : ℕ) (s : Bytes) (r : CsvRow × Bytes)
    → csv_parse_row delim (c ∷ s) ≡ some r
    → length r.1 < length (c ∷ s)
unfolding csv_parse_row
csv_parse_row_shorter delim c s r h =
    let rest = (parse_fields delim max_columns (c ∷ s)).1 in
    let skipped = skip_byte b'\n' (skip_byte b'\r' rest) in
    let bound : length skipped ≤ length s = elim (parse_fields_moves delim 31 c s) [
      | inl short ↦
          omega (
            arith,
            short,
            skip_byte-length b'\r' rest,
            skip_byte-length b'\n' (skip_byte b'\r' rest),
          )
      | inr (stays, end) ↦ rw stays (skip_ends c s end)
    ] in
    let same : skipped ≡ r.1 = cc in rw (sym same) (omega (arith, bound))
