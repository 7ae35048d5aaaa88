-- ===== src/Csv/Write/RoundTrip.antt =====
-- c/export_csv.c against c/csv_import.c: rows that are written and read back.
use browserhistory.Prelude.{
  ℕ, zero, suc, ◌<◌, ◌≡◌, refl, ap, ◌∙◌, inl, inr, some, List, [], ◌∷◌, ◌++◌, map, append_assoc,
  arith, length,
}
use browserhistory.Prelude.Text.{Bytes}
use browserhistory.History.{HistoryEntry}
use browserhistory.Csv.{CsvField, CsvRow, max_columns}
use browserhistory.Csv.Row.{parse_field, parse_fields, skip_byte, csv_parse_row}
use browserhistory.Csv.Write.{csv_write_field, print_int, end_line, export_row}
use browserhistory.Csv.Write.Decimal.{print_int-FitsField, csv_write_field-print_int}
use browserhistory.Csv.Write.Fields.{FitsField, field_of, parse_field-csv_write_field}

-- The fields of a row as they are written, with the end of the line.
abbrev pub write_fields : Bytes → List Bytes → Bytes
write_fields field [] = csv_write_field field ++ end_line
write_fields field (next ∷ fields) = csv_write_field field ++ b',' ∷ write_fields next fields

abbrev pub AllFit : List Bytes → Type 0
AllFit [] = Unit
AllFit (s ∷ ss) = FitsField s × AllFit ss

parse_fields_goes_on :
    (room : ℕ) (t : Bytes) (c : ℕ) (r u : Bytes) (field : CsvField)
    → parse_field b',' (t ++ c ∷ r) ≡ (field, b',' ∷ u)
    → parse_fields b',' (suc room) (t ++ c ∷ r)
      ≡ (field ∷ (parse_fields b',' room u).0, (parse_fields b',' room u).1)
unfolding parse_fields
parse_fields_goes_on room [] c r u field h = rw h refl
parse_fields_goes_on room (x ∷ t) c r u field h = rw h refl

parse_fields_ends :
    (room : ℕ) (t : Bytes) (c : ℕ) (r u : Bytes) (field : CsvField)
    → parse_field b',' (t ++ c ∷ r) ≡ (field, b'\r' ∷ u)
    → parse_fields b',' (suc room) (t ++ c ∷ r) ≡ (field ∷ [], b'\r' ∷ u)
unfolding parse_fields
parse_fields_ends room [] c r u field h = rw h refl
parse_fields_ends room (x ∷ t) c r u field h = rw h refl

parse_fields-write_fields :
    (room : ℕ) (field : Bytes) (fields : List Bytes) (rest : Bytes)
    → AllFit (field ∷ fields)
    → length fields < room
    → parse_fields b',' room (write_fields field fields ++ rest)
      ≡ (map field_of (field ∷ fields), end_line ++ rest)
parse_fields-write_fields zero field fields rest fit h = absurd (omega arith)
parse_fields-write_fields (suc room) field [] rest fit h =
    let read = parse_field-csv_write_field field b'\r' (b'\n' ∷ rest) fit.0 (inr refl) in
    ap (parse_fields b',' (suc room)) (append_assoc (csv_write_field field) end_line rest)
    ∙ parse_fields_ends room (csv_write_field field) b'\r' (b'\n' ∷ rest) (b'\n' ∷ rest)
        (field_of field) read
parse_fields-write_fields (suc room) field (next ∷ fields) rest fit h =
    let behind = write_fields next fields ++ rest in
    let read = parse_field-csv_write_field field b',' behind fit.0 (inl refl) in
    let more = parse_fields-write_fields room next fields rest fit.1 (omega (arith, h)) in
    ap (parse_fields b',' (suc room))
      (append_assoc (csv_write_field field) (b',' ∷ write_fields next fields) rest)
    ∙ parse_fields_goes_on room (csv_write_field field) b',' behind behind (field_of field) read
    ∙ rw more refl

-- The result of `csv_parse_row` from that of the loop over the fields.
abbrev row_of : CsvRow × Bytes → CsvRow × Bytes
row_of (row, rest) = (row, skip_byte b'\n' (skip_byte b'\r' rest))

csv_parse_row-append :
    (t : Bytes) (c : ℕ) (r : Bytes)
    → csv_parse_row b',' (t ++ c ∷ r) ≡ some (row_of (parse_fields b',' max_columns (t ++ c ∷ r)))
unfolding csv_parse_row
csv_parse_row-append [] c r = refl
csv_parse_row-append (x ∷ t) c r = refl

csv_parse_row-row_of :
    (field : Bytes) (fields : List Bytes) (rest : Bytes)
    → csv_parse_row b',' (write_fields field fields ++ rest)
      ≡ some (row_of (parse_fields b',' max_columns (write_fields field fields ++ rest)))
csv_parse_row-row_of field [] rest =
    rw (append_assoc (csv_write_field field) end_line rest)
      (csv_parse_row-append (csv_write_field field) b'\r' (b'\n' ∷ rest))
csv_parse_row-row_of field (next ∷ fields) rest =
    let behind = write_fields next fields in
    rw (append_assoc (csv_write_field field) (b',' ∷ behind) rest)
      (csv_parse_row-append (csv_write_field field) b',' (behind ++ rest))

-- A row of at most 32 fields that fit is read back as it was written, with what follows it.
pub csv_parse_row-write_fields :
    (field : Bytes) (fields : List Bytes) (rest : Bytes)
    → AllFit (field ∷ fields)
    → length fields < max_columns
    → csv_parse_row b',' (write_fields field fields ++ rest)
      ≡ some (map field_of (field ∷ fields), rest)
csv_parse_row-write_fields field fields rest fit h =
    csv_parse_row-row_of field fields rest
    ∙ ap (λ p. some (row_of p)) (parse_fields-write_fields max_columns field fields rest fit h)

abbrev pub other_texts : HistoryEntry → List Bytes
other_texts e = e.title ∷ print_int e.visit_count ∷ print_int e.typed_count ∷ e.last_visit_time ∷ []

-- The fields of an exported entry fit the importer's buffers, and those that are not quoted end in
-- no white space.
abbrev pub FitsEntry : HistoryEntry → Type 0
FitsEntry e = FitsField e.url × FitsField e.title × FitsField e.last_visit_time

export_row-write_fields : (e : HistoryEntry) → export_row e ≡ write_fields e.url (other_texts e)
unfolding export_row
export_row-write_fields e =
    rw (csv_write_field-print_int e.visit_count, csv_write_field-print_int e.typed_count) refl

-- An exported row is read back as the five fields of its entry, with what follows it.
pub csv_parse_row-export_row :
    (e : HistoryEntry) (rest : Bytes)
    → FitsEntry e
    → csv_parse_row b',' (export_row e ++ rest) ≡ some (map field_of (e.url ∷ other_texts e), rest)
csv_parse_row-export_row e rest fit =
    ap (λ t. csv_parse_row b',' (t ++ rest)) (export_row-write_fields e)
    ∙ csv_parse_row-write_fields e.url (other_texts e) rest
        (
          fit.0,
          (
            fit.1,
            (print_int-FitsField e.visit_count, (print_int-FitsField e.typed_count, (fit.2, tt))),
          ),
        )
        (omega arith)
