-- ===== src/Csv/Import/Export.antt =====
-- c/csv_import.c against c/export_csv.c: the whole of an exported file.
use browserhistory.Csv.Write.Plain.{AllPlain, header_export_rows-Every}
use browserhistory.Csv.Delimiter.Plain.{csv_detect_delimiter-Plain}
use browserhistory.Prelude.{
  ◌==◌, ◌⊎◌, ℕ, zero, suc, ◌+◌, ◌*◌, ◌≤◌, ◌<◌, ◌≡◌, refl, sym, ap, ◌∙◌, inl, inr, Bool, true,
  Option, some, List, [], ◌∷◌, ◌++◌, map, append-nil, append_assoc, arith, ltb, if◌then◌else◌,
  Bool-cases, length, length-append,
}
use browserhistory.Prelude.Int.{ℤ, minus_one}
use browserhistory.Prelude.Text.{Bytes, codes, c_string}
use browserhistory.History.{HistoryEntry}
use browserhistory.Strings.{eq_nocase}
use browserhistory.Csv.{date_auto, CsvImportOptions, CsvRow}
use browserhistory.Csv.Row.{csv_parse_row}
use browserhistory.Strings.{trim_end}
use browserhistory.Csv.Delimiter.{csv_detect_delimiter, csv_skip_bom}
use browserhistory.Csv.Columns.{
  stripped, matches_any, match_column_name, is_column, add_column, add_columns, detect_columns,
  names_column, detect_has_header,
}
use browserhistory.Csv.Write.{
  needs_quoting, csv_write_field, end_line, export_row, export_rows, export_csv_stream, header_row,
  separated, print_int, needs_quoting,
}
use browserhistory.Csv.Write.Fields.{field_of}
use browserhistory.Csv.Write.RoundTrip.{
  AllFit, csv_parse_row-export_row, csv_parse_row-write_fields, write_fields,
}
use browserhistory.Csv.Import.{
  HistoryResult, ensure_capacity, Importing, column_text, has_url_field, next_format, import_row,
  import_rows, import_from, import_data, import_csv_buffer, uses_header, skip_lines,
}
use browserhistory.Csv.Import.Fuel.{import_rows_nil}
use browserhistory.Csv.Import.RoundTrip.{
  IsExported, AllExported, unstamped, IsFormat, exported_row, exported_columns, stored_same,
  url-is_nonempty, time_kept, add_entry-exported_row,
}

ensure_capacity_grows :
    (alloc : ℕ → Bool) (result : HistoryResult)
    → ((n : ℕ) → alloc n ≡ true)
    → (r : HistoryResult) × (ensure_capacity alloc result ≡ some r) × (r.entries ≡ result.entries)
unfolding ensure_capacity
ensure_capacity_grows alloc result room =
    elim (Bool-cases (ltb (length result.entries) result.capacity)) [
      | inl e ↦ (result, rw e refl, refl)
      | inr e ↦
          let capacity = if ltb (result.capacity * 2) 256 then 256 else result.capacity * 2 in
          (record result { capacity = capacity }, rw (e, room capacity) refl, refl)
    ]

module _ (format_time : ℤ → Option Bytes) (alloc : ℕ → Bool) (room : (n : ℕ) → alloc n ≡ true) where
  -- The loop has taken these entries more.
  record Taken (s next : Importing) (es : List HistoryEntry) : Type 0 where
    same_entries : next.result.entries ≡ s.result.entries ++ map unstamped es
    same_count : next.imported ≡ s.imported + length es
    same_format : IsFormat next.date_fmt

  import_row-exported_row :
      (e : HistoryEntry) (s : Importing)
      → IsExported e
      → IsFormat s.date_fmt
      → (next : Importing) × (import_row format_time alloc exported_columns (exported_row e) s
          ≡ some next)
        × Taken s next (e ∷ [])
  unfolding import_row has_url_field column_text
  import_row-exported_row e s h fmt =
      let (r, grows, kept) = ensure_capacity_grows alloc s.result room in
      let next : Importing = record {
        result = record r { entries = r.entries ++ unstamped e ∷ [] };
        date_fmt = next_format s.date_fmt (some e.last_visit_time);
        imported = s.imported + 1;
      } in
      (
        next,
        rw
            (
              url-is_nonempty e.url h.is_url,
              grows,
              stored_same 2048 e.url h.url,
              add_entry-exported_row format_time e r s h fmt,
            )
            refl,
        record {
          same_entries = ap (λ es. es ++ unstamped e ∷ []) kept;
          same_count = refl;
          same_format = (time_kept format_time s.date_fmt e.last_visit_time fmt h.time).0;
        },
      )

  Taken-more :
      (s next last : Importing) (e : HistoryEntry) (es : List HistoryEntry)
      → Taken s next (e ∷ [])
      → Taken next last es
      → Taken s last (e ∷ es)
  Taken-more s next last e es h k = record {
    same_entries =
        k.same_entries
        ∙ ap (λ xs. xs ++ map unstamped es) h.same_entries
        ∙ append_assoc s.result.entries (unstamped e ∷ []) (map unstamped es);
    same_count = omega (arith, h.same_count, k.same_count);
    same_format = k.same_format;
  }

  import_rows-export_rows :
      (fuel : ℕ) (es : List HistoryEntry) (s : Importing)
      → AllExported es
      → IsFormat s.date_fmt
      → length es ≤ fuel
      → Taken s (import_rows format_time alloc fuel b',' exported_columns s (export_rows es)) es
  unfolding import_rows export_rows
  import_rows-export_rows fuel [] s h fmt k =
      rw (import_rows_nil format_time alloc fuel b',' exported_columns s) (record {
        same_entries = sym (append-nil s.result.entries);
        same_count = omega arith;
        same_format = fmt;
      })
  import_rows-export_rows zero (e ∷ es) s h fmt k = absurd (omega (arith, k))
  import_rows-export_rows (suc fuel) (e ∷ es) s h fmt k =
      let (next, step, taken) = import_row-exported_row e s h.0 fmt in
      let read = csv_parse_row-export_row e (export_rows es) h.0.fits in
      rw (read, step, import_rows)
        (Taken-more s next _ e es taken
          (import_rows-export_rows fuel es next h.1 taken.same_format (omega (arith, k))))

abbrev header_fields : List Bytes
header_fields =
    codes "title" ∷ codes "visit_count" ∷ codes "typed_count" ∷ codes "last_visit_time" ∷ []

abbrev pub exported_header : CsvRow
exported_header = map field_of (codes "url" ∷ header_fields)

header-exported_columns : detect_columns exported_header ≡ exported_columns
unfolding detect_columns add_columns add_column is_column match_column_name matches_any stripped
    eq_nocase c_string
header-exported_columns = refl

header-uses_header : uses_header minus_one exported_header ≡ true
unfolding uses_header detect_has_header names_column match_column_name matches_any stripped
    eq_nocase c_string
header-uses_header = refl

header-write_fields : header_row ≡ write_fields (codes "url") header_fields
unfolding csv_write_field needs_quoting
header-write_fields = refl

header_fits : AllFit (codes "url" ∷ header_fields)
unfolding trim_end needs_quoting
header_fits = (
  (omega arith, inr refl),
  (
    (omega arith, inr refl),
    ((omega arith, inr refl), ((omega arith, inr refl), ((omega arith, inr refl), tt))),
  ),
)

csv_parse_row-header_row :
    (rest : Bytes) → csv_parse_row b',' (header_row ++ rest) ≡ some (exported_header, rest)
csv_parse_row-header_row rest =
    ap (λ t. csv_parse_row b',' (t ++ rest)) header-write_fields
    ∙ csv_parse_row-write_fields (codes "url") header_fields rest header_fits (omega arith)

abbrev behind_url : HistoryEntry → Bytes
behind_url e = separated (csv_write_field e.title) (
    separated (print_int e.visit_count)
      (separated (print_int e.typed_count) (csv_write_field e.last_visit_time ++ end_line)))

length-export_row : (e : HistoryEntry) → 0 < length (export_row e)
unfolding export_row
length-export_row e = omega (arith, length-append (csv_write_field e.url) (b',' ∷ behind_url e))

length-export_rows : (es : List HistoryEntry) → length es ≤ length (export_rows es)
unfolding export_rows
length-export_rows [] = omega arith
length-export_rows (e ∷ es) = omega (
  arith,
  length-append (export_row e) (export_rows es),
  length-export_row e,
  length-export_rows es,
)

-- The options of an importer that finds out everything but, where it is not 0, the delimiter.
abbrev pub options_with : ℕ → CsvImportOptions
options_with delimiter = record {
  delimiter = delimiter;
  date_format = date_auto;
  has_header = minus_one;
  skip_rows = 0;
}

import_csv_buffer_header :
    (format_time : ℤ → Option Bytes) (alloc : ℕ → Bool) (file rest : Bytes) (result : HistoryResult)
    (row : CsvRow) (opts : CsvImportOptions)
    → (if opts.delimiter == 0 then csv_detect_delimiter (csv_skip_bom file) else opts.delimiter)
      ≡ b','
    → csv_parse_row b',' (csv_skip_bom file) ≡ some (row, rest)
    → uses_header opts.has_header row ≡ true
    → import_csv_buffer format_time alloc file result opts
      ≡ import_from format_time alloc b',' opts result (detect_columns row) rest
unfolding import_csv_buffer
import_csv_buffer_header format_time alloc file rest result row opts comma read header =
    rw (comma, read, header, import_csv_buffer, comma) refl

-- The importer is told the comma, or detects the delimiter of texts that hold no other candidate.
abbrev pub FindsComma : ℕ → List HistoryEntry → Type 0
FindsComma delimiter entries = (delimiter ≡ b',') ⊎ ((delimiter ≡ 0) × AllPlain entries)

FindsComma-comma :
    (delimiter : ℕ) (entries : List HistoryEntry)
    → FindsComma delimiter entries
    → (if delimiter == 0
        then csv_detect_delimiter (csv_skip_bom (export_csv_stream entries true))
        else delimiter)
      ≡ b','
unfolding export_csv_stream csv_skip_bom
FindsComma-comma delimiter entries (inl e) = rw e refl
FindsComma-comma delimiter entries (inr (e, plain)) =
    rw (e, csv_detect_delimiter-Plain _ (header_export_rows-Every entries plain)) refl

module _ (format_time : ℤ → Option Bytes) (alloc : ℕ → Bool) (room : (n : ℕ) → alloc n ≡ true) where
  -- A history that is exported with a header and imported again behind other entries is added to them
  -- entry by entry, all but the raw time stamp, where the importer detects the header and the format
  -- of the times; either it is given the comma as the delimiter, or it detects that too and no URL,
  -- title or time holds a tab, a semicolon or a bar; memory suffices; and, for each entry: the URL,
  -- the title and the time fit their fields, hold no NUL, and end in no white space unless they are
  -- quoted; the URL and the title pass the test for UTF-8; the URL looks like one; the counts are
  -- those of an `int` and the visits positive; and the time is empty or an ISO 8601 time of 20
  -- characters, with no space, that ends in Z.
  pub import_csv_buffer-export_csv_stream :
      (entries : List HistoryEntry) (result : HistoryResult) (delimiter : ℕ)
      → AllExported entries
      → FindsComma delimiter entries
      → (r : HistoryResult) × (import_csv_buffer format_time alloc
            (export_csv_stream entries true)
            result
            (options_with delimiter)
          ≡ some (r, length entries))
        × (r.entries ≡ result.entries ++ map unstamped entries)
  unfolding import_from import_data export_csv_stream csv_skip_bom skip_lines
  import_csv_buffer-export_csv_stream entries result delimiter h finds =
      let rows = export_rows entries in
      let start : Importing = record { result = result; date_fmt = date_auto; imported = 0 } in
      let done = import_rows format_time alloc (length rows) b',' exported_columns start rows in
      let taken =
        import_rows-export_rows format_time alloc room (length rows) entries start h (inl refl)
          (length-export_rows entries) in
      let count : done.imported ≡ length entries = omega (arith, taken.same_count) in
      (
        done.result,
        import_csv_buffer_header format_time alloc (export_csv_stream entries true) rows result
              exported_header (options_with delimiter) (FindsComma-comma delimiter entries finds)
              (csv_parse_row-header_row rows) header-uses_header
            ∙ ap (λ m. import_from format_time alloc b',' (options_with delimiter) result m rows)
                header-exported_columns
            ∙ ap (λ n. some (done.result, n)) count,
        taken.same_entries,
      )
