-- ===== src/Csv/Import.antt =====
-- c/csv_import.c, import_csv_buffer. The parameter `format_time` is that of Csv.Date, `alloc` says
-- which numbers of entries `realloc` has room for. A failure leaves the result as it is.
pub mod Fuel
pub mod Entries
pub mod Errors
pub mod RoundTrip
pub mod Export
use browserhistory.Prelude.{
  ℕ, zero, suc, ◌+◌, ◌-◌, ◌*◌, ◌/◌, ◌%◌, ◌^◌, ◌≤◌, ◌<◌, ◌≡◌, refl, sym, ap, ◌∙◌, ◌≢◌, ◌↔◌, ◌⊎◌, inl,
  inr, Bool, true, false, not, ◌&&◌, ◌||◌, Option, none, some, List, [], ◌∷◌, ◌++◌, map, append-nil,
  append_assoc, arith, ltb, leb, ◌==◌, if◌then◌else◌, Bool-cases, Option-cases, length, get_elem?,
  get_or, take, drop, length-append, length-take, length-drop, take-eq_self, drop-eq_nil,
  take-append_self, drop-append_self,
}
use browserhistory.Prelude.Int.{ℤ, pos, negsuc, minus_one, is_positive, is_nat, pos_part}
use browserhistory.Prelude.Text.{
  Bytes, codes, copy_into, is_nonempty, str_eq, c_string, span, NoNul, AreBytes, c_string-NoNul,
}
use browserhistory.Strings.{is_found, has_prefix, strstr, atoi}
use browserhistory.History.{HistoryEntry}
use browserhistory.Csv.{CsvDateFormat, date_auto, CsvColumnMap, CsvImportOptions, CsvField, CsvRow}
use browserhistory.Csv.Row.{csv_parse_row}
use browserhistory.Csv.Delimiter.{csv_skip_bom, csv_detect_delimiter}
use browserhistory.Csv.Date.{csv_detect_date_format, csv_parse_date}
use browserhistory.Csv.Columns.{detect_columns, detect_has_header}
use browserhistory.Csv.Encoding.{fix_field_encoding}

-- The entries in use, `count` of them, and the capacity.
pub record HistoryResult : Type 0 where
  pub entries : List HistoryEntry
  pub capacity : ℕ

abbrev pub grown : ℕ → ℕ
grown capacity = if ltb (capacity * 2) 256 then 256 else capacity * 2

unfoldable pub ensure_capacity : (ℕ → Bool) → HistoryResult → Option HistoryResult
ensure_capacity alloc result =
    if ltb (length result.entries) result.capacity
    then some result
    else if alloc (grown result.capacity)
    then some (record result { capacity = grown result.capacity })
    else none

-- The variables of the loop over the rows.
pub record Importing : Type 0 where
  pub result : HistoryResult
  pub date_fmt : CsvDateFormat
  pub imported : ℕ

-- The C string of a column, where the map has it and the row is long enough.
unfoldable pub column_text : Option ℕ → CsvRow → Option Bytes
column_text none row = none
column_text (some i) row = elim (get_elem? row i) [
  | none ↦ none
  | some field ↦ some (c_string field.value)
]

abbrev pub stored_text : ℕ → Bytes → Bytes
stored_text size s = fix_field_encoding size (copy_into size s)

abbrev pub text_or_empty : Option Bytes → Bytes
text_or_empty none = []
text_or_empty (some s) = s

abbrev pub number_or_zero : Option Bytes → ℤ
number_or_zero none = pos 0
number_or_zero (some s) = atoi s

unfoldable pub looks_like_url : Bytes → Bool
looks_like_url url =
    is_found (strstr (codes "://") url)
    || has_prefix (codes "about:") url
    || has_prefix (codes "file:") url
    || has_prefix (codes "data:") url

-- Whether the URL field of a row is there and is not empty; a row of one empty field is skipped too.
unfoldable pub has_url_field : Option ℕ → CsvRow → Bool
has_url_field none row = false
has_url_field (some i) row = elim (get_elem? row i) [
  | none ↦ false
  | some field ↦ is_nonempty field.value
]

abbrev pub first_format : CsvDateFormat → Bytes → CsvDateFormat
first_format date_auto s = csv_detect_date_format s
first_format fmt s = fmt

abbrev pub next_format : CsvDateFormat → Option Bytes → CsvDateFormat
next_format fmt none = fmt
next_format fmt (some []) = fmt
next_format fmt (some (c ∷ s)) = first_format fmt (c ∷ s)

unfoldable pub skip_lines : ℕ → Bytes → Bytes
skip_lines zero p = p
skip_lines (suc n) p = skip_lines n (drop 1 (span (λ c. not (c == b'\n')) p).1)

abbrev pub default_options : CsvImportOptions
default_options = record {
  delimiter = 0;
  date_format = date_auto;
  has_header = minus_one;
  skip_rows = 0;
}

abbrev pub column_at : ℕ → CsvRow → Option ℕ
column_at i row = if ltb i (length row) then some i else none

abbrev pub positional : CsvRow → CsvColumnMap
positional row = record {
  url_col = some 0;
  title_col = column_at 1 row;
  visit_count_col = column_at 2 row;
  last_visit_col = column_at 3 row;
  typed_count_col = none;
}

unfoldable pub uses_header : ℤ → CsvRow → Bool
uses_header (pos zero) row = false
uses_header (pos (suc zero)) row = true
uses_header _ row = not (is_nat (detect_has_header row) 0)

-- `csv_skip_bom` once more on the whole data, with a `remaining` that is already short of the mark.
abbrev pub data_rows : Bytes → Bytes
data_rows buffer = if leb 3 (length (csv_skip_bom buffer)) then csv_skip_bom buffer else buffer

-- There must be a URL column.
abbrev pub with_column : Option ℕ → HistoryResult × ℕ → Option (HistoryResult × ℕ)
with_column none r = none
with_column (some _) r = some r

module _ (format_time : ℤ → Option Bytes) where
  abbrev pub visit_time : CsvDateFormat → Option Bytes → Bytes
  visit_time fmt none = []
  visit_time fmt (some s) = elim (csv_parse_date format_time s fmt 64) [
    | none ↦ copy_into 64 s
    | some t ↦ t
  ]

  abbrev pub at_least_one : ℤ → ℤ
  at_least_one n = if is_positive n then n else pos 1

  unfoldable pub row_entry : CsvColumnMap → CsvDateFormat → Bytes → CsvRow → HistoryEntry
  row_entry col_map fmt url row = record {
    url = url;
    title = stored_text 512 (text_or_empty (column_text col_map.title_col row));
    visit_count = at_least_one (number_or_zero (column_text col_map.visit_count_col row));
    typed_count = number_or_zero (column_text col_map.typed_count_col row);
    last_visit_time = visit_time fmt (column_text col_map.last_visit_col row);
    last_visit_raw = pos 0;
  }

  -- What a row whose URL is known does to the loop's variables.
  unfoldable pub add_entry : CsvColumnMap → CsvRow → Bytes → HistoryResult → Importing → Importing
  add_entry col_map row url result s =
      let fmt = next_format s.date_fmt (column_text col_map.last_visit_col row) in
      if looks_like_url url
      then record {
        result = record result { entries = result.entries ++ row_entry col_map fmt url row ∷ [] };
        date_fmt = fmt;
        imported = s.imported + 1;
      }
      else record s { result = result }

module _ (format_time : ℤ → Option Bytes) (alloc : ℕ → Bool) where
  -- The body of the loop; `none` is a break.
  unfoldable pub import_row : CsvColumnMap → CsvRow → Importing → Option Importing
  import_row col_map row s =
      if not (has_url_field col_map.url_col row)
      then some s
      else elim (ensure_capacity alloc s.result) [
        | none ↦ none
        | some result ↦ some (
            add_entry format_time col_map row
              (stored_text 2048 (text_or_empty (column_text col_map.url_col row))) result s)
      ]

  -- Each row takes a byte at least, so that the length of the data is fuel enough.
  unfoldable pub import_rows : ℕ → ℕ → CsvColumnMap → Importing → Bytes → Importing
  import_rows zero delim col_map s p = s
  import_rows (suc fuel) delim col_map s p = elim (csv_parse_row delim p) [
    | none ↦ s
    | some r ↦ elim (import_row col_map r.0 s) [
      | none ↦ s
      | some next ↦ import_rows fuel delim col_map next r.1
    ]
  ]

  unfoldable pub import_data :
      ℕ → CsvImportOptions → HistoryResult → CsvColumnMap → Bytes → HistoryResult × ℕ
  import_data delim opts result col_map p =
      let rows = skip_lines opts.skip_rows p in
      let start : Importing = record {
        result = result;
        date_fmt = opts.date_format;
        imported = 0;
      } in
      let done = import_rows (length rows) delim col_map start rows in (done.result, done.imported)

  unfoldable pub import_from :
      ℕ → CsvImportOptions → HistoryResult → CsvColumnMap → Bytes → Option (HistoryResult × ℕ)
  import_from delim opts result col_map p =
      with_column col_map.url_col (import_data delim opts result col_map p)

  -- The result and the number of entries imported, or `none` for -1.
  unfoldable pub import_csv_buffer :
      Bytes → HistoryResult → CsvImportOptions → Option (HistoryResult × ℕ)
  import_csv_buffer buffer result opts =
      let p = csv_skip_bom buffer in
      let delim = if opts.delimiter == 0 then csv_detect_delimiter p else opts.delimiter in
      elim (csv_parse_row delim p) [
        | none ↦ none
        | some r ↦
            if uses_header opts.has_header r.0
            then import_from delim opts result (detect_columns r.0) r.1
            else import_from delim opts result (positional r.0) (data_rows buffer)
      ]
