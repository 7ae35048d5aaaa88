-- ===== src/Csv/Import/Errors.antt =====
-- c/csv_import.c: when import_csv_buffer fails.
use browserhistory.Prelude.{ℕ, ◌≡◌, true, none, some, ◌==◌, if◌then◌else◌}
use browserhistory.Prelude.Text.{Bytes}
use browserhistory.Csv.{CsvImportOptions, CsvRow}
use browserhistory.Csv.Row.{csv_parse_row}
use browserhistory.Csv.Delimiter.{csv_skip_bom, csv_detect_delimiter}
use browserhistory.Csv.Columns.{detect_columns}
use browserhistory.Csv.Import.{uses_header}

-- The delimiter that the options name or the data shows.
abbrev pub delimiter_of : Bytes → CsvImportOptions → ℕ
delimiter_of buffer opts =
    if opts.delimiter == 0 then csv_detect_delimiter (csv_skip_bom buffer) else opts.delimiter

-- The first row is taken for a header and names no URL column.
abbrev pub LacksUrl : Bytes → CsvImportOptions → Type 0
LacksUrl buffer opts =
    (r : CsvRow × Bytes) × (csv_parse_row (delimiter_of buffer opts) (csv_skip_bom buffer) ≡ some r)
    × (uses_header opts.has_header r.0 ≡ true)
    × ((detect_columns r.0).url_col ≡ none)
