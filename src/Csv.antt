-- ===== src/Csv.antt =====
-- c/csv_import.c, c/csv_import.h and c/export_csv.c: the CSV importer and the CSV exporter.
pub mod Row
pub mod Write
pub mod Delimiter
pub mod Date
pub mod Columns
pub mod Encoding
pub mod Import
mod Tests
use browserhistory.Prelude.{
  ℕ, zero, suc, ◌+◌, ◌-◌, ◌*◌, ◌/◌, ◌%◌, ◌^◌, ◌≤◌, ◌<◌, ◌≡◌, refl, sym, ap, ◌∙◌, ◌≢◌, ◌↔◌, ◌⊎◌, inl,
  inr, Bool, true, false, not, ◌&&◌, ◌||◌, Option, none, some, List, [], ◌∷◌, ◌++◌, map, append-nil,
  append_assoc, arith, ltb, leb, ◌==◌, if◌then◌else◌, Bool-cases, Option-cases, length, get_elem?,
  get_or, take, drop, length-append, length-take, length-drop, take-eq_self, drop-eq_nil,
  take-append_self, drop-append_self,
}
use browserhistory.Prelude.Int.{ℤ, pos, negsuc, minus_one, is_positive, is_nat, pos_part}
use browserhistory.Prelude.Text.{
  Bytes, codes, copy_into, is_nonempty, str_eq, c_string, span, NoNul, AreBytes, c_string-NoNul,
}

abbrev pub max_field_len : ℕ
max_field_len = 4096

abbrev pub max_columns : ℕ
max_columns = 32

pub data CsvDateFormat : Type 0 where
  date_auto date_iso8601 date_us date_eu date_unix date_unix_ms date_chromium : CsvDateFormat

-- The index of a column, or `none` for -1.
pub record CsvColumnMap : Type 0 where
  pub url_col : Option ℕ
  pub title_col : Option ℕ
  pub visit_count_col : Option ℕ
  pub last_visit_col : Option ℕ
  pub typed_count_col : Option ℕ

-- `delimiter` is 0 where it is detected; a negative `has_header` stands for auto.
pub record CsvImportOptions : Type 0 where
  pub delimiter : ℕ
  pub date_format : CsvDateFormat
  pub has_header : ℤ
  pub skip_rows : ℕ

-- The bytes of the value; their number is the field `length`.
pub record CsvField : Type 0 where
  pub value : Bytes
  pub was_quoted : Bool

abbrev pub CsvRow : Type 0
CsvRow = List CsvField
