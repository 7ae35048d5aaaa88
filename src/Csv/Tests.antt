-- ===== src/Csv/Tests.antt =====
-- c/csv_import.c and c/export_csv.c: the theorems at concrete inputs, and runs of the code.
use browserhistory.Csv.Columns.{
  starts_with_url, detect_has_header, names_column, match_column_name, matches_any, stripped,
  detect_columns, add_columns, add_column, is_column,
}
use browserhistory.Csv.Row.{unquoted_field, csv_parse_row, parse_fields, parse_field, quoted_value}
use browserhistory.Url.Print.{print_decimal}
use browserhistory.Csv.Delimiter.Plain.{is_plain}
use browserhistory.Csv.Write.Plain.{all_chars-Every}
use browserhistory.Prelude.{
  ℕ, ◌≡◌, refl, inl, inr, Bool, true, not, Option, none, some, [], ◌∷◌, ◌++◌, map, arith, ◌==◌,
  length,
}
use browserhistory.Prelude.Int.{ℤ, pos}
use browserhistory.Prelude.Text.{span, c_string, Bytes, codes, NoNul}
use browserhistory.History.{HistoryEntry}
use browserhistory.Url.Host.{all_chars}
use browserhistory.Strings.{eq_nocase, strstr, has_prefix}
use browserhistory.Csv.Delimiter.{
  csv_detect_delimiter, best_delimiter, score_delimiter, count_lines, consistent, csv_skip_bom,
}
use browserhistory.Strings.{trim_end}
use browserhistory.Csv.Encoding.{following, needs_conversion}
use browserhistory.Csv.Write.{
  print_int, escape_quotes, csv_write_field, export_row, export_rows, needs_quoting,
  export_csv_stream,
}
use browserhistory.Csv.Import.{
  uses_header, import_from, HistoryResult, looks_like_url, import_csv_buffer,
}
use browserhistory.Csv.Import.RoundTrip.{IsExported, unstamped, iso_time}
use browserhistory.Csv.Import.Export.{FindsComma, options_with, import_csv_buffer-export_csv_stream}
use browserhistory.Csv.Import.Entries.{Extended, import_csv_buffer-Extended}

-- No time stamp is converted, and memory never runs out.
abbrev no_times : ℤ → Option Bytes
no_times n = none

abbrev plenty : ℕ → Bool
plenty n = true

abbrev empty : HistoryResult
empty = record { entries = []; capacity = 0 }

abbrev sample : HistoryEntry
sample = record {
  url = codes "https://a.org/?q=1,2";
  title = codes "A \"page\"";
  visit_count = pos 12;
  typed_count = pos 0;
  last_visit_time = codes "2026-04-27T13:38:10Z";
  last_visit_raw = pos 5;
}

check-NoNul : (s : Bytes) → all_chars (λ c. not (c == 0)) s ≡ true → NoNul s
unfolding all_chars
check-NoNul [] h = tt
check-NoNul (c ∷ s) h = (ground (arith, h), check-NoNul s (ground (arith, h)))

sample-IsExported : IsExported sample
unfolding all_chars trim_end needs_quoting needs_conversion following looks_like_url strstr
    has_prefix
sample-IsExported = record {
  fits = ((omega arith, inl refl), (omega arith, inl refl), (omega arith, inr refl));
  url = (omega arith, check-NoNul sample.url refl, refl);
  is_url = refl;
  title = (omega arith, check-NoNul sample.title refl, refl);
  visits = omega arith;
  visited = refl;
  typed = omega arith;
  time =
      iso_time refl (check-NoNul sample.last_visit_time refl)
        (all_chars-Every (λ c. not (c == b' ')) sample.last_visit_time refl) refl refl refl;
}

sample-FindsComma : FindsComma 0 (sample ∷ [])
unfolding all_chars
sample-FindsComma = inr (
  refl,
  (
    record {
      plain_url = all_chars-Every is_plain sample.url refl;
      plain_title = all_chars-Every is_plain sample.title refl;
      plain_time = all_chars-Every is_plain sample.last_visit_time refl;
    },
    tt,
  ),
)

imported_again :
    (r : HistoryResult) × (import_csv_buffer no_times plenty
        (export_csv_stream (sample ∷ []) true)
        empty
        (options_with 0)
      ≡ some (r, length (sample ∷ [])))
    × (r.entries ≡ empty.entries ++ map unstamped (sample ∷ []))
imported_again =
    import_csv_buffer-export_csv_stream no_times plenty (λ n. refl) (sample ∷ []) empty 0
      (sample-IsExported, tt) sample-FindsComma

import_csv_buffer-export_csv_stream_example :
    (r : HistoryResult) × (import_csv_buffer no_times plenty
        (export_csv_stream (sample ∷ []) true)
        empty
        (options_with 0)
      ≡ some (r, length (sample ∷ [])))
    × (r.entries ≡ empty.entries ++ map unstamped (sample ∷ []))
import_csv_buffer-export_csv_stream_example =
    import_csv_buffer-export_csv_stream no_times plenty (λ n. refl) (sample ∷ []) empty 0
      (sample-IsExported, tt) sample-FindsComma

import_csv_buffer-Extended_example : Extended empty imported_again.0 (length (sample ∷ []))
import_csv_buffer-Extended_example =
    import_csv_buffer-Extended no_times plenty (export_csv_stream (sample ∷ []) true) empty
      (options_with 0) (imported_again.0, length (sample ∷ [])) (omega arith) imported_again.1

abbrev titled : Bytes → HistoryEntry
titled title = record sample { url = codes "about:a"; title = title; last_visit_time = [] }

-- Two titles with nine semicolons each are taken for the fields of a file with that delimiter, whose
-- header then names no URL column.
semicolons :
    import_csv_buffer no_times plenty
      (export_csv_stream (titled (codes ";;;;;;;;;") ∷ titled (codes ";;;;;;;;;") ∷ []) true)
      empty
      (options_with 0)
    ≡ none
unfolding import_csv_buffer export_csv_stream export_rows export_row csv_write_field needs_quoting
    escape_quotes print_int print_decimal csv_skip_bom csv_detect_delimiter best_delimiter
    score_delimiter count_lines consistent csv_parse_row parse_fields parse_field quoted_value
    trim_end uses_header detect_has_header names_column match_column_name matches_any stripped
    eq_nocase c_string detect_columns add_columns add_column is_column import_from unquoted_field
    span starts_with_url strstr has_prefix
semicolons = refl
