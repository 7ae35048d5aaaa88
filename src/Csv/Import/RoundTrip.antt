-- ===== src/Csv/Import/RoundTrip.antt =====
-- c/csv_import.c against c/export_csv.c: a history that is exported and imported again.
use browserhistory.Prelude.{
  ℕ, ◌+◌, ◌-◌, ◌<◌, ◌≡◌, refl, ap, ◌∙◌, ◌⊎◌, inl, inr, Bool, true, false, not, Option, some, List,
  [], ◌∷◌, ◌++◌, map, arith, ◌==◌, length, get_or, take-eq_self,
}
use browserhistory.Prelude.Int.{ℤ, pos, is_positive}
use browserhistory.Prelude.Text.{
  Bytes, copy_into, is_nonempty, c_string, span, NoNul, c_string-NoNul,
}
use browserhistory.Strings.{strstr, has_prefix}
use browserhistory.History.{HistoryEntry}
use browserhistory.Url.Print.RoundTrip.{Every}
use browserhistory.Csv.{CsvDateFormat, date_auto, date_iso8601, CsvColumnMap, CsvRow}
use browserhistory.Csv.Date.{
  csv_detect_date_format, csv_parse_date, parse_as, normalize_iso, with_t, with_zone,
}
use browserhistory.Csv.Encoding.{fix_field_encoding, needs_conversion}
use browserhistory.Csv.Write.Decimal.{IsInt, atoi-c_string-print_int}
use browserhistory.Csv.Write.Fields.{field_of}
use browserhistory.Csv.Write.RoundTrip.{FitsEntry, other_texts}
use browserhistory.Csv.Import.{
  has_prefix, strstr, HistoryResult, Importing, column_text, stored_text, looks_like_url,
  next_format, visit_time, row_entry, add_entry,
}

-- The text fits its field, holds no NUL and looks like UTF-8.
abbrev pub IsStored : ℕ → Bytes → Type 0
IsStored size s = (length s < size) × NoNul s × (needs_conversion 0 s ≡ false)

-- No time, or one that ends in Z and has a date in front, as `2026-04-27T13:38:10Z`.
pub data IsTime : Bytes → Type 0 where
  no_time : IsTime []
  iso_time :
      {s : Bytes}
      → length s ≡ 20
      → NoNul s
      → Every (λ c. not (c == b' ')) s
      → get_or s 4 0 ≡ b'-'
      → get_or s 7 0 ≡ b'-'
      → get_or s 19 0 ≡ b'Z'
      → IsTime s

pub record IsExported (e : HistoryEntry) : Type 0 where
  pub fits : FitsEntry e
  pub url : IsStored 2048 e.url
  pub is_url : looks_like_url e.url ≡ true
  pub title : IsStored 512 e.title
  pub visits : IsInt e.visit_count
  pub visited : is_positive e.visit_count ≡ true
  pub typed : IsInt e.typed_count
  pub time : IsTime e.last_visit_time

abbrev pub AllExported : List HistoryEntry → Type 0
AllExported [] = Unit
AllExported (e ∷ es) = IsExported e × AllExported es

abbrev pub unstamped : HistoryEntry → HistoryEntry
unstamped e = record e { last_visit_raw = pos 0 }

abbrev pub IsFormat : CsvDateFormat → Type 0
IsFormat fmt = (fmt ≡ date_auto) ⊎ (fmt ≡ date_iso8601)

pub stored_same : (size : ℕ) (s : Bytes) → IsStored size s → stored_text size (c_string s) ≡ s
unfolding fix_field_encoding
stored_same size s h =
    rw (c_string-NoNul s h.1, take-eq_self (size - 1) s (omega (arith, h.0)), h.2) refl

span_whole : (test : ℕ → Bool) (s : Bytes) → Every test s → span test s ≡ (s, [])
unfolding span
span_whole test [] h = refl
span_whole test (c ∷ s) h = rw (h.0, span_whole test s h.1) refl

ends_in_z : (s : Bytes) → length s ≡ 20 → get_or s 19 0 ≡ b'Z' → with_zone 64 s ≡ s
unfolding with_zone
ends_in_z s n last =
    let last_byte : get_or s (length s - 1) 0 ≡ b'Z' = ap (λ k. get_or s (k - 1) 0) n ∙ last in
    rw (last_byte, n) refl

normalize_iso_same :
    (s : Bytes)
    → length s ≡ 20
    → Every (λ c. not (c == b' ')) s
    → get_or s 19 0 ≡ b'Z'
    → normalize_iso 64 s ≡ s
unfolding normalize_iso
normalize_iso_same s n plain last =
    let fits = take-eq_self 63 s (omega (arith, n)) in
    let same : with_t s ≡ s = rw (span_whole (λ c. not (c == b' ')) s plain, n) refl in
    ap (λ t. with_zone 64 (with_t t)) fits ∙ ap (with_zone 64) same ∙ ends_in_z s n last

detect_iso :
    (s : Bytes)
    → length s ≡ 20
    → get_or s 4 0 ≡ b'-'
    → get_or s 7 0 ≡ b'-'
    → csv_detect_date_format s ≡ date_iso8601
unfolding csv_detect_date_format
detect_iso [] n a b = absurd (omega (arith, n))
detect_iso (c ∷ s) n a b = rw (n, a, b) refl

time-NoNul : {s : Bytes} → IsTime s → NoNul s
time-NoNul no_time = tt
time-NoNul (iso_time n plain _ a b last) = plain

pub url-is_nonempty : (s : Bytes) → looks_like_url s ≡ true → is_nonempty s ≡ true
unfolding looks_like_url strstr has_prefix
url-is_nonempty [] h = cc
url-is_nonempty (c ∷ s) h = refl

-- The columns that the exporter's header names.
abbrev pub exported_columns : CsvColumnMap
exported_columns = record {
  url_col = some 0;
  title_col = some 1;
  visit_count_col = some 2;
  last_visit_col = some 4;
  typed_count_col = some 3;
}

abbrev pub exported_row : HistoryEntry → CsvRow
exported_row e = map field_of (e.url ∷ other_texts e)

-- A time that was exported is stored as it is, and leaves the date format open or at ISO 8601.
module _ (format_time : ℤ → Option Bytes) where
  iso_kept :
      (s : Bytes)
      → length s ≡ 20
      → Every (λ c. not (c == b' ')) s
      → get_or s 19 0 ≡ b'Z'
      → visit_time format_time date_iso8601 (some s) ≡ s
  unfolding csv_parse_date parse_as
  iso_kept s n plain last =
      ap (copy_into 64) (normalize_iso_same s n plain last) ∙ take-eq_self 63 s (omega (arith, n))

  pub time_kept :
      (fmt : CsvDateFormat) (s : Bytes)
      → IsFormat fmt
      → IsTime s
      → IsFormat (next_format fmt (some s))
        × (visit_time format_time (next_format fmt (some s)) (some s) ≡ s)
  unfolding csv_parse_date parse_as csv_detect_date_format normalize_iso with_zone span
  time_kept fmt s (inl e) no_time = rw e (inl refl, refl)
  time_kept fmt s (inr e) no_time = rw e (inr refl, refl)
  time_kept fmt [] h (iso_time n _ plain a b last) = absurd (omega (arith, n))
  time_kept fmt (c ∷ s) (inl e) (iso_time n _ plain a b last) =
      rw (e, detect_iso (c ∷ s) n a b) (inr refl, iso_kept (c ∷ s) n plain last)
  time_kept fmt (c ∷ s) (inr e) (iso_time n _ plain a b last) =
      rw e (inr refl, iso_kept (c ∷ s) n plain last)

  row_entry-exported_row :
      (fmt : CsvDateFormat) (e : HistoryEntry)
      → IsExported e
      → visit_time format_time fmt (some e.last_visit_time) ≡ e.last_visit_time
      → row_entry format_time exported_columns fmt e.url (exported_row e) ≡ unstamped e
  unfolding row_entry column_text
  row_entry-exported_row fmt e h time =
      rw
        (
          stored_same 512 e.title h.title,
          atoi-c_string-print_int e.visit_count h.visits,
          atoi-c_string-print_int e.typed_count h.typed,
          h.visited,
          c_string-NoNul e.last_visit_time (time-NoNul h.time),
          time,
        )
        refl

  pub add_entry-exported_row :
      (e : HistoryEntry) (result : HistoryResult) (s : Importing)
      → IsExported e
      → IsFormat s.date_fmt
      → (add_entry format_time exported_columns (exported_row e) e.url result s ≡ record {
        result = record result { entries = result.entries ++ unstamped e ∷ [] };
        date_fmt = next_format s.date_fmt (some e.last_visit_time);
        imported = s.imported + 1;
      })
  unfolding add_entry column_text
  add_entry-exported_row e result s h fmt =
      let time = time_kept s.date_fmt e.last_visit_time fmt h.time in
      rw
        (
          c_string-NoNul e.last_visit_time (time-NoNul h.time),
          h.is_url,
          row_entry-exported_row (next_format s.date_fmt (some e.last_visit_time)) e h time.1,
        )
        refl
