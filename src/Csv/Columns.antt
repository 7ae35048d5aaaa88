-- ===== src/Csv/Columns.antt =====
-- c/csv_import.c: the columns of a header row, match_column_name, detect_columns and
-- detect_has_header.
use browserhistory.Prelude.{
  ℕ, suc, ◌-◌, Bool, false, ◌&&◌, ◌||◌, Option, none, some, List, [], ◌∷◌, leb, ◌==◌, if◌then◌else◌,
  length, get_or, take, drop,
}
use browserhistory.Prelude.Int.{ℤ, pos, minus_one}
use browserhistory.Prelude.Text.{Bytes, codes, copy_into, c_string}
use browserhistory.Strings.{is_found, skip_spaces, eq_nocase, strstr}
use browserhistory.Csv.{CsvColumnMap, CsvRow}

abbrev pub url_names : List Bytes
url_names =
    codes "url"
    ∷ codes "URL"
    ∷ codes "Url"
    ∷ codes "uri"
    ∷ codes "URI"
    ∷ codes "address"
    ∷ codes "Address"
    ∷ codes "link"
    ∷ codes "Link"
    ∷ codes "page_url"
    ∷ codes "page"
    ∷ []

abbrev pub title_names : List Bytes
title_names =
    codes "title"
    ∷ codes "Title"
    ∷ codes "TITLE"
    ∷ codes "name"
    ∷ codes "Name"
    ∷ codes "page_title"
    ∷ codes "description"
    ∷ codes "Description"
    ∷ []

abbrev pub visit_count_names : List Bytes
visit_count_names =
    codes "visit_count"
    ∷ codes "visits"
    ∷ codes "Visits"
    ∷ codes "visit_count"
    ∷ codes "count"
    ∷ codes "hit_count"
    ∷ codes "frequency"
    ∷ []

abbrev pub last_visit_names : List Bytes
last_visit_names =
    codes "last_visit_time"
    ∷ codes "last_visit_date"
    ∷ codes "last_visited"
    ∷ codes "date"
    ∷ codes "Date"
    ∷ codes "timestamp"
    ∷ codes "Timestamp"
    ∷ codes "time"
    ∷ codes "Time"
    ∷ codes "last_visit"
    ∷ codes "visited"
    ∷ codes "visit_date"
    ∷ []

abbrev pub typed_count_names : List Bytes
typed_count_names = codes "typed_count" ∷ codes "typed" ∷ codes "Typed" ∷ []

-- The text between two quotes, cut to its buffer.
unfoldable pub stripped : Bytes → Option Bytes
stripped field =
    let n = length field in
    if leb 2 n && get_or field 0 0 == b'"' && get_or field (n - 1) 0 == b'"'
    then some (copy_into 256 (take (n - 2) (drop 1 field)))
    else none

abbrev pub equals_stripped : Option Bytes → Bytes → Bool
equals_stripped none name = false
equals_stripped (some s) name = eq_nocase s name

unfoldable pub matches_any : Bytes → List Bytes → Bool
matches_any field [] = false
matches_any field (name ∷ names) =
    eq_nocase field name || equals_stripped (stripped field) name || matches_any field names

unfoldable pub match_column_name : Bytes → List Bytes → Bool
match_column_name field names = matches_any (skip_spaces field) names

-- The column has no index yet and the name is one of its names.
unfoldable pub is_column : Option ℕ → Bytes → List Bytes → Bool
is_column none name names = match_column_name name names
is_column (some _) name names = false

unfoldable pub add_column : ℕ → Bytes → CsvColumnMap → CsvColumnMap
add_column i name col_map =
    if is_column col_map.url_col name url_names
    then record col_map { url_col = some i }
    else if is_column col_map.title_col name title_names
    then record col_map { title_col = some i }
    else if is_column col_map.visit_count_col name visit_count_names
    then record col_map { visit_count_col = some i }
    else if is_column col_map.last_visit_col name last_visit_names
    then record col_map { last_visit_col = some i }
    else if is_column col_map.typed_count_col name typed_count_names
    then record col_map { typed_count_col = some i }
    else col_map

unfoldable pub add_columns : ℕ → CsvRow → CsvColumnMap → CsvColumnMap
add_columns i [] col_map = col_map
add_columns i (field ∷ row) col_map =
    add_columns (suc i) row (add_column i (c_string field.value) col_map)

abbrev pub no_columns : CsvColumnMap
no_columns = record {
  url_col = none;
  title_col = none;
  visit_count_col = none;
  last_visit_col = none;
  typed_count_col = none;
}

unfoldable pub detect_columns : CsvRow → CsvColumnMap
detect_columns header_row = add_columns 0 header_row no_columns

unfoldable pub names_column : CsvRow → Bool
names_column [] = false
names_column (field ∷ row) =
    let val = c_string field.value in
    match_column_name val url_names
    || match_column_name val title_names
    || match_column_name val visit_count_names
    || match_column_name val last_visit_names
    || names_column row

-- Whether the first field looks like a URL.
unfoldable pub starts_with_url : CsvRow → Bool
starts_with_url [] = false
starts_with_url (field ∷ _) =
    let val = c_string field.value in
    is_found (strstr (codes "http://") val)
    || is_found (strstr (codes "https://") val)
    || is_found (strstr (codes "ftp://") val)

unfoldable pub detect_has_header : CsvRow → ℤ
detect_has_header first_row =
    if names_column first_row then pos 1 else if starts_with_url first_row then pos 0 else minus_one
