-- ===== src/Csv/Import/Entries.antt =====
-- c/csv_import.c: what import_csv_buffer adds to the result, and when it fails.
use mathlib.Core.Path.{subst}
use browserhistory.Prelude.{
  ℕ, zero, suc, ◌+◌, ◌≤◌, ◌<◌, ◌≡◌, refl, sym, ap, ◌∙◌, inl, inr, Bool, true, Option, none, some,
  List, [], ◌∷◌, ◌++◌, append-nil, append_assoc, arith, ltb, ◌==◌, if◌then◌else◌, Bool-cases,
  Option-cases, length, length-append,
}
use browserhistory.Prelude.Int.{ℤ}
use browserhistory.Prelude.Text.{Bytes}
use browserhistory.History.{HistoryEntry}
use browserhistory.Csv.{CsvDateFormat, CsvColumnMap, CsvImportOptions, CsvRow}
use browserhistory.Csv.Row.{csv_parse_row}
use browserhistory.Csv.Delimiter.{csv_skip_bom, csv_detect_delimiter}
use browserhistory.Csv.Columns.{detect_columns}
use browserhistory.Csv.Import.{
  HistoryResult, ensure_capacity, grown, Importing, column_text, stored_text, text_or_empty,
  looks_like_url, has_url_field, next_format, row_entry, add_entry, import_row, import_rows,
  import_from, import_data, with_column, import_csv_buffer, uses_header, skip_lines, positional,
  data_rows,
}

-- The entries in use are within the array.
abbrev pub IsAllocated : HistoryResult → Type 0
IsAllocated r = length r.entries ≤ r.capacity

abbrev pub AllUrls : List HistoryEntry → Type 0
AllUrls [] = Unit
AllUrls (e ∷ es) = (looks_like_url e.url ≡ true) × AllUrls es

-- The first result with so many entries behind it, each with a URL, all within the array.
pub record Extended (r last : HistoryResult) (n : ℕ) : Type 0 where
  pub added : List HistoryEntry
  pub appended : last.entries ≡ r.entries ++ added
  pub count : length added ≡ n
  pub urls : AllUrls added
  pub allocated : IsAllocated last

AllUrls-append : (es fs : List HistoryEntry) → AllUrls es → AllUrls fs → AllUrls (es ++ fs)
AllUrls-append [] fs h k = k
AllUrls-append (e ∷ es) fs h k = (h.0, AllUrls-append es fs h.1 k)

Extended-none : (r : HistoryResult) → IsAllocated r → Extended r r 0
Extended-none r h = record {
  added = [];
  appended = sym (append-nil r.entries);
  count = refl;
  urls = tt;
  allocated = h;
}

Extended-trans :
    (r s t : HistoryResult) (m n : ℕ) → Extended r s m → Extended s t n → Extended r t (m + n)
Extended-trans r s t m n h k = record {
  added = h.added ++ k.added;
  appended =
      k.appended ∙ ap (λ es. es ++ k.added) h.appended ∙ append_assoc r.entries h.added k.added;
  count = omega (arith, length-append h.added k.added, h.count, k.count);
  urls = AllUrls-append h.added k.added h.urls k.urls;
  allocated = k.allocated;
}

-- A larger array with room for one entry more.
abbrev HasRoom : HistoryResult → HistoryResult → Type 0
HasRoom r s = (s.entries ≡ r.entries) × (length r.entries < s.capacity)

ensure_capacity-HasRoom :
    (alloc : ℕ → Bool) (r s : HistoryResult)
    → IsAllocated r
    → ensure_capacity alloc r ≡ some s
    → HasRoom r s
unfolding ensure_capacity
ensure_capacity-HasRoom alloc r s h e = elim (Bool-cases (ltb (length r.entries) r.capacity)) [
  | inl d ↦ let same : r ≡ s = cc (rw d at e) in rw (sym same) (refl, ground (arith, d))
  | inr d ↦ elim (Bool-cases (alloc (grown r.capacity))) [
    | inl k ↦
        let same : record r { capacity = grown r.capacity } ≡ s = cc (rw (d, k) at e) in
        rw (sym same) (refl, ground (arith, h))
    | inr k ↦ absurd (cc (rw (d, k) at e))
  ]
]

-- The loop's variables from one place of the data to a later one.
abbrev Advanced : Importing → Importing → Type 0
Advanced s t = (n : ℕ) × (t.imported ≡ s.imported + n) × Extended s.result t.result n

row_entry-url :
    (format_time : ℤ → Option Bytes) (col_map : CsvColumnMap) (fmt : CsvDateFormat) (url : Bytes)
    (row : CsvRow)
    → (row_entry format_time col_map fmt url row).url ≡ url
unfolding row_entry
row_entry-url format_time col_map fmt url row = refl

add_entry-Advanced :
    (format_time : ℤ → Option Bytes) (col_map : CsvColumnMap) (row : CsvRow) (url : Bytes)
    (r : HistoryResult) (s : Importing)
    → HasRoom s.result r
    → Advanced s (add_entry format_time col_map row url r s)
unfolding add_entry
add_entry-Advanced format_time col_map row url r s h =
    let fmt = next_format s.date_fmt (column_text col_map.last_visit_col row) in
    let entry = row_entry format_time col_map fmt url row in
    elim (Bool-cases (looks_like_url url)) [
      | inl e ↦ rw e (
        1,
        refl,
        record {
          added = entry ∷ [];
          appended = ap (λ es. es ++ entry ∷ []) h.0;
          count = refl;
          urls = (rw (row_entry-url format_time col_map fmt url row) e, tt);
          allocated = omega (arith, h.1, ap length h.0, length-append r.entries (entry ∷ []));
        },
      )
      | inr e ↦ rw e (
        0,
        omega arith,
        record {
          added = [];
          appended = h.0 ∙ sym (append-nil s.result.entries);
          count = refl;
          urls = tt;
          allocated = omega (arith, h.1, ap length h.0);
        },
      )
    ]

with_column-some : (o : Option ℕ) (a b : HistoryResult × ℕ) → with_column o a ≡ some b → a ≡ b
with_column-some none a b h = absurd cc
with_column-some (some i) a b h = cc

module _ (format_time : ℤ → Option Bytes) (alloc : ℕ → Bool) where
  import_row-Advanced :
      (col_map : CsvColumnMap) (row : CsvRow) (s t : Importing)
      → IsAllocated s.result
      → import_row format_time alloc col_map row s ≡ some t
      → Advanced s t
  unfolding import_row
  import_row-Advanced col_map row s t h e = elim (Bool-cases (has_url_field col_map.url_col row)) [
    | inl d ↦ elim (Option-cases (ensure_capacity alloc s.result)) [
      | inl k ↦ absurd (cc (rw (d, k) at e))
      | inr (r, k) ↦
          let url = stored_text 2048 (text_or_empty (column_text col_map.url_col row)) in
          let same : add_entry format_time col_map row url r s ≡ t = cc (rw (d, k) at e) in
          rw (sym same) (
            add_entry-Advanced format_time col_map row url r s
              (ensure_capacity-HasRoom alloc s.result r h k))
    ]
    | inr d ↦
        let same : s ≡ t = cc (rw d at e) in
        rw (sym same) (0, omega arith, Extended-none s.result h)
  ]

  import_rows-Advanced :
      (fuel delim : ℕ) (col_map : CsvColumnMap) (s : Importing) (p : Bytes)
      → IsAllocated s.result
      → Advanced s (import_rows format_time alloc fuel delim col_map s p)
  unfolding import_rows
  import_rows-Advanced zero delim col_map s p h = (0, omega arith, Extended-none s.result h)
  import_rows-Advanced (suc fuel) delim col_map s p h =
      elim (Option-cases (csv_parse_row delim p)) [
        | inl e ↦ rw (e, import_rows) (0, omega arith, Extended-none s.result h)
        | inr (r, e) ↦ elim (Option-cases (import_row format_time alloc col_map r.0 s)) [
          | inl d ↦ rw (e, d, import_rows) (0, omega arith, Extended-none s.result h)
          | inr (t, d) ↦
              let (m, first, step) = import_row-Advanced col_map r.0 s t h d in
              let (n, second, rest) =
                import_rows-Advanced fuel delim col_map t r.1 step.allocated in
              let last = import_rows format_time alloc fuel delim col_map t r.1 in
              rw (e, d, import_rows)
                (
                  m + n,
                  omega (arith, first, second),
                  Extended-trans s.result t.result last.result m n step rest,
                )
        ]
      ]

  import_from-Extended :
      (delim : ℕ) (opts : CsvImportOptions) (result : HistoryResult) (col_map : CsvColumnMap)
      (p : Bytes) (r : HistoryResult × ℕ)
      → IsAllocated result
      → import_from format_time alloc delim opts result col_map p ≡ some r
      → Extended result r.0 r.1
  unfolding import_from import_data
  import_from-Extended delim opts result col_map p r h e =
      let rows = skip_lines opts.skip_rows p in
      let start : Importing = record {
        result = result;
        date_fmt = opts.date_format;
        imported = 0;
      } in
      let done = import_rows format_time alloc (length rows) delim col_map start rows in
      let (n, count, extended) = import_rows-Advanced (length rows) delim col_map start rows h in
      let counted : n ≡ done.imported = omega (arith, count) in
      let all : Extended result done.result done.imported = rw (sym counted) extended in
      let same = with_column-some col_map.url_col (done.result, done.imported) r e in
      subst (λ x. Extended result x.0 x.1) same all

  -- What an import adds to a result stands behind the entries that were there, is as many entries as
  -- it says, each with a text that looks like a URL, and stays within the array.
  pub import_csv_buffer-Extended :
      (buffer : Bytes) (result : HistoryResult) (opts : CsvImportOptions) (r : HistoryResult × ℕ)
      → IsAllocated result
      → import_csv_buffer format_time alloc buffer result opts ≡ some r
      → Extended result r.0 r.1
  unfolding import_csv_buffer
  import_csv_buffer-Extended buffer result opts r h e =
      let p = csv_skip_bom buffer in
      let delim = if opts.delimiter == 0 then csv_detect_delimiter p else opts.delimiter in
      elim (Option-cases (csv_parse_row delim p)) [
        | inl d ↦ absurd (cc (rw (d, import_csv_buffer) at e))
        | inr (row, d) ↦ elim (Bool-cases (uses_header opts.has_header row.0)) [
          | inl k ↦
              import_from-Extended delim opts result (detect_columns row.0) row.1 r h
                (rw (d, k, import_csv_buffer) at e)
          | inr k ↦
              import_from-Extended delim opts result (positional row.0) (data_rows buffer) r h
                (rw (d, k, import_csv_buffer) at e)
        ]
      ]
