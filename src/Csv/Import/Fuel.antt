-- ===== src/Csv/Import/Fuel.antt =====
-- c/csv_import.c: the loop of import_csv_buffer over the rows ends by its own test.
use browserhistory.Prelude.{
  ℕ, zero, suc, ◌+◌, ◌≤◌, ◌≡◌, refl, sym, ◌∙◌, inl, inr, Bool, Option, [], ◌∷◌, arith, Option-cases,
  length,
}
use browserhistory.Prelude.Int.{ℤ}
use browserhistory.Prelude.Text.{Bytes}
use browserhistory.Csv.{CsvColumnMap}
use browserhistory.Csv.Row.{csv_parse_row}
use browserhistory.Csv.Row.Progress.{csv_parse_row_shorter}
use browserhistory.Csv.Import.{Importing, import_row, import_rows}

module _ (format_time : ℤ → Option Bytes) (alloc : ℕ → Bool) where
  pub import_rows_nil :
      (f delim : ℕ) (col_map : CsvColumnMap) (s : Importing)
      → import_rows format_time alloc f delim col_map s [] ≡ s
  unfolding import_rows csv_parse_row
  import_rows_nil zero delim col_map s = refl
  import_rows_nil (suc f) delim col_map s = refl

  import_rows_enough :
      (f g delim : ℕ) (col_map : CsvColumnMap) (s : Importing) (p : Bytes)
      → length p ≤ f
      → length p ≤ g
      → import_rows format_time alloc f delim col_map s p
        ≡ import_rows format_time alloc g delim col_map s p
  unfolding import_rows
  import_rows_enough zero g delim col_map s [] h k = sym (import_rows_nil g delim col_map s)
  import_rows_enough (suc f) zero delim col_map s [] h k = import_rows_nil (suc f) delim col_map s
  import_rows_enough zero g delim col_map s (c ∷ p) h k = absurd (omega arith)
  import_rows_enough (suc f) zero delim col_map s (c ∷ p) h k = absurd (omega arith)
  import_rows_enough (suc f) (suc g) delim col_map s [] h k =
      import_rows_nil (suc f) delim col_map s ∙ sym (import_rows_nil (suc g) delim col_map s)
  import_rows_enough (suc f) (suc g) delim col_map s (c ∷ p) h k =
      elim (Option-cases (csv_parse_row delim (c ∷ p))) [
        | inl e ↦ rw (e, import_rows) refl
        | inr (r, e) ↦ elim (Option-cases (import_row format_time alloc col_map r.0 s)) [
          | inl d ↦ rw (e, d, import_rows) refl
          | inr (next, d) ↦
              let shorter = csv_parse_row_shorter delim c p r e in
              rw (e, d, import_rows)
                (import_rows_enough f g delim col_map next r.1 (omega (arith, shorter, h))
                  (omega (arith, shorter, k)))
        ]
      ]

  -- More rounds than the data has bytes change nothing: each row that is read takes a byte at least,
  -- so that the loop comes to the end of the data or breaks.
  pub import_rows-length :
      (more delim : ℕ) (col_map : CsvColumnMap) (s : Importing) (p : Bytes)
      → import_rows format_time alloc (length p + more) delim col_map s p
        ≡ import_rows format_time alloc (length p) delim col_map s p
  import_rows-length more delim col_map s p =
      import_rows_enough (length p + more) (length p) delim col_map s p (omega arith) (omega arith)
