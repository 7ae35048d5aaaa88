-- ===== src/Csv/Write/Plain.antt =====
-- c/export_csv.c: the bytes of an exported file whose entries hold no tab, semicolon or bar.
use browserhistory.Csv.Write.{
  escape_quotes, csv_write_field, needs_quoting, print_int, separated, end_line, header_row,
  export_row, export_rows,
}
use browserhistory.Csv.Write.Decimal.{Every-append, print_decimal-Every}
use browserhistory.Csv.Delimiter.Plain.{is_plain, Every-implied}
use browserhistory.History.{HistoryEntry}
use browserhistory.Url.Print.{print_decimal}
use browserhistory.Url.Chars.{is_digit}
use browserhistory.Url.Host.{all_chars}
use browserhistory.Url.Print.RoundTrip.{Every}
use browserhistory.Prelude.{
  ℕ, ◌+◌, ◌≡◌, refl, inl, inr, Bool, true, List, [], ◌∷◌, ◌++◌, arith, ◌==◌, Bool-cases,
}
use browserhistory.Prelude.Int.{ℤ, pos, negsuc}
use browserhistory.Prelude.Text.{Bytes}

pub all_chars-Every : (test : ℕ → Bool) (s : Bytes) → all_chars test s ≡ true → Every test s
unfolding all_chars
all_chars-Every test [] h = tt
all_chars-Every test (c ∷ s) h = elim (Bool-cases (test c)) [
  | inl e ↦ (e, all_chars-Every test s (rw e at h))
  | inr e ↦ cc (rw e at h)
]

escape_quotes-Every : (s : Bytes) → Every is_plain s → Every is_plain (escape_quotes s)
unfolding escape_quotes
escape_quotes-Every [] h = tt
escape_quotes-Every (c ∷ s) h = elim (Bool-cases (c == b'"')) [
  | inl e ↦ rw e (refl, (refl, escape_quotes-Every s h.1))
  | inr e ↦ rw e (h.0, escape_quotes-Every s h.1)
]

csv_write_field-Every : (s : Bytes) → Every is_plain s → Every is_plain (csv_write_field s)
unfolding csv_write_field
csv_write_field-Every s h = elim (Bool-cases (needs_quoting s)) [
  | inl e ↦ rw e (
    refl,
    Every-append is_plain (escape_quotes s) (b'"' ∷ []) (escape_quotes-Every s h) (refl, tt),
  )
  | inr e ↦ rw e h
]

digit-is_plain : (c : ℕ) → is_digit c ≡ true → is_plain c ≡ true
digit-is_plain c h = ground (arith, h)

print_int-Every : (n : ℤ) → Every is_plain (print_int n)
unfolding print_int
print_int-Every (pos n) =
    Every-implied is_plain is_digit digit-is_plain (print_decimal 10 n) (print_decimal-Every 10 n)
print_int-Every (negsuc n) = (
  refl,
  Every-implied is_plain is_digit digit-is_plain (print_decimal 10 (n + 1))
      (print_decimal-Every 10 (n + 1)),
)

separated-Every :
    (s rest : Bytes) → Every is_plain s → Every is_plain rest → Every is_plain (separated s rest)
separated-Every s rest h k = Every-append is_plain s (b',' ∷ rest) h (refl, k)

-- The texts of an entry hold no tab, semicolon or bar.
pub record IsPlain (e : HistoryEntry) : Type 0 where
  pub plain_url : Every is_plain e.url
  pub plain_title : Every is_plain e.title
  pub plain_time : Every is_plain e.last_visit_time

abbrev pub AllPlain : List HistoryEntry → Type 0
AllPlain [] = Unit
AllPlain (e ∷ es) = IsPlain e × AllPlain es

export_row-Every : (e : HistoryEntry) → IsPlain e → Every is_plain (export_row e)
unfolding export_row
export_row-Every e h =
    separated-Every (csv_write_field e.url) _ (csv_write_field-Every e.url h.plain_url) (
      separated-Every (csv_write_field e.title) _ (csv_write_field-Every e.title h.plain_title) (
        separated-Every (print_int e.visit_count) _ (print_int-Every e.visit_count) (
          separated-Every (print_int e.typed_count) _ (print_int-Every e.typed_count) (
            Every-append is_plain (csv_write_field e.last_visit_time) end_line
              (csv_write_field-Every e.last_visit_time h.plain_time) (refl, (refl, tt))))))

export_rows-Every : (es : List HistoryEntry) → AllPlain es → Every is_plain (export_rows es)
unfolding export_rows
export_rows-Every [] h = tt
export_rows-Every (e ∷ es) h =
    Every-append is_plain (export_row e) (export_rows es) (export_row-Every e h.0)
      (export_rows-Every es h.1)

-- So does an export with a header, behind the byte order mark.
pub header_export_rows-Every :
    (es : List HistoryEntry) → AllPlain es → Every is_plain (header_row ++ export_rows es)
unfolding all_chars
header_export_rows-Every es h =
    Every-append is_plain header_row (export_rows es) (all_chars-Every is_plain header_row refl)
      (export_rows-Every es h)
