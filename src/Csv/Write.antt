-- ===== src/Csv/Write.antt =====
-- c/export_csv.c. A function returns what it writes to the stream, in place of writing it.
pub mod Decimal
pub mod Fields
pub mod Plain
pub mod RoundTrip
use browserhistory.Prelude.{
  ℕ, zero, suc, ◌+◌, ◌-◌, ◌*◌, ◌/◌, ◌%◌, ◌^◌, ◌≤◌, ◌<◌, ◌≡◌, refl, sym, ap, ◌∙◌, ◌≢◌, ◌↔◌, ◌⊎◌, inl,
  inr, Bool, true, false, not, ◌&&◌, ◌||◌, Option, none, some, List, [], ◌∷◌, ◌++◌, map, append-nil,
  append_assoc, arith, ltb, leb, ◌==◌, if◌then◌else◌, Bool-cases, Option-cases, length, get_elem?,
  get_or, take, drop, length-append, length-take, length-drop, take-eq_self, drop-eq_nil,
  take-append_self, drop-append_self,
}
use browserhistory.Prelude.Int.{ℤ, pos, negsuc, minus_one, is_positive, is_nat, pos_part}
use browserhistory.Prelude.Text.{
  Bytes, codes, copy_into, is_nonempty, str_eq, c_string, span, NoNul, AreBytes, c_string-NoNul,
}
use browserhistory.History.{HistoryEntry}
use browserhistory.Url.Print.{print_decimal}

abbrev pub is_special : ℕ → Bool
is_special c = c == b',' || c == b'"' || c == b'\n' || c == b'\r'

unfoldable pub needs_quoting : Bytes → Bool
needs_quoting [] = false
needs_quoting (c ∷ s) = is_special c || needs_quoting s

unfoldable pub escape_quotes : Bytes → Bytes
escape_quotes [] = []
escape_quotes (c ∷ s) =
    let rest = escape_quotes s in if c == b'"' then b'"' ∷ b'"' ∷ rest else c ∷ rest

unfoldable pub csv_write_field : Bytes → Bytes
csv_write_field field =
    if needs_quoting field then b'"' ∷ escape_quotes field ++ b'"' ∷ [] else field

-- `%d` of an `int`
unfoldable pub print_int : ℤ → Bytes
print_int (pos n) = print_decimal 10 n
print_int (negsuc n) = b'-' ∷ print_decimal 10 (n + 1)

abbrev pub end_line : Bytes
end_line = b'\r' ∷ b'\n' ∷ []

-- `fputc(',', out);` between two writes
abbrev pub separated : Bytes → Bytes → Bytes
separated s rest = s ++ b',' ∷ rest

unfoldable pub export_row : HistoryEntry → Bytes
export_row e = separated (csv_write_field e.url) (
    separated (csv_write_field e.title) (
      separated (print_int e.visit_count)
        (separated (print_int e.typed_count) (csv_write_field e.last_visit_time ++ end_line))))

unfoldable pub export_rows : List HistoryEntry → Bytes
export_rows [] = []
export_rows (e ∷ es) = export_row e ++ export_rows es

abbrev pub bom : Bytes
bom = 0xEF ∷ 0xBB ∷ 0xBF ∷ []

abbrev pub header_row : Bytes
header_row = codes "url,title,visit_count,typed_count,last_visit_time" ++ end_line

unfoldable pub export_csv_stream : List HistoryEntry → Bool → Bytes
export_csv_stream entries include_header =
    bom ++ (if include_header then header_row else []) ++ export_rows entries
