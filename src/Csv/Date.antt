-- ===== src/Csv/Date.antt =====
-- c/csv_import.c: csv_detect_date_format and csv_parse_date. The parameter `format_time` stands for
-- `gmtime` and `strftime` with the format of ISO 8601; it has no result where `gmtime` has none. A
-- number that is read has no bound here.
use browserhistory.Prelude.{
  replicate, ℕ, ◌+◌, ◌-◌, ◌/◌, Bool, not, ◌&&◌, ◌||◌, Option, none, some, List, [], ◌∷◌, ◌++◌, ltb,
  leb, ◌==◌, if◌then◌else◌, length, get_or, take, drop,
}
use browserhistory.Prelude.Int.{ℤ, pos, negsuc, is_positive, is_nat, pos_part}
use browserhistory.Prelude.Text.{Bytes, copy_into, is_nonempty, span}
use browserhistory.Url.Chars.{is_digit}
use browserhistory.Url.Host.{all_chars, decimal}
use browserhistory.Url.Print.{print_decimal}
use browserhistory.Strings.{minus, is_space, skip_spaces, atoi}
use browserhistory.Csv.{
  CsvDateFormat, date_auto, date_iso8601, date_us, date_eu, date_unix, date_unix_ms, date_chromium,
}

-- `n >= 1 && n <= bound`
abbrev pub from_one : ℕ → ℤ → Bool
from_one bound n = is_positive n && leb (pos_part n) bound

unfoldable pub detect_number : Bytes → CsvDateFormat → CsvDateFormat
detect_number s other =
    if not (all_chars is_digit s)
    then other
    else if leb 16 (length s)
    then date_chromium
    else if leb 13 (length s)
    then date_unix_ms
    else if leb 9 (length s)
    then date_unix
    else other

unfoldable pub detect_separated : Bytes → CsvDateFormat
detect_separated s =
    let first = atoi s in
    let second = atoi (drop 3 s) in
    let slash = get_or s 2 0 == b'/' in
    if leb 8 (length s) && slash && from_one 12 first && from_one 31 second
    then date_us
    else if leb 8 (length s)
        && (slash || get_or s 2 0 == b'.')
        && from_one 31 first
        && from_one 12 second
    then date_eu
    else date_auto

unfoldable pub csv_detect_date_format : Bytes → CsvDateFormat
csv_detect_date_format s =
    if not (is_nonempty s)
    then date_auto
    else if leb 10 (length s) && get_or s 4 0 == b'-' && get_or s 7 0 == b'-'
    then date_iso8601
    else detect_number s (detect_separated s)

-- `sscanf` with the directives `%d`, a character, and white space.
pub data Directive : Type 0 where
  integer space : Directive
  exactly : ℕ → Directive

unfoldable pub scan_digits : (ℕ → ℤ) → Bytes → Option (ℤ × Bytes)
scan_digits sign s =
    let (digits, rest) = span is_digit s in
    if is_nonempty digits then some (sign (decimal digits), rest) else none

unfoldable pub scan_int : Bytes → Option (ℤ × Bytes)
scan_int [] = none
scan_int (c ∷ s) =
    if c == b'-'
    then scan_digits minus s
    else if c == b'+'
    then scan_digits pos s
    else scan_digits pos (c ∷ s)

-- The numbers that are read, and what is left where every directive has its match.
unfoldable pub scan : List Directive → Bytes → List ℤ × Option Bytes
scan [] s = ([], some s)
scan (space ∷ format) s = scan format (skip_spaces s)
scan (exactly c ∷ format) [] = ([], none)
scan (exactly c ∷ format) (d ∷ s) = let more = scan format s in if d == c then more else ([], none)
scan (integer ∷ format) s = elim (scan_int (skip_spaces s)) [
  | none ↦ ([], none)
  | some (n, rest) ↦ let (ns, left) = scan format rest in (n ∷ ns, left)
]

abbrev pub date_time : ℕ → List Directive
date_time separator =
    integer
    ∷ exactly separator
    ∷ integer
    ∷ exactly separator
    ∷ integer
    ∷ space
    ∷ integer
    ∷ exactly b':'
    ∷ integer
    ∷ exactly b':'
    ∷ integer
    ∷ []

-- `a - b`
unfoldable pub difference : ℕ → ℕ → ℤ
difference a b = if leb b a then pos (a - b) else negsuc (b - a - 1)

unfoldable pub add_nat : ℤ → ℕ → ℤ
unfolding difference
add_nat (pos n) k = pos (n + k)
add_nat (negsuc n) k = difference k (n + 1)

-- `%0wd`
unfoldable pub print_padded : ℕ → ℤ → Bytes
print_padded w (pos n) =
    let digits = print_decimal 10 n in replicate (w - length digits) b'0' ++ digits
print_padded w (negsuc n) =
    let digits = print_decimal 10 (n + 1) in b'-' ∷ replicate (w - 1 - length digits) b'0' ++ digits

-- `if (year < 100) year += 2000;`
unfoldable pub full_year : ℤ → ℤ
full_year (negsuc n) = add_nat (negsuc n) 2000
full_year (pos n) = if ltb n 100 then pos (n + 2000) else pos n

unfoldable pub print_date_time : ℤ → ℤ → ℤ → ℤ → ℤ → ℤ → Bytes
print_date_time year month day hour minute second =
    print_padded 4 (full_year year)
    ++ b'-' ∷ print_padded 2 month
    ++ b'-' ∷ print_padded 2 day
    ++ b'T' ∷ print_padded 2 hour
    ++ b':' ∷ print_padded 2 minute
    ++ b':' ∷ print_padded 2 second
    ++ b'Z' ∷ []

-- `%3s` behind white space, where the format came to it.
abbrev pub half_of_day : Option Bytes → ℕ
half_of_day none = 0
half_of_day (some s) = get_or (take 3 (span (λ c. not (is_space c)) (skip_spaces s)).0) 0 0

unfoldable pub adjust_hour : ℕ → ℤ → ℤ
adjust_hour half hour =
    if half == b'P' || half == b'p'
    then if is_nat hour 12 then hour else add_nat hour 12
    else if (half == b'A' || half == b'a') && is_nat hour 12
    then pos 0
    else hour

abbrev pub value_at : List ℤ → ℕ → ℤ
value_at ns i = get_or ns i (pos 0)

unfoldable pub parse_us : Bytes → Option Bytes
parse_us src =
    let (ns, rest) = scan (date_time b'/') src in
    if ltb (length ns) 3
    then none
    else some (
        print_date_time (value_at ns 2) (value_at ns 0) (value_at ns 1)
          (adjust_hour (half_of_day rest) (value_at ns 3)) (value_at ns 4) (value_at ns 5))

abbrev pub print_eu : List ℤ → Option Bytes
print_eu ns =
    if ltb (length ns) 3
    then none
    else some (
        print_date_time (value_at ns 2) (value_at ns 1) (value_at ns 0) (value_at ns 3)
          (value_at ns 4) (value_at ns 5))

unfoldable pub parse_eu : Bytes → Option Bytes
parse_eu src =
    let slashed = (scan (date_time b'/') src).0 in
    if ltb (length slashed) 3 then print_eu (scan (date_time b'.') src).0 else print_eu slashed

-- `strchr(s, c) != NULL`
abbrev pub has_byte : ℕ → Bytes → Bool
has_byte c s = is_nonempty (span (λ d. not (d == c)) s).1

abbrev pub with_t : Bytes → Bytes
with_t s =
    let (front, back) = span (λ d. not (d == b' ')) s in
    if length front == 10 && is_nonempty back then front ++ b'T' ∷ drop 1 back else s

unfoldable pub with_zone : ℕ → Bytes → Bytes
with_zone dstsize s =
    let last = get_or s (length s - 1) 0 in
    if leb 19 (length s)
      && not (last == b'Z')
      && not (last == b'+')
      && not (has_byte b'+' (drop 19 s))
      && not (has_byte b'-' (drop 19 s))
      && ltb (length s + 1) dstsize
    then s ++ b'Z' ∷ []
    else s

unfoldable pub normalize_iso : ℕ → Bytes → Bytes
normalize_iso dstsize src = with_zone dstsize (with_t (copy_into dstsize src))

module _ (format_time : ℤ → Option Bytes) where
  abbrev pub leading_number : Bytes → ℕ
  leading_number src = decimal (span is_digit src).0

  -- What is written to `dst` before it is cut to its size.
  unfoldable pub parse_as : CsvDateFormat → ℕ → Bytes → Option Bytes
  parse_as date_auto dstsize src = none
  parse_as date_iso8601 dstsize src = some (normalize_iso dstsize src)
  parse_as date_unix dstsize src = format_time (pos (leading_number src))
  parse_as date_unix_ms dstsize src = format_time (pos (leading_number src / 1000))
  parse_as date_chromium dstsize src =
      format_time (difference (leading_number src / 1000000) 11644473600)
  parse_as date_us dstsize src = parse_us src
  parse_as date_eu dstsize src = parse_eu src

  abbrev pub chosen : CsvDateFormat → Bytes → CsvDateFormat
  chosen date_auto src = csv_detect_date_format src
  chosen fmt src = fmt

  -- The text in `dst`, or `none` for -1.
  unfoldable pub csv_parse_date : Bytes → CsvDateFormat → ℕ → Option Bytes
  csv_parse_date src fmt dstsize =
      if ltb dstsize 21 then none else elim (parse_as (chosen fmt src) dstsize src) [
        | none ↦ none
        | some text ↦ some (copy_into dstsize text)
      ]
