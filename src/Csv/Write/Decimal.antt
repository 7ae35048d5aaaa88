-- ===== src/Csv/Write/Decimal.antt =====
-- c/export_csv.c: the numbers that `%d` writes, as `atoi` reads them.
use browserhistory.Prelude.{
  ℕ, zero, suc, ◌+◌, ◌-◌, ◌*◌, ◌/◌, ◌%◌, ◌≤◌, ◌<◌, ◌≡◌, refl, sym, ap, ◌∙◌, inl, inr, Bool, true,
  false, [], ◌∷◌, ◌++◌, append-nil, arith, ltb, ◌==◌, Bool-cases, length, length-append,
}
use browserhistory.Prelude.Int.{ℤ, pos, negsuc}
use browserhistory.Prelude.Text.{Bytes, c_string, span, NoNul, c_string-NoNul}
use browserhistory.Url.Chars.{is_digit}
use browserhistory.Url.Host.{decimal, decimal_from}
use browserhistory.Url.Print.{print_decimal}
use browserhistory.Url.Print.RoundTrip.{Every, span-append}
use browserhistory.Strings.{minus, is_space, atoi, atoi_sign}
use browserhistory.Strings.{trim_end}
use browserhistory.Csv.Write.{print_int, needs_quoting, is_special, csv_write_field}
use browserhistory.Csv.Write.Fields.{FitsField}

pub Every-append :
    (test : ℕ → Bool) (s t : Bytes) → Every test s → Every test t → Every test (s ++ t)
Every-append test [] t h k = k
Every-append test (c ∷ s) t h k = (h.0, Every-append test s t h.1 k)

digit-is_digit : (n : ℕ) → n < 10 → is_digit (b'0' + n) ≡ true
digit-is_digit n h = ground arith

pub print_decimal-Every : (fuel n : ℕ) → Every is_digit (print_decimal fuel n)
unfolding print_decimal
print_decimal-Every zero n = tt
print_decimal-Every (suc fuel) n = elim (Bool-cases (ltb n 10)) [
  | inl e ↦ rw e (digit-is_digit n (ground (arith, e)), tt)
  | inr e ↦ rw e (
      Every-append is_digit (print_decimal fuel (n / 10)) ((b'0' + n % 10) ∷ [])
        (print_decimal-Every fuel (n / 10)) (digit-is_digit (n % 10) (omega arith), tt))
]

decimal_from-append :
    (acc : ℕ) (s : Bytes) (c : ℕ)
    → decimal_from acc (s ++ c ∷ []) ≡ decimal_from acc s * 10 + (c - b'0')
unfolding decimal_from
decimal_from-append acc [] c = refl
decimal_from-append acc (d ∷ s) c = decimal_from-append (acc * 10 + (d - b'0')) s c

-- The numbers of so many digits are those below this power of ten.
abbrev pub digits_bound : ℕ → ℕ
digits_bound zero = 1
digits_bound (suc n) = digits_bound n * 10

one_digit : (n : ℕ) → decimal ((b'0' + n) ∷ []) ≡ n
unfolding decimal_from
one_digit n = omega arith

pub decimal-print_decimal :
    (fuel n : ℕ) → n < digits_bound (suc fuel) → decimal (print_decimal (suc fuel) n) ≡ n
unfolding print_decimal
decimal-print_decimal zero n h =
    let small : ltb n 10 ≡ true = ground (arith, h) in rw small (one_digit n)
decimal-print_decimal (suc fuel) n h = elim (Bool-cases (ltb n 10)) [
  | inl e ↦ rw e (one_digit n)
  | inr e ↦
      let high = decimal-print_decimal fuel (n / 10) (omega (arith, h)) in
      let text = print_decimal (suc fuel) (n / 10) in
      rw (e, decimal_from-append 0 text (b'0' + n % 10), high) (omega arith)
]

length-print_decimal : (fuel n : ℕ) → length (print_decimal fuel n) ≤ fuel
unfolding print_decimal
length-print_decimal zero n = omega arith
length-print_decimal (suc fuel) n = ground (
  arith,
  length-print_decimal fuel (n / 10),
  length-append (print_decimal fuel (n / 10)) ((b'0' + n % 10) ∷ []),
)

digits-trim_end : (s : Bytes) → Every is_digit s → trim_end s ≡ s
unfolding trim_end
digits-trim_end [] h = refl
digits-trim_end (c ∷ s) h =
    let space : is_space c ≡ false = ground (arith, h.0) in rw (digits-trim_end s h.1, space) refl

pub print_int-FitsField : (n : ℤ) → FitsField (print_int n)
unfolding print_int needs_quoting trim_end
print_int-FitsField (pos n) =
    let digits = print_decimal-Every 10 n in
    (omega (arith, length-print_decimal 10 n), inr (digits-trim_end (print_decimal 10 n) digits))
print_int-FitsField (negsuc n) =
    let digits = print_decimal-Every 10 (n + 1) in
    (
      omega (arith, length-print_decimal 10 (n + 1)),
      inr (rw (digits-trim_end (print_decimal 10 (n + 1)) digits) refl),
    )

digits-needs_quoting : (s : Bytes) → Every is_digit s → needs_quoting s ≡ false
unfolding needs_quoting
digits-needs_quoting [] h = refl
digits-needs_quoting (c ∷ s) h =
    let plain : is_special c ≡ false = ground (arith, h.0) in rw plain (digits-needs_quoting s h.1)

pub csv_write_field-print_int : (n : ℤ) → csv_write_field (print_int n) ≡ print_int n
unfolding print_int csv_write_field needs_quoting
csv_write_field-print_int (pos n) =
    rw (digits-needs_quoting (print_decimal 10 n) (print_decimal-Every 10 n)) refl
csv_write_field-print_int (negsuc n) =
    rw (digits-needs_quoting (print_decimal 10 (n + 1)) (print_decimal-Every 10 (n + 1))) refl

print_decimal_some : (fuel n : ℕ) → 0 < length (print_decimal (suc fuel) n)
unfolding print_decimal
print_decimal_some fuel n =
    ground (arith, length-append (print_decimal fuel (n / 10)) ((b'0' + n % 10) ∷ []))

span_digits : (s : Bytes) → Every is_digit s → (span is_digit s).0 ≡ s
span_digits s h =
    ap (λ t. (span is_digit t).0) (sym (append-nil s))
    ∙ ap (λ p. p.0) (span-append is_digit s [] h tt)

digit_tests :
    (c : ℕ)
    → is_digit c ≡ true
    → (is_space c ≡ false) × ((c == b'-') ≡ false) × ((c == b'+') ≡ false)
digit_tests c h = (ground (arith, h), ground (arith, h), ground (arith, h))

atoi_digits : (s : Bytes) → Every is_digit s → 0 < length s → atoi s ≡ pos (decimal s)
unfolding atoi atoi_sign
atoi_digits [] h k = absurd (omega (arith, k))
atoi_digits (c ∷ s) h k =
    let (space, dash, plus) = digit_tests c h.0 in
    rw (space, dash, plus) (ap (λ t. pos (decimal t)) (span_digits (c ∷ s) h))

atoi_dash : (s : Bytes) → Every is_digit s → atoi (b'-' ∷ s) ≡ minus (decimal s)
unfolding atoi atoi_sign
atoi_dash s h = ap (λ t. minus (decimal t)) (span_digits s h)

digits-NoNul : (s : Bytes) → Every is_digit s → NoNul s
digits-NoNul [] h = tt
digits-NoNul (c ∷ s) h = (ground (arith, h.0), digits-NoNul s h.1)

-- The values of an `int`.
abbrev pub IsInt : ℤ → Type 0
IsInt (pos n) = n < 2147483648
IsInt (negsuc n) = n < 2147483648

print_int-NoNul : (n : ℤ) → NoNul (print_int n)
unfolding print_int
print_int-NoNul (pos n) = digits-NoNul (print_decimal 10 n) (print_decimal-Every 10 n)
print_int-NoNul (negsuc n) =
    (ground arith, digits-NoNul (print_decimal 10 (n + 1)) (print_decimal-Every 10 (n + 1)))

minus-add_one : (n : ℕ) → minus (n + 1) ≡ negsuc n
minus-add_one n = let same : n + 1 ≡ suc n = omega arith in rw same refl

atoi-print_int : (n : ℤ) → IsInt n → atoi (print_int n) ≡ n
unfolding print_int
atoi-print_int (pos n) h =
    atoi_digits (print_decimal 10 n) (print_decimal-Every 10 n) (print_decimal_some 9 n)
    ∙ ap pos (decimal-print_decimal 9 n (omega (arith, h)))
atoi-print_int (negsuc n) h =
    atoi_dash (print_decimal 10 (n + 1)) (print_decimal-Every 10 (n + 1))
    ∙ ap minus (decimal-print_decimal 9 (n + 1) (omega (arith, h)))
    ∙ minus-add_one n

-- A number that is written is read back.
pub atoi-c_string-print_int : (n : ℤ) → IsInt n → atoi (c_string (print_int n)) ≡ n
atoi-c_string-print_int n h =
    ap atoi (c_string-NoNul (print_int n) (print_int-NoNul n)) ∙ atoi-print_int n h
