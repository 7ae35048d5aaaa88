-- ===== src/Url/Print/RoundTrip/Octets.antt =====
-- c/url_parser.c: parse_ipv4 on dotted addresses.
use browserhistory.Prelude.{
  ℕ, zero, suc, ◌≤◌, ◌≡◌, refl, inl, inr, false, some, List, [], ◌∷◌, ◌++◌, arith, ltb,
  Option-cases, length, drop,
}
use browserhistory.Prelude.Text.{Bytes, span}
use browserhistory.Url.Chars.{is_digit}
use browserhistory.Url.Host.{ipv4_from, parse_ipv4}
use browserhistory.Url.Print.{print_decimal}
use browserhistory.Url.Print.RoundTrip.{span-append}
use browserhistory.Url.Print.RoundTrip.Pieces.{
  decimal-print, print_decimal-digits, nonempty-print_decimal, span_all,
}

-- The octets in decimal with dots between them.
abbrev pub print_octets : List ℕ → Bytes
print_octets [] = []
print_octets (n ∷ []) = print_decimal 10 n
print_octets (n ∷ m ∷ ns) = print_decimal 10 n ++ b'.' ∷ print_octets (m ∷ ns)

abbrev pub AreOctets : List ℕ → Type 0
AreOctets [] = Unit
AreOctets (n ∷ ns) = (n ≤ 255) × AreOctets ns

ipv4_from-print : (ns : List ℕ) → AreOctets ns → ipv4_from (length ns) (print_octets ns) ≡ some ns
unfolding ipv4_from
ipv4_from-print [] h = refl
ipv4_from-print (n ∷ []) h =
    let read = span_all is_digit (print_decimal 10 n) (print_decimal-digits 10 n) in
    let value = decimal-print 10 n (omega (arith, h.0)) in
    let small : ltb 255 n ≡ false = ground (arith, h.0) in
    rw (read, nonempty-print_decimal 9 n, value, small)
ipv4_from-print (n ∷ m ∷ ns) h =
    let behind = b'.' ∷ print_octets (m ∷ ns) in
    let read = span-append is_digit (print_decimal 10 n) behind (print_decimal-digits 10 n) refl in
    let value = decimal-print 10 n (omega (arith, h.0)) in
    let small : ltb 255 n ≡ false = ground (arith, h.0) in
    rw (read, nonempty-print_decimal 9 n, value, small, ipv4_from-print (m ∷ ns) h.1)

ipv4_from-octets :
    (slots : ℕ) (p : Bytes) (ns : List ℕ)
    → ipv4_from slots p ≡ some ns
    → AreOctets ns × (length ns ≡ slots)
unfolding ipv4_from
ipv4_from-octets zero p ns e = ground (arith, e)
ipv4_from-octets (suc zero) p ns e = ground (arith, e)
ipv4_from-octets (suc (suc slots)) p ns e =
    let rest = drop 1 (span is_digit p).1 in
    elim (Option-cases (ipv4_from (suc slots) rest)) [
      | inl d ↦ ground (arith, e, d)
      | inr (ms, d) ↦ ground (arith, e, d, ipv4_from-octets (suc slots) rest ms d)
    ]

-- Four octets in decimal with dots between them are parsed back as these octets.
pub parse_ipv4-print_octets :
    (a b c d : ℕ)
    → AreOctets (a ∷ b ∷ c ∷ d ∷ [])
    → parse_ipv4 (print_octets (a ∷ b ∷ c ∷ d ∷ [])) ≡ some (a ∷ b ∷ c ∷ d ∷ [])
unfolding parse_ipv4
parse_ipv4-print_octets a b c d h = ipv4_from-print (a ∷ b ∷ c ∷ d ∷ []) h

-- A text that is taken for an address gives four octets of at most 255.
pub parse_ipv4-AreOctets :
    (host : Bytes) {ns : List ℕ} → parse_ipv4 host ≡ some ns → AreOctets ns × (length ns ≡ 4)
unfolding parse_ipv4
parse_ipv4-AreOctets host e = ipv4_from-octets 4 host _ e
