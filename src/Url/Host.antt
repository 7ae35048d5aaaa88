-- ===== src/Url/Host.antt =====
-- c/url_parser.c: IP addresses in the host.
use browserhistory.Prelude.{
  ℕ, zero, suc, ◌+◌, ◌-◌, ◌*◌, Bool, true, false, not, ◌&&◌, ◌||◌, Option, none, some, List, [],
  ◌∷◌, ltb, ◌==◌, if◌then◌else◌, drop,
}
use browserhistory.Prelude.Text.{Bytes, is_nonempty, span}
use browserhistory.Url.Chars.{is_digit, within}

-- `strtol` in base 10, on digits.
unfoldable pub decimal_from : ℕ → Bytes → ℕ
decimal_from acc [] = acc
decimal_from acc (c ∷ s) = decimal_from (acc * 10 + (c - b'0')) s

abbrev pub decimal : Bytes → ℕ
decimal = decimal_from 0

abbrev octet_then : ℕ → Option (List ℕ) → Option (List ℕ)
octet_then val none = none
octet_then val (some parts) = some (val ∷ parts)

-- What may follow an octet: a dot and more octets, or the end after the last one.
abbrev after_octet : ℕ → Bytes → Option (List ℕ) → Option (List ℕ)
after_octet zero [] more = some []
after_octet zero (c ∷ rest) more = none
after_octet (suc slots) [] more = none
after_octet (suc slots) (c ∷ rest) more = if c == b'.' then more else none

-- `slots` is 4 - n, the octets still to be read.
unfoldable pub ipv4_from : ℕ → Bytes → Option (List ℕ)
unfolding decimal_from
ipv4_from zero p = some []
ipv4_from (suc slots) p =
    let (digits, rest) = span is_digit p in
    let more = ipv4_from slots (drop 1 rest) in
    if not (is_nonempty digits) || ltb 255 (decimal digits)
    then none
    else octet_then (decimal digits) (after_octet slots rest more)

-- The octets of a dotted address; `none` is the answer 0.
unfoldable pub parse_ipv4 : Bytes → Option (List ℕ)
parse_ipv4 = ipv4_from 4

abbrev is_ipv6_char : ℕ → Bool
is_ipv6_char c = is_digit c || within b'a' b'f' c || within b'A' b'F' c || c == b':' || c == b'.'

unfoldable pub all_chars : (ℕ → Bool) → Bytes → Bool
all_chars test [] = true
all_chars test (c ∷ s) = test c && all_chars test s

abbrev pub starts_with_byte : ℕ → Bytes → Bool
starts_with_byte b [] = false
starts_with_byte b (c ∷ _) = c == b

unfoldable pub detect_ipv6_bracket : Bytes → Bool
detect_ipv6_bracket host =
    let (content, close) = span (λ c. not (c == b']')) (drop 1 host) in
    starts_with_byte b'[' host && is_nonempty close && all_chars is_ipv6_char content
