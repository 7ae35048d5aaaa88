-- ===== src/Url/Print/RoundTrip.antt =====
-- c/url_parser.c: a URL is parsed back from its text.
pub mod Pieces
pub mod Whole
pub mod Octets
use browserhistory.Prelude.{
  ℕ, zero, suc, ◌+◌, ◌-◌, ◌*◌, ◌/◌, ◌%◌, ◌^◌, ◌≤◌, ◌<◌, ◌≡◌, refl, sym, ap, ◌∙◌, ◌≢◌, ◌↔◌, ◌⊎◌, inl,
  inr, Bool, true, false, not, ◌&&◌, ◌||◌, Option, none, some, List, [], ◌∷◌, ◌++◌, map, append-nil,
  append_assoc, arith, ltb, leb, ◌==◌, if◌then◌else◌, Bool-cases, Option-cases, length, get_elem?,
  get_or, take, drop, length-append, length-take, length-drop, take-eq_self, drop-eq_nil,
}
use browserhistory.Prelude.Int.{ℤ, pos, negsuc, minus_one, is_positive, is_nat, pos_part}
use browserhistory.Prelude.Text.{
  Bytes, codes, copy_into, is_nonempty, str_eq, c_string, span, NoNul, AreBytes,
}
use browserhistory.Url.Chars.{to_lower, is_digit, is_scheme_char, is_alpha, is_upper}
use browserhistory.Url.Host.{decimal, decimal_from, starts_with_byte}
use browserhistory.Url.Parse.{
  ParsedUrl, blank_url, lowercase, ends_authority, extract_scheme, skip_slashes, split_userinfo,
  split_host, split_port, parse_authority, parse_components, classify_host, url_parse,
  parse_without_scheme,
}
use browserhistory.Url.Print.Buffer.{join, url_text}
use browserhistory.Url.Print.{print_decimal, url_parts}

abbrev pub Every : (ℕ → Bool) → Bytes → Type 0
Every test [] = Unit
Every test (c ∷ s) = (test c ≡ true) × Every test s

-- The text ends, or goes on with a byte that fails the test.
abbrev pub Stops : (ℕ → Bool) → Bytes → Type 0
Stops test [] = Unit
Stops test (c ∷ s) = test c ≡ false

pub span-append :
    (test : ℕ → Bool) (s rest : Bytes)
    → Every test s
    → Stops test rest
    → span test (s ++ rest) ≡ (s, rest)
unfolding span
span-append test [] [] h k = refl
span-append test [] (c ∷ rest) h k = rw k
span-append test (c ∷ s) rest h k = rw (h.0, span-append test s rest h.1 k)

-- A URL that the parser can give back: a lower-case scheme, a host that is a name, an absolute
-- path, and parts that fit their fields and hold no byte that would end them.
abbrev pub is_user_char : ℕ → Bool
is_user_char c = not (c == b'@' || ends_authority c)

abbrev pub is_host_char : ℕ → Bool
is_host_char c = not (c == b':' || ends_authority c)

abbrev pub is_path_char : ℕ → Bool
is_path_char c = not (c == b'?' || c == b'#')

abbrev pub is_query_char : ℕ → Bool
is_query_char c = not (c == b'#')

abbrev pub is_lower_scheme : ℕ → Bool
is_lower_scheme c = is_scheme_char false c && not (is_upper c)

abbrev pub IsPort : ℤ → Type 0
IsPort (pos n) = (1 ≤ n) × (n ≤ 65535)
IsPort (negsuc n) = n ≡ 0

abbrev pub starts_alpha : Bytes → Bool
starts_alpha [] = false
starts_alpha (c ∷ _) = is_alpha c

pub record IsCanonical (u : ParsedUrl) : Type 0 where
  pub scheme_chars : Every is_lower_scheme u.scheme
  pub scheme_start : starts_alpha u.scheme ≡ true
  pub scheme_fits : length u.scheme ≤ 30
  pub userinfo_chars : Every is_user_char u.userinfo
  pub userinfo_fits : length u.userinfo ≤ 255
  pub host_chars : Every is_host_char u.host
  pub host_no_at : Every (λ c. not (c == b'@')) u.host
  pub host_start : starts_with_byte b'[' u.host ≡ false
  pub host_nonempty : is_nonempty u.host ≡ true
  pub host_fits : length u.host ≤ 255
  pub port_fits : IsPort u.port
  pub path_absolute : is_nonempty u.path ≡ starts_with_byte b'/' u.path
  pub path_chars : Every is_path_char u.path
  pub path_fits : length u.path ≤ 2047
  pub query_chars : Every is_query_char u.query
  pub query_fits : length u.query ≤ 4095
  pub fragment_fits : length u.fragment ≤ 511
