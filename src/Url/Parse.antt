-- ===== src/Url/Parse.antt =====
-- c/url_parser.c, url_parse and what it calls, on a string with no NUL in it: `url_str` is its
-- bytes, and what is left of it takes the place of the pointer `p`.
use browserhistory.Prelude.{
  ℕ, ◌-◌, Bool, true, false, not, ◌&&◌, ◌||◌, Option, none, some, List, [], ◌∷◌, ◌++◌, map, ltb,
  leb, ◌==◌, if◌then◌else◌, length, take, drop,
}
use browserhistory.Prelude.Int.{ℤ, pos, minus_one}
use browserhistory.Prelude.Text.{Bytes, copy_into, is_nonempty, span}
use browserhistory.Url.Chars.{is_scheme_char, to_lower, is_digit}
use browserhistory.Url.Host.{decimal, starts_with_byte, detect_ipv6_bracket, parse_ipv4}

abbrev pub scheme_size : ℕ
scheme_size = 32

abbrev pub host_size : ℕ
host_size = 256

abbrev pub userinfo_size : ℕ
userinfo_size = 256

abbrev pub port_size : ℕ
port_size = 8

abbrev pub path_size : ℕ
path_size = 2048

abbrev pub query_size : ℕ
query_size = 4096

abbrev pub fragment_size : ℕ
fragment_size = 512

pub record QueryParam : Type 0 where
  pub key : Bytes
  pub value : Bytes

-- `ipv4_addr` is a list of four octets where `is_ipv4` holds, else empty.
pub record ParsedUrl : Type 0 where
  pub scheme : Bytes
  pub userinfo : Bytes
  pub host : Bytes
  pub port : ℤ
  pub path : Bytes
  pub query : Bytes
  pub fragment : Bytes
  pub hostname_decoded : Bytes
  pub is_ipv4 : Bool
  pub is_ipv6 : Bool
  pub ipv4_addr : List ℕ
  pub params : List QueryParam

-- The struct after `memset`, with no port.
abbrev pub blank_url : ParsedUrl
blank_url = record {
  scheme = [];
  userinfo = [];
  host = [];
  port = minus_one;
  path = [];
  query = [];
  fragment = [];
  hostname_decoded = [];
  is_ipv4 = false;
  is_ipv6 = false;
  ipv4_addr = [];
  params = [];
}

abbrev pub lowercase : Bytes → Bytes
lowercase = map to_lower

-- Up to two slashes behind the scheme are skipped, both or none.
unfoldable pub skip_slashes : Bytes → Bytes
skip_slashes (a ∷ b ∷ s) = if a == b'/' && b == b'/' then s else a ∷ b ∷ s
skip_slashes s = s

abbrev scheme_rest : Bytes → Bytes → Option (Bytes × Bytes)
scheme_rest name [] = none
scheme_rest name (c ∷ s) = if c == b':' then some (lowercase name, skip_slashes s) else none

-- The scheme in lower case and what follows it; `none` is the length 0.
unfoldable pub extract_scheme : Bytes → Option (Bytes × Bytes)
extract_scheme [] = none
extract_scheme (c ∷ s) =
    let (more, rest) = span (is_scheme_char false) s in
    if is_scheme_char true c && ltb (length (c ∷ more)) (scheme_size - 1)
    then scheme_rest (c ∷ more) rest
    else none

abbrev pub ends_authority : ℕ → Bool
ends_authority c = c == b'/' || c == b'?' || c == b'#'

abbrev pub split_at_sign : Bytes → Bytes → Bytes → Bytes × Bytes
split_at_sign front (c ∷ s) auth = if c == b'@' then (front, s) else ([], auth)
split_at_sign front [] auth = ([], auth)

-- The user information and what follows its `@`, if one comes before the authority's end.
unfoldable pub split_userinfo : Bytes → Bytes × Bytes
split_userinfo auth =
    let (front, back) = span (λ c. not (c == b'@' || ends_authority c)) auth in
    split_at_sign front back auth

abbrev close_bracket : Bytes → Bytes → Bytes → Bytes × Bytes
close_bracket content (c ∷ s) text = (b'[' ∷ (content ++ c ∷ []), s)
close_bracket content [] text = span (λ c. not (ends_authority c)) text

-- The host and what follows it: up to a closing bracket, or up to `:` or the authority's end.
unfoldable pub split_host : Bytes → Bytes × Bytes
split_host text =
    let (content, close) = span (λ c. not (c == b']')) (drop 1 text) in
    if starts_with_byte b'[' text
    then close_bracket content close text
    else span (λ c. not (c == b':' || ends_authority c)) text

abbrev port_value : ℕ → ℤ
port_value n = if ltb 0 n && leb n 65535 then pos n else minus_one

-- The port, and what follows the digits that `port_str` can hold.
unfoldable pub split_port : Bytes → ℤ × Bytes
split_port [] = (minus_one, [])
split_port (c ∷ s) =
    let digits = (span is_digit (take (port_size - 1) s)).0 in
    if c == b':'
    then (
      if is_nonempty digits then port_value (decimal digits) else minus_one,
      drop (length digits) s,
    )
    else (minus_one, c ∷ s)

-- The authority's parts; what it does not consume is the second component.
unfoldable pub parse_authority : Bytes → ParsedUrl → ParsedUrl × Bytes
parse_authority auth out =
    let (userinfo, rest) = split_userinfo auth in
    let (host, behind) = split_host rest in
    let (port, left) = split_port behind in
    (
      record out {
        userinfo = copy_into userinfo_size userinfo;
        host = copy_into host_size host;
        port = port;
      },
      left,
    )

-- Authority, path, query and fragment of what follows the scheme.
unfoldable pub parse_components : Bytes → ParsedUrl → ParsedUrl
parse_components text out =
    let (auth, behind) = span (λ c. not (ends_authority c)) text in
    let (located, left) = if is_nonempty auth then parse_authority auth out else (out, []) in
    let (path, after_path) = span (λ c. not (c == b'?' || c == b'#')) (left ++ behind) in
    let (query, after_query) = span (λ c. not (c == b'#')) (drop 1 after_path) in
    let has_query = starts_with_byte b'?' after_path in
    let tail = if has_query then after_query else after_path in
    record located {
      path = copy_into path_size path;
      query = if has_query then copy_into query_size query else [];
      fragment = copy_into fragment_size (drop 1 tail);
    }

abbrev octets_or_none : Option (List ℕ) → List ℕ
octets_or_none none = []
octets_or_none (some octets) = octets

abbrev is_some_octets : Option (List ℕ) → Bool
is_some_octets none = false
is_some_octets (some _) = true

unfoldable pub classify_host : ParsedUrl → ParsedUrl
classify_host url =
    let v6 = detect_ipv6_bracket url.host in
    let octets = if is_nonempty url.host && not v6 then parse_ipv4 url.host else none in
    record url {
      is_ipv6 = v6;
      is_ipv4 = is_some_octets octets;
      ipv4_addr = octets_or_none octets;
      hostname_decoded = lowercase url.host;
    }

abbrev scheme_relative : Bytes → Bool
scheme_relative (a ∷ b ∷ s) = a == b'/' && b == b'/'
scheme_relative s = false

-- A text with no scheme: what follows `//`, or a bare path.
unfoldable pub parse_without_scheme : Bytes → ParsedUrl
unfolding parse_components classify_host
parse_without_scheme text =
    if scheme_relative text
    then classify_host (parse_components (drop 2 text) blank_url)
    else record blank_url { path = copy_into path_size text }

-- `none` is the error -1: an empty text, or one of more than 16384 bytes.
unfoldable pub url_parse : Bytes → Option ParsedUrl
url_parse text =
    if not (is_nonempty text) || ltb 16384 (length text)
    then none
    else some (elim (extract_scheme text) [
      | none ↦ parse_without_scheme text
      | some (scheme, rest) ↦
          classify_host (parse_components rest (record blank_url { scheme = scheme }))
    ])
