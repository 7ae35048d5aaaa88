-- ===== src/Url/Print/RoundTrip/Whole.antt =====
-- c/url_parser.c: the parser on the text of a canonical URL.
use browserhistory.Prelude.{
  ℕ, ◌+◌, ◌≤◌, ◌≡◌, refl, inl, inr, Bool, true, false, not, some, List, [], ◌∷◌, ◌++◌, append-nil,
  append_assoc, arith, ltb, ◌==◌, if◌then◌else◌, Bool-cases, length, take, drop, length-append,
  take-eq_self,
}
use browserhistory.Prelude.Int.{ℤ, pos, negsuc, is_positive, pos_part}
use browserhistory.Prelude.Text.{Bytes, is_nonempty, span}
use browserhistory.Url.Chars.{is_digit}
use browserhistory.Url.Host.{starts_with_byte}
use browserhistory.Url.Parse.{
  ParsedUrl, blank_url, ends_authority, parse_authority, parse_components, classify_host, url_parse,
}
use browserhistory.Url.Print.RoundTrip.Pieces.{
  length-print_decimal, Every-append, Every-weaken, extract_scheme-print, user_text,
  split_userinfo-print, port_text, split_host-print, split_port-print, print_decimal-digits,
}
use browserhistory.Url.Print.RoundTrip.{
  Every, Stops, span-append, is_user_char, is_host_char, is_path_char, is_query_char, IsPort,
  starts_alpha, IsCanonical,
}
use browserhistory.Url.Print.Buffer.{join, url_text}
use browserhistory.Url.Print.{part_if, url_parts}

abbrev query_text : Bytes → Bytes
query_text s = if is_nonempty s then b'?' ∷ s else []

abbrev fragment_text : Bytes → Bytes
fragment_text s = if is_nonempty s then b'#' ∷ s else []

abbrev authority_text : ParsedUrl → Bytes
authority_text u = user_text u.userinfo ++ (u.host ++ port_text u.port)

abbrev in_authority : ℕ → Bool
in_authority c = not (ends_authority c)

port_text-Every :
    (port : ℤ) (test : ℕ → Bool)
    → test b':' ≡ true
    → ((c : ℕ) → is_digit c ≡ true → test c ≡ true)
    → Every test (port_text port)
port_text-Every port test colon digit = elim (Bool-cases (is_positive port)) [
  | inl e ↦
      rw e (colon, Every-weaken is_digit test _ digit (print_decimal-digits 10 (pos_part port)))
  | inr e ↦ rw e tt
]

user_text-Every : (user : Bytes) → Every is_user_char user → Every in_authority (user_text user)
user_text-Every user h = elim (Bool-cases (is_nonempty user)) [
  | inl e ↦ rw e (
      Every-append in_authority user (b'@' ∷ [])
        (Every-weaken is_user_char in_authority user (λ c d. ground arith) h) (refl, tt))
  | inr e ↦ rw e tt
]

authority-Every : (u : ParsedUrl) → IsCanonical u → Every in_authority (authority_text u)
authority-Every u h =
    Every-append in_authority (user_text u.userinfo) _ (user_text-Every u.userinfo h.userinfo_chars)
      (Every-append in_authority u.host _
        (Every-weaken is_host_char in_authority u.host (λ c d. ground arith) h.host_chars)
        (port_text-Every u.port in_authority refl (λ c d. ground arith)))

no_at : (u : ParsedUrl) → IsCanonical u → Every (λ c. not (c == b'@')) (u.host ++ port_text u.port)
no_at u h =
    Every-append _ u.host _ h.host_no_at
      (port_text-Every u.port (λ c. not (c == b'@')) refl (λ c d. ground arith))

port_Stops : (port : ℤ) → Stops is_host_char (port_text port)
port_Stops port = elim (Bool-cases (is_positive port)) [ inl e ↦ rw e refl | inr e ↦ rw e tt ]

front-nonempty : (s t : Bytes) → is_nonempty s ≡ true → is_nonempty (s ++ t) ≡ true
front-nonempty [] t h = cc
front-nonempty (c ∷ s) t h = refl

authority-nonempty : (u : ParsedUrl) → IsCanonical u → is_nonempty (authority_text u) ≡ true
authority-nonempty u h = elim (Bool-cases (is_nonempty u.userinfo)) [
  | inl e ↦ rw e (front-nonempty (u.userinfo ++ b'@' ∷ []) _ (front-nonempty u.userinfo _ e))
  | inr e ↦ rw e (front-nonempty u.host _ h.host_nonempty)
]

parse_authority-print :
    (u out : ParsedUrl)
    → IsCanonical u
    → parse_authority (authority_text u) out
      ≡ (record out { userinfo = u.userinfo; host = u.host; port = u.port }, [])
unfolding parse_authority
parse_authority-print u out h = rw (
  split_userinfo-print u.userinfo _ h.userinfo_chars (no_at u h),
  split_host-print u.host _ h.host_chars h.host_start h.host_nonempty (port_Stops u.port),
  split_port-print u.port h.port_fits,
  take-eq_self 255 u.userinfo h.userinfo_fits,
  take-eq_self 255 u.host h.host_fits,
)

tail_Stops :
    (query fragment : Bytes) → Stops is_path_char (query_text query ++ fragment_text fragment)
tail_Stops [] [] = tt
tail_Stops [] (c ∷ f) = refl
tail_Stops (c ∷ q) f = refl

path_Stops :
    (path query fragment : Bytes)
    → is_nonempty path ≡ starts_with_byte b'/' path
    → Stops in_authority (path ++ (query_text query ++ fragment_text fragment))
path_Stops [] [] [] h = tt
path_Stops [] [] (c ∷ f) h = refl
path_Stops [] (c ∷ q) f h = refl
path_Stops (c ∷ p) q f h = ground arith

fragment_Stops : (f : Bytes) → Stops is_query_char (fragment_text f)
fragment_Stops [] = tt
fragment_Stops (c ∷ f) = refl

fragment_read : (fragment : Bytes) → drop 1 (fragment_text fragment) ≡ fragment
fragment_read [] = refl
fragment_read (c ∷ f) = refl

tail_read :
    (query fragment : Bytes)
    → Every is_query_char query
    → length query ≤ 4095
    → length fragment ≤ 511
    → let tail = query_text query ++ fragment_text fragment in
      ((if starts_with_byte b'?' tail then take 4095 (span is_query_char (drop 1 tail)).0 else [])
        ≡ query)
      × (take 511 (
            drop 1
              (if starts_with_byte b'?' tail then (span is_query_char (drop 1 tail)).1 else tail))
          ≡ fragment)
tail_read [] [] h k l = (refl, refl)
tail_read [] (c ∷ f) h k l = (refl, take-eq_self 511 (c ∷ f) l)
tail_read (c ∷ q) f h k l =
    let parts = span-append is_query_char (c ∷ q) (fragment_text f) h (fragment_Stops f) in
    (rw parts (take-eq_self 4095 (c ∷ q) k), rw (parts, fragment_read) (take-eq_self 511 f l))

parse_components-print :
    (u out : ParsedUrl)
    → IsCanonical u
    → parse_components
        (authority_text u ++ (u.path ++ (query_text u.query ++ fragment_text u.fragment)))
        out
      ≡ record out {
        userinfo = u.userinfo;
        host = u.host;
        port = u.port;
        path = u.path;
        query = u.query;
        fragment = u.fragment;
      }
unfolding parse_components
parse_components-print u out h =
    let tail = query_text u.query ++ fragment_text u.fragment in
    let auth =
      span-append in_authority (authority_text u) (u.path ++ tail) (authority-Every u h)
        (path_Stops u.path u.query u.fragment h.path_absolute) in
    let path = span-append is_path_char u.path tail h.path_chars (tail_Stops u.query u.fragment) in
    let read = tail_read u.query u.fragment h.query_chars h.query_fits h.fragment_fits in
    rw
      (
        auth,
        authority-nonempty u h,
        parse_authority-print u out h,
        path,
        take-eq_self 2047 u.path h.path_fits,
      )
      (λ i. record out {
        userinfo = u.userinfo;
        host = u.host;
        port = u.port;
        path = u.path;
        query = read.0 i;
        fragment = read.1 i;
      })

path_or_empty : (s : Bytes) → (if is_nonempty s then s else []) ≡ s
path_or_empty [] = refl
path_or_empty (c ∷ s) = refl

part_if-join :
    (b : Bool) (s : Bytes) (rest : List Bytes)
    → join (part_if b s ++ rest) ≡ (if b then s else []) ++ join rest
unfolding part_if
part_if-join true s rest = refl
part_if-join false s rest = refl

part_if-join_end : (b : Bool) (s : Bytes) → join (part_if b s) ≡ (if b then s else [])
unfolding part_if
part_if-join_end true s = append-nil s
part_if-join_end false s = refl

scheme_nonempty : (s : Bytes) → starts_alpha s ≡ true → is_nonempty s ≡ true
scheme_nonempty [] h = cc
scheme_nonempty (c ∷ s) h = refl

-- The text of a canonical URL.
canonical_text :
    (u : ParsedUrl)
    → IsCanonical u
    → url_text u
      ≡ u.scheme
        ++ b':'
          ∷ b'/'
          ∷ b'/'
          ∷ (authority_text u ++ (u.path ++ (query_text u.query ++ fragment_text u.fragment)))
unfolding url_text url_parts
canonical_text u h = simp (
  append_assoc,
  part_if-join,
  part_if-join_end,
  scheme_nonempty u.scheme h.scheme_start,
  h.host_nonempty,
  path_or_empty,
)

mark_length : (s : Bytes) (c : ℕ) → length (if is_nonempty s then c ∷ s else []) ≤ length s + 1
mark_length [] c = omega arith
mark_length (x ∷ s) c = omega arith

user_length : (s : Bytes) → length (user_text s) ≤ length s + 1
user_length [] = omega arith
user_length (c ∷ s) = omega (arith, length-append (c ∷ s) (b'@' ∷ []))

port_length : (port : ℤ) → IsPort port → length (port_text port) ≤ 6
port_length (negsuc n) h = omega arith
port_length (pos n) h = ground (arith, length-print_decimal 10 4 n)

canonical_length :
    (u : ParsedUrl)
    → IsCanonical u
    → ltb 16384 (
        length (
          u.scheme
          ++ b':'
            ∷ b'/'
            ∷ b'/'
            ∷ (authority_text u ++ (u.path ++ (query_text u.query ++ fragment_text u.fragment)))))
      ≡ false
canonical_length u h =
    let tail = query_text u.query ++ fragment_text u.fragment in
    ground (
      arith,
      length-append u.scheme (b':' ∷ b'/' ∷ b'/' ∷ (authority_text u ++ (u.path ++ tail))),
      length-append (authority_text u) (u.path ++ tail),
      length-append u.path tail,
      length-append (query_text u.query) (fragment_text u.fragment),
      length-append (user_text u.userinfo) (u.host ++ port_text u.port),
      length-append u.host (port_text u.port),
      mark_length u.query b'?',
      mark_length u.fragment b'#',
      user_length u.userinfo,
      port_length u.port h.port_fits,
    )

-- The text of a canonical URL is parsed, without an error, into that URL's parts, to which the
-- classification of the host is added: what is printed loses nothing.
pub url_parse-url_text :
    (u : ParsedUrl)
    → IsCanonical u
    → url_parse (url_text u)
      ≡ some (
          classify_host (record blank_url {
            scheme = u.scheme;
            userinfo = u.userinfo;
            host = u.host;
            port = u.port;
            path = u.path;
            query = u.query;
            fragment = u.fragment;
          }))
unfolding url_parse
url_parse-url_text u h =
    let text = canonical_text u h in
    let scheme =
      extract_scheme-print u.scheme
        (authority_text u ++ (u.path ++ (query_text u.query ++ fragment_text u.fragment)))
        h.scheme_chars h.scheme_start h.scheme_fits in
    rw (
      text,
      front-nonempty u.scheme
          (b':'
            ∷ b'/'
            ∷ b'/'
            ∷ (authority_text u ++ (u.path ++ (query_text u.query ++ fragment_text u.fragment))))
          (scheme_nonempty u.scheme h.scheme_start),
      canonical_length u h,
      scheme,
      parse_components-print u (record blank_url { scheme = u.scheme }) h,
    )
