-- ===== src/Url/Tests.antt =====
-- c/url_parser.c: the theorems at concrete inputs, and runs of the code.
use browserhistory.Prelude.{
  ℕ, ◌+◌, ◌≤◌, ◌<◌, ◌≡◌, refl, ◌↔◌, ◌⊎◌, inr, true, false, some, List, [], ◌∷◌, arith, length,
}
use browserhistory.Prelude.Int.{pos}
use browserhistory.Prelude.Text.{Bytes, codes, str_eq, span}
use browserhistory.Url.Parse.{
  split_port, split_host, split_userinfo, parse_authority, classify_host, ParsedUrl, blank_url,
  lowercase, url_parse, parse_components,
}
use browserhistory.Url.Host.{ipv4_from, parse_ipv4}
use browserhistory.Url.Chars.{is_scheme_char, is_unreserved, hex_byte}
use browserhistory.Url.Utf8.{url_validate_utf8, validated}
use browserhistory.Url.Utf8.Encoding.{Encodes, url_validate_utf8_iff}
use browserhistory.Url.Percent.{need_encode, url_percent_decode, url_percent_encode, encode_from}
use browserhistory.Url.Percent.RoundTrip.{url_percent_decode-url_percent_encode}
use browserhistory.Url.Percent.Bounds.{percent_bounds}
use browserhistory.Url.Segments.{
  write_segments, push_token, resolve, tokens_from, segments, tokens, leading,
  normalize_path_segments, decode_unreserved_percent,
}
use browserhistory.Url.Segments.Normal.{
  AreSegments, normalize_path_segments-Segments, normalize_path_segments_idem,
}
use browserhistory.Url.Print.{
  part_if, Printer, url_reconstruct, url_parts, print_parts, print_part, terminate,
}
use browserhistory.Url.Print.Buffer.{url_text, url_reconstruct_bounds}
use browserhistory.Url.Print.RoundTrip.{IsCanonical}
use browserhistory.Url.Print.RoundTrip.Octets.{
  AreOctets, print_octets, parse_ipv4-print_octets, parse_ipv4-AreOctets,
}
use browserhistory.Url.Print.RoundTrip.Whole.{url_parse-url_text}
use browserhistory.Url.Domain.{
  is_listed, two_part_tlds, is_two_part, cut_domain, after_dots, dots, by_dots, DomainInfo,
  url_extract_domain,
}
use browserhistory.Url.Domain.Suffix.{IsCut, url_extract_domain-IsCut}

abbrev page : ParsedUrl
page = record blank_url {
  scheme = codes "https";
  userinfo = codes "me";
  host = codes "www.Shop.co.uk";
  port = pos 8080;
  path = codes "/a/b";
  query = codes "q=1";
  fragment = codes "top";
}

page-IsCanonical : IsCanonical page
unfolding is_scheme_char
page-IsCanonical = record {
  scheme_chars = (refl, (refl, (refl, (refl, (refl, tt)))));
  scheme_start = refl;
  scheme_fits = omega arith;
  userinfo_chars = (refl, (refl, tt));
  userinfo_fits = omega arith;
  host_chars = ground arith;
  host_no_at = ground arith;
  host_start = refl;
  host_nonempty = refl;
  host_fits = omega arith;
  port_fits = (omega arith, omega arith);
  path_absolute = refl;
  path_chars = ground arith;
  path_fits = omega arith;
  query_chars = ground arith;
  query_fits = omega arith;
  fragment_fits = omega arith;
}

url_parse-url_text_example :
    url_parse (url_text page)
    ≡ some (
        classify_host (record blank_url {
          scheme = page.scheme;
          userinfo = page.userinfo;
          host = page.host;
          port = page.port;
          path = page.path;
          query = page.query;
          fragment = page.fragment;
        }))
url_parse-url_text_example = url_parse-url_text page page-IsCanonical

-- A euro sign, then the same three bytes cut short.
abbrev euro : Bytes
euro = 0xE2 ∷ 0x82 ∷ 0xAC ∷ 0xE2 ∷ 0x82 ∷ []

url_validate_utf8_iff_example :
    (url_validate_utf8 euro 3 ≡ true) ↔ ((cps : List ℕ) × Encodes (validated euro 3) cps)
url_validate_utf8_iff_example = url_validate_utf8_iff euro 3 (ground arith)

abbrev dotted : Bytes
dotted = codes "/a//./b/../c/"

normalize_path_segments_idem_example :
    normalize_path_segments (normalize_path_segments dotted) ≡ normalize_path_segments dotted
normalize_path_segments_idem_example = normalize_path_segments_idem dotted

normalize_path_segments-Segments_example :
    AreSegments (segments (normalize_path_segments dotted))
    × (tokens b'/' (normalize_path_segments dotted) ≡ segments (normalize_path_segments dotted))
    × (leading (normalize_path_segments dotted) ≡ leading dotted)
normalize_path_segments-Segments_example = normalize_path_segments-Segments dotted

-- The trailing slash is not preserved.
trailing_slash : normalize_path_segments dotted ≡ codes "/a/c"
unfolding normalize_path_segments segments tokens_from resolve push_token write_segments str_eq
trailing_slash = refl

-- Decoding once more can change the text again.
decode_twice :
    (decode_unreserved_percent (codes "%%341") ≡ codes "%41")
    × (decode_unreserved_percent (codes "%41") ≡ codes "A")
unfolding decode_unreserved_percent hex_byte is_unreserved
decode_twice = (refl, refl)

-- What follows a port's digits becomes part of the path.
port_junk : (parse_components (codes "h:80abc/x") blank_url).path ≡ codes "abc/x"
unfolding parse_components parse_authority split_userinfo split_host split_port span
port_junk = refl

url_percent_decode-url_percent_encode_example :
    (text : Bytes) × (url_percent_encode 13 (codes "a +b") 2 ≡ some text)
    × (url_percent_decode text true ≡ (codes "a +b", true))
url_percent_decode-url_percent_encode_example =
    url_percent_decode-url_percent_encode 13 2 true (codes "a +b") (inr (omega arith))
      (ground arith) (omega arith)

encoded : url_percent_encode 4 (codes "a%4") 2 ≡ some (codes "a")
unfolding url_percent_encode encode_from need_encode is_unreserved
encoded = refl

percent_bounds_example :
    (length (url_percent_decode (codes "a%4") false).0 ≤ length (codes "a%4"))
    × (length (codes "a") < 4)
percent_bounds_example = percent_bounds (codes "a%4") false 4 2 encoded

-- Seven bytes for a text of eight: the write of the NUL is out of bounds.
abbrev short_url : ParsedUrl
short_url = record blank_url { scheme = codes "ab"; host = codes "cd"; path = codes "/" }

abbrev overrun : Printer
overrun = record { text = codes "ab://"; offset = 8; overrun = true }

overrun_reconstruct : url_reconstruct short_url 7 ≡ some overrun
unfolding url_reconstruct terminate print_parts print_part url_parts part_if
overrun_reconstruct = refl

url_reconstruct_bounds_example :
    (overrun.offset ≡ length (url_text short_url))
    × ((overrun.overrun ≡ true) ↔ (7 ≤ length (url_text short_url)))
    × ((7 ≤ length (url_text short_url) + 1) ⊎ (overrun.text ≡ url_text short_url))
url_reconstruct_bounds_example = url_reconstruct_bounds short_url 7 overrun_reconstruct

abbrev shop : DomainInfo
shop = record {
  full_host = codes "www.shop.co.uk";
  registrable_domain = codes "shop.co.uk";
  tld = codes "uk";
  subdomain = codes "www";
}

shop_domain : url_extract_domain page ≡ some shop
unfolding url_extract_domain by_dots dots after_dots cut_domain is_two_part two_part_tlds is_listed
    str_eq parse_ipv4 ipv4_from span
shop_domain = refl

url_extract_domain-IsCut_example : IsCut shop × (shop.full_host ≡ lowercase page.host)
url_extract_domain-IsCut_example = url_extract_domain-IsCut page (omega arith) refl shop_domain

parse_ipv4-print_octets_example :
    parse_ipv4 (print_octets (10 ∷ 0 ∷ 255 ∷ 7 ∷ [])) ≡ some (10 ∷ 0 ∷ 255 ∷ 7 ∷ [])
parse_ipv4-print_octets_example = parse_ipv4-print_octets 10 0 255 7 (ground arith)

loopback : parse_ipv4 (codes "127.0.0.01") ≡ some (127 ∷ 0 ∷ 0 ∷ 1 ∷ [])
unfolding parse_ipv4 ipv4_from span
loopback = refl

parse_ipv4-AreOctets_example :
    AreOctets (127 ∷ 0 ∷ 0 ∷ 1 ∷ []) × (length {A = ℕ} (127 ∷ 0 ∷ 0 ∷ 1 ∷ []) ≡ 4)
parse_ipv4-AreOctets_example = parse_ipv4-AreOctets (codes "127.0.0.01") loopback
