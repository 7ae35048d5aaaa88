-- ===== src/Url/Domain.antt =====
-- c/url_parser.c, url_extract_domain. A pointer to a dot of the host is kept as what follows the dot.
pub mod Suffix
use browserhistory.Prelude.{
  ℕ, zero, suc, ◌+◌, ◌-◌, ◌*◌, ◌/◌, ◌%◌, ◌^◌, ◌≤◌, ◌<◌, ◌≡◌, refl, sym, ap, ◌∙◌, ◌≢◌, ◌↔◌, ◌⊎◌, inl,
  inr, Bool, true, false, not, ◌&&◌, ◌||◌, Option, none, some, List, [], ◌∷◌, ◌++◌, map, append-nil,
  append_assoc, arith, ltb, leb, ◌==◌, if◌then◌else◌, Bool-cases, Option-cases, length, get_elem?,
  get_or, take, drop, length-append, length-take, length-drop, take-eq_self, drop-eq_nil,
}
use browserhistory.Prelude.Int.{ℤ, pos, negsuc, minus_one, is_positive, is_nat, pos_part}
use browserhistory.Prelude.Text.{
  Bytes, codes, copy_into, is_nonempty, str_eq, c_string, span, NoNul, AreBytes,
}
use mathlib.Core.List.{reverse}
use browserhistory.Url.Host.{parse_ipv4, starts_with_byte}
use browserhistory.Url.Parse.{ParsedUrl, lowercase, host_size}

pub record DomainInfo : Type 0 where
  pub full_host : Bytes
  pub registrable_domain : Bytes
  pub tld : Bytes
  pub subdomain : Bytes

abbrev pub tld_size : ℕ
tld_size = 64

-- What follows each dot, the first dot first.
unfoldable pub after_dots : Bytes → List Bytes
after_dots [] = []
after_dots (c ∷ s) = if c == b'.' then s ∷ after_dots s else after_dots s

abbrev pub max_dots : ℕ
max_dots = 32

-- `dots[0]` to `dots[dot_count - 1]`, the last one first.
unfoldable pub dots : Bytes → List Bytes
dots host = reverse (take max_dots (after_dots host))

unfoldable pub two_part_tlds : List Bytes
two_part_tlds =
    codes "co.uk"
    ∷ codes "co.ke"
    ∷ codes "co.za"
    ∷ codes "co.in"
    ∷ codes "co.jp"
    ∷ codes "co.kr"
    ∷ codes "co.nz"
    ∷ codes "com.au"
    ∷ codes "com.br"
    ∷ codes "com.cn"
    ∷ codes "com.sg"
    ∷ codes "com.hk"
    ∷ codes "com.tw"
    ∷ codes "org.uk"
    ∷ codes "org.au"
    ∷ codes "net.au"
    ∷ codes "ac.uk"
    ∷ codes "ac.ke"
    ∷ codes "go.ke"
    ∷ codes "go.jp"
    ∷ codes "go.kr"
    ∷ codes "ne.jp"
    ∷ codes "or.jp"
    ∷ codes "or.ke"
    ∷ []

unfoldable pub is_listed : List Bytes → Bytes → Bool
is_listed [] s = false
is_listed (t ∷ ts) s = str_eq s t || is_listed ts s

unfoldable pub is_two_part : Bytes → Bool
is_two_part s = is_listed two_part_tlds s

abbrev pub whole_domain : Bytes → Bytes → DomainInfo
whole_domain host tld = record {
  full_host = host;
  registrable_domain = host;
  tld = tld;
  subdomain = [];
}

-- The registrable domain is what follows the dot, and the subdomain what stands in front of it.
unfoldable pub cut_domain : Bytes → Bytes → Bytes → DomainInfo
cut_domain host tld domain = record {
  full_host = host;
  registrable_domain = copy_into host_size domain;
  tld = tld;
  subdomain = take (length host - length domain - 1) host;
}

-- By the dots, the last one first.
unfoldable pub by_dots : Bytes → List Bytes → DomainInfo
by_dots host [] = whole_domain host (copy_into tld_size host)
by_dots host (last ∷ []) = whole_domain host (copy_into tld_size last)
by_dots host (last ∷ second ∷ []) =
    if is_two_part second
    then whole_domain host (copy_into tld_size last)
    else cut_domain host (copy_into tld_size last) second
by_dots host (last ∷ second ∷ third ∷ _) =
    cut_domain host (copy_into tld_size last) (if is_two_part second then third else second)

abbrev is_some_octets : Option (List ℕ) → Bool
is_some_octets none = false
is_some_octets (some _) = true

-- A bracketed host without its brackets.
unfoldable pub strip_brackets : Bytes → Bytes
strip_brackets host =
    let (content, close) = span (λ c. not (c == b']')) (drop 1 host) in
    copy_into host_size (if is_nonempty close then content else host)

-- `none` is the error -1, of an empty host.
unfoldable pub url_extract_domain : ParsedUrl → Option DomainInfo
url_extract_domain url =
    let full = lowercase (copy_into host_size url.host) in
    if not (is_nonempty url.host)
    then none
    else if starts_with_byte b'[' url.host
    then some (whole_domain (strip_brackets url.host) [])
    else if is_some_octets (parse_ipv4 full)
    then some (whole_domain full [])
    else some (by_dots full (dots full))
