-- ===== src/Search/Matching.antt =====
-- c/search_engine.c, filters and terms: search_regex_match, passes_filters and term_matches. The
-- functions `regcomp` and `regexec` are the parameter `posix`: it takes the pattern, the text and
-- whether case counts, and has no result where the pattern does not compile.
pub mod Domain
use browserhistory.Prelude.{
  ℕ, zero, suc, ◌+◌, ◌-◌, ◌*◌, ◌/◌, ◌%◌, ◌^◌, ◌≤◌, ◌<◌, ◌≡◌, refl, sym, ap, ◌∙◌, ◌≢◌, ◌↔◌, ◌⊎◌, inl,
  inr, Bool, true, false, not, ◌&&◌, ◌||◌, Option, none, some, List, [], ◌∷◌, ◌++◌, map, append-nil,
  append_assoc, arith, ltb, leb, ◌==◌, if◌then◌else◌, Bool-cases, Option-cases, length, get_elem?,
  get_or, take, drop, length-append, length-take, length-drop, take-eq_self, drop-eq_nil,
  take-append_self, drop-append_self,
}
use browserhistory.Prelude.Int.{ℤ, pos, negsuc, minus_one, is_positive, is_nat, pos_part}
use browserhistory.Prelude.Text.{
  Bytes, codes, copy_into, is_nonempty, str_eq, c_string, span, NoNul, AreBytes, c_string-NoNul,
}
use browserhistory.Strings.{is_found, eq_nocase, has_prefix_nocase, strstr, str_lt}
use browserhistory.History.{HistoryEntry}
use browserhistory.Search.{SearchTermType, SearchTerm, SearchQuery}
use browserhistory.Search.Substring.{search_strcasestr}

abbrev pub hostname_size : ℕ
hostname_size = 256

-- What follows the first `://`, or the whole text.
unfoldable pub behind_scheme : Bytes → Bytes
behind_scheme url = elim (strstr (codes "://") url) [ none ↦ url | some s ↦ drop 3 s ]

abbrev pub in_filter_host : ℕ → Bool
in_filter_host c = not (c == b'/' || c == b':' || c == b'?' || c == b'#')

abbrev pub in_term_host : ℕ → Bool
in_term_host c = not (c == b'/' || c == b':')

-- Whether the host is the domain or ends in a dot and the domain; case does not count.
unfoldable pub in_domain : Bytes → Bytes → Bool
in_domain host domain =
    eq_nocase host domain
    || ltb (length domain + 1) (length host)
      && get_or host (length host - length domain - 1) 0 == b'.'
      && eq_nocase (drop (length host - length domain) host) domain

unfoldable pub passes_filters : HistoryEntry → SearchQuery → Bool
passes_filters entry query =
    let has_date = is_nonempty entry.last_visit_time in
    if is_positive query.min_visits && ltb (pos_part entry.visit_count) (pos_part query.min_visits)
    then false
    else if is_nonempty query.date_after
        && has_date
        && str_lt entry.last_visit_time query.date_after
    then false
    else if is_nonempty query.date_before
        && has_date
        && str_lt query.date_before entry.last_visit_time
    then false
    else if is_nonempty query.domain_filter
    then in_domain (copy_into hostname_size (span in_filter_host (behind_scheme entry.url)).0)
        query.domain_filter
    else true

-- What follows the last dot.
unfoldable pub after_last_dot : Bytes → Option Bytes
after_last_dot [] = none
after_last_dot (c ∷ s) = elim (after_last_dot s) [
  | some t ↦ some t
  | none ↦ if c == b'.' then some s else none
]

abbrev pub equals_tld : Option Bytes → Bytes → Bool
equals_tld none pattern = false
equals_tld (some tld) pattern = length tld == length pattern && has_prefix_nocase pattern tld

-- The result of `term_matches` and what it writes through its pointers.
pub record TermHit : Type 0 where
  pub matched : Bool
  pub url_hit : Bool
  pub title_hit : Bool

abbrev pub hit_in : Bool → Bool → TermHit
hit_in url title = record { matched = url || title; url_hit = url; title_hit = title }

abbrev pub regex_result : Option Bool → ℤ
regex_result none = minus_one
regex_result (some false) = pos 0
regex_result (some true) = pos 1

module _ (posix : Bytes → Bytes → Bool → Option Bool) where
  unfoldable pub search_regex_match : Bytes → Bytes → Bool → ℤ
  search_regex_match pattern str case_sensitive = regex_result (posix pattern str case_sensitive)

  unfoldable pub matches_type : SearchTermType → SearchTerm → HistoryEntry → TermHit
  matches_type SearchTermType.substring term entry =
      hit_in (term.match_url && is_found (search_strcasestr entry.url term.pattern)) (
        term.match_title
        && is_nonempty entry.title
        && is_found (search_strcasestr entry.title term.pattern))
  matches_type SearchTermType.keyword term entry =
      hit_in (term.match_url && is_found (search_strcasestr entry.url term.pattern)) (
        term.match_title
        && is_nonempty entry.title
        && is_found (search_strcasestr entry.title term.pattern))
  matches_type SearchTermType.regex term entry =
      hit_in (term.match_url && is_nat (search_regex_match term.pattern entry.url false) 1) (
        term.match_title
        && is_nonempty entry.title
        && is_nat (search_regex_match term.pattern entry.title false) 1)
  matches_type SearchTermType.domain term entry =
      hit_in
        (in_domain (copy_into hostname_size (span in_term_host (behind_scheme entry.url)).0)
          term.pattern)
        false
  matches_type SearchTermType.tld term entry =
      hit_in
        (equals_tld (after_last_dot (span in_term_host (behind_scheme entry.url)).0) term.pattern)
        false
  matches_type SearchTermType.exclude term entry = hit_in false false

  unfoldable pub term_matches : SearchTerm → HistoryEntry → TermHit
  term_matches term entry = matches_type term.type term entry
