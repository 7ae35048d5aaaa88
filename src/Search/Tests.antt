-- ===== src/Search/Tests.antt =====
-- c/search_engine.c: the theorems at concrete inputs, and runs of the code.
use browserhistory.Prelude.{
  ◌<◌, ◌≤◌, ◌⊎◌, arith, ℕ, ◌≡◌, refl, ◌↔◌, Bool, true, false, Option, none, some, List, [], ◌∷◌,
  length, take,
}
use browserhistory.Prelude.Int.{pos}
use browserhistory.Prelude.Text.{Bytes, codes}
use browserhistory.History.{HistoryEntry}
use browserhistory.Strings.{eq_nocase}
use browserhistory.Search.{
  max_results, SearchTermType, SearchTerm, SearchQuery, search_query_init, op_and,
}
use browserhistory.Search.Substring.{search_strcasestr, FirstPlace, search_strcasestr_iff}
use browserhistory.Search.Matching.{passes_filters, in_domain}
use browserhistory.Search.Matching.Domain.{InDomain, in_domain_iff}
use browserhistory.Search.Execute.{
  SearchHit, SearchResults, sort_onto, sort_hits, evaluate_terms, evaluate_entry, collect,
  search_execute,
}
use browserhistory.Search.Execute.Terms.{Decided, evaluate_entry-Decided}
use browserhistory.Search.Execute.Order.{Ranked, all_hits, search_execute-Ranked}

search_strcasestr_iff_example :
    (search_strcasestr (codes "The GitHub page") (codes "github") ≡ some (codes "GitHub page"))
    ↔ FirstPlace (codes "github") (codes "The GitHub page") (codes "GitHub page")
search_strcasestr_iff_example =
    search_strcasestr_iff (codes "The GitHub page") (codes "github") (codes "GitHub page")

in_domain_iff_example :
    (in_domain (codes "Docs.example.org") (codes "example.org") ≡ true)
    ↔ InDomain (codes "Docs.example.org") (codes "example.org")
in_domain_iff_example = in_domain_iff (codes "Docs.example.org") (codes "example.org")

-- A host with one byte in front of the dot passes, and the dot alone does not.
short_subdomain : in_domain (codes "a.org") (codes "org") ≡ true
unfolding in_domain eq_nocase
short_subdomain = refl

dot_alone : in_domain (codes ".org") (codes "org") ≡ false
unfolding in_domain eq_nocase
dot_alone = refl

abbrev visit : Bytes → ℕ → HistoryEntry
visit url count = record {
  url = url;
  title = codes "A page";
  visit_count = pos count;
  typed_count = pos 0;
  last_visit_time = [];
  last_visit_raw = pos 0;
}

abbrev history : List HistoryEntry
history = visit (codes "https://a.org/") 3 ∷ visit (codes "https://b.org/") 120 ∷ []

-- No pattern compiles.
abbrev no_regex : Bytes → Bytes → Bool → Option Bool
no_regex pattern text case_sensitive = none

abbrev page_term : SearchTerm
page_term = record {
  type = SearchTermType.substring;
  pattern = codes "page";
  combinator = op_and;
  case_sensitive = false;
  match_url = true;
  match_title = true;
}

abbrev page_query : SearchQuery
page_query = record search_query_init { terms = page_term ∷ [] }

page_query-limit : 0 < page_query.result_limit
unfolding search_query_init
page_query-limit = omega arith

evaluate_entry-Decided_example :
    ((h : SearchHit) × (evaluate_entry no_regex 0 page_query 0 (visit (codes "https://a.org/") 3)
        ≡ some h))
    ↔ ((passes_filters (visit (codes "https://a.org/") 3) page_query ≡ true)
        × ((page_query.terms ≡ [])
            ⊎ Decided no_regex (visit (codes "https://a.org/") 3) true page_query.terms))
evaluate_entry-Decided_example =
    evaluate_entry-Decided no_regex 0 page_query 0 (visit (codes "https://a.org/") 3)

search_execute-Ranked_example :
    let hits = take page_query.result_limit (all_hits no_regex 0 page_query 0 history) in
    ((length hits ≤ max_results)
      × ((r : SearchResults) × (search_execute no_regex 0 page_query history ≡ some r)
          × Ranked hits (length history) r))
    ⊎ ((max_results < length hits) × (search_execute no_regex 0 page_query history ≡ none))
search_execute-Ranked_example = search_execute-Ranked no_regex 0 page_query history page_query-limit

-- A limit of 0, which a comment of the header calls unlimited, leaves no hit.
no_hits :
    search_execute no_regex 0 (record search_query_init { result_limit = 0 }) history
    ≡ some (record { hits = []; total_scanned = 2 })
unfolding search_execute search_query_init collect evaluate_entry passes_filters evaluate_terms
    sort_hits sort_onto
no_hits = refl
