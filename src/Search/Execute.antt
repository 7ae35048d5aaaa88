-- ===== src/Search/Execute.antt =====
-- c/search_engine.c, search_execute: the hits are a list, `hit_count` its length, and `none` is a
-- write behind the end of the array `hits`. The parameter
-- `posix` is that of Search.Matching, `now` is `time(NULL)`; the time taken is left out.
pub mod Terms
pub mod Order
use browserhistory.Prelude.{
  ℕ, zero, suc, ◌+◌, ◌-◌, ◌*◌, ◌/◌, ◌%◌, ◌^◌, ◌≤◌, ◌<◌, ◌≡◌, refl, sym, ap, ◌∙◌, ◌≢◌, ◌↔◌, ◌⊎◌, inl,
  inr, Bool, true, false, not, ◌&&◌, ◌||◌, Option, none, some, List, [], ◌∷◌, ◌++◌, map, append-nil,
  append_assoc, arith, ltb, leb, ◌==◌, if◌then◌else◌, Bool-cases, Option-cases, length, get_elem?,
  get_or, take, drop, length-append, length-take, length-drop, take-eq_self, drop-eq_nil,
  take-append_self, drop-append_self,
}
use browserhistory.Prelude.Int.{ℤ, pos, negsuc, minus_one, is_positive, is_nat, pos_part}
use browserhistory.Prelude.Text.{
  Bytes, codes, copy_into, is_nonempty, str_eq, c_string, span, NoNul, AreBytes, c_string-NoNul,
}
use mathlib.Core.List.{reverse}
use browserhistory.History.{HistoryEntry}
use browserhistory.Search.{max_results, SearchOperator, op_not, op_or, SearchTerm, SearchQuery}
use browserhistory.Search.Matching.{passes_filters, TermHit, term_matches}
use browserhistory.Search.Score.{search_compute_score}

pub record SearchHit : Type 0 where
  pub entry_idx : ℕ
  pub score : ℕ
  pub match_count : ℕ
  pub url_matched : Bool
  pub title_matched : Bool

pub record SearchResults : Type 0 where
  pub hits : List SearchHit
  pub total_scanned : ℕ

-- The variables of the loop over the terms.
pub record Evaluation : Type 0 where
  pub overall_match : Bool
  pub any_url_hit : Bool
  pub any_title_hit : Bool
  pub total_matches : ℕ

abbrev pub negated : SearchOperator → Bool → Bool
negated op_not matched = not matched
negated _ matched = matched

abbrev pub combine : SearchOperator → Bool → Bool → Bool
combine op_or overall matched = overall || matched
combine _ overall matched = overall && matched

-- One round, with whether it is the first.
unfoldable pub add_term : Bool → SearchTerm → TermHit → Evaluation → Evaluation
add_term first term hit ev =
    let matched = negated term.combinator hit.matched in
    record {
      overall_match = if first then matched else combine term.combinator ev.overall_match matched;
      any_url_hit = hit.url_hit || ev.any_url_hit;
      any_title_hit = hit.title_hit || ev.any_title_hit;
      total_matches = if matched then ev.total_matches + 1 else ev.total_matches;
    }

abbrev pub no_evaluation : Evaluation
no_evaluation = record {
  overall_match = false;
  any_url_hit = false;
  any_title_hit = false;
  total_matches = 0;
}

-- The while loop of the sort, over the sorted part from its last element to its first.
unfoldable pub insert_hit : SearchHit → List SearchHit → List SearchHit
insert_hit key [] = key ∷ []
insert_hit key (hit ∷ hits) =
    let shifted = insert_hit key hits in
    if ltb hit.score key.score then hit ∷ shifted else key ∷ hit ∷ hits

unfoldable pub sort_onto : List SearchHit → List SearchHit → List SearchHit
sort_onto sorted [] = sorted
sort_onto sorted (key ∷ hits) = sort_onto (insert_hit key sorted) hits

unfoldable pub sort_hits : List SearchHit → List SearchHit
sort_hits hits = reverse (sort_onto [] hits)

-- A hit in front of those behind it, where none of them is written behind the end.
abbrev pub store : SearchHit → Option (List SearchHit) → Option (List SearchHit)
store hit none = none
store hit (some hits) = some (hit ∷ hits)

module _ (posix : Bytes → Bytes → Bool → Option Bool) where
  unfoldable pub evaluate_from : Bool → HistoryEntry → Evaluation → List SearchTerm → Evaluation
  evaluate_from first entry ev [] = ev
  evaluate_from first entry ev (term ∷ terms) =
      evaluate_from false entry (add_term first term (term_matches posix term entry) ev) terms

module _ (posix : Bytes → Bytes → Bool → Option Bool) (now : ℕ) where
  abbrev pub hit_of : SearchQuery → ℕ → HistoryEntry → Evaluation → SearchHit
  hit_of query i entry ev = record {
    entry_idx = i;
    score = search_compute_score now entry query ev.any_url_hit ev.any_title_hit;
    match_count = ev.total_matches;
    url_matched = ev.any_url_hit;
    title_matched = ev.any_title_hit;
  }

  unfoldable pub evaluate_terms :
      SearchQuery → ℕ → HistoryEntry → List SearchTerm → Option SearchHit
  evaluate_terms query i entry [] = some (hit_of query i entry no_evaluation)
  evaluate_terms query i entry (term ∷ terms) =
      let ev = evaluate_from posix true entry no_evaluation (term ∷ terms) in
      if ev.overall_match then some (hit_of query i entry ev) else none

  -- The hit that the entry at an index gives where it passes.
  unfoldable pub evaluate_entry : SearchQuery → ℕ → HistoryEntry → Option SearchHit
  evaluate_entry query i entry =
      if passes_filters entry query then evaluate_terms query i entry query.terms else none

  -- The loop over the entries; `room` is what the limit of the query leaves, `query->max_results` less
  -- `hit_count`, and `slots` what the array leaves, SEARCH_MAX_RESULTS less `hit_count`.
  unfoldable pub collect : SearchQuery → ℕ → ℕ → ℕ → List HistoryEntry → Option (List SearchHit)
  collect query room slots i [] = some []
  collect query zero slots i (entry ∷ entries) =
      let rest = collect query zero slots (suc i) entries in
      elim (evaluate_entry query i entry) [ none ↦ rest | some hit ↦ some [] ]
  collect query (suc room) zero i (entry ∷ entries) =
      let rest = collect query (suc room) zero (suc i) entries in
      elim (evaluate_entry query i entry) [ none ↦ rest | some hit ↦ none ]
  collect query (suc room) (suc slots) i (entry ∷ entries) = elim (evaluate_entry query i entry) [
    | none ↦ collect query (suc room) (suc slots) (suc i) entries
    | some hit ↦ store hit (collect query room slots (suc i) entries)
  ]

  unfoldable pub search_execute : SearchQuery → List HistoryEntry → Option SearchResults
  search_execute query history = elim (collect query query.result_limit max_results 0 history) [
    | none ↦ none
    | some hits ↦ some (record { hits = sort_hits hits; total_scanned = length history })
  ]
