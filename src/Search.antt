-- ===== src/Search.antt =====
-- c/search_engine.c and c/search_engine.h: the search over the history. The functions on
-- strings are those of Strings.
pub mod Substring
pub mod Query
pub mod Matching
pub mod Score
pub mod Execute
mod Tests
use browserhistory.Prelude.{
  ℕ, zero, suc, ◌+◌, ◌-◌, ◌*◌, ◌/◌, ◌%◌, ◌^◌, ◌≤◌, ◌<◌, ◌≡◌, refl, sym, ap, ◌∙◌, ◌≢◌, ◌↔◌, ◌⊎◌, inl,
  inr, Bool, true, false, not, ◌&&◌, ◌||◌, Option, none, some, List, [], ◌∷◌, ◌++◌, map, append-nil,
  append_assoc, arith, ltb, leb, ◌==◌, if◌then◌else◌, Bool-cases, Option-cases, length, get_elem?,
  get_or, take, drop, length-append, length-take, length-drop, take-eq_self, drop-eq_nil,
  take-append_self, drop-append_self,
}
use browserhistory.Prelude.Int.{ℤ, pos, negsuc, minus_one, is_positive, is_nat, pos_part}
use browserhistory.Prelude.Text.{
  Bytes, codes, copy_into, is_nonempty, str_eq, c_string, span, NoNul, AreBytes, c_string-NoNul,
}

abbrev pub max_terms : ℕ
max_terms = 16

abbrev pub pattern_size : ℕ
pattern_size = 512

abbrev pub max_results : ℕ
max_results = 1000

pub data SearchTermType : Type 0 where
  substring regex domain tld keyword exclude : SearchTermType

pub data SearchOperator : Type 0 where
  op_and op_or op_not : SearchOperator

pub record SearchTerm : Type 0 where
  pub type : SearchTermType
  pub pattern : Bytes
  pub combinator : SearchOperator
  pub case_sensitive : Bool
  pub match_url : Bool
  pub match_title : Bool

pub record SearchQuery : Type 0 where
  pub terms : List SearchTerm
  pub domain_filter : Bytes
  pub tld_filter : Bytes
  pub date_after : Bytes
  pub date_before : Bytes
  pub min_visits : ℤ
  pub result_limit : ℕ
  pub rank_by_visits : Bool
  pub rank_by_recency : Bool
  pub rank_by_relevance : Bool

unfoldable pub search_query_init : SearchQuery
search_query_init = record {
  terms = [];
  domain_filter = [];
  tld_filter = [];
  date_after = [];
  date_before = [];
  min_visits = pos 0;
  result_limit = max_results;
  rank_by_visits = true;
  rank_by_recency = true;
  rank_by_relevance = true;
}
