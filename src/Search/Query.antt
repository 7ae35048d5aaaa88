-- ===== src/Search/Query.antt =====
-- c/search_engine.c, the query parser. What is left of the query takes the place of `pos`.
pub mod Fuel
use browserhistory.Prelude.{
  ℕ, zero, suc, ◌+◌, ◌-◌, ◌*◌, ◌/◌, ◌%◌, ◌^◌, ◌≤◌, ◌<◌, ◌≡◌, refl, sym, ap, ◌∙◌, ◌≢◌, ◌↔◌, ◌⊎◌, inl,
  inr, Bool, true, false, not, ◌&&◌, ◌||◌, Option, none, some, List, [], ◌∷◌, ◌++◌, map, append-nil,
  append_assoc, arith, ltb, leb, ◌==◌, if◌then◌else◌, Bool-cases, Option-cases, length, get_elem?,
  get_or, take, drop, length-append, length-take, length-drop, take-eq_self, drop-eq_nil,
  take-append_self, drop-append_self,
}
use browserhistory.Prelude.Int.{ℤ, pos, negsuc, minus_one, is_positive, is_nat, pos_part}
use browserhistory.Prelude.Text.{
  Bytes, codes, copy_into, is_nonempty, str_eq, c_string, span, NoNul, AreBytes, c_string-NoNul,
}
use browserhistory.Strings.{is_space, skip_spaces, has_prefix_nocase, atoi}
use browserhistory.Search.{
  SearchTermType, substring, regex, domain, tld, SearchOperator, op_and, op_or, op_not, SearchTerm,
  SearchQuery, search_query_init, max_terms, pattern_size,
}

-- The results 0, -1, -2, -3 and -4 of `parse_token`.
pub data Token : Type 0 where
  term : SearchTerm → Token
  nothing date_after date_before min_visits : Token

abbrev pub is_text : ℕ → Bool
is_text c = not (is_space c)

-- The value of a term and what follows it; a missing closing quote is the end.
unfoldable pub read_value : Bytes → Bytes × Bytes
read_value [] = ([], [])
read_value (c ∷ s) =
    let (quoted, behind) = span (λ d. not (d == b'"')) s in
    if c == b'"'
    then (copy_into pattern_size quoted, drop 1 behind)
    else (copy_into pattern_size (span is_text (c ∷ s)).0, (span is_text (c ∷ s)).1)

abbrev pub with_value : SearchOperator → SearchTermType → Bytes → Token × Bytes
with_value op type s =
    let (value, rest) = read_value s in
    (
      term (record {
        type = type;
        pattern = value;
        combinator = op;
        case_sensitive = false;
        match_url = true;
        match_title = true;
      }),
      rest,
    )

-- What follows the white space and the minus sign.
unfoldable pub parse_prefixed : SearchOperator → Bytes → Token × Bytes
parse_prefixed op s =
    if has_prefix_nocase (codes "regex:") s
    then with_value op regex (drop 6 s)
    else if has_prefix_nocase (codes "domain:") s
    then with_value op domain (drop 7 s)
    else if has_prefix_nocase (codes "tld:") s
    then with_value op tld (drop 4 s)
    else if has_prefix_nocase (codes "after:") s
    then (date_after, drop 6 s)
    else if has_prefix_nocase (codes "before:") s
    then (date_before, drop 7 s)
    else if has_prefix_nocase (codes "visits:") s
    then (min_visits, drop 7 s)
    else with_value op substring s

unfoldable pub parse_text : Bytes → Token × Bytes
parse_text [] = (nothing, [])
parse_text (c ∷ []) = if c == b'-' then (nothing, []) else parse_prefixed op_and (c ∷ [])
parse_text (c ∷ d ∷ s) =
    if c == b'-' then parse_prefixed op_not (d ∷ s) else parse_prefixed op_and (c ∷ d ∷ s)

unfoldable pub parse_token : Bytes → Token × Bytes
parse_token s = parse_text (skip_spaces s)

abbrev pub ends_word : Bytes → Bool
ends_word [] = true
ends_word (c ∷ _) = is_space c

-- Whether a word of the query language stands in front, with white space or the end behind it.
unfoldable pub is_word : Bytes → Bytes → Bool
is_word word s = has_prefix_nocase word s && ends_word (drop (length word) s)

-- The loop's state: the combinator of the next term, the query, and what is left of the text.
pub record Parsing : Type 0 where
  pub next_op : SearchOperator
  pub query : SearchQuery
  pub rest : Bytes

abbrev pub combined : SearchOperator → SearchOperator → SearchOperator
combined op_not next = op_not
combined _ next = next

abbrev pub apply_token : SearchOperator → SearchQuery → Token × Bytes → Parsing
apply_token op q (nothing, s) = record { next_op = op; query = q; rest = s }
apply_token op q (date_after, s) =
    let (value, rest) = span is_text s in
    record { next_op = op; query = record q { date_after = copy_into 64 value }; rest = rest }
apply_token op q (date_before, s) =
    let (value, rest) = span is_text s in
    record { next_op = op; query = record q { date_before = copy_into 64 value }; rest = rest }
apply_token op q (min_visits, s) =
    let (value, rest) = span is_text s in
    record {
      next_op = op;
      query = record q { min_visits = atoi (copy_into 16 value) };
      rest = rest;
    }
apply_token op q (term t, s) = record {
  next_op = op_and;
  query = record q { terms = q.terms ++ record t { combinator = combined t.combinator op } ∷ [] };
  rest = s;
}

-- One round of the loop, on a text that begins with no white space.
unfoldable pub parse_step : SearchOperator → SearchQuery → Bytes → Parsing
parse_step op q s =
    if is_word (codes "AND") s
    then record { next_op = op_and; query = q; rest = drop 3 s }
    else if is_word (codes "OR") s
    then record { next_op = op_or; query = q; rest = drop 2 s }
    else if is_word (codes "NOT") s
    then record { next_op = op_not; query = q; rest = drop 3 s }
    else apply_token op q (parse_token s)

-- Each round takes a byte at least, so that the length of the text is fuel enough.
unfoldable pub parse_loop : ℕ → SearchOperator → SearchQuery → Bytes → SearchQuery
parse_loop zero op q s = q
parse_loop (suc fuel) op q s =
    let r = parse_step op q (skip_spaces s) in
    let done = parse_loop fuel r.next_op r.query r.rest in
    if leb max_terms (length q.terms) || not (is_nonempty (skip_spaces s)) then q else done

unfoldable pub search_parse_query : Bytes → SearchQuery
search_parse_query query_str = parse_loop (length query_str) op_and search_query_init query_str
