-- ===== src/Search/Execute/Order.antt =====
-- c/search_engine.c: what search_execute returns, against a search with no limit and the order.
use browserhistory.Prelude.{
  ◌<◌, leb, true, sym, ◌⊎◌, ℕ, zero, suc, ◌≤◌, ◌≡◌, refl, ap, ◌∙◌, inl, inr, Bool, false, Option,
  none, some, List, [], ◌∷◌, arith, ltb, ◌==◌, if◌then◌else◌, Bool-cases, Option-cases, length,
  take,
}
use browserhistory.Prelude.Text.{Bytes}
use mathlib.Core.List.{reverse_aux}
use browserhistory.History.{HistoryEntry}
use browserhistory.Search.{max_results, SearchQuery}
use browserhistory.Search.Execute.{
  store, SearchResults, SearchHit, insert_hit, sort_onto, sort_hits, evaluate_entry, collect,
  search_execute,
}

abbrev AllAtMost : ℕ → List SearchHit → Type 0
AllAtMost n [] = Unit
AllAtMost n (h ∷ hs) = (h.score ≤ n) × AllAtMost n hs

abbrev AllAtLeast : ℕ → List SearchHit → Type 0
AllAtLeast n [] = Unit
AllAtLeast n (h ∷ hs) = (n ≤ h.score) × AllAtLeast n hs

-- No score is above one that stands before it.
abbrev pub Descending : List SearchHit → Type 0
Descending [] = Unit
Descending (h ∷ hs) = AllAtMost h.score hs × Descending hs

abbrev Ascending : List SearchHit → Type 0
Ascending [] = Unit
Ascending (h ∷ hs) = AllAtLeast h.score hs × Ascending hs

-- Each hit of the second list bounds the first list.
abbrev AllBound : List SearchHit → List SearchHit → Type 0
AllBound low [] = Unit
AllBound low (h ∷ hs) = AllAtMost h.score low × AllBound low hs

-- The hits of one score, in their order.
abbrev pub with_score : ℕ → List SearchHit → List SearchHit
with_score k [] = []
with_score k (h ∷ hs) = if h.score == k then h ∷ with_score k hs else with_score k hs

AllAtLeast-le : (m n : ℕ) (hs : List SearchHit) → m ≤ n → AllAtLeast n hs → AllAtLeast m hs
AllAtLeast-le m n [] h k = tt
AllAtLeast-le m n (x ∷ xs) h k = (omega (arith, h, k.0), AllAtLeast-le m n xs h k.1)

insert_hit-AllAtLeast :
    (n : ℕ) (key : SearchHit) (hs : List SearchHit)
    → n ≤ key.score
    → AllAtLeast n hs
    → AllAtLeast n (insert_hit key hs)
unfolding insert_hit
insert_hit-AllAtLeast n key [] h k = (h, tt)
insert_hit-AllAtLeast n key (x ∷ xs) h k = elim (Bool-cases (ltb x.score key.score)) [
  | inl e ↦ rw e (k.0, insert_hit-AllAtLeast n key xs h k.1)
  | inr e ↦ rw e (h, k)
]

insert_hit-Ascending :
    (key : SearchHit) (hs : List SearchHit) → Ascending hs → Ascending (insert_hit key hs)
unfolding insert_hit
insert_hit-Ascending key [] k = (tt, tt)
insert_hit-Ascending key (x ∷ xs) k = elim (Bool-cases (ltb x.score key.score)) [
  | inl e ↦
      let below : x.score ≤ key.score = ground (arith, e) in
      rw e (insert_hit-AllAtLeast x.score key xs below k.0, insert_hit-Ascending key xs k.1)
  | inr e ↦
      let below : key.score ≤ x.score = ground (arith, e) in
      rw e ((below, AllAtLeast-le key.score x.score xs below k.0), k)
]

sort_onto-Ascending :
    (sorted hs : List SearchHit) → Ascending sorted → Ascending (sort_onto sorted hs)
unfolding sort_onto
sort_onto-Ascending sorted [] k = k
sort_onto-Ascending sorted (x ∷ xs) k =
    sort_onto-Ascending (insert_hit x sorted) xs (insert_hit-Ascending x sorted k)

AllBound-cons :
    (x : SearchHit) (low hs : List SearchHit)
    → AllAtLeast x.score hs
    → AllBound low hs
    → AllBound (x ∷ low) hs
AllBound-cons x low [] h k = tt
AllBound-cons x low (y ∷ ys) h k = ((h.0, k.0), AllBound-cons x low ys h.1 k.1)

reverse_aux-Descending :
    (hs low : List SearchHit)
    → Ascending hs
    → Descending low
    → AllBound low hs
    → Descending (reverse_aux hs low)
reverse_aux-Descending [] low h k b = k
reverse_aux-Descending (x ∷ xs) low h k b =
    reverse_aux-Descending xs (x ∷ low) h.1 (b.0, k) (AllBound-cons x low xs h.0 b.1)

AllBound-nil : (hs : List SearchHit) → AllBound [] hs
AllBound-nil [] = tt
AllBound-nil (x ∷ xs) = (tt, AllBound-nil xs)

sort_hits-Descending : (hs : List SearchHit) → Descending (sort_hits hs)
unfolding sort_hits
sort_hits-Descending hs =
    reverse_aux-Descending (sort_onto [] hs) [] (sort_onto-Ascending [] hs tt) tt
      (AllBound-nil (sort_onto [] hs))

with_score-insert_hit :
    (k : ℕ) (key : SearchHit) (hs : List SearchHit)
    → with_score k (insert_hit key hs) ≡ with_score k (key ∷ hs)
unfolding insert_hit
with_score-insert_hit k key [] = refl
with_score-insert_hit k key (x ∷ xs) = elim (Bool-cases (ltb x.score key.score)) [
  | inl e ↦ elim (Bool-cases (x.score == k)) [
    | inl d ↦
        let differs : (key.score == k) ≡ false = ground (arith, e, d) in
        rw (e, d, differs) (ap (◌∷◌ x) (with_score-insert_hit k key xs ∙ rw differs refl))
    | inr d ↦ rw (e, d) (with_score-insert_hit k key xs)
  ]
  | inr e ↦ rw e refl
]

with_score-reverse_aux :
    (k : ℕ) (hs low : List SearchHit)
    → with_score k (reverse_aux hs low) ≡ reverse_aux (with_score k hs) (with_score k low)
with_score-reverse_aux k [] low = refl
with_score-reverse_aux k (x ∷ xs) low = elim (Bool-cases (x.score == k)) [
  | inl e ↦ rw e (with_score-reverse_aux k xs (x ∷ low) ∙ rw e refl)
  | inr e ↦ rw e (with_score-reverse_aux k xs (x ∷ low) ∙ rw e refl)
]

with_score-sort_onto :
    (k : ℕ) (sorted hs : List SearchHit)
    → reverse_aux (with_score k (sort_onto sorted hs)) []
      ≡ reverse_aux (with_score k sorted) (with_score k hs)
unfolding sort_onto
with_score-sort_onto k sorted [] = refl
with_score-sort_onto k sorted (x ∷ xs) =
    with_score-sort_onto k (insert_hit x sorted) xs
    ∙ ap (λ s. reverse_aux s (with_score k xs)) (with_score-insert_hit k x sorted)
    ∙ moved
  where
    moved :
        reverse_aux (with_score k (x ∷ sorted)) (with_score k xs)
        ≡ reverse_aux (with_score k sorted) (with_score k (x ∷ xs))
    moved = elim (Bool-cases (x.score == k)) [ inl e ↦ rw e refl | inr e ↦ rw e refl ]

with_score-sort_hits : (k : ℕ) (hs : List SearchHit) → with_score k (sort_hits hs) ≡ with_score k hs
unfolding sort_hits
with_score-sort_hits k hs =
    with_score-reverse_aux k (sort_onto [] hs) [] ∙ with_score-sort_onto k [] hs

-- What a search may return: the results hold, in descending order of their scores, the given hits,
-- for each score exactly those of this score, in this order, and count the whole history.
pub record Ranked (hits : List SearchHit) (n : ℕ) (r : SearchResults) : Type 0 where
  pub descending : Descending r.hits
  pub same_hits : (k : ℕ) → with_score k r.hits ≡ with_score k hits
  pub scanned : r.total_scanned ≡ n

-- The hits, where there is a slot for each.
abbrev within : ℕ → List SearchHit → Option (List SearchHit)
within slots hits = if leb (length hits) slots then some hits else none

within-fits :
    (slots : ℕ) (hits : List SearchHit) → length hits ≤ slots → within slots hits ≡ some hits
within-fits slots hits h = let e : leb (length hits) slots ≡ true = ground (arith, h) in rw e refl

within-beyond : (slots : ℕ) (hits : List SearchHit) → slots < length hits → within slots hits ≡ none
within-beyond slots hits h =
    let e : leb (length hits) slots ≡ false = ground (arith, h) in rw e refl

within-nil : (slots : ℕ) → within slots [] ≡ some []
within-nil slots = within-fits slots [] (omega arith)

store-within :
    (slots : ℕ) (h : SearchHit) (hits : List SearchHit)
    → store h (within slots hits) ≡ within (suc slots) (h ∷ hits)
store-within slots h hits = elim (Bool-cases (leb (length hits) slots)) [
  | inl e ↦ rw e (sym (within-fits (suc slots) (h ∷ hits) (ground (arith, e))))
  | inr e ↦ rw e (sym (within-beyond (suc slots) (h ∷ hits) (ground (arith, e))))
]

module _ (posix : Bytes → Bytes → Bool → Option Bool) (now : ℕ) where
  abbrev pub found : Option SearchHit → List SearchHit → List SearchHit
  found none hs = hs
  found (some h) hs = h ∷ hs

  -- The hits of every entry from an index on, with no limit.
  abbrev pub all_hits : SearchQuery → ℕ → List HistoryEntry → List SearchHit
  all_hits query i [] = []
  all_hits query i (entry ∷ entries) =
      found (evaluate_entry posix now query i entry) (all_hits query (suc i) entries)

  collect-take :
      (query : SearchQuery) (room slots i : ℕ) (entries : List HistoryEntry)
      → collect posix now query room slots i entries
        ≡ within slots (take room (all_hits query i entries))
  unfolding collect
  collect-take query zero slots i [] = sym (within-nil slots)
  collect-take query (suc room) slots i [] = sym (within-nil slots)
  collect-take query zero slots i (entry ∷ entries) =
      elim (Option-cases (evaluate_entry posix now query i entry)) [
        | inl e ↦ rw (e, collect) (collect-take query zero slots (suc i) entries)
        | inr (h, e) ↦ rw (e, collect) (sym (within-nil slots))
      ]
  collect-take query (suc room) zero i (entry ∷ entries) =
      elim (Option-cases (evaluate_entry posix now query i entry)) [
        | inl e ↦ rw (e, collect) (collect-take query (suc room) zero (suc i) entries)
        | inr (h, e) ↦
            let hits = take room (all_hits query (suc i) entries) in
            rw (e, collect) (sym (within-beyond 0 (h ∷ hits) (omega arith)))
      ]
  collect-take query (suc room) (suc slots) i (entry ∷ entries) =
      elim (Option-cases (evaluate_entry posix now query i entry)) [
        | inl e ↦ rw (e, collect) (collect-take query (suc room) (suc slots) (suc i) entries)
        | inr (h, e) ↦
            rw (e, collect)
              (ap (store h) (collect-take query room slots (suc i) entries)
                ∙ store-within slots h (take room (all_hits query (suc i) entries)))
      ]

  -- For a query whose limit is not 0, the hits in question are the first ones in the history's order,
  -- as many as the limit allows. Where they are at most 1000, as with a limit up to 1000, the search
  -- returns just these, in descending order of their scores, those of equal scores in the history's
  -- order; where they are more, it writes behind the end of the array of hits.
  pub search_execute-Ranked :
      (query : SearchQuery) (history : List HistoryEntry)
      → 0 < query.result_limit
      → let hits = take query.result_limit (all_hits query 0 history) in
        ((length hits ≤ max_results)
          × ((r : SearchResults) × (search_execute posix now query history ≡ some r)
              × Ranked hits (length history) r))
        ⊎ ((max_results < length hits) × (search_execute posix now query history ≡ none))
  unfolding search_execute
  search_execute-Ranked query history h =
      let hits = take query.result_limit (all_hits query 0 history) in
      let all = collect-take query query.result_limit max_results 0 history in
      elim (Bool-cases (leb (length hits) max_results)) [
        | inl e ↦ inl (
          ground (arith, e),
          (
            record { hits = sort_hits hits; total_scanned = length history },
            rw (all ∙ within-fits max_results hits (ground (arith, e)), search_execute) refl,
            record {
              descending = sort_hits-Descending hits;
              same_hits = λ k. with_score-sort_hits k hits;
              scanned = refl;
            },
          ),
        )
        | inr e ↦ inr (
          ground (arith, e),
          rw (all ∙ within-beyond max_results hits (ground (arith, e)), search_execute) refl,
        )
      ]
