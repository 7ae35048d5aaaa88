-- ===== src/Search/Execute/Terms.antt =====
-- c/search_engine.c: what the loop of search_execute over the terms of a query decides.
use browserhistory.Prelude.{
  ℕ, some, Bool-cases, ◌≡◌, refl, ◌↔◌, ◌⊎◌, inl, inr, Bool, true, false, Option, List, [], ◌∷◌,
}
use browserhistory.Prelude.Text.{Bytes}
use browserhistory.History.{HistoryEntry}
use browserhistory.Search.{SearchQuery, SearchOperator, op_and, op_not, op_or, SearchTerm}
use browserhistory.Search.Matching.{passes_filters, term_matches}
use browserhistory.Search.Execute.{
  SearchHit, hit_of, evaluate_terms, evaluate_entry, Evaluation, negated, combine, add_term,
  evaluate_from, no_evaluation,
}

combine_sound :
    (op : SearchOperator) (overall matched : Bool)
    → combine op overall matched ≡ true
    → ((overall ≡ true) × ((op ≡ op_or) ⊎ (matched ≡ true))) ⊎ ((op ≡ op_or) × (matched ≡ true))
combine_sound op_or true matched h = inl (refl, inl refl)
combine_sound op_or false matched h = inr (refl, h)
combine_sound op_and true matched h = inl (refl, inr h)
combine_sound op_and false matched h = absurd cc
combine_sound op_not true matched h = inl (refl, inr h)
combine_sound op_not false matched h = absurd cc

combine_kept :
    (op : SearchOperator) (overall matched : Bool)
    → overall ≡ true
    → (op ≡ op_or) ⊎ (matched ≡ true)
    → combine op overall matched ≡ true
combine_kept op_or overall matched h k = rw h refl
combine_kept op_and overall matched h (inl k) = absurd cc
combine_kept op_and overall matched h (inr k) = rw (h, k) refl
combine_kept op_not overall matched h (inl k) = absurd cc
combine_kept op_not overall matched h (inr k) = rw (h, k) refl

combine_new :
    (op : SearchOperator) (overall matched : Bool)
    → op ≡ op_or
    → matched ≡ true
    → combine op overall matched ≡ true
combine_new op true matched h k = rw h refl
combine_new op false matched h k = rw h k

module _ (posix : Bytes → Bytes → Bool → Option Bool) (entry : HistoryEntry) where
  -- The entry matches the term, or does not where the term is negated.
  abbrev pub Holds : SearchTerm → Type 0
  Holds term = negated term.combinator (term_matches posix term entry).matched ≡ true

  -- Each of the terms holds or is an alternative.
  abbrev pub Sustained : List SearchTerm → Type 0
  Sustained [] = Unit
  Sustained (term ∷ terms) = ((term.combinator ≡ op_or) ⊎ Holds term) × Sustained terms

  -- Some term holds that is the first or an alternative, and those behind it keep the result.
  pub data Decided : Bool → List SearchTerm → Type 0 where
    starts :
        {first : Bool} {term : SearchTerm} {terms : List SearchTerm}
        → (first ≡ true) ⊎ (term.combinator ≡ op_or)
        → Holds term
        → Sustained terms
        → Decided first (term ∷ terms)
    later :
        {first : Bool} {term : SearchTerm} {terms : List SearchTerm}
        → Decided false terms
        → Decided first (term ∷ terms)

  evaluate_from_sound :
      (ev : Evaluation) (terms : List SearchTerm)
      → (evaluate_from posix false entry ev terms).overall_match ≡ true
      → ((ev.overall_match ≡ true) × Sustained terms) ⊎ Decided false terms
  unfolding evaluate_from add_term
  evaluate_from_sound ev [] h = inl (h, tt)
  evaluate_from_sound ev (term ∷ terms) h =
      let hit = term_matches posix term entry in
      elim (evaluate_from_sound (add_term false term hit ev) terms h) [
        | inl (now, rest) ↦
            elim (combine_sound term.combinator ev.overall_match
              (negated term.combinator hit.matched) now) [
                | inl (old, kept) ↦ inl (old, (kept, rest))
                | inr (alternative, holds) ↦ inr (starts (inr alternative) holds rest)
              ]
        | inr further ↦ inr (later further)
      ]

  evaluate_from_complete :
      (ev : Evaluation) (terms : List SearchTerm)
      → ((ev.overall_match ≡ true) × Sustained terms) ⊎ Decided false terms
      → (evaluate_from posix false entry ev terms).overall_match ≡ true
  unfolding evaluate_from add_term
  evaluate_from_complete ev [] (inl h) = h.0
  evaluate_from_complete ev [] (inr h) = elim h [ ]
  evaluate_from_complete ev (term ∷ terms) (inl (old, (kept, rest))) =
      let hit = term_matches posix term entry in
      evaluate_from_complete (add_term false term hit ev) terms (
        inl (
          combine_kept term.combinator ev.overall_match (negated term.combinator hit.matched) old
              kept,
          rest,
        ))
  evaluate_from_complete ev (term ∷ terms) (inr (starts (inl first) holds rest)) = absurd cc
  evaluate_from_complete ev (term ∷ terms) (inr (starts (inr alternative) holds rest)) =
      let hit = term_matches posix term entry in
      evaluate_from_complete (add_term false term hit ev) terms (
        inl (
          combine_new term.combinator ev.overall_match (negated term.combinator hit.matched)
              alternative holds,
          rest,
        ))
  evaluate_from_complete ev (term ∷ terms) (inr (later further)) =
      let hit = term_matches posix term entry in
      evaluate_from_complete (add_term false term hit ev) terms (inr further)

  evaluate_from-Decided :
      (term : SearchTerm) (terms : List SearchTerm)
      → ((evaluate_from posix true entry no_evaluation (term ∷ terms)).overall_match ≡ true)
        ↔ Decided true (term ∷ terms)
  unfolding evaluate_from add_term
  evaluate_from-Decided term terms =
      let hit = term_matches posix term entry in
      let ev = add_term true term hit no_evaluation in
      (
        λ h. elim (evaluate_from_sound ev terms h) [
          | inl (holds, rest) ↦ starts (inl refl) holds rest
          | inr further ↦ later further
        ],
        λ h.
            evaluate_from_complete ev terms
              (elim h [ starts _ holds rest ↦ inl (holds, rest) | later further ↦ inr further ]),
      )

module _ (posix : Bytes → Bytes → Bool → Option Bool) (now : ℕ) where
  evaluate_terms-Decided :
      (query : SearchQuery) (i : ℕ) (entry : HistoryEntry) (terms : List SearchTerm)
      → ((h : SearchHit) × (evaluate_terms posix now query i entry terms ≡ some h))
        ↔ ((terms ≡ []) ⊎ Decided posix entry true terms)
  unfolding evaluate_terms
  evaluate_terms-Decided query i entry [] =
      (λ r. inl refl, λ d. (hit_of posix now query i entry no_evaluation, refl))
  evaluate_terms-Decided query i entry (term ∷ terms) =
      let ev = evaluate_from posix true entry no_evaluation (term ∷ terms) in
      let decided = evaluate_from-Decided posix entry term terms in
      (
        λ r. elim (Bool-cases ev.overall_match) [
          | inl e ↦ inr (decided.0 e)
          | inr e ↦ absurd (cc (rw (e, evaluate_terms) at r.1))
        ],
        λ d. (
          hit_of posix now query i entry ev,
          elim d [ inl e ↦ absurd (cc) | inr k ↦ rw (decided.1 k, evaluate_terms) refl ],
        ),
      )

  -- An entry is a hit of a query, before the limit on the number of hits, exactly if it passes the
  -- filters for visits, dates and the domain, and the query has no terms or some term holds that is
  -- the first one or an alternative and behind which every term holds or is an alternative. A term
  -- holds where it matches, a negated one where it does not.
  pub evaluate_entry-Decided :
      (query : SearchQuery) (i : ℕ) (entry : HistoryEntry)
      → ((h : SearchHit) × (evaluate_entry posix now query i entry ≡ some h)) ↔ (
          (passes_filters entry query ≡ true)
          × ((query.terms ≡ []) ⊎ Decided posix entry true query.terms))
  unfolding evaluate_entry
  evaluate_entry-Decided query i entry =
      let decided = evaluate_terms-Decided query i entry query.terms in
      (
        λ r. elim (Bool-cases (passes_filters entry query)) [
          | inl e ↦ (e, decided.0 (r.0, rw (e, evaluate_entry) at r.1))
          | inr e ↦ absurd (cc (rw (e, evaluate_entry) at r.1))
        ],
        λ d. let r = decided.1 d.1 in (r.0, rw (d.0, evaluate_entry) r.1),
      )
