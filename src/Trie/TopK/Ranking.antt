-- ===== src/Trie/TopK/Ranking.antt =====
-- c/domain_trie.c: the entries of trie_top_k are the first of a ranking of all domains.
use browserhistory.Prelude.{
  ◌==◌, ◌<◌, append_assoc, append-nil, ℕ, zero, suc, ◌≤◌, ◌≡◌, refl, sym, ap, ◌∙◌, inl, inr, true,
  false, List, [], ◌∷◌, ◌++◌, arith, ltb, if◌then◌else◌, Bool-cases, take,
}
use browserhistory.Prelude.Text.{Bytes}
use browserhistory.Trie.{TrieNode, TrieNodes, trie_node, no_nodes, more_nodes, DomainTrie}
use browserhistory.Trie.TopK.{
  TopKEntry, insert_entry, topk_insert, child_path, entry_of, topk_traverse, topk_children,
  children_of, limit_k, trie_top_k,
}

-- All domains of a node, in the order of the traversal.
mutual
  pub entries : Bytes → TrieNode → List TopKEntry
  entries path (trie_node label u v terminal depth children) =
      (if terminal then entry_of path u v ∷ [] else []) ++ child_entries path children

  pub child_entries : Bytes → TrieNodes → List TopKEntry
  child_entries path no_nodes = []
  child_entries path (more_nodes node rest) =
      entries (child_path path node) node ++ child_entries path rest

-- The domains with a number of visits, in their order.
abbrev pub with_visits : ℕ → List TopKEntry → List TopKEntry
with_visits n [] = []
with_visits n (e ∷ es) = if e.visit_count == n then e ∷ with_visits n es else with_visits n es

-- Entries put one after another in front of the first one with fewer visits.
abbrev rank_from : List TopKEntry → List TopKEntry → List TopKEntry
rank_from rs [] = rs
rank_from rs (e ∷ es) = rank_from (insert_entry e rs) es

abbrev pub Descending : List TopKEntry → Type 0
Descending [] = Unit
Descending (e ∷ []) = Unit
Descending (e ∷ r ∷ rs) = (r.visit_count ≤ e.visit_count) × Descending (r ∷ rs)

rank_from-append :
    (rs es fs : List TopKEntry) → rank_from rs (es ++ fs) ≡ rank_from (rank_from rs es) fs
rank_from-append rs [] fs = refl
rank_from-append rs (e ∷ es) fs = rank_from-append (insert_entry e rs) es fs

take-take-suc : (n : ℕ) (rs : List TopKEntry) → take n (take (suc n) rs) ≡ take n rs
take-take-suc zero rs = refl
take-take-suc (suc n) [] = refl
take-take-suc (suc n) (r ∷ rs) = ap (◌∷◌ r) (take-take-suc n rs)

take-cons_take :
    (n : ℕ) (r : TopKEntry) (rs : List TopKEntry) → take n (r ∷ take n rs) ≡ take n (r ∷ rs)
take-cons_take zero r rs = refl
take-cons_take (suc n) r rs = ap (◌∷◌ r) (take-take-suc n rs)

-- What falls out of the first `k` never comes back.
topk_insert-take :
    (k : ℕ) (e : TopKEntry) (rs : List TopKEntry)
    → topk_insert k e (take k rs) ≡ take k (insert_entry e rs)
unfolding topk_insert insert_entry
topk_insert-take zero e rs = refl
topk_insert-take (suc n) e [] = refl
topk_insert-take (suc n) e (r ∷ rs) = elim (Bool-cases (ltb r.visit_count e.visit_count)) [
  | inl d ↦ rw d (ap (◌∷◌ e) (take-cons_take n r rs))
  | inr d ↦ rw d (ap (◌∷◌ r) (topk_insert-take n e rs))
]

mutual
  unfolding topk_traverse entries

  topk_traverse-rank :
      (k : ℕ) (path : Bytes) (node : TrieNode) (rs : List TopKEntry)
      → topk_traverse k path node (take k rs) ≡ take k (rank_from rs (entries path node))
  topk_traverse-rank k path (trie_node label u v true depth cs) rs =
      ap (topk_children k path cs) (topk_insert-take k (entry_of path u v) rs)
      ∙ topk_children-rank k path cs (insert_entry (entry_of path u v) rs)
  topk_traverse-rank k path (trie_node label u v false depth cs) rs =
      topk_children-rank k path cs rs

  topk_children-rank :
      (k : ℕ) (path : Bytes) (cs : TrieNodes) (rs : List TopKEntry)
      → topk_children k path cs (take k rs) ≡ take k (rank_from rs (child_entries path cs))
  topk_children-rank k path no_nodes rs = refl
  topk_children-rank k path (more_nodes node rest) rs =
      ap (topk_children k path rest) (topk_traverse-rank k (child_path path node) node rs)
      ∙ topk_children-rank k path rest (rank_from rs (entries (child_path path node) node))
      ∙ ap (take k) (
          sym (rank_from-append rs (entries (child_path path node) node) (child_entries path rest)))

insert_entry-Descending :
    (e : TopKEntry) (rs : List TopKEntry) → Descending rs → Descending (insert_entry e rs)
unfolding insert_entry
insert_entry-Descending e [] h = tt
insert_entry-Descending e (r ∷ []) h = ground arith
insert_entry-Descending e (r ∷ s ∷ rs) h = ground (arith, insert_entry-Descending e (s ∷ rs) h.1)

rank_from-Descending : (rs es : List TopKEntry) → Descending rs → Descending (rank_from rs es)
rank_from-Descending rs [] h = h
rank_from-Descending rs (e ∷ es) h =
    rank_from-Descending (insert_entry e rs) es (insert_entry-Descending e rs h)

with_visits-append :
    (n : ℕ) (es fs : List TopKEntry)
    → with_visits n (es ++ fs) ≡ with_visits n es ++ with_visits n fs
with_visits-append n [] fs = refl
with_visits-append n (e ∷ es) fs = elim (Bool-cases (e.visit_count == n)) [
  | inl d ↦ rw d (ap (◌∷◌ e) (with_visits-append n es fs))
  | inr d ↦ rw d (with_visits-append n es fs)
]

-- No entry has more visits than the first one.
Descending-with_visits :
    (n : ℕ) (r : TopKEntry) (rs : List TopKEntry)
    → Descending (r ∷ rs)
    → r.visit_count < n
    → with_visits n (r ∷ rs) ≡ []
Descending-with_visits n r [] h k =
    let differs : (r.visit_count == n) ≡ false = ground (arith, k) in rw differs refl
Descending-with_visits n r (s ∷ rs) h k =
    let differs : (r.visit_count == n) ≡ false = ground (arith, k) in
    rw differs (Descending-with_visits n s rs h.1 (omega (arith, h.0, k)))

Descending-tail : (r : TopKEntry) (rs : List TopKEntry) → Descending (r ∷ rs) → Descending rs
Descending-tail r [] h = tt
Descending-tail r (s ∷ rs) h = h.1

-- An entry stands behind those with as many visits.
with_visits-insert_entry :
    (n : ℕ) (e : TopKEntry) (rs : List TopKEntry)
    → Descending rs
    → with_visits n (insert_entry e rs) ≡ with_visits n rs ++ with_visits n (e ∷ [])
unfolding insert_entry
with_visits-insert_entry n e [] h = refl
with_visits-insert_entry n e (r ∷ rs) h = elim (Bool-cases (ltb r.visit_count e.visit_count)) [
  | inl d ↦ elim (Bool-cases (e.visit_count == n)) [
    | inl same ↦ rw (d, same, Descending-with_visits n r rs h (ground (arith, d, same))) refl
    | inr other ↦ rw (d, other) (sym (append-nil (with_visits n (r ∷ rs))))
  ]
  | inr d ↦ elim (Bool-cases (r.visit_count == n)) [
    | inl same ↦
        rw (d, same) (ap (◌∷◌ r) (with_visits-insert_entry n e rs (Descending-tail r rs h)))
    | inr other ↦ rw (d, other) (with_visits-insert_entry n e rs (Descending-tail r rs h))
  ]
]

with_visits-rank_from :
    (n : ℕ) (rs es : List TopKEntry)
    → Descending rs
    → with_visits n (rank_from rs es) ≡ with_visits n rs ++ with_visits n es
with_visits-rank_from n rs [] h = sym (append-nil (with_visits n rs))
with_visits-rank_from n rs (e ∷ es) h =
    with_visits-rank_from n (insert_entry e rs) es (insert_entry-Descending e rs h)
    ∙ ap (λ xs. xs ++ with_visits n es) (with_visits-insert_entry n e rs h)
    ∙ append_assoc (with_visits n rs) (with_visits n (e ∷ [])) (with_visits n es)
    ∙ ap (λ xs. with_visits n rs ++ xs) (sym (with_visits-append n (e ∷ []) es))

-- The answer is the first `k` entries, at most 32, of a ranking of all domains of the trie: the
-- visits descend in it, and for each number of visits it holds exactly the domains with that number,
-- in the order of the traversal.
pub trie_top_k-rank :
    (t : DomainTrie) (k : ℕ)
    → (ranking : List TopKEntry) × (trie_top_k t k ≡ take (limit_k k) ranking)
      × Descending ranking
      × ((n : ℕ) → with_visits n ranking ≡ with_visits n (child_entries [] (children_of t.root)))
unfolding trie_top_k
trie_top_k-rank t k =
    let domains = child_entries [] (children_of t.root) in
    (
      rank_from [] domains,
      ap (topk_children (limit_k k) [] (children_of t.root)) (sym (take_nothing (limit_k k)))
          ∙ topk_children-rank (limit_k k) [] (children_of t.root) [],
      rank_from-Descending [] domains tt,
      λ n. with_visits-rank_from n [] domains tt,
    )
  where
    take_nothing : (n : ℕ) → take {A = TopKEntry} n [] ≡ []
    take_nothing zero = refl
    take_nothing (suc n) = refl
