-- ===== src/Trie/Insert.antt =====
-- c/domain_trie.c: insertions seen through lookups.
use browserhistory.Prelude.{
  ℕ, suc, ◌+◌, ◌≡◌, refl, sym, ap, ◌∙◌, ◌≢◌, inl, inr, true, Option, none, some, List, [], ◌∷◌, map,
  arith, Option-cases, length, take, length-take,
}
use browserhistory.Prelude.Text.{Bytes, copy_into}
use mathlib.Core.List.{reverse_aux}
use browserhistory.Url.Parse.{lowercase}
use browserhistory.Url.Segments.{tokens}
use browserhistory.Trie.Lookup.{
  urls_of, visits_of, AreLabels, Marked, Kept, insert_path-Marked, insert_path-Kept,
}
use browserhistory.Trie.{
  TrieNode, trie_node, DomainTrie, split_domain_reverse, insert_path, count_inserted, insert_labels,
  trie_insert, walk, walk_labels, if_terminal, trie_lookup, max_depth, label_size,
}

length-lowercase : (s : Bytes) → length (lowercase s) ≡ length s
length-lowercase [] = refl
length-lowercase (c ∷ s) = ap suc (length-lowercase s)

AreLabels-map : (ps : List Bytes) → AreLabels (map (λ p. lowercase (copy_into label_size p)) ps)
AreLabels-map [] = tt
AreLabels-map (p ∷ ps) =
    (omega (arith, length-lowercase (copy_into label_size p), length-take 127 p), AreLabels-map ps)

AreLabels-reverse_aux :
    (ls acc : List Bytes) → AreLabels ls → AreLabels acc → AreLabels (reverse_aux ls acc)
AreLabels-reverse_aux [] acc h k = k
AreLabels-reverse_aux (l ∷ ls) acc h k = AreLabels-reverse_aux ls (l ∷ acc) h.1 (h.0, k)

pub split-AreLabels :
    (domain : Bytes) (ls : List Bytes) → split_domain_reverse domain ≡ some ls → AreLabels ls
unfolding split_domain_reverse
split-AreLabels domain ls e =
    let pieces = take max_depth (tokens b'.' domain) in
    let v =
      AreLabels-reverse_aux (map (λ p. lowercase (copy_into label_size p)) pieces) []
        (AreLabels-map pieces) tt in
    ground (arith, e, v)

-- The node of a domain, whether or not it was ever inserted.
abbrev pub node_at : DomainTrie → Bytes → Option TrieNode
node_at t domain = walk_labels (split_domain_reverse domain) t.root

-- Where an insertion succeeds, looking the domain up finds its node, whose counts are what they
-- were, or zero where there was none, and those of the insertion.
pub trie_insert-lookup :
    (memory : ℕ) (t : DomainTrie) (domain : Bytes) (urls visits : ℕ)
    → (trie_insert memory t domain urls visits).1 ≡ true
    → (node : TrieNode) × (trie_lookup (trie_insert memory t domain urls visits).0 domain
        ≡ some node)
      × (urls_of (some node) ≡ urls_of (node_at t domain) + urls)
      × (visits_of (some node) ≡ visits_of (node_at t domain) + visits)
unfolding trie_insert insert_labels count_inserted trie_lookup walk_labels
trie_insert-lookup memory t domain urls visits d =
    elim (Option-cases (split_domain_reverse domain)) [
      | inl e ↦ absurd (ground (arith, e, d))
      | inr ([], e) ↦ absurd (ground (arith, e, d))
      | inr (l ∷ ls, e) ↦
          let r = insert_path memory urls visits (l ∷ ls) t.root in
          let done : r.done ≡ true = ground (arith, e, d) in
          let h =
            insert_path-Marked memory urls visits (l ∷ ls) t.root
              (split-AreLabels domain (l ∷ ls) e) done in
          rw (e, trie_insert) (found (walk (l ∷ ls) t.root) (walk (l ∷ ls) r.node) h)
    ]
  where
    found :
        (before after : Option TrieNode)
        → Marked urls visits before after
        → (node : TrieNode) × (if_terminal after ≡ some node)
          × (urls_of (some node) ≡ urls_of before + urls)
          × (visits_of (some node) ≡ visits_of before + visits)
    found before none h = absurd (ground (arith, h))
    found before (some (trie_node label u v terminal depth cs)) h =
        (trie_node label u v terminal depth cs, rw h.terminal_now, h.urls_now, h.visits_now)

-- An insertion, also one that fails, leaves the counts of every domain with other labels alone, and
-- whether it is one of the trie's domains.
pub trie_insert-lookup_other :
    (memory : ℕ) (t : DomainTrie) (domain other : Bytes) (urls visits : ℕ)
    → split_domain_reverse other ≢ split_domain_reverse domain
    → Kept (trie_lookup t other) (trie_lookup (trie_insert memory t domain urls visits).0 other)
unfolding trie_insert insert_labels count_inserted trie_lookup walk_labels
trie_insert-lookup_other memory t domain other urls visits n =
    elim (Option-cases (split_domain_reverse domain)) [
      | inl e ↦ rw (e, trie_insert) unchanged
      | inr ([], e) ↦ rw (e, trie_insert) unchanged
      | inr (l ∷ ls, e) ↦
          let r = insert_path memory urls visits (l ∷ ls) t.root in
          rw (e, trie_insert)
            (read_other (split_domain_reverse other) (l ∷ ls) r.node (λ z. n (z ∙ sym e))
              (λ ks d.
                insert_path-Kept memory urls visits (l ∷ ls) ks t.root
                  (split-AreLabels domain (l ∷ ls) e) d))
    ]
  where
    unchanged : {o : Option TrieNode} → Kept o o
    unchanged = record { urls_same = refl; visits_same = refl; terminal_same = refl }

    only_terminal :
        (before after : Option TrieNode)
        → Kept before after
        → Kept (if_terminal before) (if_terminal after)
    only_terminal none none h = unchanged
    only_terminal none (some (trie_node label u v terminal depth cs)) h = ground (arith, h)
    only_terminal (some (trie_node label u v terminal depth cs)) none h = ground (arith, h)
    only_terminal (some (trie_node label u v terminal depth cs)) (some (trie_node k a b c d ds)) h =
        ground (arith, h)

    read_other :
        (o : Option (List Bytes)) (ls : List Bytes) (new : TrieNode)
        → o ≢ some ls
        → ((ks : List Bytes) → ls ≢ ks → Kept (walk ks t.root) (walk ks new))
        → Kept (if_terminal (walk_labels o t.root)) (if_terminal (walk_labels o new))
    read_other none ls new d h = unchanged
    read_other (some []) ls new d h = unchanged
    read_other (some (k ∷ ks)) ls new d h =
        only_terminal (walk (k ∷ ks) t.root) (walk (k ∷ ks) new)
          (h (k ∷ ks) (λ z. d (ap some (sym z))))
