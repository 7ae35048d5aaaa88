-- ===== src/Trie/Totals.antt =====
-- c/domain_trie.c: the totals of a trie are those of its nodes.
use browserhistory.Prelude.{
  ℕ, ◌+◌, ◌-◌, ◌≡◌, inl, inr, some, List, [], ◌∷◌, arith, if◌then◌else◌, Bool-cases, Option-cases,
}
use browserhistory.Prelude.Text.{Bytes}
use browserhistory.Trie.{
  TrieNode, TrieNodes, trie_node, no_nodes, more_nodes, DomainTrie, node_create, trie_create,
  split_domain_reverse, has_label, find_child, put_child, append_child, Inserted, mark_terminal,
  insert_path, count_inserted, insert_labels, trie_insert, subtree_urls, child_urls, subtree_visits,
  child_visits, count_terminals, child_terminals, trie_unique_count,
}

unfoldable mutual
  pub node_total : TrieNode → ℕ
  node_total (trie_node label u v terminal depth children) = 1 + child_total children

  pub child_total : TrieNodes → ℕ
  child_total no_nodes = 0
  child_total (more_nodes node rest) = node_total node + child_total rest

pub record IsCounted (t : DomainTrie) : Type 0 where
  pub nodes : t.total_nodes ≡ node_total t.root
  pub domains : t.total_domains ≡ trie_unique_count t
  pub urls : t.total_urls ≡ subtree_urls t.root
  pub visits : t.total_visits ≡ subtree_visits t.root

put_child-sums :
    (l : Bytes) (old new : TrieNode) (cs : TrieNodes)
    → find_child l cs ≡ some old
    → (child_total (put_child l new cs) + node_total old ≡ child_total cs + node_total new)
      × (child_terminals (put_child l new cs) + count_terminals old
          ≡ child_terminals cs + count_terminals new)
      × (child_urls (put_child l new cs) + subtree_urls old ≡ child_urls cs + subtree_urls new)
      × (child_visits (put_child l new cs) + subtree_visits old
          ≡ child_visits cs + subtree_visits new)
unfolding find_child put_child child_total child_terminals child_urls child_visits
put_child-sums l old new no_nodes e = cc
put_child-sums l old new (more_nodes node rest) e = elim (Bool-cases (has_label l node)) [
  | inl d ↦ ground (arith, d, e)
  | inr d ↦ ground (arith, d, e, put_child-sums l old new rest)
]

append_child-sums :
    (cs : TrieNodes) (new : TrieNode)
    → (child_total (append_child cs new) ≡ child_total cs + node_total new)
      × (child_terminals (append_child cs new) ≡ child_terminals cs + count_terminals new)
      × (child_urls (append_child cs new) ≡ child_urls cs + subtree_urls new)
      × (child_visits (append_child cs new) ≡ child_visits cs + subtree_visits new)
unfolding append_child child_total child_terminals child_urls child_visits
append_child-sums no_nodes new = ground arith
append_child-sums (more_nodes node rest) new = ground (arith, append_child-sums rest new)

-- What an insertion adds to the sums of a node.
record Added (urls visits : ℕ) (node : TrieNode) (r : Inserted) : Type 0 where
  nodes : node_total r.node ≡ node_total node + r.created
  domains : count_terminals r.node ≡ count_terminals node + (if r.fresh then 1 else 0)
  urls_added : subtree_urls r.node ≡ subtree_urls node + (if r.done then urls else 0)
  visits_added : subtree_visits r.node ≡ subtree_visits node + (if r.done then visits else 0)

insert_path-Added :
    (memory urls visits : ℕ) (ls : List Bytes) (node : TrieNode)
    → Added urls visits node (insert_path memory urls visits ls node)
unfolding insert_path mark_terminal node_create node_total child_total count_terminals
    child_terminals subtree_urls child_urls subtree_visits child_visits
insert_path-Added memory urls visits [] (trie_node label u v terminal depth cs) = ground arith
insert_path-Added memory urls visits (l ∷ ls) (trie_node label u v terminal depth cs) =
    elim (Option-cases (find_child l cs)) [
      | inl e ↦
          let fresh = node_create l (depth + 1) in
          let h = insert_path-Added (memory - 1) urls visits ls fresh in
          let r = insert_path (memory - 1) urls visits ls fresh in
          ground (arith, e, h, append_child-sums cs r.node)
      | inr (c, e) ↦
          let h = insert_path-Added memory urls visits ls c in
          let r = insert_path memory urls visits ls c in
          ground (arith, e, h, put_child-sums l c r.node cs e)
    ]

pub trie_create-IsCounted : IsCounted trie_create
unfolding trie_create node_create node_total child_total trie_unique_count count_terminals
    child_terminals subtree_urls child_urls subtree_visits child_visits
trie_create-IsCounted = ground arith

-- If the totals of a trie equal the number of its nodes, the number of its domains, and the sums of
-- their counts, they do so after an insertion, one that fails for want of memory or room included.
pub trie_insert-IsCounted :
    (memory : ℕ) (t : DomainTrie) (domain : Bytes) (urls visits : ℕ)
    → IsCounted t
    → IsCounted (trie_insert memory t domain urls visits).0
unfolding trie_insert insert_labels count_inserted trie_unique_count
trie_insert-IsCounted memory t domain urls visits h =
    elim (Option-cases (split_domain_reverse domain)) [
      | inl e ↦ rw (e, trie_insert) h
      | inr ([], e) ↦ rw (e, trie_insert) h
      | inr (l ∷ ls, e) ↦
          let a = insert_path-Added memory urls visits (l ∷ ls) t.root in
          rw (e, trie_insert)
            (record {
              nodes = omega (arith, h.nodes, a.nodes);
              domains = omega (arith, h.domains, a.domains);
              urls = omega (arith, h.urls, a.urls_added);
              visits = omega (arith, h.visits, a.visits_added);
            })
    ]
