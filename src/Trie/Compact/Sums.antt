-- ===== src/Trie/Compact/Sums.antt =====
-- c/domain_trie.c: what compaction keeps, and the shape that it leaves.
use browserhistory.Prelude.{ℕ, ◌+◌, ◌≡◌, refl, ◌≢◌, ◌⊎◌, inl, inr, Bool, true, false, arith}
use browserhistory.Prelude.Text.{Bytes}
use browserhistory.Trie.{
  TrieNode, TrieNodes, trie_node, no_nodes, more_nodes, DomainTrie, subtree_urls, child_urls,
  subtree_visits, child_visits, count_terminals, child_terminals, trie_unique_count, child_count,
}
use browserhistory.Trie.TopK.{children_of}
use browserhistory.Trie.Compact.{
  merged_label, merge_chain, compact_node, compact_nodes, compact_root, trie_compact,
}

record SameSums (a b : TrieNode) : Type 0 where
  urls : subtree_urls a ≡ subtree_urls b
  visits : subtree_visits a ≡ subtree_visits b
  terminals : count_terminals a ≡ count_terminals b

record SameChildSums (a b : TrieNodes) : Type 0 where
  urls : child_urls a ≡ child_urls b
  visits : child_visits a ≡ child_visits b
  terminals : child_terminals a ≡ child_terminals b

merge_chain-SameSums :
    (label : Bytes) (u v : ℕ) (terminal : Bool) (depth : ℕ) (cs : TrieNodes)
    → SameSums (merge_chain label u v terminal depth cs) (trie_node label u v terminal depth cs)
unfolding merge_chain subtree_urls child_urls subtree_visits child_visits count_terminals
    child_terminals
merge_chain-SameSums label u v terminal depth no_nodes = record {
  urls = refl;
  visits = refl;
  terminals = refl;
}
merge_chain-SameSums label u v true depth (more_nodes node rest) = record {
  urls = refl;
  visits = refl;
  terminals = refl;
}
merge_chain-SameSums label u v false depth (more_nodes (trie_node l a b t d cs) no_nodes) =
    ground (arith, merge_chain-SameSums (merged_label label l) (u + a) (v + b) t depth cs)
merge_chain-SameSums label u v false depth (more_nodes node (more_nodes second rest)) = record {
  urls = refl;
  visits = refl;
  terminals = refl;
}

-- No node but a terminal one has exactly one child.
mutual
  pub IsCompact : TrieNode → Type 0
  IsCompact (trie_node label u v terminal depth children) =
      ((terminal ≡ true) ⊎ (child_count children ≢ 1)) × AreCompact children

  pub AreCompact : TrieNodes → Type 0
  AreCompact no_nodes = Unit
  AreCompact (more_nodes node rest) = IsCompact node × AreCompact rest

mutual
  unfolding compact_node subtree_urls child_urls subtree_visits child_visits count_terminals
      child_terminals

  compact_node-SameSums : (node : TrieNode) → SameSums (compact_node node) node
  compact_node-SameSums (trie_node label u v terminal depth cs) = ground (
    arith,
    merge_chain-SameSums label u v terminal depth (compact_nodes cs),
    compact_nodes-SameSums cs,
  )

  compact_nodes-SameSums : (cs : TrieNodes) → SameChildSums (compact_nodes cs) cs
  compact_nodes-SameSums no_nodes = record { urls = refl; visits = refl; terminals = refl }
  compact_nodes-SameSums (more_nodes node rest) =
      ground (arith, compact_node-SameSums node, compact_nodes-SameSums rest)

merge_chain-IsCompact :
    (label : Bytes) (u v : ℕ) (terminal : Bool) (depth : ℕ) (cs : TrieNodes)
    → AreCompact cs
    → IsCompact (merge_chain label u v terminal depth cs)
unfolding merge_chain IsCompact child_count
merge_chain-IsCompact label u v terminal depth no_nodes h = (inr (omega arith), tt)
merge_chain-IsCompact label u v true depth (more_nodes node rest) h = (inl refl, h)
merge_chain-IsCompact label u v false depth (more_nodes (trie_node l a b t d cs) no_nodes) h =
    merge_chain-IsCompact (merged_label label l) (u + a) (v + b) t depth cs h.0.1
merge_chain-IsCompact label u v false depth (more_nodes node (more_nodes second rest)) h =
    (inr (omega arith), h)

mutual
  unfolding compact_node IsCompact

  compact_node-IsCompact : (node : TrieNode) → IsCompact (compact_node node)
  compact_node-IsCompact (trie_node label u v terminal depth cs) =
      merge_chain-IsCompact label u v terminal depth (compact_nodes cs)
        (compact_nodes-AreCompact cs)

  compact_nodes-AreCompact : (cs : TrieNodes) → AreCompact (compact_nodes cs)
  compact_nodes-AreCompact no_nodes = tt
  compact_nodes-AreCompact (more_nodes node rest) =
      (compact_node-IsCompact node, compact_nodes-AreCompact rest)

pub record Compacted (old new : DomainTrie) : Type 0 where
  pub urls : subtree_urls new.root ≡ subtree_urls old.root
  pub visits : subtree_visits new.root ≡ subtree_visits old.root
  pub domains : trie_unique_count new ≡ trie_unique_count old
  pub nodes : new.total_nodes ≡ trie_unique_count old
  pub shape : AreCompact (children_of new.root)

-- Compaction keeps the number of domains and the sums of their counts, and leaves below the root no
-- node with exactly one child that is not itself a domain. The number that it stores as that of the
-- nodes is the number of domains.
pub trie_compact-Compacted : (t : DomainTrie) → Compacted t (trie_compact t)
unfolding trie_compact compact_root trie_unique_count subtree_urls subtree_visits count_terminals
trie_compact-Compacted t =
    elim t.root as (λ r. Compacted (record t { root = r }) (trie_compact (record t { root = r }))) [
      | trie_node label u v terminal depth cs ↦
          let s = compact_nodes-SameSums cs in
          record {
            urls = omega (arith, s.urls);
            visits = omega (arith, s.visits);
            domains = omega (arith, s.terminals);
            nodes = omega (arith, s.terminals);
            shape = compact_nodes-AreCompact cs;
          }
    ]
