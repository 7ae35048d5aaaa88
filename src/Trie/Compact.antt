-- ===== src/Trie/Compact.antt =====
-- c/domain_trie.c, compaction: a chain of nodes with one child each becomes one node.
pub mod Sums
use browserhistory.Prelude.{
  ℕ, zero, suc, ◌+◌, ◌-◌, ◌*◌, ◌/◌, ◌%◌, ◌^◌, ◌≤◌, ◌<◌, ◌≡◌, refl, sym, ap, ◌∙◌, ◌≢◌, ◌↔◌, ◌⊎◌, inl,
  inr, Bool, true, false, not, ◌&&◌, ◌||◌, Option, none, some, List, [], ◌∷◌, ◌++◌, map, append-nil,
  append_assoc, arith, ltb, leb, ◌==◌, if◌then◌else◌, Bool-cases, Option-cases, length, get_elem?,
  get_or, take, drop, length-append, length-take, length-drop, take-eq_self, drop-eq_nil,
}
use browserhistory.Prelude.Int.{ℤ, pos, negsuc, minus_one, is_positive, is_nat, pos_part}
use browserhistory.Prelude.Text.{
  Bytes, codes, copy_into, is_nonempty, str_eq, c_string, span, NoNul, AreBytes,
}
use browserhistory.Trie.{
  TrieNode, TrieNodes, trie_node, no_nodes, more_nodes, DomainTrie, label_size, count_terminals,
}

-- The label of a node that takes its child over; `snprintf` cuts it to the field.
unfoldable pub merged_label : Bytes → Bytes → Bytes
merged_label label child =
    copy_into label_size (if is_nonempty label then label ++ b'.' ∷ child else child)

-- The loop that merges the only child into a node that is not terminal.
unfoldable pub merge_chain : Bytes → ℕ → ℕ → Bool → ℕ → TrieNodes → TrieNode
merge_chain label u v terminal depth no_nodes = trie_node label u v terminal depth no_nodes
merge_chain label u v true depth (more_nodes node rest) =
    trie_node label u v true depth (more_nodes node rest)
merge_chain label u v false depth (more_nodes (trie_node l u' v' t d children) no_nodes) =
    merge_chain (merged_label label l) (u + u') (v + v') t depth children
merge_chain label u v false depth (more_nodes node (more_nodes second rest)) =
    trie_node label u v false depth (more_nodes node (more_nodes second rest))

unfoldable mutual
  pub compact_node : TrieNode → TrieNode
  compact_node (trie_node label u v terminal depth children) =
      merge_chain label u v terminal depth (compact_nodes children)

  pub compact_nodes : TrieNodes → TrieNodes
  compact_nodes no_nodes = no_nodes
  compact_nodes (more_nodes node rest) = more_nodes (compact_node node) (compact_nodes rest)

-- The root itself is left as it is.
unfoldable pub compact_root : TrieNode → TrieNode
compact_root (trie_node label u v terminal depth children) =
    trie_node label u v terminal depth (compact_nodes children)

unfoldable pub trie_compact : DomainTrie → DomainTrie
trie_compact trie =
    let root = compact_root trie.root in
    record trie { root = root; total_nodes = count_terminals root }
