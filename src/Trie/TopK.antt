-- ===== src/Trie/TopK.antt =====
-- c/domain_trie.c, trie_top_k. The array `results` is the list of its entries.
pub mod Ranking
use browserhistory.Prelude.{
  ℕ, zero, suc, ◌+◌, ◌-◌, ◌*◌, ◌/◌, ◌%◌, ◌^◌, ◌≤◌, ◌<◌, ◌≡◌, refl, sym, ap, ◌∙◌, ◌≢◌, ◌↔◌, ◌⊎◌, inl,
  inr, Bool, true, false, not, ◌&&◌, ◌||◌, Option, none, some, List, [], ◌∷◌, ◌++◌, map, append-nil,
  append_assoc, arith, ltb, leb, ◌==◌, if◌then◌else◌, Bool-cases, Option-cases, length, get_elem?,
  get_or, take, drop, length-append, length-take, length-drop, take-eq_self, drop-eq_nil,
}
use browserhistory.Prelude.Int.{ℤ, pos, negsuc, minus_one, is_positive, is_nat, pos_part}
use browserhistory.Prelude.Text.{
  Bytes, codes, copy_into, is_nonempty, str_eq, c_string, span, NoNul, AreBytes,
}
use browserhistory.Trie.{
  TrieNode, TrieNodes, trie_node, no_nodes, more_nodes, DomainTrie, max_top_k,
}

pub record TopKEntry : Type 0 where
  pub domain : Bytes
  pub url_count : ℕ
  pub visit_count : ℕ

abbrev pub domain_size : ℕ
domain_size = 512

unfoldable pub insert_entry : TopKEntry → List TopKEntry → List TopKEntry
insert_entry e [] = e ∷ []
insert_entry e (r ∷ rs) =
    let later = insert_entry e rs in
    if ltb r.visit_count e.visit_count then e ∷ r ∷ rs else r ∷ later

-- Of a list of at most `k` entries, the last one is shifted out where there are `k` already.
unfoldable pub topk_insert : ℕ → TopKEntry → List TopKEntry → List TopKEntry
topk_insert k e results = take k (insert_entry e results)

-- `new_path`, the name of a child's domain below a path.
unfoldable pub child_path : Bytes → TrieNode → Bytes
child_path path (trie_node label u v terminal depth children) =
    copy_into domain_size (if is_nonempty path then label ++ b'.' ∷ path else label)

abbrev pub entry_of : Bytes → ℕ → ℕ → TopKEntry
entry_of path u v = record { domain = copy_into domain_size path; url_count = u; visit_count = v }

unfoldable mutual
  pub topk_traverse : ℕ → Bytes → TrieNode → List TopKEntry → List TopKEntry
  topk_traverse k path (trie_node label u v terminal depth children) results =
      topk_children k path children
        (if terminal then topk_insert k (entry_of path u v) results else results)

  pub topk_children : ℕ → Bytes → TrieNodes → List TopKEntry → List TopKEntry
  topk_children k path no_nodes results = results
  topk_children k path (more_nodes node rest) results =
      topk_children k path rest (topk_traverse k (child_path path node) node results)

abbrev pub children_of : TrieNode → TrieNodes
children_of (trie_node label u v terminal depth children) = children

abbrev pub limit_k : ℕ → ℕ
limit_k k = if ltb max_top_k k then max_top_k else k

unfoldable pub trie_top_k : DomainTrie → ℕ → List TopKEntry
trie_top_k trie k = topk_children (limit_k k) [] (children_of trie.root) []
