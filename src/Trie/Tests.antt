-- ===== src/Trie/Tests.antt =====
-- c/domain_trie.c: the theorems at concrete inputs, and runs of the code.
use browserhistory.Prelude.{ℕ, List, ◌+◌, ◌≡◌, refl, ◌≢◌, true, some, [], arith, take}
use browserhistory.Prelude.Text.{codes}
use browserhistory.Trie.{
  TrieNode, DomainTrie, trie_create, trie_insert, trie_lookup, split_domain_reverse, node_create,
  insert_labels, insert_path, mark_terminal, find_child, append_child, child_count,
}
use browserhistory.Trie.Totals.{IsCounted, trie_create-IsCounted, trie_insert-IsCounted}
use browserhistory.Trie.Lookup.{urls_of, visits_of, Kept}
use browserhistory.Trie.Insert.{node_at, trie_insert-lookup, trie_insert-lookup_other}
use browserhistory.Trie.TopK.{TopKEntry, trie_top_k, limit_k, children_of}
use browserhistory.Trie.TopK.Ranking.{Descending, with_visits, child_entries, trie_top_k-rank}
use browserhistory.Prelude.Text.{Bytes}
use browserhistory.Prelude.{Option, none, length, ◌≤◌}
use browserhistory.Trie.{count_inserted}
use browserhistory.Trie.Serialize.{
  serialize_node, header_bytes, le32, node_fields, trie_serialize, trie_deserialize,
}
use browserhistory.Trie.Serialize.RoundTrip.{FitsNode, FitsCounts, trie_deserialize-trie_serialize}
use browserhistory.Trie.Fits.{trie_create-FitsNode, trie_insert-FitsNode}
use browserhistory.Trie.Compact.{trie_compact}
use browserhistory.Trie.Compact.Sums.{Compacted, trie_compact-Compacted}
use browserhistory.Url.Segments.{tokens_from}

abbrev small : DomainTrie
small = (trie_insert 9 trie_create (codes "a.org") 2 5).0

small-IsCounted : IsCounted small
small-IsCounted = trie_insert-IsCounted 9 trie_create (codes "a.org") 2 5 trie_create-IsCounted

-- With memory for one node only, the second label cannot be added.
trie_insert-IsCounted_example : IsCounted (trie_insert 1 small (codes "x.b.org") 1 1).0
trie_insert-IsCounted_example = trie_insert-IsCounted 1 small (codes "x.b.org") 1 1 small-IsCounted

stored : (trie_insert 9 trie_create (codes "a.org") 2 5).1 ≡ true
unfolding trie_insert trie_create split_domain_reverse tokens_from insert_labels insert_path
    mark_terminal node_create find_child append_child child_count
stored = refl

trie_insert-lookup_example :
    (node : TrieNode) × (trie_lookup
        (trie_insert 9 trie_create (codes "a.org") 2 5).0
        (codes "a.org")
      ≡ some node)
    × (urls_of (some node) ≡ urls_of (node_at trie_create (codes "a.org")) + 2)
    × (visits_of (some node) ≡ visits_of (node_at trie_create (codes "a.org")) + 5)
trie_insert-lookup_example = trie_insert-lookup 9 trie_create (codes "a.org") 2 5 stored

different : split_domain_reverse (codes "a.org") ≢ split_domain_reverse (codes "b.org")
unfolding split_domain_reverse tokens_from
different = λ e. ground (arith, e)

trie_insert-lookup_other_example :
    Kept
      (trie_lookup small (codes "a.org"))
      (trie_lookup (trie_insert 9 small (codes "b.org") 1 1).0 (codes "a.org"))
trie_insert-lookup_other_example =
    trie_insert-lookup_other 9 small (codes "b.org") (codes "a.org") 1 1 different

trie_top_k-rank_example :
    (ranking : List TopKEntry) × (trie_top_k small 3 ≡ take (limit_k 3) ranking)
    × Descending ranking
    × ((n : ℕ) → with_visits n ranking ≡ with_visits n (child_entries [] (children_of small.root)))
trie_top_k-rank_example = trie_top_k-rank small 3

-- Of a domain with seventeen labels the last one, its top-level domain, is not read.
top_level_lost :
    split_domain_reverse (codes "a.b.c.d.e.f.g.h.i.j.k.l.m.n.o.p.com")
    ≡ split_domain_reverse (codes "a.b.c.d.e.f.g.h.i.j.k.l.m.n.o.p.org")
unfolding split_domain_reverse tokens_from
top_level_lost = refl

small-FitsCounts : FitsCounts small
unfolding trie_insert trie_create split_domain_reverse tokens_from insert_labels insert_path
    mark_terminal node_create find_child append_child child_count count_inserted
small-FitsCounts = record {
  few_nodes = omega arith;
  few_urls = omega arith;
  few_visits = omega arith;
}

small-FitsNode : FitsNode 19 0 (trie_insert 9 trie_create (codes "a.org") 2 5).0.root
small-FitsNode =
    trie_insert-FitsNode 9 trie_create (codes "a.org") 2 5
      (ground arith, (ground arith, (ground arith, (ground arith, (ground arith, tt)))))
      trie_create-FitsNode

trie_insert-FitsNode_example : FitsNode 19 0 (trie_insert 9 trie_create (codes "a.org") 2 5).0.root
trie_insert-FitsNode_example =
    trie_insert-FitsNode 9 trie_create (codes "a.org") 2 5
      (ground arith, (ground arith, (ground arith, (ground arith, (ground arith, tt)))))
      trie_create-FitsNode

abbrev text_of : Option Bytes → Bytes
text_of none = []
text_of (some s) = s

abbrev small_bytes : Bytes
small_bytes = text_of (trie_serialize 200 small)

serialized : trie_serialize 200 small ≡ some small_bytes
unfolding trie_serialize serialize_node trie_insert trie_create split_domain_reverse tokens_from
    insert_labels insert_path mark_terminal node_create find_child append_child child_count
    count_inserted header_bytes le32 node_fields
serialized = refl

trie_deserialize-trie_serialize_example :
    (trie_deserialize small_bytes ≡ some small) × (length small_bytes ≤ 200)
trie_deserialize-trie_serialize_example =
    trie_deserialize-trie_serialize 200 small small-IsCounted small-FitsCounts small-FitsNode
      serialized

trie_compact-Compacted_example : Compacted small (trie_compact small)
trie_compact-Compacted_example = trie_compact-Compacted small
