-- ===== src/Trie.antt =====
-- c/domain_trie.c and c/domain_trie.h: a trie of domain names by their labels, the last one first.
-- `memory` is the number of nodes that can still be allocated; counts are not negative.
pub mod Totals
pub mod Lookup
pub mod Insert
pub mod TopK
pub mod Serialize
pub mod Compact
pub mod Fits
mod Tests
use browserhistory.Prelude.{
  ℕ, zero, suc, ◌+◌, ◌-◌, ◌*◌, ◌/◌, ◌%◌, ◌^◌, ◌≤◌, ◌<◌, ◌≡◌, refl, sym, ap, ◌∙◌, ◌≢◌, ◌↔◌, ◌⊎◌, inl,
  inr, Bool, true, false, not, ◌&&◌, ◌||◌, Option, none, some, List, [], ◌∷◌, ◌++◌, map, append-nil,
  append_assoc, arith, ltb, leb, ◌==◌, if◌then◌else◌, Bool-cases, Option-cases, length, get_elem?,
  get_or, take, drop, length-append, length-take, length-drop, take-eq_self, drop-eq_nil,
}
use browserhistory.Prelude.Int.{ℤ, pos, negsuc, minus_one, is_positive, is_nat, pos_part}
use browserhistory.Prelude.Text.{
  Bytes, codes, copy_into, is_nonempty, str_eq, c_string, span, NoNul, AreBytes,
}
use mathlib.Core.List.{reverse}
use browserhistory.Url.Parse.{lowercase}
use browserhistory.Url.Segments.{tokens}

abbrev pub max_children : ℕ
max_children = 64

abbrev pub label_size : ℕ
label_size = 128

abbrev pub max_depth : ℕ
max_depth = 16

abbrev pub max_top_k : ℕ
max_top_k = 32

mutual
  -- The label, url_count, visit_count, is_terminal, depth, and the children.
  pub data TrieNode : Type 0 where
    trie_node : Bytes → ℕ → ℕ → Bool → ℕ → TrieNodes → TrieNode

  pub data TrieNodes : Type 0 where
    no_nodes : TrieNodes
    more_nodes : TrieNode → TrieNodes → TrieNodes

pub record DomainTrie : Type 0 where
  pub root : TrieNode
  pub total_nodes : ℕ
  pub total_domains : ℕ
  pub total_urls : ℕ
  pub total_visits : ℕ

unfoldable pub node_create : Bytes → ℕ → TrieNode
node_create label depth = trie_node (copy_into label_size label) 0 0 false depth no_nodes

unfoldable pub trie_create : DomainTrie
unfolding node_create
trie_create = record {
  root = node_create [] 0;
  total_nodes = 1;
  total_domains = 0;
  total_urls = 0;
  total_visits = 0;
}

-- `none` is the answer -1. Empty labels are skipped, and what follows sixteen labels is not read.
unfoldable pub split_domain_reverse : Bytes → Option (List Bytes)
split_domain_reverse domain =
    let forward = take max_depth (tokens b'.' domain) in
    let label = λ (piece : Bytes). lowercase (copy_into label_size piece) in
    if is_nonempty domain then some (reverse (map label forward)) else none

unfoldable pub has_label : Bytes → TrieNode → Bool
has_label label (trie_node own u v terminal depth children) = str_eq own label

unfoldable pub find_child : Bytes → TrieNodes → Option TrieNode
find_child label no_nodes = none
find_child label (more_nodes node rest) =
    if has_label label node then some node else find_child label rest

-- The change of the child that `find_child` returned.
unfoldable pub put_child : Bytes → TrieNode → TrieNodes → TrieNodes
put_child label new no_nodes = no_nodes
put_child label new (more_nodes node rest) =
    let others = put_child label new rest in
    if has_label label node then more_nodes new rest else more_nodes node others

unfoldable pub child_count : TrieNodes → ℕ
child_count no_nodes = 0
child_count (more_nodes node rest) = 1 + child_count rest

unfoldable pub append_child : TrieNodes → TrieNode → TrieNodes
append_child no_nodes new = more_nodes new no_nodes
append_child (more_nodes node rest) new = more_nodes node (append_child rest new)

-- What an insertion makes of a node: the node, how many nodes were created below it, whether the
-- domain is a new one, and whether the insertion came to its end.
pub record Inserted : Type 0 where
  pub node : TrieNode
  pub created : ℕ
  pub fresh : Bool
  pub done : Bool

-- The end of `trie_insert`, at the node of the last label.
unfoldable pub mark_terminal : ℕ → ℕ → TrieNode → Inserted
mark_terminal urls visits (trie_node label u v terminal depth children) = record {
  node = trie_node label (u + urls) (v + visits) true depth children;
  created = 0;
  fresh = not terminal;
  done = true;
}

-- The loop of `trie_insert` over the labels. Nodes that were created stay where it fails later.
unfoldable pub insert_path : ℕ → ℕ → ℕ → List Bytes → TrieNode → Inserted
insert_path memory urls visits [] node = mark_terminal urls visits node
insert_path memory urls visits (l ∷ ls) (trie_node label u v terminal depth children) =
    elim (find_child l children) [
      | some child ↦
          let r = insert_path memory urls visits ls child in
          record r { node = trie_node label u v terminal depth (put_child l r.node children) }
      | none ↦
          let r = insert_path (memory - 1) urls visits ls (node_create l (depth + 1)) in
          if leb max_children (child_count children) || memory == 0
          then record {
            node = trie_node label u v terminal depth children;
            created = 0;
            fresh = false;
            done = false;
          }
          else record r {
            node = trie_node label u v terminal depth (append_child children r.node);
            created = r.created + 1;
          }
    ]

-- The trie after the loop.
unfoldable pub count_inserted : ℕ → ℕ → Inserted → DomainTrie → DomainTrie
count_inserted urls visits r trie = record {
  root = r.node;
  total_nodes = trie.total_nodes + r.created;
  total_domains = trie.total_domains + (if r.fresh then 1 else 0);
  total_urls = trie.total_urls + (if r.done then urls else 0);
  total_visits = trie.total_visits + (if r.done then visits else 0);
}

unfoldable pub insert_labels : ℕ → ℕ → ℕ → List Bytes → DomainTrie → DomainTrie × Bool
insert_labels memory urls visits [] trie = (trie, false)
insert_labels memory urls visits (l ∷ ls) trie =
    let r = insert_path memory urls visits (l ∷ ls) trie.root in
    (count_inserted urls visits r trie, r.done)

-- The Boolean is false for the answer -1.
unfoldable pub trie_insert : ℕ → DomainTrie → Bytes → ℕ → ℕ → DomainTrie × Bool
trie_insert memory trie domain urls visits = elim (split_domain_reverse domain) [
  | none ↦ (trie, false)
  | some labels ↦ insert_labels memory urls visits labels trie
]

unfoldable pub walk : List Bytes → TrieNode → Option TrieNode
walk [] node = some node
walk (l ∷ ls) (trie_node label u v terminal depth children) = elim (find_child l children) [
  | none ↦ none
  | some child ↦ walk ls child
]

unfoldable pub walk_labels : Option (List Bytes) → TrieNode → Option TrieNode
walk_labels none root = none
walk_labels (some []) root = none
walk_labels (some (l ∷ ls)) root = walk (l ∷ ls) root

abbrev pub if_terminal : Option TrieNode → Option TrieNode
if_terminal none = none
if_terminal (some (trie_node label u v terminal depth children)) =
    if terminal then some (trie_node label u v terminal depth children) else none

unfoldable pub trie_lookup : DomainTrie → Bytes → Option TrieNode
trie_lookup trie domain = if_terminal (walk_labels (split_domain_reverse domain) trie.root)

-- `propagate_subtree_counts`: the fields subtree_urls and subtree_visits of a node.
unfoldable mutual
  pub subtree_urls : TrieNode → ℕ
  subtree_urls (trie_node label u v terminal depth children) = u + child_urls children

  pub child_urls : TrieNodes → ℕ
  child_urls no_nodes = 0
  child_urls (more_nodes node rest) = subtree_urls node + child_urls rest

unfoldable mutual
  pub subtree_visits : TrieNode → ℕ
  subtree_visits (trie_node label u v terminal depth children) = v + child_visits children

  pub child_visits : TrieNodes → ℕ
  child_visits no_nodes = 0
  child_visits (more_nodes node rest) = subtree_visits node + child_visits rest

-- `none` is the answer -1.
unfoldable pub trie_aggregate : DomainTrie → Bytes → Option (ℕ × ℕ)
trie_aggregate trie domain = elim (walk_labels (split_domain_reverse domain) trie.root) [
  | none ↦ none
  | some node ↦ some (subtree_urls node, subtree_visits node)
]

unfoldable mutual
  pub count_terminals : TrieNode → ℕ
  count_terminals (trie_node label u v terminal depth children) =
      (if terminal then 1 else 0) + child_terminals children

  pub child_terminals : TrieNodes → ℕ
  child_terminals no_nodes = 0
  child_terminals (more_nodes node rest) = count_terminals node + child_terminals rest

unfoldable pub trie_unique_count : DomainTrie → ℕ
trie_unique_count trie = count_terminals trie.root
