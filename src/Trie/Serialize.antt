-- ===== src/Trie/Serialize.antt =====
-- c/domain_trie.c, serialization. A buffer is the list of its bytes; `room` is bufsize - offset.
-- The header is the struct on a machine with 32-bit little-endian integers. A count of 2^31 or
-- more, which the C code reads back as a negative number, is outside the model, and the allocations
-- of the reader succeed.
pub mod RoundTrip
use browserhistory.Prelude.{
  ℕ, zero, suc, ◌+◌, ◌-◌, ◌*◌, ◌/◌, ◌%◌, ◌^◌, ◌≤◌, ◌<◌, ◌≡◌, refl, sym, ap, ◌∙◌, ◌≢◌, ◌↔◌, ◌⊎◌, inl,
  inr, Bool, true, false, not, ◌&&◌, ◌||◌, Option, none, some, List, [], ◌∷◌, ◌++◌, map, append-nil,
  append_assoc, arith, ltb, leb, ◌==◌, if◌then◌else◌, Bool-cases, Option-cases, length, get_elem?,
  get_or, take, drop, length-append, length-take, length-drop, take-eq_self, drop-eq_nil,
}
use browserhistory.Prelude.Int.{ℤ, pos, negsuc, minus_one, is_positive, is_nat, pos_part}
use browserhistory.Prelude.Text.{
  Bytes, codes, copy_into, is_nonempty, str_eq, c_string, span, NoNul, AreBytes,
}
use browserhistory.Trie.{
  TrieNode, TrieNodes, trie_node, no_nodes, more_nodes, DomainTrie, node_create, max_children,
  child_count, label_size, subtree_urls, subtree_visits,
}

-- The bytes of a 32-bit value, the lowest one first.
unfoldable pub le32 : ℕ → Bytes
le32 v = v % 256 ∷ v / 2 ^ 8 % 256 ∷ v / 2 ^ 16 % 256 ∷ v / 2 ^ 24 % 256 ∷ []

abbrev pub flag : Bool → ℕ
flag true = 1
flag false = 0

-- What is written of one node, without its children.
unfoldable pub node_fields : Bytes → ℕ → ℕ → Bool → ℕ → Bytes
node_fields label u v terminal children =
    length label ∷ (label ++ (le32 u ++ (le32 v ++ (flag terminal ∷ children ∷ []))))

-- The bytes of the later children behind those of the first one, if both fit.
abbrev pub behind : Bytes → Option Bytes → Option Bytes
behind front none = none
behind front (some back) = some (front ++ back)

-- `none` is the error -1, of a buffer that is too small.
unfoldable mutual
  pub serialize_node : ℕ → TrieNode → Option Bytes
  serialize_node room (trie_node label u v terminal depth children) =
      let needed = 11 + length label in
      let later = serialize_nodes (room - needed) children in
      if ltb room needed
      then none
      else behind (node_fields label u v terminal (child_count children)) later

  pub serialize_nodes : ℕ → TrieNodes → Option Bytes
  serialize_nodes room no_nodes = some []
  serialize_nodes room (more_nodes node rest) = elim (serialize_node room node) [
    | none ↦ none
    | some front ↦ behind front (serialize_nodes (room - length front) rest)
  ]

abbrev pub magic : Bytes
magic = codes "DTRI"

abbrev pub header_size : ℕ
header_size = 16

unfoldable pub header_bytes : DomainTrie → Bytes
header_bytes trie = magic ++ (le32 1 ++ (le32 trie.total_nodes ++ le32 trie.total_domains))

unfoldable pub trie_serialize : ℕ → DomainTrie → Option Bytes
trie_serialize bufsize trie =
    if ltb bufsize header_size
    then none
    else behind (header_bytes trie) (serialize_node (bufsize - header_size) trie.root)

unfoldable pub read_le32 : Bytes → ℕ
read_le32 bytes =
    get_or bytes 0 0
    + get_or bytes 1 0 * 2 ^ 8
    + get_or bytes 2 0 * 2 ^ 16
    + get_or bytes 3 0 * 2 ^ 24

-- A node that was read, how many nodes it has, and the bytes behind it.
pub record ReadNode : Type 0 where
  pub node : TrieNode
  pub count : ℕ
  pub rest : Bytes

pub record ReadNodes : Type 0 where
  pub nodes : TrieNodes
  pub count : ℕ
  pub rest : Bytes

abbrev pub add_node : ReadNode → Option ReadNodes → Option ReadNodes
add_node first none = none
add_node first (some others) = some (record {
  nodes = more_nodes first.node others.nodes;
  count = first.count + others.count;
  rest = others.rest;
})

-- The loop over the children; the first argument reads one of them.
unfoldable pub read_children : (Bytes → Option ReadNode) → ℕ → Bytes → Option ReadNodes
read_children read zero bytes = some (record { nodes = no_nodes; count = 0; rest = bytes })
read_children read (suc n) bytes = elim (read bytes) [
  | none ↦ none
  | some first ↦ add_node first (read_children read n first.rest)
]

abbrev pub put_children : Bytes → ℕ → ℕ → Bool → ℕ → Option ReadNodes → Option ReadNode
put_children label u v terminal depth none = none
put_children label u v terminal depth (some r) = some (record {
  node = trie_node label u v terminal depth r.nodes;
  count = 1 + r.count;
  rest = r.rest;
})

abbrev pub clamp : ℕ → ℕ → ℕ
clamp limit n = if ltb limit n then limit else n

-- What follows the length byte of a label. A label that is longer than its field is cut, and what
-- was cut off is then read as the node's counts.
unfoldable pub read_body : (Bytes → Option ReadNode) → ℕ → ℕ → Bytes → Option ReadNode
read_body read depth label_len bytes =
    let n = clamp (label_size - 1) label_len in
    let fields = drop n bytes in
    let children = clamp max_children (get_or fields 9 0) in
    if ltb (length bytes) (label_len + 10)
    then none
    else put_children (c_string (take n bytes)) (read_le32 fields) (read_le32 (drop 4 fields))
        (not (get_or fields 8 0 == 0)) depth (read_children read children (drop 10 fields))

-- `fuel` is the number of levels that may still be read: depth is at most TRIE_MAX_DEPTH + 2.
unfoldable pub deserialize_node : ℕ → ℕ → Bytes → Option ReadNode
deserialize_node zero depth bytes = none
deserialize_node (suc fuel) depth [] = none
deserialize_node (suc fuel) depth (label_len ∷ bytes) =
    read_body (deserialize_node fuel (depth + 1)) depth label_len bytes

abbrev pub trie_of : ℕ → Option ReadNode → Option DomainTrie
trie_of domains none = none
trie_of domains (some r) = some (record {
  root = r.node;
  total_nodes = r.count;
  total_domains = domains;
  total_urls = subtree_urls r.node;
  total_visits = subtree_visits r.node;
})

-- `none` is the answer NULL. A count with its top bit set is negative.
unfoldable pub trie_deserialize : Bytes → Option DomainTrie
trie_deserialize bytes =
    let version = read_le32 (drop 4 bytes) in
    let nodes = read_le32 (drop 8 bytes) in
    let domains = read_le32 (drop 12 bytes) in
    if ltb (length bytes) header_size
      || not (str_eq (take 4 bytes) magic)
      || not (version == 1)
      || ltb 1000000 nodes
      || ltb nodes domains
    then none
    else trie_of domains (deserialize_node 19 0 (drop header_size bytes))
