-- ===== src/Trie/Serialize/RoundTrip.antt =====
-- c/domain_trie.c: a trie is read back from its bytes.
use browserhistory.Prelude.{
  take-append_self, drop-append_self, ℕ, zero, suc, ◌+◌, ◌-◌, ◌^◌, ◌≤◌, ◌<◌, ◌≡◌, refl, sym, ap,
  ◌∙◌, Bool, true, false, not, Option, none, some, [], ◌∷◌, ◌++◌, append-nil, append_assoc, arith,
  ltb, ◌==◌, if◌then◌else◌, length, get_or, take, drop, length-append,
}
use browserhistory.Prelude.Text.{Bytes, str_eq, NoNul, c_string-NoNul}
use browserhistory.Trie.{
  TrieNode, TrieNodes, trie_node, no_nodes, more_nodes, DomainTrie, max_children, child_count,
  child_urls, child_visits, subtree_urls, subtree_visits, count_terminals, child_terminals,
  trie_unique_count,
}
use browserhistory.Trie.Totals.{node_total, child_total, IsCounted}
use browserhistory.Trie.Serialize.{
  le32, flag, node_fields, serialize_node, serialize_nodes, header_bytes, trie_serialize, read_le32,
  ReadNode, ReadNodes, put_children, clamp, read_children, read_body, deserialize_node,
  trie_deserialize, trie_of, magic, header_size,
}

-- A tree of at most `fuel` levels, whose nodes fit the format and know their depth.
unfoldable mutual
  pub FitsNode : ℕ → ℕ → TrieNode → Type 0
  FitsNode zero depth node = ⊥
  FitsNode (suc fuel) depth (trie_node label u v terminal d children) =
      (length label ≤ 127)
      × NoNul label
      × (d ≡ depth)
      × (child_count children ≤ max_children)
      × FitsNodes fuel (depth + 1) children

  pub FitsNodes : ℕ → ℕ → TrieNodes → Type 0
  FitsNodes fuel depth no_nodes = Unit
  FitsNodes fuel depth (more_nodes node rest) = FitsNode fuel depth node × FitsNodes fuel depth rest

-- The bytes of a node where there is room for them.
unfoldable mutual
  pub node_bytes : TrieNode → Bytes
  node_bytes (trie_node label u v terminal depth children) =
      node_fields label u v terminal (child_count children) ++ nodes_bytes children

  pub nodes_bytes : TrieNodes → Bytes
  nodes_bytes no_nodes = []
  nodes_bytes (more_nodes node rest) = node_bytes node ++ nodes_bytes rest

length-node_fields :
    (label : Bytes) (u v : ℕ) (terminal : Bool) (k : ℕ)
    → length (node_fields label u v terminal k) ≡ 11 + length label
unfolding node_fields le32
length-node_fields label u v terminal k =
    omega (arith, length-append label (le32 u ++ (le32 v ++ (flag terminal ∷ k ∷ []))))

abbrev if_fits : ℕ → Bytes → Option Bytes
if_fits room bytes = if ltb room (length bytes) then none else some bytes

mutual
  unfolding serialize_node node_bytes

  serialize_node-bytes :
      (room : ℕ) (node : TrieNode) → serialize_node room node ≡ if_fits room (node_bytes node)
  serialize_node-bytes room (trie_node label u v terminal depth cs) =
      let front = node_fields label u v terminal (child_count cs) in
      ground (
        arith,
        length-node_fields label u v terminal (child_count cs),
        length-append front (nodes_bytes cs),
        serialize_nodes-bytes (room - (11 + length label)) cs,
      )

  serialize_nodes-bytes :
      (room : ℕ) (cs : TrieNodes) → serialize_nodes room cs ≡ if_fits room (nodes_bytes cs)
  serialize_nodes-bytes room no_nodes = ground arith
  serialize_nodes-bytes room (more_nodes node rest) = ground (
    arith,
    serialize_node-bytes room node,
    length-append (node_bytes node) (nodes_bytes rest),
    serialize_nodes-bytes (room - length (node_bytes node)) rest,
  )

read_le32-le32 : (v : ℕ) (rest : Bytes) → v < 2 ^ 31 → read_le32 (le32 v ++ rest) ≡ v
unfolding read_le32 le32
read_le32-le32 v rest h = omega arith

not-flag : (b : Bool) → not (flag b == 0) ≡ b
not-flag true = refl
not-flag false = refl

read_body-fields :
    (read : Bytes → Option ReadNode) (depth : ℕ) (label : Bytes) (u v : ℕ) (terminal : Bool) (k : ℕ)
    (tail : Bytes)
    → length label ≤ 127
    → NoNul label
    → u < 2 ^ 31
    → v < 2 ^ 31
    → k ≤ max_children
    → read_body read depth
        (length label)
        (label ++ (le32 u ++ (le32 v ++ (flag terminal ∷ k ∷ tail))))
      ≡ put_children label u v terminal depth (read_children read k tail)
unfolding read_body
read_body-fields read depth label u v terminal k tail h n hu hv hk =
    let fields = le32 u ++ (le32 v ++ (flag terminal ∷ k ∷ tail)) in
    let whole : ltb (length (label ++ fields)) (length label + 10) ≡ false =
      unfold le32 in ground (arith, length-append label fields) in
    let c : clamp 127 (length label) ≡ length label = ground arith in
    let ck : clamp max_children k ≡ k = ground arith in
    let d4 : drop 4 fields ≡ le32 v ++ (flag terminal ∷ k ∷ tail) = unfold le32 in refl in
    let g8 : get_or fields 8 0 ≡ flag terminal = unfold le32 in refl in
    let g9 : get_or fields 9 0 ≡ k = unfold le32 in refl in
    let d10 : drop 10 fields ≡ tail = unfold le32 in refl in
    rw (whole, c, take-append_self, drop-append_self, c_string-NoNul label n, read_le32-le32 u _ hu)
      (rw (d4, g8, g9, d10, read_le32-le32 v _ hv, ck, not-flag terminal))

node_fields-append :
    (label : Bytes) (u v : ℕ) (terminal : Bool) (k : ℕ) (tail : Bytes)
    → node_fields label u v terminal k ++ tail
      ≡ length label ∷ (label ++ (le32 u ++ (le32 v ++ (flag terminal ∷ k ∷ tail))))
unfolding node_fields le32
node_fields-append label u v terminal k tail = ap (◌∷◌ (length label)) (append_assoc label _ tail)

abbrev read_nodes : ℕ → ℕ → ℕ → Bytes → Option ReadNodes
read_nodes fuel depth k bytes = read_children (deserialize_node fuel depth) k bytes

mutual
  unfolding node_bytes FitsNode node_total deserialize_node read_children child_count subtree_urls
      subtree_visits

  deserialize_node-bytes :
      (fuel depth : ℕ) (node : TrieNode) (rest : Bytes)
      → FitsNode fuel depth node
      → subtree_urls node < 2 ^ 31
      → subtree_visits node < 2 ^ 31
      → deserialize_node fuel depth (node_bytes node ++ rest)
        ≡ some (record { node = node; count = node_total node; rest = rest })
  deserialize_node-bytes zero depth node rest h hu hv = absurd h
  deserialize_node-bytes (suc fuel) depth (trie_node label u v terminal d cs) rest h hu hv =
      let body =
        read_body-fields (deserialize_node fuel (depth + 1)) depth label u v terminal
          (child_count cs) (nodes_bytes cs ++ rest) h.0 h.1 (omega arith) (omega arith) h.3 in
      let below =
        deserialize_nodes-bytes fuel (depth + 1) cs rest h.4 (omega arith) (omega arith) in
      let split =
        append_assoc (node_fields label u v terminal (child_count cs)) (nodes_bytes cs) rest
        ∙ node_fields-append label u v terminal (child_count cs) (nodes_bytes cs ++ rest) in
      ap (deserialize_node (suc fuel) depth) split ∙ body ∙ rw (below, h.2)

  deserialize_nodes-bytes :
      (fuel depth : ℕ) (cs : TrieNodes) (rest : Bytes)
      → FitsNodes fuel depth cs
      → child_urls cs < 2 ^ 31
      → child_visits cs < 2 ^ 31
      → read_nodes fuel depth (child_count cs) (nodes_bytes cs ++ rest)
        ≡ some (record { nodes = cs; count = child_total cs; rest = rest })
  deserialize_nodes-bytes fuel depth no_nodes rest h hu hv = refl
  deserialize_nodes-bytes fuel depth (more_nodes node others) rest h hu hv =
      let first =
        deserialize_node-bytes fuel depth node (nodes_bytes others ++ rest) h.0 (omega arith)
          (omega arith) in
      let later = deserialize_nodes-bytes fuel depth others rest h.1 (omega arith) (omega arith) in
      let count : 1 + child_count others ≡ suc (child_count others) = omega arith in
      rw (count, append_assoc) (rw (first, read_children) (rw later))

mutual
  unfolding count_terminals node_total

  count_terminals-le : (node : TrieNode) → count_terminals node ≤ node_total node
  count_terminals-le (trie_node label u v terminal depth cs) = ground (arith, child_terminals-le cs)

  child_terminals-le : (cs : TrieNodes) → child_terminals cs ≤ child_total cs
  child_terminals-le no_nodes = omega arith
  child_terminals-le (more_nodes node rest) =
      omega (arith, count_terminals-le node, child_terminals-le rest)

-- The counts of a trie that its bytes can hold.
pub record FitsCounts (t : DomainTrie) : Type 0 where
  pub few_nodes : t.total_nodes ≤ 1000000
  pub few_urls : t.total_urls < 2 ^ 31
  pub few_visits : t.total_visits < 2 ^ 31

length-header_bytes : (t : DomainTrie) → length (header_bytes t) ≡ 16
unfolding header_bytes le32
length-header_bytes t = refl

trie_serialize-bytes :
    (bufsize : ℕ) (t : DomainTrie) {bytes : Bytes}
    → trie_serialize bufsize t ≡ some bytes
    → (bytes ≡ header_bytes t ++ node_bytes t.root) × (length bytes ≤ bufsize)
unfolding trie_serialize
trie_serialize-bytes bufsize t e = ground (
  arith,
  serialize_node-bytes (bufsize - header_size) t.root,
  length-append (header_bytes t) (node_bytes t.root),
  length-header_bytes t,
)

read_header :
    (t : DomainTrie) (rest : Bytes)
    → (length (header_bytes t ++ rest) ≡ 16 + length rest)
      × (take 4 (header_bytes t ++ rest) ≡ magic)
      × (drop 4 (header_bytes t ++ rest)
          ≡ le32 1 ++ (le32 t.total_nodes ++ (le32 t.total_domains ++ rest)))
      × (drop 8 (header_bytes t ++ rest) ≡ le32 t.total_nodes ++ (le32 t.total_domains ++ rest))
      × (drop 12 (header_bytes t ++ rest) ≡ le32 t.total_domains ++ rest)
      × (drop 16 (header_bytes t ++ rest) ≡ rest)
unfolding header_bytes le32
read_header t rest = (omega arith, refl, refl, refl, refl, refl)

deserialize_header :
    (t : DomainTrie) (rest : Bytes)
    → t.total_nodes ≤ 1000000
    → t.total_domains ≤ t.total_nodes
    → trie_deserialize (header_bytes t ++ rest)
      ≡ trie_of t.total_domains (deserialize_node 19 0 rest)
unfolding trie_deserialize
deserialize_header t rest n d =
    let (size, front, version, nodes, domains, tail) = read_header t rest in
    let long : ltb (length (header_bytes t ++ rest)) header_size ≡ false = ground (arith, size) in
    let few : ltb 1000000 t.total_nodes ≡ false = ground arith in
    let fewer : ltb t.total_nodes t.total_domains ≡ false = ground arith in
    let v = read_le32-le32 1 (le32 t.total_nodes ++ (le32 t.total_domains ++ rest)) (omega arith) in
    let k = read_le32-le32 t.total_nodes (le32 t.total_domains ++ rest) (omega arith) in
    let m = read_le32-le32 t.total_domains rest (omega arith) in
    let same : str_eq magic magic ≡ true = unfold str_eq in refl in
    rw (long, front, version, nodes, domains, tail) (rw (v, k, m) (rw (same, few, fewer)))

same_trie :
    (t : DomainTrie)
    → IsCounted t
    → trie_of t.total_domains
        (some (record { node = t.root; count = node_total t.root; rest = [] }))
      ≡ some t
same_trie t c = ground (arith, c)

-- A trie whose totals are those of its nodes, which its bytes can hold, and whose levels, labels
-- and numbers of children are within the limits, is read back from the buffer that it was written
-- to; what was written fits the buffer.
pub trie_deserialize-trie_serialize :
    (bufsize : ℕ) (t : DomainTrie) {bytes : Bytes}
    → IsCounted t
    → FitsCounts t
    → FitsNode 19 0 t.root
    → trie_serialize bufsize t ≡ some bytes
    → (trie_deserialize bytes ≡ some t) × (length bytes ≤ bufsize)
unfolding trie_unique_count
trie_deserialize-trie_serialize bufsize t c f h e =
    let w = trie_serialize-bytes bufsize t e in
    let domains : t.total_domains ≤ t.total_nodes =
      omega (arith, c.domains, c.nodes, count_terminals-le t.root) in
    let header = deserialize_header t (node_bytes t.root) f.few_nodes domains in
    let root =
      deserialize_node-bytes 19 0 t.root [] h (omega (arith, c.urls, f.few_urls))
        (omega (arith, c.visits, f.few_visits)) in
    let whole = ap (deserialize_node 19 0) (sym (append-nil (node_bytes t.root))) ∙ root in
    (ap trie_deserialize w.0 ∙ header ∙ ap (trie_of t.total_domains) whole ∙ same_trie t c, w.1)
