-- ===== src/Trie/Fits.antt =====
-- c/domain_trie.c: insertions keep a trie within what its bytes can hold.
use browserhistory.Prelude.{
  ℕ, zero, suc, ◌+◌, ◌-◌, ◌≤◌, ◌≡◌, refl, ap, inl, inr, ◌||◌, some, List, [], ◌∷◌, map, arith, leb,
  ◌==◌, Bool-cases, Option-cases, length, take, take-eq_self,
}
use browserhistory.Prelude.Text.{Bytes, copy_into, is_nonempty, NoNul}
use mathlib.Core.List.{reverse_aux}
use browserhistory.Trie.{
  TrieNode, TrieNodes, trie_node, no_nodes, more_nodes, DomainTrie, max_children, child_count,
  node_create, trie_create, find_child, put_child, append_child, has_label, mark_terminal,
  insert_path, insert_labels, count_inserted, trie_insert, split_domain_reverse, label_size,
}
use browserhistory.Trie.Serialize.RoundTrip.{FitsNode, FitsNodes}
use browserhistory.Url.Segments.{tokens, tokens_from}
use browserhistory.Url.Parse.{lowercase}
use browserhistory.Trie.Lookup.{AreLabels}
use browserhistory.Trie.Insert.{split-AreLabels}

abbrev AreTexts : List Bytes → Type 0
AreTexts [] = Unit
AreTexts (l ∷ ls) = NoNul l × AreTexts ls

find_child-FitsNode :
    (fuel depth : ℕ) (l : Bytes) (c : TrieNode) (cs : TrieNodes)
    → FitsNodes fuel depth cs
    → find_child l cs ≡ some c
    → FitsNode fuel depth c
unfolding find_child FitsNode
find_child-FitsNode fuel depth l c no_nodes h e = cc
find_child-FitsNode fuel depth l c (more_nodes node rest) h e =
    elim (Bool-cases (has_label l node)) [
      | inl d ↦ ground (arith, d, e, h)
      | inr d ↦ find_child-FitsNode fuel depth l c rest h.1 (ground (arith, d, e))
    ]

put_child-FitsNodes :
    (fuel depth : ℕ) (l : Bytes) (new : TrieNode) (cs : TrieNodes)
    → FitsNodes fuel depth cs
    → FitsNode fuel depth new
    → FitsNodes fuel depth (put_child l new cs)
      × (child_count (put_child l new cs) ≡ child_count cs)
unfolding put_child child_count FitsNode
put_child-FitsNodes fuel depth l new no_nodes h k = (tt, refl)
put_child-FitsNodes fuel depth l new (more_nodes node rest) h k =
    let later = put_child-FitsNodes fuel depth l new rest h.1 k in
    elim (Bool-cases (has_label l node)) [
      | inl d ↦ rw d ((k, h.1), refl)
      | inr d ↦ rw d ((h.0, later.0), ap (λ (n : ℕ). 1 + n) later.1)
    ]

append_child-FitsNodes :
    (fuel depth : ℕ) (cs : TrieNodes) (new : TrieNode)
    → FitsNodes fuel depth cs
    → FitsNode fuel depth new
    → FitsNodes fuel depth (append_child cs new)
      × (child_count (append_child cs new) ≡ child_count cs + 1)
unfolding append_child child_count FitsNode
append_child-FitsNodes fuel depth no_nodes new h k = ((k, tt), omega arith)
append_child-FitsNodes fuel depth (more_nodes node rest) new h k =
    let later = append_child-FitsNodes fuel depth rest new h.1 k in
    ((h.0, later.0), omega (arith, later.1))

node_create-FitsNode :
    (fuel depth : ℕ) (l : Bytes)
    → length l ≤ 127
    → NoNul l
    → FitsNode (suc fuel) depth (node_create l depth)
unfolding node_create FitsNode child_count
node_create-FitsNode fuel depth l h n = rw (take-eq_self 127 l h) (h, n, refl, omega arith, tt)

insert_path-FitsNode :
    (fuel depth memory urls visits : ℕ) (ls : List Bytes) (node : TrieNode)
    → FitsNode (suc fuel) depth node
    → length ls ≤ fuel
    → AreLabels ls
    → AreTexts ls
    → FitsNode (suc fuel) depth (insert_path memory urls visits ls node).node
unfolding insert_path mark_terminal FitsNode
insert_path-FitsNode fuel depth memory urls visits [] (trie_node label u v t d cs) h f a n = h
insert_path-FitsNode zero depth memory urls visits (l ∷ ls) node h f a n = absurd (omega arith)
insert_path-FitsNode (suc fuel) depth memory urls visits (l ∷ ls) (trie_node label u v t d cs) h f a
      n =
    elim (Option-cases (find_child l cs)) [
      | inl e ↦
          let fresh = node_create l (d + 1) in
          let r =
            insert_path-FitsNode fuel (depth + 1) (memory - 1) urls visits ls fresh
              (rw h.2 (node_create-FitsNode fuel (depth + 1) l a.0 n.0)) (omega arith) a.1 n.1 in
          let added = append_child-FitsNodes (suc fuel) (depth + 1) cs _ h.4 r in
          elim (Bool-cases (leb max_children (child_count cs) || memory == 0)) [
            | inl b ↦ rw (e, b, insert_path) h
            | inr b ↦ rw (e, b, insert_path) (h.0, h.1, h.2, ground (arith, b, added.1), added.0)
          ]
      | inr (c, e) ↦
          let r =
            insert_path-FitsNode fuel (depth + 1) memory urls visits ls c
              (find_child-FitsNode (suc fuel) (depth + 1) l c cs h.4 e) (omega arith) a.1 n.1 in
          let put = put_child-FitsNodes (suc fuel) (depth + 1) l _ cs h.4 r in
          rw (e, insert_path) (h.0, h.1, h.2, rw put.1 h.3, put.0)
    ]

NoNul-reverse_aux : (s acc : Bytes) → NoNul s → NoNul acc → NoNul (reverse_aux s acc)
NoNul-reverse_aux [] acc h k = k
NoNul-reverse_aux (c ∷ s) acc h k = NoNul-reverse_aux s (c ∷ acc) h.1 (h.0, k)

NoNul-take : (n : ℕ) (s : Bytes) → NoNul s → NoNul (take n s)
NoNul-take zero s h = tt
NoNul-take (suc n) [] h = tt
NoNul-take (suc n) (c ∷ s) h = (h.0, NoNul-take n s h.1)

NoNul-lowercase : (s : Bytes) → NoNul s → NoNul (lowercase s)
NoNul-lowercase [] h = tt
NoNul-lowercase (c ∷ s) h = (ground (arith, h.0), NoNul-lowercase s h.1)

tokens_from-AreTexts :
    (delimiter : ℕ) (piece s : Bytes)
    → NoNul piece
    → NoNul s
    → AreTexts (tokens_from delimiter piece s)
unfolding tokens_from
tokens_from-AreTexts delimiter piece [] h k = elim (Bool-cases (is_nonempty piece)) [
  | inl e ↦ rw e (NoNul-reverse_aux piece [] h tt, tt)
  | inr e ↦ rw e tt
]
tokens_from-AreTexts delimiter piece (c ∷ s) h k =
    let ended = tokens_from-AreTexts delimiter [] s tt k.1 in
    let longer = tokens_from-AreTexts delimiter (c ∷ piece) s (k.0, h) k.1 in
    ground (arith, ended, longer, NoNul-reverse_aux piece [] h tt)

AreTexts-labels :
    (n : ℕ) (ps acc : List Bytes)
    → AreTexts ps
    → AreTexts acc
    → AreTexts (reverse_aux (map (λ p. lowercase (copy_into label_size p)) (take n ps)) acc)
AreTexts-labels zero ps acc h k = k
AreTexts-labels (suc n) [] acc h k = k
AreTexts-labels (suc n) (p ∷ ps) acc h k =
    AreTexts-labels n ps (lowercase (copy_into label_size p) ∷ acc) h.1
      (NoNul-lowercase (copy_into label_size p) (NoNul-take 127 p h.0), k)

length-labels :
    (f : Bytes → Bytes) (n : ℕ) (ps acc : List Bytes)
    → length (reverse_aux (map f (take n ps)) acc) ≤ n + length acc
length-labels f zero ps acc = omega arith
length-labels f (suc n) [] acc = omega arith
length-labels f (suc n) (p ∷ ps) acc = omega (arith, length-labels f n ps (f p ∷ acc))

split-AreTexts :
    (domain : Bytes) (ls : List Bytes)
    → NoNul domain
    → split_domain_reverse domain ≡ some ls
    → AreTexts ls × (length ls ≤ 16)
unfolding split_domain_reverse
split-AreTexts domain ls h e =
    let ps = tokens b'.' domain in
    let texts = AreTexts-labels 16 ps [] (tokens_from-AreTexts b'.' [] domain tt h) tt in
    let short = length-labels (λ p. lowercase (copy_into label_size p)) 16 ps [] in
    ground (arith, e, texts, short)

pub trie_create-FitsNode : FitsNode 19 0 trie_create.root
unfolding trie_create FitsNode child_count
trie_create-FitsNode = (omega arith, tt, refl, omega arith, tt)

-- An insertion keeps the levels, the labels and the numbers of children of a trie within the limits
-- of its serialized form, whatever the domain is, and also where it fails.
pub trie_insert-FitsNode :
    (memory : ℕ) (t : DomainTrie) (domain : Bytes) (urls visits : ℕ)
    → NoNul domain
    → FitsNode 19 0 t.root
    → FitsNode 19 0 (trie_insert memory t domain urls visits).0.root
unfolding trie_insert insert_labels count_inserted
trie_insert-FitsNode memory t domain urls visits n h =
    elim (Option-cases (split_domain_reverse domain)) [
      | inl e ↦ rw (e, trie_insert) h
      | inr ([], e) ↦ rw (e, trie_insert) h
      | inr (l ∷ ls, e) ↦
          let texts = split-AreTexts domain (l ∷ ls) n e in
          rw (e, trie_insert)
            (insert_path-FitsNode 18 0 memory urls visits (l ∷ ls) t.root h (omega (arith, texts.1))
              (split-AreLabels domain (l ∷ ls) e) texts.0)
    ]
