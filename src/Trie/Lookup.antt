-- ===== src/Trie/Lookup.antt =====
-- c/domain_trie.c: what a lookup finds after an insertion.
use browserhistory.Prelude.{
  ℕ, ◌+◌, ◌-◌, ◌≤◌, ◌≡◌, refl, sym, ap, ◌∙◌, ◌≢◌, inl, inr, Bool, true, false, Option, none, some,
  List, [], ◌∷◌, arith, Bool-cases, Option-cases, length, take-eq_self,
}
use browserhistory.Prelude.Text.{str_eq_sound, str_eq_refl, Bytes, str_eq}
use browserhistory.Trie.{
  TrieNode, TrieNodes, trie_node, no_nodes, more_nodes, node_create, has_label, find_child,
  put_child, append_child, mark_terminal, insert_path, walk,
}

abbrev label_of : TrieNode → Bytes
label_of (trie_node label u v terminal depth children) = label

has_label-label_of : (l : Bytes) (node : TrieNode) → has_label l node ≡ str_eq (label_of node) l
unfolding has_label
has_label-label_of l (trie_node own u v terminal depth children) = refl

-- The counts of a domain, zero where it has no node.
abbrev pub urls_of : Option TrieNode → ℕ
urls_of none = 0
urls_of (some (trie_node label u v terminal depth children)) = u

abbrev pub visits_of : Option TrieNode → ℕ
visits_of none = 0
visits_of (some (trie_node label u v terminal depth children)) = v

abbrev pub terminal_of : Option TrieNode → Bool
terminal_of none = false
terminal_of (some (trie_node label u v terminal depth children)) = terminal

find_child-put :
    (l : Bytes) (old new : TrieNode) (cs : TrieNodes)
    → find_child l cs ≡ some old
    → has_label l new ≡ true
    → find_child l (put_child l new cs) ≡ some new
unfolding find_child put_child
find_child-put l old new no_nodes e h = cc
find_child-put l old new (more_nodes node rest) e h = elim (Bool-cases (has_label l node)) [
  | inl d ↦ rw (d, h, find_child)
  | inr d ↦ ground (arith, d, e, find_child-put l old new rest)
]

find_child-put_other :
    (l k : Bytes) (new : TrieNode) (cs : TrieNodes)
    → has_label k new ≡ false
    → ((node : TrieNode) → has_label l node ≡ true → has_label k node ≡ false)
    → find_child k (put_child l new cs) ≡ find_child k cs
unfolding find_child put_child
find_child-put_other l k new no_nodes h o = refl
find_child-put_other l k new (more_nodes node rest) h o = elim (Bool-cases (has_label l node)) [
  | inl d ↦ ground (arith, d, h, o node d)
  | inr d ↦ ground (arith, d, find_child-put_other l k new rest h o)
]

find_child-append :
    (l : Bytes) (new : TrieNode) (cs : TrieNodes)
    → find_child l cs ≡ none
    → has_label l new ≡ true
    → find_child l (append_child cs new) ≡ some new
unfolding find_child append_child
find_child-append l new no_nodes e h = rw (h, find_child)
find_child-append l new (more_nodes node rest) e h = ground (arith, find_child-append l new rest)

find_child-append_other :
    (k : Bytes) (new : TrieNode) (cs : TrieNodes)
    → has_label k new ≡ false
    → find_child k (append_child cs new) ≡ find_child k cs
unfolding find_child append_child
find_child-append_other k new no_nodes h = rw (h, find_child)
find_child-append_other k new (more_nodes node rest) h =
    ground (arith, find_child-append_other k new rest h)

insert_path-label :
    (memory urls visits : ℕ) (ls : List Bytes) (node : TrieNode)
    → label_of (insert_path memory urls visits ls node).node ≡ label_of node
unfolding insert_path mark_terminal
insert_path-label memory urls visits [] (trie_node label u v terminal depth cs) = refl
insert_path-label memory urls visits (l ∷ ls) (trie_node label u v terminal depth cs) = ground arith

abbrev pub AreLabels : List Bytes → Type 0
AreLabels [] = Unit
AreLabels (l ∷ ls) = (length l ≤ 127) × AreLabels ls

-- The node at the end of the labels after an insertion along them.
pub record Marked (urls visits : ℕ) (before after : Option TrieNode) : Type 0 where
  pub urls_now : urls_of after ≡ urls_of before + urls
  pub visits_now : visits_of after ≡ visits_of before + visits
  pub terminal_now : terminal_of after ≡ true

label_of-create : (l : Bytes) (depth : ℕ) → length l ≤ 127 → label_of (node_create l depth) ≡ l
unfolding node_create
label_of-create l depth h = take-eq_self 127 l h

walk_created :
    (ls : List Bytes) (l : Bytes) (depth : ℕ)
    → (urls_of (walk ls (node_create l depth)) ≡ 0)
      × (visits_of (walk ls (node_create l depth)) ≡ 0)
unfolding walk node_create find_child
walk_created [] l depth = (refl, refl)
walk_created (k ∷ ls) l depth = (refl, refl)

created_label :
    (l : Bytes) (depth : ℕ) (node : TrieNode)
    → length l ≤ 127
    → label_of node ≡ label_of (node_create l depth)
    → has_label l node ≡ true
created_label l depth node h e =
    has_label-label_of l node ∙ ap (λ k. str_eq k l) (e ∙ label_of-create l depth h) ∙ str_eq_refl l

found_label :
    (l : Bytes) (c node : TrieNode)
    → has_label l c ≡ true
    → label_of node ≡ label_of c
    → has_label l node ≡ true
found_label l c node h e =
    has_label-label_of l node ∙ ap (λ k. str_eq k l) e ∙ sym (has_label-label_of l c) ∙ h

find_child-has_label :
    (l : Bytes) (c : TrieNode) (cs : TrieNodes) → find_child l cs ≡ some c → has_label l c ≡ true
unfolding find_child
find_child-has_label l c no_nodes e = cc
find_child-has_label l c (more_nodes node rest) e = ground (arith, e, find_child-has_label l c rest)

pub insert_path-Marked :
    (memory urls visits : ℕ) (ls : List Bytes) (node : TrieNode)
    → AreLabels ls
    → (insert_path memory urls visits ls node).done ≡ true
    → Marked urls visits (walk ls node) (walk ls (insert_path memory urls visits ls node).node)
unfolding insert_path mark_terminal walk
insert_path-Marked memory urls visits [] (trie_node label u v terminal depth cs) a d = ground arith
insert_path-Marked memory urls visits (l ∷ ls) (trie_node label u v terminal depth cs) a d =
    elim (Option-cases (find_child l cs)) [
      | inl e ↦
          let fresh = node_create l (depth + 1) in
          let h = insert_path-Marked (memory - 1) urls visits ls fresh a.1 in
          let r = insert_path (memory - 1) urls visits ls fresh in
          let same : has_label l r.node ≡ true =
            created_label l (depth + 1) r.node a.0
              (insert_path-label (memory - 1) urls visits ls fresh) in
          let here = find_child-append l r.node cs e same in
          let zero_before = walk_created ls l (depth + 1) in ground (arith, e, h, here, zero_before)
      | inr (c, e) ↦
          let h = insert_path-Marked memory urls visits ls c a.1 in
          let r = insert_path memory urls visits ls c in
          let same : has_label l r.node ≡ true =
            found_label l c r.node (find_child-has_label l c cs e)
              (insert_path-label memory urls visits ls c) in
          let here = find_child-put l c r.node cs e same in ground (arith, e, h, here)
    ]

-- A domain's node before and after, with the same counts.
pub record Kept (before after : Option TrieNode) : Type 0 where
  pub urls_same : urls_of after ≡ urls_of before
  pub visits_same : visits_of after ≡ visits_of before
  pub terminal_same : terminal_of after ≡ terminal_of before

walk_fresh-terminal :
    (ls : List Bytes) (l : Bytes) (depth : ℕ) → terminal_of (walk ls (node_create l depth)) ≡ false
unfolding walk node_create find_child
walk_fresh-terminal [] l depth = refl
walk_fresh-terminal (k ∷ ls) l depth = refl

other_label :
    (l k : Bytes) (node : TrieNode)
    → str_eq l k ≡ false
    → has_label l node ≡ true
    → has_label k node ≡ false
other_label l k node n h =
    let same = str_eq_sound (label_of node) l (sym (has_label-label_of l node) ∙ h) in
    has_label-label_of k node ∙ ap (λ x. str_eq x k) same ∙ n

-- One step down along equal or different labels.
pub insert_path-Kept :
    (memory urls visits : ℕ) (ls ks : List Bytes) (node : TrieNode)
    → AreLabels ls
    → ls ≢ ks
    → Kept (walk ks node) (walk ks (insert_path memory urls visits ls node).node)
unfolding insert_path mark_terminal walk
insert_path-Kept memory urls visits [] [] node a n = absurd (n refl)
insert_path-Kept memory urls visits [] (k ∷ ks) (trie_node label u v terminal depth cs) a n =
    ground arith
insert_path-Kept memory urls visits (l ∷ ls) [] (trie_node label u v terminal depth cs) a n =
    ground arith
insert_path-Kept memory urls visits (l ∷ ls) (k ∷ ks) (trie_node label u v terminal depth cs) a n =
    elim (Option-cases (find_child l cs)) [
      | inl e ↦
          let fresh = node_create l (depth + 1) in
          let r = insert_path (memory - 1) urls visits ls fresh in
          let same : has_label l r.node ≡ true =
            created_label l (depth + 1) r.node a.0
              (insert_path-label (memory - 1) urls visits ls fresh) in
          elim (Bool-cases (str_eq l k)) [
            | inl d ↦
                let h =
                  insert_path-Kept (memory - 1) urls visits ls ks fresh a.1
                    (λ z. n (ap (λ x. x ∷ ls) (str_eq_sound l k d) ∙ ap (◌∷◌ k) z)) in
                let here = find_child-append l r.node cs e same in
                let zero_before = walk_created ks l (depth + 1) in
                let not_before = walk_fresh-terminal ks l (depth + 1) in
                let label_same = str_eq_sound l k d in
                ground (arith, e, d, h, here, zero_before, not_before, label_same)
            | inr d ↦
                let here = find_child-append_other k r.node cs (other_label l k r.node d same) in
                ground (arith, e, d, here)
          ]
      | inr (c, e) ↦
          let r = insert_path memory urls visits ls c in
          let same : has_label l r.node ≡ true =
            found_label l c r.node (find_child-has_label l c cs e)
              (insert_path-label memory urls visits ls c) in
          elim (Bool-cases (str_eq l k)) [
            | inl d ↦
                let h =
                  insert_path-Kept memory urls visits ls ks c a.1
                    (λ z. n (ap (λ x. x ∷ ls) (str_eq_sound l k d) ∙ ap (◌∷◌ k) z)) in
                let here = find_child-put l c r.node cs e same in
                let label_same = str_eq_sound l k d in ground (arith, e, h, here, label_same)
            | inr d ↦
                let here =
                  find_child-put_other l k r.node cs (other_label l k r.node d same)
                    (λ x. other_label l k x d) in
                ground (arith, e, here)
          ]
    ]
