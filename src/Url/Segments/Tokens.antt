-- ===== src/Url/Segments/Tokens.antt =====
-- c/url_parser.c: the tokens of a text, and of a text written from tokens.
use browserhistory.Prelude.{
  ℕ, ◌+◌, ◌≤◌, ◌<◌, ◌≡◌, refl, ap, ◌∙◌, inl, inr, Bool, true, false, List, [], ◌∷◌, ◌++◌, arith,
  leb, ◌==◌, if◌then◌else◌, Bool-cases, length, length-append,
}
use browserhistory.Prelude.Text.{Bytes, is_nonempty}
use mathlib.Core.List.{reverse, reverse_aux, reverse-reverse, reverse-append}
use browserhistory.Url.Segments.{tokens_from, tokens, write_segments, path_size}

abbrev pub Without : ℕ → Bytes → Type 0
Without d [] = Unit
Without d (c ∷ s) = ((c == d) ≡ false) × Without d s

abbrev pub IsToken : ℕ → Bytes → Type 0
IsToken d s = (is_nonempty s ≡ true) × Without d s

abbrev pub AllOf : (Bytes → Type 0) → List Bytes → Type 0
AllOf P [] = Unit
AllOf P (s ∷ ss) = P s × AllOf P ss

reverse-cons : (c : ℕ) (s : Bytes) → reverse (c ∷ s) ≡ reverse s ++ c ∷ []
reverse-cons c s = reverse-append (c ∷ []) s

Without-append : (d : ℕ) (s t : Bytes) → Without d s → Without d t → Without d (s ++ t)
Without-append d [] t h k = k
Without-append d (c ∷ s) t h k = (h.0, Without-append d s t h.1 k)

Without-reverse : (d : ℕ) (s : Bytes) → Without d s → Without d (reverse s)
Without-reverse d [] h = tt
Without-reverse d (c ∷ s) h =
    rw (reverse-cons c s)
      (Without-append d (reverse s) (c ∷ []) (Without-reverse d s h.1) (h.0, tt))

is_nonempty-append : (s : Bytes) (c : ℕ) → is_nonempty (s ++ c ∷ []) ≡ true
is_nonempty-append [] c = refl
is_nonempty-append (x ∷ s) c = refl

is_nonempty-reverse : (s : Bytes) → is_nonempty s ≡ true → is_nonempty (reverse s) ≡ true
is_nonempty-reverse [] h = cc
is_nonempty-reverse (c ∷ s) h = rw (reverse-cons c s) (is_nonempty-append (reverse s) c)

-- Every token is a piece without delimiters that is not empty.
tokens_from-IsToken :
    (d : ℕ) (piece s : Bytes) → Without d piece → AllOf (IsToken d) (tokens_from d piece s)
unfolding tokens_from
tokens_from-IsToken d piece [] h = elim (Bool-cases (is_nonempty piece)) [
  | inl e ↦ rw e ((is_nonempty-reverse piece e, Without-reverse d piece h), tt)
  | inr e ↦ rw e tt
]
tokens_from-IsToken d piece (c ∷ s) h = elim (Bool-cases (c == d)) [
  | inl e ↦ elim (Bool-cases (is_nonempty piece)) [
    | inl n ↦
        rw (e, n)
          ((is_nonempty-reverse piece n, Without-reverse d piece h), tokens_from-IsToken d [] s tt)
    | inr n ↦ rw (e, n) (tokens_from-IsToken d [] s tt)
  ]
  | inr e ↦ rw e (tokens_from-IsToken d (c ∷ piece) s (e, h))
]

pub tokens-IsToken : (d : ℕ) (s : Bytes) → AllOf (IsToken d) (tokens d s)
tokens-IsToken d s = tokens_from-IsToken d [] s tt

tokens_from_past :
    (d : ℕ) (piece : Bytes) (c : ℕ) (s : Bytes)
    → (c == d) ≡ false
    → tokens_from d piece (c ∷ s) ≡ tokens_from d (c ∷ piece) s
unfolding tokens_from
tokens_from_past d piece c s e = rw e

tokens_from_cut :
    (d : ℕ) (piece s : Bytes)
    → is_nonempty piece ≡ true
    → tokens_from d piece (d ∷ s) ≡ reverse piece ∷ tokens_from d [] s
unfolding tokens_from
tokens_from_cut d piece s n = let e : (d == d) ≡ true = ground arith in rw (e, n)

tokens_from_end :
    (d : ℕ) (piece : Bytes) → is_nonempty piece ≡ true → tokens_from d piece [] ≡ reverse piece ∷ []
unfolding tokens_from
tokens_from_end d piece n = rw n

tokens_from-append :
    (d : ℕ) (piece s t : Bytes)
    → Without d s
    → tokens_from d piece (s ++ t) ≡ tokens_from d (reverse_aux s piece) t
tokens_from-append d piece [] t h = refl
tokens_from-append d piece (c ∷ s) t h =
    tokens_from_past d piece c (s ++ t) h.0 ∙ tokens_from-append d (c ∷ piece) s t h.1

-- The segments that `write_segments` finds room for.
pub kept : Bool → ℕ → List Bytes → List Bytes
kept first used [] = []
kept first used (s ∷ ss) =
    let text = if first then s else b'/' ∷ s in
    let rest = kept false (used + length text) ss in
    if leb path_size (used + length s + 2) then [] else s ∷ rest

tokens_from-write :
    (piece : Bytes) (used : ℕ) (ss : List Bytes)
    → is_nonempty piece ≡ true
    → AllOf (IsToken b'/') ss
    → tokens_from b'/' piece (write_segments false used ss) ≡ reverse piece ∷ kept false used ss
unfolding write_segments kept
tokens_from-write piece used [] n h = tokens_from_end b'/' piece n
tokens_from-write piece used (s ∷ ss) n h =
    elim (Bool-cases (leb path_size (used + length s + 2))) [
      | inl e ↦ rw e (tokens_from_end b'/' piece n)
      | inr e ↦
          let used' = used + length (b'/' ∷ s) in
          rw e (
            tokens_from_cut b'/' piece (s ++ write_segments false used' ss) n
            ∙ ap (◌∷◌ (reverse piece)) (
                tokens_from-append b'/' [] s (write_segments false used' ss) h.0.1
                ∙ tokens_from-write (reverse s) used' ss (is_nonempty-reverse s h.0.0) h.1
                ∙ ap (λ t. t ∷ kept false used' ss) (reverse-reverse s)))
    ]

-- The tokens of the segments written are those that there was room for.
pub tokens-write :
    (used : ℕ) (ss : List Bytes)
    → AllOf (IsToken b'/') ss
    → tokens b'/' (write_segments true used ss) ≡ kept true used ss
unfolding write_segments kept
tokens-write used [] h = unfold tokens_from in refl
tokens-write used (s ∷ ss) h = elim (Bool-cases (leb path_size (used + length s + 2))) [
  | inl e ↦ rw e (unfold tokens_from in refl)
  | inr e ↦
      let used' = used + length s in
      rw e (
        tokens_from-append b'/' [] s (write_segments false used' ss) h.0.1
        ∙ tokens_from-write (reverse s) used' ss (is_nonempty-reverse s h.0.0) h.1
        ∙ ap (λ t. t ∷ kept false used' ss) (reverse-reverse s))
]

pub write-kept :
    (first : Bool) (used : ℕ) (ss : List Bytes)
    → write_segments first used (kept first used ss) ≡ write_segments first used ss
unfolding write_segments kept
write-kept first used [] = refl
write-kept first used (s ∷ ss) = elim (Bool-cases (leb path_size (used + length s + 2))) [
  | inl e ↦ rw e
  | inr e ↦
      rw (e, e)
        (ap (◌++◌ (if first then s else b'/' ∷ s))
          (write-kept false (used + length (if first then s else b'/' ∷ s)) ss))
]

pub length-write :
    (first : Bool) (used : ℕ) (ss : List Bytes)
    → used < 2047
    → used + length (write_segments first used ss) < 2047
unfolding write_segments
length-write first used [] h = omega arith
length-write first used (s ∷ ss) h =
    let text = if first then s else b'/' ∷ s in
    ground (
      arith,
      length-write false (used + length text) ss,
      length-append text (write_segments false (used + length text) ss),
    )

pub AllOf-kept :
    (P : Bytes → Type 0) (first : Bool) (used : ℕ) (ss : List Bytes)
    → AllOf P ss
    → AllOf P (kept first used ss)
unfolding kept
AllOf-kept P first used [] h = h
AllOf-kept P first used (s ∷ ss) h = elim (Bool-cases (leb path_size (used + length s + 2))) [
  | inl e ↦ rw e tt
  | inr e ↦ rw e (h.0, AllOf-kept P false (used + length (if first then s else b'/' ∷ s)) ss h.1)
]

pub length-kept :
    (first : Bool) (used : ℕ) (ss : List Bytes) → length (kept first used ss) ≤ length ss
unfolding kept
length-kept first used [] = omega arith
length-kept first used (s ∷ ss) =
    ground (arith, length-kept false (used + length (if first then s else b'/' ∷ s)) ss)
