-- ===== src/Strings/Laws.antt =====
-- Laws of the comparisons of strings without case.
use browserhistory.Prelude.{
  ==_iff, ◌≡◌, refl, ap, ◌∙◌, ◌↔◌, inl, inr, true, [], ◌∷◌, ◌++◌, ◌==◌, Bool-cases,
}
use browserhistory.Prelude.Text.{Bytes}
use browserhistory.Url.Chars.{to_lower}
use browserhistory.Url.Parse.{lowercase}
use browserhistory.Strings.{has_prefix_nocase, eq_nocase}

eq_nocase_sound : (s t : Bytes) → eq_nocase s t ≡ true → lowercase s ≡ lowercase t
unfolding eq_nocase
eq_nocase_sound [] [] h = refl
eq_nocase_sound [] (d ∷ t) h = cc
eq_nocase_sound (c ∷ s) [] h = cc
eq_nocase_sound (c ∷ s) (d ∷ t) h = elim (Bool-cases (to_lower c == to_lower d)) [
  | inl e ↦
      ap (λ x. x ∷ lowercase s) ((==_iff _ _).0 e)
      ∙ ap (◌∷◌ (to_lower d)) (eq_nocase_sound s t (rw e at h))
  | inr e ↦ cc (rw e at h)
]

eq_nocase_complete : (s t : Bytes) → lowercase s ≡ lowercase t → eq_nocase s t ≡ true
unfolding eq_nocase
eq_nocase_complete [] [] h = refl
eq_nocase_complete [] (d ∷ t) h = cc
eq_nocase_complete (c ∷ s) [] h = cc
eq_nocase_complete (c ∷ s) (d ∷ t) h =
    let same : to_lower c ≡ to_lower d = cc in
    let rest : lowercase s ≡ lowercase t = cc in
    rw ((==_iff (to_lower c) (to_lower d)).1 same) (eq_nocase_complete s t rest)

pub eq_nocase_iff : (s t : Bytes) → (eq_nocase s t ≡ true) ↔ (lowercase s ≡ lowercase t)
eq_nocase_iff s t = (eq_nocase_sound s t, eq_nocase_complete s t)

-- The text begins with the prefix, but for case.
abbrev pub StartsLike : Bytes → Bytes → Type 0
StartsLike p s =
    (front : Bytes) × (back : Bytes) × (s ≡ front ++ back) × (lowercase front ≡ lowercase p)

has_prefix_nocase_sound : (p s : Bytes) → has_prefix_nocase p s ≡ true → StartsLike p s
unfolding has_prefix_nocase
has_prefix_nocase_sound [] s h = ([], s, refl, refl)
has_prefix_nocase_sound (p ∷ ps) [] h = cc
has_prefix_nocase_sound (p ∷ ps) (c ∷ s) h = elim (Bool-cases (to_lower c == to_lower p)) [
  | inl e ↦
      let (front, back, split, like) = has_prefix_nocase_sound ps s (rw e at h) in
      (
        c ∷ front,
        back,
        ap (◌∷◌ c) split,
        ap (λ x. x ∷ lowercase front) ((==_iff _ _).0 e) ∙ ap (◌∷◌ (to_lower p)) like,
      )
  | inr e ↦ cc (rw e at h)
]

pub has_prefix_nocase_complete :
    (p front back : Bytes)
    → lowercase front ≡ lowercase p
    → has_prefix_nocase p (front ++ back) ≡ true
unfolding has_prefix_nocase
has_prefix_nocase_complete [] front back h = refl
has_prefix_nocase_complete (p ∷ ps) [] back h = cc
has_prefix_nocase_complete (p ∷ ps) (c ∷ front) back h =
    let same : to_lower c ≡ to_lower p = cc in
    let rest : lowercase front ≡ lowercase ps = cc in
    rw ((==_iff (to_lower c) (to_lower p)).1 same) (has_prefix_nocase_complete ps front back rest)

pub has_prefix_nocase_iff : (p s : Bytes) → (has_prefix_nocase p s ≡ true) ↔ StartsLike p s
has_prefix_nocase_iff p s = (
  has_prefix_nocase_sound p s,
  λ found. rw found.2 (has_prefix_nocase_complete p found.0 found.1 found.3),
)
