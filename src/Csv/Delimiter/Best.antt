-- ===== src/Csv/Delimiter/Best.antt =====
-- c/csv_import.c: the delimiter that csv_detect_delimiter chooses.
use mathlib.Core.Path.{subst}
use browserhistory.Prelude.{
  ℕ, ◌≤◌, ◌≡◌, refl, sym, ◌⊎◌, inl, inr, true, false, [], ◌∷◌, arith, ltb, Bool-cases, take,
}
use browserhistory.Prelude.Text.{Bytes}
use browserhistory.Csv.Delimiter.{score_delimiter, best_delimiter, candidates, csv_detect_delimiter}

-- No candidate has a score above the bound.
abbrev pub AllScores : Bytes → ℕ → Bytes → Type 0
AllScores text bound [] = Unit
AllScores text bound (c ∷ cs) = (score_delimiter text c ≤ bound) × AllScores text bound cs

abbrev pub IsOneOf : ℕ → Bytes → Type 0
IsOneOf c [] = ⊥
IsOneOf c (d ∷ ds) = (c ≡ d) ⊎ IsOneOf c ds

pub best_delimiter_higher :
    (text : Bytes) (score best c : ℕ) (cs : Bytes)
    → ltb score (score_delimiter text c) ≡ true
    → best_delimiter text score best (c ∷ cs) ≡ best_delimiter text (score_delimiter text c) c cs
unfolding best_delimiter
best_delimiter_higher text score best c cs e = rw (e, best_delimiter) refl

pub best_delimiter_other :
    (text : Bytes) (score best c : ℕ) (cs : Bytes)
    → ltb score (score_delimiter text c) ≡ false
    → best_delimiter text score best (c ∷ cs) ≡ best_delimiter text score best cs
unfolding best_delimiter
best_delimiter_other text score best c cs e = rw (e, best_delimiter) refl

best_delimiter-AllScores :
    (text : Bytes) (score best : ℕ) (cs : Bytes)
    → score ≤ score_delimiter text best
    → (score ≤ score_delimiter text (best_delimiter text score best cs))
      × AllScores text (score_delimiter text (best_delimiter text score best cs)) cs
unfolding best_delimiter
best_delimiter-AllScores text score best [] h = (h, tt)
best_delimiter-AllScores text score best (c ∷ cs) h =
    let Bounds = λ (b : ℕ).
      (score ≤ score_delimiter text b) × AllScores text (score_delimiter text b) (c ∷ cs) in
    elim (Bool-cases (ltb score (score_delimiter text c))) [
      | inl e ↦
          let (least, rest) =
            best_delimiter-AllScores text (score_delimiter text c) c cs (omega arith) in
          subst Bounds (sym (best_delimiter_higher text score best c cs e))
            (ground (arith, e, least), (least, rest))
      | inr e ↦
          let (least, rest) = best_delimiter-AllScores text score best cs h in
          subst Bounds (sym (best_delimiter_other text score best c cs e))
            (least, (ground (arith, e, least), rest))
    ]

best_delimiter-IsOneOf :
    (text : Bytes) (score best : ℕ) (cs : Bytes)
    → (best_delimiter text score best cs ≡ best) ⊎ IsOneOf (best_delimiter text score best cs) cs
unfolding best_delimiter
best_delimiter-IsOneOf text score best [] = inl refl
best_delimiter-IsOneOf text score best (c ∷ cs) =
    let Chosen = λ (b : ℕ). (b ≡ best) ⊎ IsOneOf b (c ∷ cs) in
    elim (Bool-cases (ltb score (score_delimiter text c))) [
      | inl e ↦
          subst Chosen (sym (best_delimiter_higher text score best c cs e))
            (inr (best_delimiter-IsOneOf text (score_delimiter text c) c cs))
      | inr e ↦
          subst Chosen (sym (best_delimiter_other text score best c cs e))
            (elim (best_delimiter-IsOneOf text score best cs) [
              | inl k ↦ inl k
              | inr k ↦ inr (inr k)
            ])
    ]

-- The delimiter that is detected is one of the four candidates, and none of them has a higher score
-- on the first 8192 bytes.
pub csv_detect_delimiter-AllScores :
    (text : Bytes)
    → IsOneOf (csv_detect_delimiter text) candidates
      × AllScores
          (take 8192 text)
          (score_delimiter (take 8192 text) (csv_detect_delimiter text))
          candidates
unfolding csv_detect_delimiter
csv_detect_delimiter-AllScores text =
    let shown = take 8192 text in
    (
      elim (best_delimiter-IsOneOf shown 0 b',' candidates) [ inl e ↦ inl e | inr k ↦ k ],
      (best_delimiter-AllScores shown 0 b',' candidates (omega arith)).1,
    )
