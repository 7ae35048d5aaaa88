-- ===== src/Search/Substring.antt =====
-- c/search_engine.c, search_strcasestr. The text from the match on stands for the pointer.
use browserhistory.Prelude.{
  ℕ, ◌≡◌, refl, ap, ◌↔◌, inl, inr, Bool, true, false, ◌&&◌, Option, none, some, [], ◌∷◌, arith,
  ◌==◌, if◌then◌else◌, Bool-cases,
}
use browserhistory.Prelude.Text.{Bytes, is_nonempty}
use browserhistory.Url.Chars.{to_lower}
use browserhistory.Strings.{has_prefix_nocase}
use browserhistory.Strings.Laws.{StartsLike, has_prefix_nocase_iff}

-- The test of one place; it begins with the first character once more.
abbrev same_first : Bytes → ℕ → Bool
same_first [] c = false
same_first (n ∷ _) c = to_lower c == to_lower n

unfoldable pub strcasestr_from : Bytes → Bytes → Option Bytes
strcasestr_from needle [] = none
strcasestr_from needle (c ∷ s) =
    let later = strcasestr_from needle s in
    if same_first needle c && has_prefix_nocase needle (c ∷ s) then some (c ∷ s) else later

unfoldable pub search_strcasestr : Bytes → Bytes → Option Bytes
search_strcasestr haystack needle =
    if is_nonempty needle then strcasestr_from needle haystack else some haystack

-- The first place of a text from which it begins with the needle but for case.
pub data FirstPlace (needle : Bytes) : Bytes → Bytes → Type 0 where
  here : {s found : Bytes} → StartsLike needle s → s ≡ found → FirstPlace needle s found
  further :
      {c : ℕ} {s found : Bytes}
      → ¬ StartsLike needle (c ∷ s)
      → FirstPlace needle s found
      → FirstPlace needle (c ∷ s) found

differs : (needle s : Bytes) → has_prefix_nocase needle s ≡ false → ¬ StartsLike needle s
differs needle s e h = cc ((has_prefix_nocase_iff needle s).1 h)

first_test :
    (n : ℕ) (ns : Bytes) (c : ℕ) (s : Bytes)
    → (same_first (n ∷ ns) c && has_prefix_nocase (n ∷ ns) (c ∷ s))
      ≡ has_prefix_nocase (n ∷ ns) (c ∷ s)
unfolding has_prefix_nocase
first_test n ns c s = ground arith

strcasestr_from-FirstPlace :
    (n : ℕ) (ns haystack found : Bytes)
    → strcasestr_from (n ∷ ns) haystack ≡ some found
    → FirstPlace (n ∷ ns) haystack found
unfolding strcasestr_from
strcasestr_from-FirstPlace n ns [] found e = cc
strcasestr_from-FirstPlace n ns (c ∷ s) found e =
    let t = first_test n ns c s in
    elim (Bool-cases (has_prefix_nocase (n ∷ ns) (c ∷ s))) [
      | inl d ↦
          let same : c ∷ s ≡ found = cc (rw (t, d) at e) in
          here ((has_prefix_nocase_iff (n ∷ ns) (c ∷ s)).0 d) same
      | inr d ↦
          further (differs (n ∷ ns) (c ∷ s) d)
            (strcasestr_from-FirstPlace n ns s found (rw (t, d) at e))
    ]

no_prefix : (n : ℕ) (ns : Bytes) → has_prefix_nocase (n ∷ ns) [] ≡ true → ⊥
unfolding has_prefix_nocase
no_prefix n ns h = cc

FirstPlace-strcasestr_from :
    (n : ℕ) (ns : Bytes) {haystack found : Bytes}
    → FirstPlace (n ∷ ns) haystack found
    → strcasestr_from (n ∷ ns) haystack ≡ some found
unfolding strcasestr_from
FirstPlace-strcasestr_from n ns {haystack = []} (here h e) =
    absurd (no_prefix n ns ((has_prefix_nocase_iff (n ∷ ns) []).1 h))
FirstPlace-strcasestr_from n ns {haystack = c ∷ s} (here h e) =
    rw (first_test n ns c s, (has_prefix_nocase_iff (n ∷ ns) (c ∷ s)).1 h) (ap some e)
FirstPlace-strcasestr_from n ns {haystack = c ∷ s} (further h later) =
    elim (Bool-cases (has_prefix_nocase (n ∷ ns) (c ∷ s))) [
      | inl d ↦ absurd (h ((has_prefix_nocase_iff (n ∷ ns) (c ∷ s)).0 d))
      | inr d ↦ rw (first_test n ns c s, d) (FirstPlace-strcasestr_from n ns later)
    ]

empty_like : (s : Bytes) → StartsLike [] s
empty_like s = ([], s, refl, refl)

empty-FirstPlace : {haystack found : Bytes} → FirstPlace [] haystack found → haystack ≡ found
empty-FirstPlace (here h e) = e
empty-FirstPlace {haystack = c ∷ s} (further h later) = absurd (h (empty_like (c ∷ s)))

-- The search finds the first place from which the haystack begins with the needle but for case, and
-- finds none only if there is none.
pub search_strcasestr_iff :
    (haystack needle found : Bytes)
    → (search_strcasestr haystack needle ≡ some found) ↔ FirstPlace needle haystack found
unfolding search_strcasestr
search_strcasestr_iff haystack [] found =
    (λ e. here (empty_like haystack) (cc), λ h. ap some (empty-FirstPlace h))
search_strcasestr_iff haystack (n ∷ ns) found =
    (strcasestr_from-FirstPlace n ns haystack found, λ h. FirstPlace-strcasestr_from n ns h)
