-- ===== src/Search/Matching/Domain.antt =====
-- c/search_engine.c: which hosts a domain filter and a `domain:` term accept.
use mathlib.Core.Path.{subst}
use browserhistory.Prelude.{
  lt→ltb, ==_iff, drop-suc, get_or-length, take-append-drop, ℕ, suc, ◌+◌, ◌-◌, ◌<◌, ◌≡◌, refl, sym,
  ap, ◌∙◌, ◌↔◌, ◌⊎◌, inl, inr, Bool, true, false, ◌&&◌, [], ◌∷◌, ◌++◌, arith, ltb, ◌==◌, Bool-cases,
  length, get_or, take, drop, length-append, length-take,
}
use browserhistory.Prelude.Text.{Bytes}
use browserhistory.Url.Parse.{lowercase}
use browserhistory.Strings.{eq_nocase}
use browserhistory.Strings.Laws.{eq_nocase_iff}
use browserhistory.Search.Matching.{in_domain}

-- The host but for case is the domain, or ends in a dot and the domain with a byte in front.
abbrev pub InDomain : Bytes → Bytes → Type 0
InDomain host domain =
    (lowercase host ≡ lowercase domain)
    ⊎ ((front : Bytes) × (back : Bytes) × (host ≡ front ++ b'.' ∷ back)
        × (0 < length front)
        × (lowercase back ≡ lowercase domain))

length-lowercase : (s : Bytes) → length (lowercase s) ≡ length s
length-lowercase [] = refl
length-lowercase (c ∷ s) = ap suc (length-lowercase s)

same_length : (s t : Bytes) → lowercase s ≡ lowercase t → length s ≡ length t
same_length s t e = sym (length-lowercase s) ∙ ap length e ∙ length-lowercase t

-- A list at a place: what is in front of it, the element, and what is behind it.
split_at : (i : ℕ) (s : Bytes) → i < length s → s ≡ take i s ++ get_or s i 0 ∷ drop (suc i) s
split_at i s h = sym (take-append-drop i s) ∙ ap (◌++◌ (take i s)) (drop-suc i s 0 h)

and_parts : (a b : Bool) → (a && b) ≡ true → (a ≡ true) × (b ≡ true)
and_parts true b h = (refl, h)
and_parts false b h = absurd cc

in_domain_sound : (host domain : Bytes) → in_domain host domain ≡ true → InDomain host domain
unfolding in_domain
in_domain_sound host domain h = elim (Bool-cases (eq_nocase host domain)) [
  | inl e ↦ inl ((eq_nocase_iff host domain).0 e)
  | inr e ↦
      let n = length host - length domain in
      let long_dot = ltb (length domain + 1) (length host) && get_or host (n - 1) 0 == b'.' in
      let (front, same) = and_parts long_dot (eq_nocase (drop n host) domain) (rw e at h) in
      let (long, dot) =
        and_parts (ltb (length domain + 1) (length host)) (get_or host (n - 1) 0 == b'.') front in
      let bound : n - 1 < length host = ground (arith, long) in
      let split = split_at (n - 1) host bound in
      let is_dot = (==_iff (get_or host (n - 1) 0) b'.').0 dot in
      let last : suc (n - 1) ≡ n = ground (arith, long) in
      inr (
        take (n - 1) host,
        drop (suc (n - 1)) host,
        split ∙ ap (λ c. take (n - 1) host ++ c ∷ drop (suc (n - 1)) host) is_dot,
        ground (arith, long, length-take (n - 1) host),
        rw last ((eq_nocase_iff (drop n host) domain).0 same),
      )
]

get_or-append_at :
    (front back : Bytes) (n : ℕ) → length front ≡ n → get_or (front ++ b'.' ∷ back) n 0 ≡ b'.'
get_or-append_at front back n e = rw (sym e) (get_or-length front back b'.' 0)

drop-append_at :
    (front back : Bytes) (n : ℕ) → suc (length front) ≡ n → drop n (front ++ b'.' ∷ back) ≡ back
drop-append_at [] back n e = rw (sym e) refl
drop-append_at (c ∷ front) back n e =
    rw (sym e) (drop-append_at front back (suc (length front)) refl)

in_domain_test :
    (host domain back : Bytes)
    → length domain + 1 < length host
    → get_or host (length host - length domain - 1) 0 ≡ b'.'
    → drop (length host - length domain) host ≡ back
    → eq_nocase back domain ≡ true
    → in_domain host domain ≡ true
unfolding in_domain
in_domain_test host domain back long dot behind same = elim (Bool-cases (eq_nocase host domain)) [
  | inl e ↦ rw e refl
  | inr e ↦ rw (e, lt→ltb (length domain + 1) (length host) long, dot, behind) same
]

in_domain_complete : (host domain : Bytes) → InDomain host domain → in_domain host domain ≡ true
unfolding in_domain
in_domain_complete host domain (inl e) = rw ((eq_nocase_iff host domain).1 e) refl
in_domain_complete host domain (inr (front, back, split, some_front, like)) =
    let same = same_length back domain like in
    let total = ap length split ∙ length-append front (b'.' ∷ back) in
    let n = length host - length domain in
    let dot_at =
      subst (λ h. get_or h (n - 1) 0 ≡ b'.') (sym split)
        (get_or-append_at front back (n - 1) (omega (arith, same, total))) in
    let behind =
      subst (λ h. drop n h ≡ back) (sym split)
        (drop-append_at front back n (omega (arith, same, total, some_front))) in
    let long : length domain + 1 < length host = omega (arith, same, total, some_front) in
    in_domain_test host domain back long dot_at behind ((eq_nocase_iff back domain).1 like)

-- A host passes exactly if, but for case, it is the domain or one of its subdomains with a name
-- in front of the dot.
pub in_domain_iff : (host domain : Bytes) → (in_domain host domain ≡ true) ↔ InDomain host domain
in_domain_iff host domain = (in_domain_sound host domain, in_domain_complete host domain)
