-- ===== src/Url/Domain/Suffix.antt =====
-- c/url_parser.c: how url_extract_domain cuts the host.
use browserhistory.Prelude.{
  take-append_self, ℕ, zero, suc, ◌+◌, ◌-◌, ◌≤◌, ◌≡◌, refl, ap, ◌∙◌, ◌⊎◌, inl, inr, true, false,
  some, List, [], ◌∷◌, ◌++◌, arith, ◌==◌, Bool-cases, length, take, length-append, length-take,
  take-eq_self,
}
use browserhistory.Prelude.Text.{Bytes, copy_into}
use mathlib.Core.List.{reverse_aux}
use browserhistory.Url.Host.{starts_with_byte}
use browserhistory.Url.Parse.{ParsedUrl, lowercase, host_size}
use browserhistory.Url.Domain.{
  DomainInfo, after_dots, dots, by_dots, cut_domain, is_two_part, url_extract_domain, max_dots,
}

abbrev AfterDot : Bytes → Bytes → Type 0
AfterDot s t = (front : Bytes) × (s ≡ front ++ b'.' ∷ t)

abbrev AllAfter : Bytes → List Bytes → Type 0
AllAfter s [] = Unit
AllAfter s (t ∷ ts) = AfterDot s t × AllAfter s ts

AllAfter-cons : (c : ℕ) (s : Bytes) (ts : List Bytes) → AllAfter s ts → AllAfter (c ∷ s) ts
AllAfter-cons c s [] h = tt
AllAfter-cons c s (t ∷ ts) h = ((c ∷ h.0.0, ap (◌∷◌ c) h.0.1), AllAfter-cons c s ts h.1)

after_dots-AllAfter : (s : Bytes) → AllAfter s (after_dots s)
unfolding after_dots
after_dots-AllAfter [] = tt
after_dots-AllAfter (c ∷ s) = elim (Bool-cases (c == b'.')) [
  | inl e ↦
      rw e (
        ([], ap (λ b. b ∷ s) (dot_eq c e)),
        AllAfter-cons c s (after_dots s) (after_dots-AllAfter s),
      )
  | inr e ↦ rw e (AllAfter-cons c s (after_dots s) (after_dots-AllAfter s))
]
  where
    dot_eq : (c : ℕ) → (c == b'.') ≡ true → c ≡ b'.'
    dot_eq c e = ground arith

AllAfter-take : (n : ℕ) (s : Bytes) (ts : List Bytes) → AllAfter s ts → AllAfter s (take n ts)
AllAfter-take zero s ts h = tt
AllAfter-take (suc n) s [] h = tt
AllAfter-take (suc n) s (t ∷ ts) h = (h.0, AllAfter-take n s ts h.1)

AllAfter-reverse_aux :
    (s : Bytes) (ts acc : List Bytes)
    → AllAfter s ts
    → AllAfter s acc
    → AllAfter s (reverse_aux ts acc)
AllAfter-reverse_aux s [] acc h k = k
AllAfter-reverse_aux s (t ∷ ts) acc h k = AllAfter-reverse_aux s ts (t ∷ acc) h.1 (h.0, k)

dots-AllAfter : (s : Bytes) → AllAfter s (dots s)
unfolding dots
dots-AllAfter s =
    AllAfter-reverse_aux s (take max_dots (after_dots s)) []
      (AllAfter-take max_dots s (after_dots s) (after_dots-AllAfter s)) tt

-- The registrable domain is the whole host, or the host is the subdomain, a dot and that domain.
abbrev pub IsCut : DomainInfo → Type 0
IsCut d =
    ((d.registrable_domain ≡ d.full_host) × (d.subdomain ≡ []))
    ⊎ (d.full_host ≡ d.subdomain ++ b'.' ∷ d.registrable_domain)

cut_domain-IsCut :
    (host tld domain : Bytes)
    → length host ≤ 255
    → AfterDot host domain
    → IsCut (cut_domain host tld domain)
unfolding cut_domain
cut_domain-IsCut host tld domain h (front, e) =
    let n = length-append front (b'.' ∷ domain) in
    let total : length host ≡ length front + suc (length domain) = ap (λ s. length s) e ∙ n in
    let cut : length host - length domain - 1 ≡ length front = omega (arith, total) in
    let kept = take-eq_self 255 domain (omega (arith, total)) in
    let sub : take (length host - length domain - 1) host ≡ front =
      rw cut (ap (take (length front)) e ∙ take-append_self front (b'.' ∷ domain)) in
    inr (e ∙ rw (sub, kept))

by_dots-IsCut :
    (host : Bytes) (ds : List Bytes)
    → length host ≤ 255
    → AllAfter host ds
    → IsCut (by_dots host ds) × ((by_dots host ds).full_host ≡ host)
unfolding by_dots
by_dots-IsCut host [] h k = (inl (refl, refl), refl)
by_dots-IsCut host (last ∷ []) h k = (inl (refl, refl), refl)
by_dots-IsCut host (last ∷ second ∷ []) h k = elim (Bool-cases (is_two_part second)) [
  | inl e ↦ rw e (inl (refl, refl), refl)
  | inr e ↦ rw e (cut_domain-IsCut host _ second h k.1.0, unfold cut_domain in refl)
]
by_dots-IsCut host (last ∷ second ∷ third ∷ ds) h k = elim (Bool-cases (is_two_part second)) [
  | inl e ↦ rw e (cut_domain-IsCut host _ third h k.1.1.0, unfold cut_domain in refl)
  | inr e ↦ rw e (cut_domain-IsCut host _ second h k.1.0, unfold cut_domain in refl)
]

length-lowercase : (s : Bytes) → length (lowercase s) ≡ length s
length-lowercase [] = refl
length-lowercase (c ∷ s) = ap suc (length-lowercase s)

-- For a host of at most 255 bytes that begins with no bracket, where the extraction succeeds, the
-- full host is the host in lower case, and it is the registrable domain with no subdomain, or the
-- subdomain, a dot and the registrable domain.
pub url_extract_domain-IsCut :
    (url : ParsedUrl) {info : DomainInfo}
    → length url.host ≤ 255
    → starts_with_byte b'[' url.host ≡ false
    → url_extract_domain url ≡ some info
    → IsCut info × (info.full_host ≡ lowercase url.host)
unfolding url_extract_domain
url_extract_domain-IsCut url h b e =
    let full = lowercase (copy_into host_size url.host) in
    let same : full ≡ lowercase url.host = ap lowercase (take-eq_self 255 url.host h) in
    let cut =
      by_dots-IsCut full (dots full)
        (omega (arith, length-lowercase (copy_into host_size url.host), length-take 255 url.host))
        (dots-AllAfter full) in
    ground (arith, same, cut)
