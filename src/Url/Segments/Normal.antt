-- ===== src/Url/Segments/Normal.antt =====
-- c/url_parser.c: what path normalization leaves.
use browserhistory.Prelude.{
  lt→ltb, ℕ, ◌+◌, ◌≤◌, ◌<◌, ◌≡◌, refl, sym, ap, ◌∙◌, inl, inr, true, false, List, [], ◌∷◌, ◌++◌,
  arith, ltb, Bool-cases, length, take-eq_self,
}
use browserhistory.Prelude.Text.{Bytes, copy_into, str_eq}
use mathlib.Core.List.{reverse, reverse_aux, reverse-reverse}
use browserhistory.Url.Segments.Tokens.{
  IsToken, AllOf, tokens-IsToken, tokens-write, write-kept, length-write, AllOf-kept, length-kept,
  kept,
}
use browserhistory.Url.Segments.{
  tokens_from, tokens, push_token, resolve, write_segments, path_size, dot, dot_dot,
  has_leading_slash, working, leading, segments, normalize_path_segments,
}

-- A segment of a normal path: not empty, with no slash, and neither `.` nor `..`.
pub record IsSegment (s : Bytes) : Type 0 where
  pub token : IsToken b'/' s
  pub not_dot : str_eq s dot ≡ false
  pub not_dot_dot : str_eq s dot_dot ≡ false

abbrev pub AreSegments : List Bytes → Type 0
AreSegments = AllOf IsSegment

push_token-Segments :
    (t : Bytes) (stack : List Bytes)
    → IsToken b'/' t
    → AreSegments stack
    → AreSegments (push_token t stack) × (length (push_token t stack) ≤ length stack + 1)
unfolding push_token
push_token-Segments t [] h k = ground arith
push_token-Segments t (s ∷ ss) h k = ground arith

resolve-Segments :
    (stack ts : List Bytes)
    → AllOf (IsToken b'/') ts
    → AreSegments stack
    → length stack ≤ 255
    → AreSegments (resolve stack ts) × (length (resolve stack ts) ≤ 255)
unfolding resolve
resolve-Segments stack [] h k l = (k, l)
resolve-Segments stack (t ∷ ts) h k l = elim (Bool-cases (ltb (length stack) 255)) [
  | inl e ↦
      let p = push_token-Segments t stack h.0 k in
      rw e (resolve-Segments (push_token t stack) ts h.1 p.0 (ground (arith, p.1)))
  | inr e ↦ rw e (k, l)
]

push_segment : (t : Bytes) (stack : List Bytes) → IsSegment t → push_token t stack ≡ t ∷ stack
unfolding push_token
push_segment t stack h = rw (h.not_dot, h.not_dot_dot)

resolve_segments :
    (stack ts : List Bytes)
    → AreSegments ts
    → length stack + length ts ≤ 255
    → resolve stack ts ≡ reverse_aux ts stack
unfolding resolve
resolve_segments stack [] h l = refl
resolve_segments stack (t ∷ ts) h l =
    rw (lt→ltb (length stack) 255 (omega arith), push_segment t stack h.0)
      (resolve_segments (t ∷ stack) ts h.1 (omega arith))

AllOf-reverse_aux :
    (P : Bytes → Type 0) (ss acc : List Bytes)
    → AllOf P ss
    → AllOf P acc
    → AllOf P (reverse_aux ss acc)
AllOf-reverse_aux P [] acc h k = k
AllOf-reverse_aux P (s ∷ ss) acc h k = AllOf-reverse_aux P ss (s ∷ acc) h.1 (h.0, k)

length-reverse_aux : (ss acc : List Bytes) → length (reverse_aux ss acc) ≡ length ss + length acc
length-reverse_aux [] acc = omega arith
length-reverse_aux (s ∷ ss) acc = omega (arith, length-reverse_aux ss (s ∷ acc))

segments-Segments : (path : Bytes) → AreSegments (segments path) × (length (segments path) ≤ 255)
unfolding segments
segments-Segments path =
    let ts = tokens b'/' (copy_into path_size (working path)) in
    let r = resolve-Segments [] ts (tokens-IsToken b'/' _) tt (omega arith) in
    (
      AllOf-reverse_aux IsSegment (resolve [] ts) [] r.0 tt,
      omega (arith, r.1, length-reverse_aux (resolve [] ts) []),
    )

AllOf-tokens : (ss : List Bytes) → AreSegments ss → AllOf (IsToken b'/') ss
AllOf-tokens [] h = tt
AllOf-tokens (s ∷ ss) h = (h.0.token, AllOf-tokens ss h.1)

-- A text written from segments has no slash in front, so that the parts of a normal path are found.
has_leading-write :
    (used : ℕ) (ss : List Bytes)
    → AreSegments ss
    → has_leading_slash (write_segments true used ss) ≡ false
unfolding write_segments
has_leading-write used [] h = refl
has_leading-write used ([] ∷ ss) h = cc (h.0.token.0)
has_leading-write used ((c ∷ s) ∷ ss) h = ground (arith, h.0.token.1.0)

parts_of_normal :
    (path text : Bytes)
    → has_leading_slash text ≡ false
    → (leading (leading path ++ text) ≡ leading path) × (working (leading path ++ text) ≡ text)
parts_of_normal path text e = elim (Bool-cases (has_leading_slash path)) [
  | inl d ↦ rw d (refl, refl)
  | inr d ↦ rw d (rw e (refl, refl))
]

text_segments : Bytes → List Bytes
text_segments text = reverse (resolve [] (tokens b'/' (copy_into path_size text)))

text_segments-write :
    (used : ℕ) (ss : List Bytes)
    → used < 2047
    → AreSegments ss
    → length ss ≤ 255
    → text_segments (write_segments true used ss) ≡ kept true used ss
unfolding text_segments
text_segments-write used ss u h l =
    let w = write_segments true used ss in
    let k = kept true used ss in
    let room = length-write true used ss u in
    let fits = length-kept true used ss in
    ap (λ t. reverse (resolve [] (tokens b'/' t))) (take-eq_self 2047 w (omega (arith, room)))
    ∙ ap (λ ts. reverse (resolve [] ts)) (tokens-write used ss (AllOf-tokens ss h))
    ∙ ap reverse (resolve_segments [] k (AllOf-kept IsSegment true used ss h) (omega (arith, fits)))
    ∙ reverse-reverse k

segments-working : (path : Bytes) → segments path ≡ text_segments (working path)
unfolding segments text_segments
segments-working path = refl

tokens-leading : (path text : Bytes) → tokens b'/' (leading path ++ text) ≡ tokens b'/' text
tokens-leading path text = elim (Bool-cases (has_leading_slash path)) [
  | inl e ↦ rw e (unfold tokens_from in refl)
  | inr e ↦ rw e
]

length-leading : (path : Bytes) → length (leading path) < 2047
length-leading path = ground arith

-- The segments of a normalized path are those that were written.
segments-normalize :
    (path : Bytes)
    → segments (normalize_path_segments path) ≡ kept true (length (leading path)) (segments path)
unfolding normalize_path_segments
segments-normalize path =
    let v = segments-Segments path in
    let used = length (leading path) in
    let text = write_segments true used (segments path) in
    let parts = parts_of_normal path text (has_leading-write used (segments path) v.0) in
    segments-working (leading path ++ text)
    ∙ ap text_segments parts.1
    ∙ text_segments-write used (segments path) (length-leading path) v.0 v.1

leading-normalize : (path : Bytes) → leading (normalize_path_segments path) ≡ leading path
unfolding normalize_path_segments
leading-normalize path =
    (parts_of_normal path _
      (has_leading-write (length (leading path)) (segments path) (segments-Segments path).0)).0

tokens_normalize :
    (path : Bytes)
    → tokens b'/' (normalize_path_segments path)
      ≡ tokens b'/' (write_segments true (length (leading path)) (segments path))
unfolding normalize_path_segments
tokens_normalize path =
    tokens-leading path (write_segments true (length (leading path)) (segments path))

-- A normalized path's tokens are its segments: none of them is empty, holds a slash, or is `.` or
-- `..`; it begins with a slash exactly when the path did.
pub normalize_path_segments-Segments :
    (path : Bytes)
    → AreSegments (segments (normalize_path_segments path))
      × (tokens b'/' (normalize_path_segments path) ≡ segments (normalize_path_segments path))
      × (leading (normalize_path_segments path) ≡ leading path)
normalize_path_segments-Segments path =
    let used = length (leading path) in
    let v = segments-Segments path in
    let read =
      tokens_normalize path
      ∙ tokens-write used (segments path) (AllOf-tokens (segments path) v.0) in
    (
      (segments-Segments (normalize_path_segments path)).0,
      read ∙ sym (segments-normalize path),
      leading-normalize path,
    )

-- Normalizing a path twice is normalizing it once.
pub normalize_path_segments_idem :
    (path : Bytes)
    → normalize_path_segments (normalize_path_segments path) ≡ normalize_path_segments path
normalize_path_segments_idem path =
    let used = length (leading path) in
    written (normalize_path_segments path)
    ∙ ap (λ l. l ++ write_segments true (length l) (segments (normalize_path_segments path)))
        (leading-normalize path)
    ∙ ap (λ ss. leading path ++ write_segments true used ss) (segments-normalize path)
    ∙ ap (◌++◌ (leading path)) (write-kept true used (segments path))
    ∙ sym (written path)
  where
    written :
        (p : Bytes)
        → normalize_path_segments p
          ≡ leading p ++ write_segments true (length (leading p)) (segments p)
    written p = unfold normalize_path_segments in refl
