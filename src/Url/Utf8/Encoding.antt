-- ===== src/Url/Utf8/Encoding.antt =====
-- c/url_parser.c: url_validate_utf8 against the encoding of Unicode scalar values.
use browserhistory.Prelude.{
  ◌↔◌, ltb→lt, ℕ, zero, suc, ◌+◌, ◌*◌, ◌/◌, ◌%◌, ◌≤◌, ◌<◌, ◌≡◌, refl, sym, ap, ◌∙◌, ◌⊎◌, inl, inr,
  true, false, none, some, List, [], ◌∷◌, ◌++◌, arith, ltb, ◌==◌, if◌then◌else◌, Bool-cases,
  Option-cases, length, take,
}
use browserhistory.Prelude.Text.{Bytes, c_string, AreBytes}
use browserhistory.Url.Utf8.{
  validated, two_bytes, three_bytes, four_bytes, skip_sequence, validate_from, url_validate_utf8,
}

-- The UTF-8 encoding of a code point.
pub utf8 : ℕ → Bytes
utf8 cp =
    if ltb cp 0x80
    then cp ∷ []
    else if ltb cp 0x800
    then (192 + cp / 64) ∷ (128 + cp % 64) ∷ []
    else if ltb cp 0x10000
    then (224 + cp / 4096) ∷ (128 + cp / 64 % 64) ∷ (128 + cp % 64) ∷ []
    else (240 + cp / 262144) ∷ (128 + cp / 4096 % 64) ∷ (128 + cp / 64 % 64) ∷ (128 + cp % 64) ∷ []

pub record IsScalar (cp : ℕ) : Type 0 where
  pub low : cp < 0x110000
  pub no_surrogate : (cp < 0xD800) ⊎ (0xE000 ≤ cp)

abbrev pub AreScalars : List ℕ → Type 0
AreScalars [] = Unit
AreScalars (cp ∷ cps) = IsScalar cp × AreScalars cps

abbrev pub utf8_all : List ℕ → Bytes
utf8_all [] = []
utf8_all (cp ∷ cps) = utf8 cp ++ utf8_all cps

skip_one : (cp : ℕ) (s : Bytes) → cp < 0x80 → skip_sequence (utf8 cp ++ s) ≡ some s
unfolding utf8 skip_sequence
skip_one cp s h = ground arith

skip_two : (cp : ℕ) (s : Bytes) → 0x80 ≤ cp → cp < 0x800 → skip_sequence (utf8 cp ++ s) ≡ some s
unfolding utf8 skip_sequence two_bytes
skip_two cp s h k = ground arith

skip_three :
    (cp : ℕ) (s : Bytes)
    → 0x800 ≤ cp
    → cp < 0x10000
    → IsScalar cp
    → skip_sequence (utf8 cp ++ s) ≡ some s
unfolding utf8 skip_sequence three_bytes
skip_three cp s h k i = ground arith

skip_four :
    (cp : ℕ) (s : Bytes) → 0x10000 ≤ cp → cp < 0x110000 → skip_sequence (utf8 cp ++ s) ≡ some s
unfolding utf8 skip_sequence four_bytes
skip_four cp s h k = ground arith

skip_scalar : (cp : ℕ) (s : Bytes) → IsScalar cp → skip_sequence (utf8 cp ++ s) ≡ some s
skip_scalar cp s h = elim (Bool-cases (ltb cp 0x80)) [
  | inl a ↦ skip_one cp s (ltb→lt cp 0x80 a)
  | inr a ↦ elim (Bool-cases (ltb cp 0x800)) [
    | inl b ↦ skip_two cp s (ground arith) (ltb→lt cp 0x800 b)
    | inr b ↦ elim (Bool-cases (ltb cp 0x10000)) [
      | inl c ↦ skip_three cp s (ground arith) (ltb→lt cp 0x10000 c) h
      | inr c ↦ skip_four cp s (ground arith) h.low
    ]
  ]
]

-- A sequence that is skipped is the encoding of a scalar value.
abbrev Skipped : Bytes → Bytes → Type 0
Skipped s r = (cp : ℕ) × IsScalar cp × (s ≡ utf8 cp ++ r)

Skipped-one : (c : ℕ) (r : Bytes) → c < 0x80 → Skipped (c ∷ r) r
unfolding utf8
Skipped-one c r h = (c, ground arith, ground arith)

Skipped-two :
    (c : ℕ) (s r : Bytes)
    → (c / 32 == 6) ≡ true
    → AreBytes s
    → two_bytes c s ≡ some r
    → Skipped (c ∷ s) r
unfolding two_bytes utf8
Skipped-two c [] r e h k = cc
Skipped-two c (a ∷ s) r e h k = (c % 32 * 64 + a % 64, ground arith, ground arith)

Skipped-three :
    (c : ℕ) (s r : Bytes)
    → (c / 16 == 14) ≡ true
    → AreBytes s
    → three_bytes c s ≡ some r
    → Skipped (c ∷ s) r
unfolding three_bytes utf8
Skipped-three c [] r e h k = cc
Skipped-three c (a ∷ []) r e h k = cc
Skipped-three c (a ∷ b ∷ s) r e h k =
    (c % 16 * 4096 + a % 64 * 64 + b % 64, ground arith, ground arith)

Skipped-four :
    (c : ℕ) (s r : Bytes)
    → (c / 8 == 30) ≡ true
    → AreBytes s
    → four_bytes c s ≡ some r
    → Skipped (c ∷ s) r
unfolding four_bytes utf8
Skipped-four c [] r e h k = cc
Skipped-four c (a ∷ []) r e h k = cc
Skipped-four c (a ∷ b ∷ []) r e h k = cc
Skipped-four c (a ∷ b ∷ d ∷ s) r e h k =
    (c % 8 * 262144 + a % 64 * 4096 + b % 64 * 64 + d % 64, ground arith, ground arith)

skip_sequence-Skipped : (s r : Bytes) → AreBytes s → skip_sequence s ≡ some r → Skipped s r
unfolding skip_sequence
skip_sequence-Skipped [] r h e = cc
skip_sequence-Skipped (c ∷ s) r h e =
    ground (arith, Skipped-one c r, Skipped-two c s r, Skipped-three c s r, Skipped-four c s r)

skip_sequence-rest :
    (s r : Bytes) → skip_sequence s ≡ some r → (length r < length s) × (AreBytes s → AreBytes r)
unfolding skip_sequence two_bytes three_bytes four_bytes
skip_sequence-rest [] r e = cc
skip_sequence-rest (c ∷ []) r e = ground arith
skip_sequence-rest (c ∷ a ∷ []) r e = ground arith
skip_sequence-rest (c ∷ a ∷ b ∷ []) r e = ground arith
skip_sequence-rest (c ∷ a ∷ b ∷ d ∷ s) r e = ground arith

validate_from_step :
    (fuel : ℕ) (s r : Bytes)
    → skip_sequence s ≡ some r
    → validate_from (suc fuel) s ≡ validate_from fuel r
unfolding validate_from
validate_from_step fuel [] r e = unfold skip_sequence in cc
validate_from_step fuel (c ∷ s) r e = rw (e, validate_from)

validate_from-utf8_all :
    (fuel : ℕ) (cps : List ℕ)
    → AreScalars cps
    → length (utf8_all cps) ≤ fuel
    → validate_from fuel (utf8_all cps) ≡ true
validate_from-utf8_all fuel [] h f = unfold validate_from in refl
validate_from-utf8_all zero (cp ∷ cps) h f =
    let skip = skip_scalar cp (utf8_all cps) h.0 in
    absurd (omega (arith, (skip_sequence-rest (utf8 cp ++ utf8_all cps) (utf8_all cps) skip).0))
validate_from-utf8_all (suc fuel) (cp ∷ cps) h f =
    let skip = skip_scalar cp (utf8_all cps) h.0 in
    let shorter = (skip_sequence-rest (utf8 cp ++ utf8_all cps) (utf8_all cps) skip).0 in
    validate_from_step fuel (utf8 cp ++ utf8_all cps) (utf8_all cps) skip
    ∙ validate_from-utf8_all fuel cps h.1 (omega arith)

abbrev pub Encodes : Bytes → List ℕ → Type 0
Encodes s cps = AreScalars cps × (s ≡ utf8_all cps)

validate_from-Encodes :
    (fuel : ℕ) (s : Bytes)
    → AreBytes s
    → validate_from fuel s ≡ true
    → (cps : List ℕ) × Encodes s cps
validate_from-Encodes fuel [] h e = ([], (tt, refl))
validate_from-Encodes zero (c ∷ s) h e = unfold validate_from in cc
validate_from-Encodes (suc fuel) (c ∷ s) h e = elim (Option-cases (skip_sequence (c ∷ s))) [
  | inl d ↦ absurd (stops d)
  | inr (r, d) ↦
      let (cp, scalar, front) = skip_sequence-Skipped (c ∷ s) r h d in
      let (cps, later) =
        validate_from-Encodes fuel r ((skip_sequence-rest (c ∷ s) r d).1 h)
          (sym (validate_from_step fuel (c ∷ s) r d) ∙ e) in
      (cp ∷ cps, ((scalar, later.0), front ∙ ap (◌++◌ (utf8 cp)) later.1))
]
  where
    stops : skip_sequence (c ∷ s) ≡ none → ⊥
    stops d =
        let z : validate_from (suc fuel) (c ∷ s) ≡ false =
          unfold validate_from in rw (d, validate_from) in
        cc

AreBytes-c_string : (s : Bytes) → AreBytes s → AreBytes (c_string s)
unfolding c_string
AreBytes-c_string [] h = h
AreBytes-c_string (b ∷ s) h = elim (Bool-cases (b == 0)) [
  | inl e ↦ rw e tt
  | inr e ↦ rw e (h.0, AreBytes-c_string s h.1)
]

AreBytes-take : (n : ℕ) (s : Bytes) → AreBytes s → AreBytes (take n s)
AreBytes-take zero s h = tt
AreBytes-take (suc n) [] h = tt
AreBytes-take (suc n) (b ∷ s) h = (h.0, AreBytes-take n s h.1)

AreBytes-validated : (str : Bytes) (len : ℕ) → AreBytes str → AreBytes (validated str len)
AreBytes-validated str len h = elim (Bool-cases (len == 0)) [
  | inl e ↦ rw e (AreBytes-c_string str h)
  | inr e ↦ rw e (AreBytes-take len str h)
]

-- Of a text of bytes, the validator accepts exactly those that are the UTF-8 encoding of a sequence
-- of Unicode scalar values: no overlong form, no surrogate and nothing above U+10FFFF.
pub url_validate_utf8_iff :
    (str : Bytes) (len : ℕ)
    → AreBytes str
    → (url_validate_utf8 str len ≡ true) ↔ ((cps : List ℕ) × Encodes (validated str len) cps)
unfolding url_validate_utf8
url_validate_utf8_iff str len h =
    let s = validated str len in
    (
      λ v. validate_from-Encodes (length s) s (AreBytes-validated str len h) v,
      λ found. accepted s found.0 found.1.0 found.1.1,
    )
  where
    accepted :
        (s : Bytes) (cps : List ℕ)
        → AreScalars cps
        → s ≡ utf8_all cps
        → validate_from (length s) s ≡ true
    accepted s cps k e = rw e (validate_from-utf8_all (length (utf8_all cps)) cps k (omega arith))
