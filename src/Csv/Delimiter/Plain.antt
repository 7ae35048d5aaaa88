-- ===== src/Csv/Delimiter/Plain.antt =====
-- c/csv_import.c: the delimiter of a text with no tab, semicolon or bar.
use browserhistory.Csv.Delimiter.Best.{AllScores, best_delimiter_higher, best_delimiter_other}
use browserhistory.Csv.Delimiter.{
  count_lines, score_delimiter, best_delimiter, csv_detect_delimiter,
}
use browserhistory.Url.Print.RoundTrip.{Every}
use browserhistory.Prelude.{
  ℕ, zero, suc, ◌≤◌, ◌≡◌, refl, ◌∙◌, inl, inr, Bool, true, false, not, ◌&&◌, [], ◌∷◌, arith, ltb,
  ◌==◌, Bool-cases, take,
}
use browserhistory.Prelude.Text.{Bytes}

-- A byte that is no candidate but the comma.
abbrev pub is_plain : ℕ → Bool
is_plain c = not (c == b'\t') && not (c == b';') && not (c == b'|')

pub Every-take : (test : ℕ → Bool) (n : ℕ) (s : Bytes) → Every test s → Every test (take n s)
Every-take test zero s h = tt
Every-take test (suc n) [] h = tt
Every-take test (suc n) (c ∷ s) h = (h.0, Every-take test n s h.1)

pub Every-implied :
    (weak strong : ℕ → Bool)
    → ((c : ℕ) → strong c ≡ true → weak c ≡ true)
    → (s : Bytes) → Every strong s
    → Every weak s
Every-implied weak strong implied [] h = tt
Every-implied weak strong implied (c ∷ s) h =
    (implied c h.0, Every-implied weak strong implied s h.1)

count_lines-Every :
    (delim : ℕ) (in_quotes : Bool) (s : Bytes)
    → Every (λ c. not (c == delim)) s
    → count_lines [] 0 in_quotes delim s ≡ []
unfolding count_lines
count_lines-Every delim in_quotes [] h = refl
count_lines-Every delim in_quotes (c ∷ s) h = elim (Bool-cases (c == b'"')) [
  | inl e ↦ rw (e, count_lines) (count_lines-Every delim (not in_quotes) s h.1)
  | inr e ↦ elim (Bool-cases in_quotes) [
    | inl q ↦ rw (e, q, count_lines) (count_lines-Every delim true s h.1)
    | inr q ↦
        let differs : (c == delim) ≡ false = ground (arith, h.0) in
        elim (Bool-cases (c == b'\n')) [
          | inl d ↦ rw (e, q, differs, d, count_lines) (count_lines-Every delim false s h.1)
          | inr d ↦ rw (e, q, differs, d, count_lines) (count_lines-Every delim false s h.1)
        ]
  ]
]

score_delimiter-Every :
    (delim : ℕ) (s : Bytes) → Every (λ c. not (c == delim)) s → score_delimiter s delim ≤ 0
unfolding score_delimiter
score_delimiter-Every delim s h = rw (count_lines-Every delim false s h) (omega arith)

best_delimiter_kept :
    (text : Bytes) (score best : ℕ) (cs : Bytes)
    → AllScores text 0 cs
    → best_delimiter text score best cs ≡ best
unfolding best_delimiter
best_delimiter_kept text score best [] h = refl
best_delimiter_kept text score best (c ∷ cs) h =
    let lower : ltb score (score_delimiter text c) ≡ false = ground (arith, h.0) in
    best_delimiter_other text score best c cs lower ∙ best_delimiter_kept text score best cs h.1

-- The comma is detected in a text that has none of the other candidates.
pub csv_detect_delimiter-Plain :
    (text : Bytes) → Every is_plain text → csv_detect_delimiter text ≡ b','
unfolding csv_detect_delimiter
csv_detect_delimiter-Plain text h =
    let shown = take 8192 text in
    let plain = Every-take is_plain 8192 text h in
    let others : AllScores shown 0 (b'\t' ∷ b';' ∷ b'|' ∷ []) = (
      score_delimiter-Every b'\t' shown
          (Every-implied (λ c. not (c == b'\t')) is_plain (λ c p. ground (arith, p)) shown plain),
      (
        score_delimiter-Every b';' shown
            (Every-implied (λ c. not (c == b';')) is_plain (λ c p. ground (arith, p)) shown plain),
        (
          score_delimiter-Every b'|' shown (
              Every-implied (λ c. not (c == b'|')) is_plain (λ c p. ground (arith, p)) shown plain),
          tt,
        ),
      ),
    ) in
    elim (Bool-cases (ltb 0 (score_delimiter shown b','))) [
      | inl e ↦
          best_delimiter_higher shown 0 b',' b',' (b'\t' ∷ b';' ∷ b'|' ∷ []) e
          ∙ best_delimiter_kept shown (score_delimiter shown b',') b',' _ others
      | inr e ↦
          best_delimiter_other shown 0 b',' b',' (b'\t' ∷ b';' ∷ b'|' ∷ []) e
          ∙ best_delimiter_kept shown 0 b',' _ others
    ]
