-- ===== src/Csv/Delimiter.antt =====
-- c/csv_import.c: csv_skip_bom, score_delimiter and csv_detect_delimiter.
pub mod Best
pub mod Plain
use browserhistory.Prelude.{
  ℕ, zero, suc, ◌+◌, ◌-◌, ◌*◌, ◌/◌, ◌%◌, ◌^◌, ◌≤◌, ◌<◌, ◌≡◌, refl, sym, ap, ◌∙◌, ◌≢◌, ◌↔◌, ◌⊎◌, inl,
  inr, Bool, true, false, not, ◌&&◌, ◌||◌, Option, none, some, List, [], ◌∷◌, ◌++◌, map, append-nil,
  append_assoc, arith, ltb, leb, ◌==◌, if◌then◌else◌, Bool-cases, Option-cases, length, get_elem?,
  get_or, take, drop, length-append, length-take, length-drop, take-eq_self, drop-eq_nil,
  take-append_self, drop-append_self,
}
use browserhistory.Prelude.Int.{ℤ, pos, negsuc, minus_one, is_positive, is_nat, pos_part}
use browserhistory.Prelude.Text.{
  Bytes, codes, copy_into, is_nonempty, str_eq, c_string, span, NoNul, AreBytes, c_string-NoNul,
}

unfoldable pub csv_skip_bom : Bytes → Bytes
csv_skip_bom (a ∷ b ∷ c ∷ s) = if a == 0xEF && b == 0xBB && c == 0xBF then s else a ∷ b ∷ c ∷ s
csv_skip_bom s = s

abbrev pub add_count : ℕ → List ℕ → List ℕ
add_count current counts = if ltb 0 current then counts ++ current ∷ [] else counts

-- The variables of the loop: `line_counts`, of length `num_lines`, `current_count` and `in_quotes`.
unfoldable pub count_lines : List ℕ → ℕ → Bool → ℕ → Bytes → List ℕ
count_lines counts current in_quotes delim [] =
    if ltb (length counts) 16 then add_count current counts else counts
count_lines counts current in_quotes delim (c ∷ s) =
    if leb 16 (length counts) then counts else elim (c == b'"') [
      | true ↦ count_lines counts current (not in_quotes) delim s
      | false ↦ elim in_quotes [
        | true ↦ count_lines counts current true delim s
        | false ↦ elim (c == delim) [
          | true ↦ count_lines counts (current + 1) false delim s
          | false ↦ elim (c == b'\n') [
            | true ↦ count_lines (add_count current counts) 0 false delim s
            | false ↦ count_lines counts current false delim s
          ]
        ]
      ]
    ]

unfoldable pub consistent : ℕ → List ℕ → ℕ
consistent baseline [] = 0
consistent baseline (n ∷ ns) =
    let rest = consistent baseline ns in if n == baseline then rest + 1 else rest

abbrev pub score_of : List ℕ → ℕ
score_of [] = 0
score_of (baseline ∷ []) = 0
score_of (baseline ∷ n ∷ ns) = consistent baseline (n ∷ ns) * baseline

unfoldable pub score_delimiter : Bytes → ℕ → ℕ
score_delimiter text delim = score_of (count_lines [] 0 false delim text)

unfoldable pub best_delimiter : Bytes → ℕ → ℕ → Bytes → ℕ
best_delimiter text best_score best_delim [] = best_delim
best_delimiter text best_score best_delim (c ∷ candidates) =
    let score = score_delimiter text c in
    elim (ltb best_score score) [
      | true ↦ best_delimiter text score c candidates
      | false ↦ best_delimiter text best_score best_delim candidates
    ]

abbrev pub candidates : Bytes
candidates = b',' ∷ b'\t' ∷ b';' ∷ b'|' ∷ []

unfoldable pub csv_detect_delimiter : Bytes → ℕ
csv_detect_delimiter text = best_delimiter (take 8192 text) 0 b',' candidates
