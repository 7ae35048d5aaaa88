-- ===== src/Url/Utf8.antt =====
-- c/url_parser.c, url_validate_utf8. A mask test of a byte is written as the division that keeps
-- the masked bits: `(c & 0xE0) == 0xC0` is `c / 32 == 6`.
pub mod Encoding
use browserhistory.Prelude.{
  ℕ, zero, suc, ◌+◌, ◌-◌, ◌*◌, ◌/◌, ◌%◌, ◌^◌, ◌≤◌, ◌<◌, ◌≡◌, refl, sym, ap, ◌∙◌, ◌≢◌, ◌↔◌, ◌⊎◌, inl,
  inr, Bool, true, false, not, ◌&&◌, ◌||◌, Option, none, some, List, [], ◌∷◌, ◌++◌, map, append-nil,
  append_assoc, arith, ltb, leb, ◌==◌, if◌then◌else◌, Bool-cases, Option-cases, length, get_elem?,
  get_or, take, drop, length-append, length-take, length-drop, take-eq_self, drop-eq_nil,
}
use browserhistory.Prelude.Int.{ℤ, pos, negsuc, minus_one, is_positive, is_nat, pos_part}
use browserhistory.Prelude.Text.{
  Bytes, codes, copy_into, is_nonempty, str_eq, c_string, span, NoNul, AreBytes,
}

-- `(c & 0xC0) == 0x80`
abbrev pub is_continuation : ℕ → Bool
is_continuation c = c / 64 == 2

abbrev pub code_two : ℕ → ℕ → ℕ
code_two c a = c % 32 * 64 + a % 64

abbrev pub code_three : ℕ → ℕ → ℕ → ℕ
code_three c a b = c % 16 * 4096 + a % 64 * 64 + b % 64

abbrev pub code_four : ℕ → ℕ → ℕ → ℕ → ℕ
code_four c a b d = c % 8 * 262144 + a % 64 * 4096 + b % 64 * 64 + d % 64

unfoldable pub two_bytes : ℕ → Bytes → Option Bytes
two_bytes c (a ∷ s) = if is_continuation a && leb 0x80 (code_two c a) then some s else none
two_bytes c [] = none

unfoldable pub three_bytes : ℕ → Bytes → Option Bytes
three_bytes c (a ∷ b ∷ s) =
    let cp = code_three c a b in
    if is_continuation a
      && is_continuation b
      && leb 0x800 cp
      && not (leb 0xD800 cp && leb cp 0xDFFF)
    then some s
    else none
three_bytes c (a ∷ []) = none
three_bytes c [] = none

unfoldable pub four_bytes : ℕ → Bytes → Option Bytes
four_bytes c (a ∷ b ∷ d ∷ s) =
    let cp = code_four c a b d in
    if is_continuation a
      && is_continuation b
      && is_continuation d
      && not (ltb cp 0x10000 || ltb 0x10FFFF cp)
    then some s
    else none
four_bytes c (a ∷ b ∷ []) = none
four_bytes c (a ∷ []) = none
four_bytes c [] = none

-- One round of the loop: what follows a valid sequence at the front.
unfoldable pub skip_sequence : Bytes → Option Bytes
skip_sequence [] = none
skip_sequence (c ∷ s) =
    if ltb c 0x80
    then some s
    else if c / 32 == 6
    then two_bytes c s
    else if c / 16 == 14
    then three_bytes c s
    else if c / 8 == 30
    then four_bytes c s
    else none

unfoldable pub validate_from : ℕ → Bytes → Bool
validate_from fuel [] = true
validate_from zero (c ∷ s) = false
validate_from (suc fuel) (c ∷ s) = elim (skip_sequence (c ∷ s)) [
  | none ↦ false
  | some rest ↦ validate_from fuel rest
]

-- The first `len` bytes of the buffer, or those of its C string where `len` is 0.
abbrev pub validated : Bytes → ℕ → Bytes
validated str len = if len == 0 then c_string str else take len str

-- Each round takes a
-- byte at least, so that the number of bytes is fuel enough.
unfoldable pub url_validate_utf8 : Bytes → ℕ → Bool
url_validate_utf8 str len = validate_from (length (validated str len)) (validated str len)
