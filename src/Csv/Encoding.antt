-- ===== src/Csv/Encoding.antt =====
-- c/csv_import.c: latin1_to_utf8 and fix_field_encoding.
pub mod Valid
use browserhistory.Prelude.{
  ℕ, zero, suc, ◌+◌, ◌-◌, ◌*◌, ◌/◌, ◌%◌, ◌^◌, ◌≤◌, ◌<◌, ◌≡◌, refl, sym, ap, ◌∙◌, ◌≢◌, ◌↔◌, ◌⊎◌, inl,
  inr, Bool, true, false, not, ◌&&◌, ◌||◌, Option, none, some, List, [], ◌∷◌, ◌++◌, map, append-nil,
  append_assoc, arith, ltb, leb, ◌==◌, if◌then◌else◌, Bool-cases, Option-cases, length, get_elem?,
  get_or, take, drop, length-append, length-take, length-drop, take-eq_self, drop-eq_nil,
  take-append_self, drop-append_self,
}
use browserhistory.Prelude.Int.{ℤ, pos, negsuc, minus_one, is_positive, is_nat, pos_part}
use browserhistory.Prelude.Text.{
  Bytes, codes, copy_into, is_nonempty, str_eq, c_string, span, NoNul, AreBytes, c_string-NoNul,
}
use browserhistory.Url.Utf8.{is_continuation}
use browserhistory.Csv.{max_field_len}

-- `room` is `dstsize - 2 - j`; a byte of two may take one more than that.
unfoldable pub latin1_from : ℕ → Bytes → Bytes
latin1_from room [] = []
latin1_from zero (c ∷ s) = []
latin1_from (suc room) (c ∷ s) = elim (ltb c 0x80) [
  | true ↦ c ∷ latin1_from room s
  | false ↦ (0xC0 + c / 64) ∷ (0x80 + c % 64) ∷ latin1_from (room - 1) s
]

unfoldable pub latin1_to_utf8 : ℕ → Bytes → Bytes
latin1_to_utf8 dstsize src = latin1_from (dstsize - 2) src

-- How many bytes have to follow the first byte of a sequence.
unfoldable pub following : ℕ → Option ℕ
following c =
    if ltb c 0x80
    then some 0
    else if c / 32 == 6
    then some 1
    else if c / 16 == 14
    then some 2
    else if c / 8 == 30
    then some 3
    else none

-- The loop, with the number of bytes of the present sequence that are still to follow.
unfoldable pub needs_conversion : ℕ → Bytes → Bool
needs_conversion zero [] = false
needs_conversion (suc k) [] = true
needs_conversion zero (c ∷ s) = elim (following c) [ none ↦ true | some k ↦ needs_conversion k s ]
needs_conversion (suc k) (c ∷ s) =
    let more = needs_conversion k s in if is_continuation c then more else true

unfoldable pub fix_field_encoding : ℕ → Bytes → Bytes
fix_field_encoding field_size field =
    if needs_conversion 0 field
    then copy_into field_size (latin1_to_utf8 (max_field_len * 2) field)
    else field
