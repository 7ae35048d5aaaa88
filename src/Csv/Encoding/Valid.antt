-- ===== src/Csv/Encoding/Valid.antt =====
-- c/csv_import.c: what latin1_to_utf8 writes passes the test of fix_field_encoding.
use browserhistory.Prelude.{
  ℕ, zero, suc, ◌+◌, ◌-◌, ◌/◌, ◌%◌, ◌≤◌, ◌<◌, ◌≡◌, refl, inl, inr, true, false, some, [], ◌∷◌,
  arith, ltb, Bool-cases, length, take-eq_self,
}
use browserhistory.Prelude.Text.{Bytes, AreBytes}
use browserhistory.Url.Utf8.{is_continuation}
use browserhistory.Csv.Encoding.{
  latin1_from, latin1_to_utf8, following, needs_conversion, fix_field_encoding,
}

ascii-following : (c : ℕ) → ltb c 0x80 ≡ true → following c ≡ some 0
unfolding following
ascii-following c h = rw h refl

lead-following : (c : ℕ) → 128 ≤ c → c < 256 → following (0xC0 + c / 64) ≡ some 1
unfolding following
lead-following c h k = ground arith

tail-is_continuation : (c : ℕ) → is_continuation (0x80 + c % 64) ≡ true
tail-is_continuation c = ground arith

needs_conversion-latin1_from :
    (room : ℕ) (s : Bytes) → AreBytes s → needs_conversion 0 (latin1_from room s) ≡ false
unfolding needs_conversion latin1_from
needs_conversion-latin1_from zero [] h = refl
needs_conversion-latin1_from (suc room) [] h = refl
needs_conversion-latin1_from zero (c ∷ s) h = refl
needs_conversion-latin1_from (suc room) (c ∷ s) h = elim (Bool-cases (ltb c 0x80)) [
  | inl e ↦
      rw (e, latin1_from)
        (rw (ascii-following c e, needs_conversion) (needs_conversion-latin1_from room s h.1))
  | inr e ↦
      let lead = lead-following c (ground (arith, e)) h.0 in
      rw (e, latin1_from)
        (rw (lead, tail-is_continuation c, needs_conversion)
          (needs_conversion-latin1_from (room - 1) s h.1))
]

-- A text that is converted from Latin-1 needs no second conversion, unless its field cuts it.
pub fix_field_encoding-needs_conversion :
    (field_size : ℕ) (field : Bytes)
    → AreBytes field
    → length (latin1_to_utf8 8192 field) < field_size
    → needs_conversion 0 (fix_field_encoding field_size field) ≡ false
unfolding fix_field_encoding latin1_to_utf8
fix_field_encoding-needs_conversion field_size field h k =
    elim (Bool-cases (needs_conversion 0 field)) [
      | inl e ↦
          rw (e, take-eq_self (field_size - 1) (latin1_from 8190 field) (omega (arith, k)))
            (needs_conversion-latin1_from 8190 field h)
      | inr e ↦ rw e e
    ]
