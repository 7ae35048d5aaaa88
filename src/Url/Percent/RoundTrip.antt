-- ===== src/Url/Percent/RoundTrip.antt =====
-- c/url_parser.c: what was percent-encoded is decoded again.
use browserhistory.Prelude.{
  ℕ, zero, suc, ◌-◌, ◌*◌, ◌/◌, ◌%◌, ◌≤◌, ◌<◌, ◌≡◌, refl, ap, ◌∙◌, ◌≢◌, ◌⊎◌, inl, inr, Bool, true,
  false, some, [], ◌∷◌, arith, ltb, ◌==◌, Bool-cases, length,
}
use browserhistory.Prelude.Text.{Bytes}
use browserhistory.Url.Chars.{hex_byte, hex_digit_value}
use browserhistory.Url.Percent.{
  decode, url_percent_decode, encode_from, url_percent_encode, unescape, need_encode, hex_char,
  plain, push,
}

hex_char-value : (n : ℕ) → n < 16 → hex_digit_value (hex_char n) ≡ some n
unfolding hex_digit_value
hex_char-value n h = ground arith

unescape-hex_char :
    (c : ℕ) → c < 256 → c ≢ 0 → unescape (hex_char (c / 16)) (hex_char (c % 16)) ≡ some c
unfolding unescape hex_byte
unescape-hex_char c h n = ground (arith, hex_char-value (c / 16), hex_char-value (c % 16))

-- No character passes unencoded that decoding would change.
need_encode-plain :
    (set c : ℕ) (plus : Bool)
    → (plus ≡ false) ⊎ (2 ≤ set)
    → need_encode set c ≡ false
    → ((c == b'%') ≡ false) × (plain plus c ≡ c)
unfolding need_encode
need_encode-plain zero c plus p e = ground arith
need_encode-plain (suc zero) c plus p e = ground arith
need_encode-plain (suc (suc n)) c plus p e = ground arith

decode-plain :
    (plus : Bool) (c : ℕ) (s : Bytes)
    → (c == b'%') ≡ false
    → plain plus c ≡ c
    → decode plus (c ∷ s) ≡ push c (decode plus s)
unfolding decode
decode-plain plus c [] e p = rw (e, p)
decode-plain plus c (h ∷ []) e p = rw (e, p)
decode-plain plus c (h ∷ l ∷ s) e p = rw (e, p)

decode-escape :
    (plus : Bool) (h l b : ℕ) (s : Bytes)
    → unescape h l ≡ some b
    → decode plus (b'%' ∷ h ∷ l ∷ s) ≡ push b (decode plus s)
unfolding decode
decode-escape plus h l b s e = rw e

abbrev pub Encodable : Bytes → Type 0
Encodable [] = Unit
Encodable (c ∷ cs) = (c < 256) × (c ≢ 0) × Encodable cs

decode-encode_from :
    (set room : ℕ) (plus : Bool) (s : Bytes)
    → (plus ≡ false) ⊎ (2 ≤ set)
    → Encodable s
    → 3 * length s ≤ room
    → decode plus (encode_from set room s) ≡ record { out = s; complete = true }
unfolding encode_from
decode-encode_from set room plus [] p h f = unfold decode in refl
decode-encode_from set room plus (c ∷ cs) p h f =
    let e : (room == 0) ≡ false = ground arith in
    let r : ltb room 3 ≡ false = ground arith in
    elim (Bool-cases (need_encode set c)) [
      | inl d ↦
          rw (e, d, r)
            (decode-escape plus (hex_char (c / 16)) (hex_char (c % 16)) c _
                (unescape-hex_char c h.0 h.1)
              ∙ ap (push c) (decode-encode_from set (room - 3) plus cs p h.2 (omega arith)))
      | inr d ↦
          rw (e, d)
            (decode-plain plus c _ (need_encode-plain set c plus p d).0
                (need_encode-plain set c plus p d).1
              ∙ ap (push c) (decode-encode_from set (room - 1) plus cs p h.2 (omega arith)))
    ]

-- A text of bytes with no NUL, encoded into a buffer of more than three bytes for each of its own,
-- is decoded to the text again: in each of the three encode sets where `+` stands for itself, and
-- in the full encode set also where it stands for a space.
pub url_percent_decode-url_percent_encode :
    (dstsize set : ℕ) (plus : Bool) (s : Bytes)
    → (plus ≡ false) ⊎ (2 ≤ set)
    → Encodable s
    → 3 * length s < dstsize
    → (text : Bytes) × (url_percent_encode dstsize s set ≡ some text)
      × (url_percent_decode text plus ≡ (s, true))
unfolding url_percent_encode url_percent_decode
url_percent_decode-url_percent_encode dstsize set plus s p h f =
    let e : (dstsize == 0) ≡ false = ground arith in
    (
      encode_from set (dstsize - 1) s,
      rw e,
      rw (decode-encode_from set (dstsize - 1) plus s p h (omega arith)),
    )
