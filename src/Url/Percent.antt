-- ===== src/Url/Percent.antt =====
-- c/url_parser.c: percent-encoding and decoding. The decoders write into the string that they read,
-- never ahead of the place read; what they return is the string afterwards.
pub mod RoundTrip
pub mod Bounds
use browserhistory.Prelude.{
  ℕ, zero, suc, ◌+◌, ◌-◌, ◌*◌, ◌/◌, ◌%◌, ◌^◌, ◌≤◌, ◌<◌, ◌≡◌, refl, sym, ap, ◌∙◌, ◌≢◌, ◌↔◌, ◌⊎◌, inl,
  inr, Bool, true, false, not, ◌&&◌, ◌||◌, Option, none, some, List, [], ◌∷◌, ◌++◌, map, append-nil,
  append_assoc, arith, ltb, leb, ◌==◌, if◌then◌else◌, Bool-cases, Option-cases, length, get_elem?,
  get_or, take, drop, length-append, length-take, length-drop, take-eq_self, drop-eq_nil,
}
use browserhistory.Prelude.Int.{ℤ, pos, negsuc, minus_one, is_positive, is_nat, pos_part}
use browserhistory.Prelude.Text.{
  Bytes, codes, copy_into, is_nonempty, str_eq, c_string, span, NoNul, AreBytes,
}
use browserhistory.Url.Chars.{hex_byte, is_unreserved}

-- What the loop has written, and whether it came to the end of the string.
pub record Decoded : Type 0 where
  pub out : Bytes
  pub complete : Bool

abbrev pub push : ℕ → Decoded → Decoded
push c d = record d { out = c ∷ d.out }

abbrev pub failed : Decoded
failed = record { out = []; complete = false }

-- A byte that is not the percent sign.
abbrev pub plain : Bool → ℕ → ℕ
plain plus_as_space c = if plus_as_space && c == b'+' then b' ' else c

-- The byte of an escape; a NUL is refused.
unfoldable pub unescape : ℕ → ℕ → Option ℕ
unfolding hex_byte
unescape h l = elim (hex_byte h l) [ none ↦ none | some b ↦ if b == 0 then none else some b ]

abbrev pub escaped : Option ℕ → Decoded → Decoded
escaped none d = failed
escaped (some b) d = push b d

unfoldable pub decode : Bool → Bytes → Decoded
decode plus [] = record { out = []; complete = true }
decode plus (c ∷ []) =
    if c == b'%' then failed else record { out = plain plus c ∷ []; complete = true }
decode plus (c ∷ h ∷ []) =
    let rest = decode plus (h ∷ []) in if c == b'%' then failed else push (plain plus c) rest
decode plus (c ∷ h ∷ l ∷ s) =
    let behind = decode plus s in
    let rest = decode plus (h ∷ l ∷ s) in
    if c == b'%' then escaped (unescape h l) behind else push (plain plus c) rest

-- The string after the call, and whether it returned 0. After an error the bytes written stand in
-- front of what the string held there.
unfoldable pub url_percent_decode : Bytes → Bool → Bytes × Bool
url_percent_decode str plus =
    let d = decode plus str in
    if d.complete then (d.out, true) else (d.out ++ drop (length d.out) str, false)

abbrev pub hex_char : ℕ → ℕ
hex_char n = if ltb n 10 then b'0' + n else b'A' + (n - 10)

abbrev pub is_path_char : ℕ → Bool
is_path_char c =
    c == b'/'
    || c == b':'
    || c == b'@'
    || c == b'!'
    || c == b'$'
    || c == b'&'
    || c == b'\''
    || c == b'('
    || c == b')'
    || c == b'*'
    || c == b'+'
    || c == b','
    || c == b';'
    || c == b'='

-- The encode set: 0 for a path, 1 for a query, any other for all but the unreserved characters.
unfoldable pub need_encode : ℕ → ℕ → Bool
unfolding is_unreserved
need_encode zero c = not (is_unreserved c || is_path_char c)
need_encode (suc zero) c = not (is_unreserved c || c == b'?' || is_path_char c)
need_encode (suc (suc _)) c = not (is_unreserved c)

-- `room` is dstsize - 1 - j, the bytes that the buffer can still take.
unfoldable pub encode_from : ℕ → ℕ → Bytes → Bytes
encode_from set room [] = []
encode_from set room (c ∷ cs) =
    let triple = encode_from set (room - 3) cs in
    let single = encode_from set (room - 1) cs in
    if room == 0
    then []
    else if need_encode set c
    then (if ltb room 3 then [] else b'%' ∷ hex_char (c / 16) ∷ hex_char (c % 16) ∷ triple)
    else c ∷ single

-- -1 for an empty buffer is `none`; the length returned is that of the text.
unfoldable pub url_percent_encode : ℕ → Bytes → ℕ → Option Bytes
url_percent_encode dstsize src set =
    if dstsize == 0 then none else some (encode_from set (dstsize - 1) src)
