-- ===== src/Url/Percent/Bounds.antt =====
-- c/url_parser.c: percent-coding stays within its buffers.
use browserhistory.Prelude.{
  ℕ, ◌-◌, ◌≤◌, ◌<◌, ◌≡◌, Bool, some, [], ◌∷◌, arith, length, drop, length-append, length-drop,
}
use browserhistory.Prelude.Text.{Bytes}
use browserhistory.Url.Percent.{decode, url_percent_decode, encode_from, url_percent_encode}

decode-length : (plus : Bool) (s : Bytes) → length (decode plus s).out ≤ length s
unfolding decode
decode-length plus [] = omega arith
decode-length plus (c ∷ []) = ground arith
decode-length plus (c ∷ h ∷ []) = ground (arith, decode-length plus (h ∷ []))
decode-length plus (c ∷ h ∷ l ∷ s) =
    ground (arith, decode-length plus s, decode-length plus (h ∷ l ∷ s))

encode_from-length : (set room : ℕ) (s : Bytes) → length (encode_from set room s) ≤ room
unfolding encode_from
encode_from-length set room [] = omega arith
encode_from-length set room (c ∷ cs) =
    ground (arith, encode_from-length set (room - 3) cs, encode_from-length set (room - 1) cs)

-- In place, decoding leaves a string that is no longer, whether or not it succeeds. Encoding into a
-- buffer that is not empty writes less than the buffer's size, which the terminating NUL fits into.
pub percent_bounds :
    (s : Bytes) (plus : Bool) (dstsize set : ℕ) {text : Bytes}
    → url_percent_encode dstsize s set ≡ some text
    → (length (url_percent_decode s plus).0 ≤ length s) × (length text < dstsize)
unfolding url_percent_decode url_percent_encode
percent_bounds s plus dstsize set e =
    let d = decode-length plus s in
    (
      ground (
        arith,
        d,
        length-append (decode plus s).out (drop (length (decode plus s).out) s),
        length-drop (length (decode plus s).out) s,
      ),
      ground (arith, encode_from-length set (dstsize - 1) s),
    )
