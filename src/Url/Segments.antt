-- ===== src/Url/Segments.antt =====
-- c/url_parser.c, path normalization. The path is the text of a field of 2048 bytes, so that it has
-- fewer than that; its copy in `temp` holds all of it.
pub mod Tokens
pub mod Normal
use mathlib.Core.List.{reverse}
use browserhistory.Prelude.{
  ℕ, zero, suc, ◌+◌, ◌-◌, ◌*◌, ◌/◌, ◌%◌, ◌^◌, ◌≤◌, ◌<◌, ◌≡◌, refl, sym, ap, ◌∙◌, ◌≢◌, ◌↔◌, ◌⊎◌, inl,
  inr, Bool, true, false, not, ◌&&◌, ◌||◌, Option, none, some, List, [], ◌∷◌, ◌++◌, map, append-nil,
  append_assoc, arith, ltb, leb, ◌==◌, if◌then◌else◌, Bool-cases, Option-cases, length, get_elem?,
  get_or, take, drop, length-append, length-take, length-drop, take-eq_self, drop-eq_nil,
}
use browserhistory.Prelude.Int.{ℤ, pos, negsuc, minus_one, is_positive, is_nat, pos_part}
use browserhistory.Prelude.Text.{
  Bytes, codes, copy_into, is_nonempty, str_eq, c_string, span, NoNul, AreBytes,
}
use browserhistory.Url.Chars.{hex_byte, is_unreserved}

abbrev pub path_size : ℕ
path_size = 2048

abbrev pub dot : Bytes
dot = b'.' ∷ []

abbrev pub dot_dot : Bytes
dot_dot = b'.' ∷ b'.' ∷ []

-- The tokens of `strtok_r` with a delimiter: the pieces between delimiters that are not empty.
-- `piece` is the token being read, in reverse.
unfoldable pub tokens_from : ℕ → Bytes → Bytes → List Bytes
tokens_from delimiter piece [] = if is_nonempty piece then reverse piece ∷ [] else []
tokens_from delimiter piece (c ∷ s) =
    let later = tokens_from delimiter (if c == delimiter then [] else c ∷ piece) s in
    if c == delimiter && is_nonempty piece then reverse piece ∷ later else later

abbrev pub tokens : ℕ → Bytes → List Bytes
tokens delimiter = tokens_from delimiter []

-- `segments`, in reverse: the last one pushed is the first.
unfoldable pub push_token : Bytes → List Bytes → List Bytes
push_token token stack =
    if str_eq token dot then stack else if str_eq token dot_dot then drop 1 stack else token ∷ stack

-- The loop over the tokens ends also when 255 segments stand on the stack.
unfoldable pub resolve : List Bytes → List Bytes → List Bytes
resolve stack [] = stack
resolve stack (t ∷ ts) =
    let rest = resolve (push_token t stack) ts in if ltb (length stack) 255 then rest else stack

-- The segments written behind the `used` bytes of the path; one that does not fit ends the loop.
unfoldable pub write_segments : Bool → ℕ → List Bytes → Bytes
write_segments first used [] = []
write_segments first used (s ∷ ss) =
    let text = if first then s else b'/' ∷ s in
    let rest = write_segments false (used + length text) ss in
    if leb path_size (used + length s + 2) then [] else text ++ rest

abbrev pub has_leading_slash : Bytes → Bool
has_leading_slash [] = false
has_leading_slash (c ∷ _) = c == b'/'

-- The path without its leading slash.
abbrev pub working : Bytes → Bytes
working path = if has_leading_slash path then drop 1 path else path

abbrev pub leading : Bytes → Bytes
leading path = if has_leading_slash path then b'/' ∷ [] else []

unfoldable pub segments : Bytes → List Bytes
segments path = reverse (resolve [] (tokens b'/' (copy_into path_size (working path))))

unfoldable pub normalize_path_segments : Bytes → Bytes
normalize_path_segments path =
    leading path ++ write_segments true (length (leading path)) (segments path)

-- The flag says that the byte before was a slash.
unfoldable pub dedup : Bool → Bytes → Bytes
dedup prev_slash [] = []
dedup prev_slash (c ∷ s) =
    let rest = dedup (c == b'/') s in if c == b'/' && prev_slash then rest else c ∷ rest

unfoldable pub remove_duplicate_slashes : Bytes → Bytes
remove_duplicate_slashes = dedup false

abbrev pub unreserved_byte : Option ℕ → Option ℕ
unreserved_byte none = none
unreserved_byte (some b) = if is_unreserved b then some b else none

abbrev pub decoded_or : Option ℕ → Bytes → Bytes → Bytes
decoded_or none kept behind = kept
decoded_or (some b) kept behind = b ∷ behind

unfoldable pub decode_unreserved_percent : Bytes → Bytes
decode_unreserved_percent [] = []
decode_unreserved_percent (c ∷ []) = c ∷ []
decode_unreserved_percent (c ∷ h ∷ []) = c ∷ decode_unreserved_percent (h ∷ [])
decode_unreserved_percent (c ∷ h ∷ l ∷ s) =
    let behind = decode_unreserved_percent s in
    let kept = c ∷ decode_unreserved_percent (h ∷ l ∷ s) in
    if c == b'%' then decoded_or (unreserved_byte (hex_byte h l)) kept behind else kept
