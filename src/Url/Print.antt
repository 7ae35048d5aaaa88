-- ===== src/Url/Print.antt =====
-- c/url_parser.c, url_reconstruct. `snprintf` writes at most the room that it is told, with the NUL,
-- and returns the length of the whole text.
pub mod Buffer
pub mod RoundTrip
use browserhistory.Prelude.{
  ℕ, zero, suc, ◌+◌, ◌-◌, ◌*◌, ◌/◌, ◌%◌, ◌^◌, ◌≤◌, ◌<◌, ◌≡◌, refl, sym, ap, ◌∙◌, ◌≢◌, ◌↔◌, ◌⊎◌, inl,
  inr, Bool, true, false, not, ◌&&◌, ◌||◌, Option, none, some, List, [], ◌∷◌, ◌++◌, map, append-nil,
  append_assoc, arith, ltb, leb, ◌==◌, if◌then◌else◌, Bool-cases, Option-cases, length, get_elem?,
  get_or, take, drop, length-append, length-take, length-drop, take-eq_self, drop-eq_nil,
}
use browserhistory.Prelude.Int.{ℤ, pos, negsuc, minus_one, is_positive, is_nat, pos_part}
use browserhistory.Prelude.Text.{
  Bytes, codes, copy_into, is_nonempty, str_eq, c_string, span, NoNul, AreBytes,
}
use browserhistory.Url.Parse.{ParsedUrl}

-- `%d` of a number that is not negative; an `int` has at most ten digits.
unfoldable pub print_decimal : ℕ → ℕ → Bytes
print_decimal zero n = []
print_decimal (suc fuel) n =
    let high = print_decimal fuel (n / 10) in
    if ltb n 10 then (b'0' + n) ∷ [] else high ++ (b'0' + n % 10) ∷ []

-- The buffer: its text up to the first NUL, the offset of `p`, and whether a write has gone past it.
pub record Printer : Type 0 where
  pub text : Bytes
  pub offset : ℕ
  pub overrun : Bool

-- `n = snprintf(p, (size_t)(end - p), …); if (n > 0) p += n;` where `end` is `last`. Where `p` is
-- past `end` the difference is a huge size, so that the whole part is written past the buffer.
unfoldable pub print_part : ℕ → Bytes → Printer → Printer
print_part last part p = record {
  text = if leb p.offset last then p.text ++ take (last - p.offset - 1) part else p.text;
  offset = p.offset + length part;
  overrun = p.overrun || ltb last p.offset;
}

unfoldable pub part_if : Bool → Bytes → List Bytes
part_if test part = if test then part ∷ [] else []

-- The parts that are printed, in order.
unfoldable pub url_parts : ParsedUrl → List Bytes
url_parts url =
    part_if (is_nonempty url.scheme) (url.scheme ++ codes "://")
    ++ part_if (is_nonempty url.userinfo) (url.userinfo ++ b'@' ∷ [])
    ++ part_if (is_nonempty url.host) url.host
    ++ part_if (is_positive url.port) (b':' ∷ print_decimal 10 (pos_part url.port))
    ++ part_if (is_nonempty url.path) url.path
    ++ part_if (is_nonempty url.query) (b'?' ∷ url.query)
    ++ part_if (is_nonempty url.fragment) (b'#' ∷ url.fragment)

unfoldable pub print_parts : ℕ → List Bytes → Printer → Printer
print_parts last [] p = p
print_parts last (part ∷ parts) p = print_parts last parts (print_part last part p)

-- `*p = '\0'`
unfoldable pub terminate : ℕ → Printer → Printer
terminate dstsize p = record p { overrun = p.overrun || leb dstsize p.offset }

-- The buffer after the call, whose offset is the length returned; `none` is the error -1.
unfoldable pub url_reconstruct : ParsedUrl → ℕ → Option Printer
url_reconstruct url dstsize =
    if dstsize == 0
    then none
    else some (
        terminate dstsize (
          print_parts (dstsize - 1) (url_parts url)
            (record { text = []; offset = 0; overrun = false })))
