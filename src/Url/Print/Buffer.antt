-- ===== src/Url/Print/Buffer.antt =====
-- c/url_parser.c: when url_reconstruct stays within its buffer.
use browserhistory.Prelude.{
  ◌⊎◌, inl, ℕ, ◌+◌, ◌-◌, ◌≤◌, ◌<◌, ◌≡◌, sym, ◌∙◌, ◌↔◌, true, false, some, List, [], ◌∷◌, ◌++◌,
  append-nil, append_assoc, arith, leb, length, take, length-append, take-eq_self,
}
use browserhistory.Prelude.Text.{Bytes}
use browserhistory.Url.Parse.{ParsedUrl}
use browserhistory.Url.Print.{
  Printer, print_part, print_parts, url_parts, terminate, url_reconstruct,
}

abbrev pub join : List Bytes → Bytes
join [] = []
join (s ∷ ss) = s ++ join ss

unfoldable pub url_text : ParsedUrl → Bytes
url_text url = join (url_parts url)

print_parts-offset :
    (last : ℕ) (parts : List Bytes) (p : Printer)
    → (print_parts last parts p).offset ≡ p.offset + length (join parts)
unfolding print_parts print_part
print_parts-offset last [] p = omega arith
print_parts-offset last (s ∷ ss) p =
    omega (arith, print_parts-offset last ss (print_part last s p), length-append s (join ss))

print_parts-overrun :
    (last : ℕ) (parts : List Bytes) (p : Printer)
    → ((print_parts last parts p).overrun ≡ true)
    → (p.overrun ≡ true) ⊎ (last < (print_parts last parts p).offset)
unfolding print_parts print_part
print_parts-overrun last [] p e = inl e
print_parts-overrun last (s ∷ ss) p e = ground (
  arith,
  print_parts-overrun last ss (print_part last s p),
  print_parts-offset last ss (print_part last s p),
)

print_parts-text :
    (last : ℕ) (parts : List Bytes) (p : Printer)
    → p.offset + length (join parts) < last
    → (print_parts last parts p).text ≡ p.text ++ join parts
unfolding print_parts print_part
print_parts-text last [] p h = sym (append-nil p.text)
print_parts-text last (s ∷ ss) p h =
    let n = length-append s (join ss) in
    let whole : take (last - p.offset - 1) s ≡ s =
      take-eq_self (last - p.offset - 1) s (omega (arith, n)) in
    let before : leb p.offset last ≡ true = ground (arith, n) in
    print_parts-text last ss (print_part last s p) (omega (arith, n))
    ∙ rw (before, whole) (append_assoc p.text s (join ss))

start : Printer
start = record { text = []; offset = 0; overrun = false }

terminated :
    (url : ParsedUrl) (dstsize : ℕ)
    → 0 < dstsize
    → let p = terminate dstsize (print_parts (dstsize - 1) (url_parts url) start) in
      (p.offset ≡ length (url_text url))
      × ((p.overrun ≡ true) ↔ (dstsize ≤ length (url_text url)))
      × ((dstsize ≤ length (url_text url) + 1) ⊎ (p.text ≡ url_text url))
unfolding terminate url_text start
terminated url dstsize h =
    let o = print_parts-offset (dstsize - 1) (url_parts url) start in
    let r = print_parts-overrun (dstsize - 1) (url_parts url) start in
    (
      omega (arith, o),
      ground (arith, o, r),
      ground (arith, print_parts-text (dstsize - 1) (url_parts url) start),
    )

-- The buffer is overrun exactly when it has no room for the whole text and its NUL, and the length
-- returned is that of the whole text. A text that leaves one more byte free is printed whole.
pub url_reconstruct_bounds :
    (url : ParsedUrl) (dstsize : ℕ) {p : Printer}
    → url_reconstruct url dstsize ≡ some p
    → (p.offset ≡ length (url_text url))
      × ((p.overrun ≡ true) ↔ (dstsize ≤ length (url_text url)))
      × ((dstsize ≤ length (url_text url) + 1) ⊎ (p.text ≡ url_text url))
unfolding url_reconstruct start
url_reconstruct_bounds url dstsize e = ground (arith, terminated url dstsize)
