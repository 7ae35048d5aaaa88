-- ===== src/Strings.antt =====
-- The functions of the C library that several modules call on strings, in the C locale.
pub mod Laws
use browserhistory.Prelude.{
  ℕ, zero, suc, ◌+◌, ◌-◌, ◌*◌, ◌/◌, ◌%◌, ◌^◌, ◌≤◌, ◌<◌, ◌≡◌, refl, sym, ap, ◌∙◌, ◌≢◌, ◌↔◌, ◌⊎◌, inl,
  inr, Bool, true, false, not, ◌&&◌, ◌||◌, Option, none, some, List, [], ◌∷◌, ◌++◌, map, append-nil,
  append_assoc, arith, ltb, leb, ◌==◌, if◌then◌else◌, Bool-cases, Option-cases, length, get_elem?,
  get_or, take, drop, length-append, length-take, length-drop, take-eq_self, drop-eq_nil,
  take-append_self, drop-append_self,
}
use browserhistory.Prelude.Int.{ℤ, pos, negsuc, minus_one, is_positive, is_nat, pos_part}
use browserhistory.Prelude.Text.{
  Bytes, codes, copy_into, is_nonempty, str_eq, c_string, span, NoNul, AreBytes, c_string-NoNul,
}
use browserhistory.Url.Chars.{is_digit, to_lower}
use browserhistory.Url.Host.{decimal_from}

abbrev pub is_space : ℕ → Bool
is_space c = c == b' ' || leb 9 c && leb c 13

-- The text without the white space in front of it.
abbrev pub skip_spaces : Bytes → Bytes
skip_spaces [] = []
skip_spaces (c ∷ s) = if is_space c then skip_spaces s else c ∷ s

-- The text without the white space at its end.
unfoldable pub trim_end : Bytes → Bytes
trim_end [] = []
trim_end (c ∷ s) = let t = trim_end s in if is_space c && not (is_nonempty t) then [] else c ∷ t

-- `strncasecmp(s, prefix, strlen(prefix)) == 0`
unfoldable pub has_prefix_nocase : Bytes → Bytes → Bool
has_prefix_nocase [] s = true
has_prefix_nocase (p ∷ ps) [] = false
has_prefix_nocase (p ∷ ps) (c ∷ s) = to_lower c == to_lower p && has_prefix_nocase ps s

-- `strcasecmp(s, t) == 0`
unfoldable pub eq_nocase : Bytes → Bytes → Bool
eq_nocase [] [] = true
eq_nocase (c ∷ s) (d ∷ t) = to_lower c == to_lower d && eq_nocase s t
eq_nocase _ _ = false

-- `strncmp(s, prefix, strlen(prefix)) == 0`
unfoldable pub has_prefix : Bytes → Bytes → Bool
has_prefix [] s = true
has_prefix (p ∷ ps) [] = false
has_prefix (p ∷ ps) (c ∷ s) = c == p && has_prefix ps s

-- `strstr`: the text from the first occurrence on.
unfoldable pub strstr : Bytes → Bytes → Option Bytes
strstr needle [] = if is_nonempty needle then none else some []
strstr needle (c ∷ s) =
    let later = strstr needle s in if has_prefix needle (c ∷ s) then some (c ∷ s) else later

-- Whether the pointer is not NULL.
abbrev pub is_found : Option Bytes → Bool
is_found none = false
is_found (some _) = true

-- `strcmp(s, t) < 0`
unfoldable pub str_lt : Bytes → Bytes → Bool
str_lt s [] = false
str_lt [] (d ∷ t) = true
str_lt (c ∷ s) (d ∷ t) = ltb c d || c == d && str_lt s t

abbrev pub minus : ℕ → ℤ
minus zero = pos 0
minus (suc n) = negsuc n

-- `atoi`, whose result has no bound here.
unfoldable pub atoi_sign : Bytes → ℤ
unfolding decimal_from
atoi_sign [] = pos 0
atoi_sign (c ∷ s) =
    if c == b'-'
    then minus (decimal_from 0 (span is_digit s).0)
    else if c == b'+'
    then pos (decimal_from 0 (span is_digit s).0)
    else pos (decimal_from 0 (span is_digit (c ∷ s)).0)

unfoldable pub atoi : Bytes → ℤ
atoi s = atoi_sign (skip_spaces s)
