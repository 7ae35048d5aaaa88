-- ===== src/Prelude/Text.antt =====
-- C strings: the bytes before the terminating NUL.
use Prim.Native.Char.{code}
use Prim.Native.String.{String}
use browserhistory.Prelude.Tests.{◌==◌, if◌then◌else◌}
use browserhistory.Prelude.Lists.{take}
use Prim.Native.Nat.{ℕ, ◌-◌, ◌<◌}
use mathlib.Core.Logic.{◌≢◌}
use mathlib.Core.Path.{◌≡◌, refl}
use native.Mathlib.Omega.{arith}
use mathlib.Core.Bool.{Bool, true, false, ◌&&◌}
use mathlib.Core.List.{List, [], ◌∷◌}

abbrev pub Bytes : Type 0
Bytes = List ℕ

-- The bytes of a string literal; every literal of the development is ASCII.
abbrev pub codes : String → Bytes
codes String.[] = []
codes (String.◌∷◌ c s) = code c ∷ codes s

-- `strncpy(dst, src, sizeof(dst) - 1); dst[sizeof(dst) - 1] = '\0';`
abbrev pub copy_into : ℕ → Bytes → Bytes
copy_into size src = take (size - 1) src

-- `s[0] != '\0'`
abbrev pub is_nonempty : Bytes → Bool
is_nonempty [] = false
is_nonempty (_ ∷ _) = true

-- `strcmp(a, b) == 0`
unfoldable pub str_eq : Bytes → Bytes → Bool
str_eq [] [] = true
str_eq (x ∷ xs) (y ∷ ys) = x == y && str_eq xs ys
str_eq _ _ = false

-- What a C string holds of the bytes copied into it.
unfoldable pub c_string : Bytes → Bytes
c_string [] = []
c_string (b ∷ bs) = if b == 0 then [] else b ∷ c_string bs

-- The bytes up to the first one that fails a test, and the rest.
unfoldable pub span : (ℕ → Bool) → Bytes → Bytes × Bytes
span test [] = ([], [])
span test (c ∷ cs) =
    let (front, back) = span test cs in if test c then (c ∷ front, back) else ([], c ∷ cs)

abbrev pub NoNul : Bytes → Type 0
NoNul [] = Unit
NoNul (b ∷ bs) = (b ≢ 0) × NoNul bs

abbrev pub AreBytes : Bytes → Type 0
AreBytes [] = Unit
AreBytes (b ∷ bs) = (b < 256) × AreBytes bs

pub c_string-NoNul : (bs : Bytes) → NoNul bs → c_string bs ≡ bs
unfolding c_string
c_string-NoNul [] h = refl
c_string-NoNul (b ∷ bs) h = ground (arith, c_string-NoNul bs h.1)

pub str_eq_sound : (a b : Bytes) → str_eq a b ≡ true → a ≡ b
unfolding str_eq
str_eq_sound [] [] e = refl
str_eq_sound [] (b ∷ bs) e = cc
str_eq_sound (a ∷ xs) [] e = cc
str_eq_sound (a ∷ xs) (b ∷ bs) e = ground (arith, str_eq_sound xs bs)

pub str_eq_refl : (a : Bytes) → str_eq a a ≡ true
unfolding str_eq
str_eq_refl [] = refl
str_eq_refl (a ∷ xs) = ground (arith, str_eq_refl xs)
