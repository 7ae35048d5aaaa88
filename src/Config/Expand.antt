-- ===== src/Config/Expand.antt =====
-- c/config_parser.c, config_expand_env, as built for other systems than Windows.
pub mod Bounds
use browserhistory.Prelude.{
  ℕ, zero, suc, ◌+◌, ◌-◌, ◌*◌, ◌/◌, ◌%◌, ◌^◌, ◌≤◌, ◌<◌, ◌≡◌, refl, sym, ap, ◌∙◌, ◌≢◌, ◌↔◌, ◌⊎◌, inl,
  inr, Bool, true, false, not, ◌&&◌, ◌||◌, Option, none, some, List, [], ◌∷◌, ◌++◌, map, append-nil,
  append_assoc, arith, ltb, leb, ◌==◌, if◌then◌else◌, Bool-cases, Option-cases, length, get_elem?,
  get_or, take, drop, length-append, length-take, length-drop, take-eq_self, drop-eq_nil,
  take-append_self, drop-append_self,
}
use browserhistory.Prelude.Int.{ℤ, pos, negsuc, minus_one, is_positive, is_nat, pos_part}
use browserhistory.Prelude.Text.{
  Bytes, codes, copy_into, is_nonempty, str_eq, c_string, span, NoNul, AreBytes, c_string-NoNul,
}

abbrev pub value_of : Option Bytes → Bytes
value_of none = []
value_of (some val) = val

module _ (env : Bytes → Option Bytes) where
  -- The loop; `room` is `dstsize - 1 - di`. Each round takes a byte of the text at least.
  unfoldable pub expand_from : ℕ → ℕ → Bytes → Bytes
  expand_from zero room p = []
  expand_from (suc fuel) zero p = []
  expand_from (suc fuel) (suc room) [] = []
  expand_from (suc fuel) (suc room) (c ∷ []) = c ∷ []
  expand_from (suc fuel) (suc room) (c ∷ d ∷ p) =
      let (name, back) = span (λ x. not (x == b'}')) p in
      let val = take (suc room) (value_of (env (copy_into 256 name))) in
      elim (c == b'$' && d == b'{' && is_nonempty back) [
        | true ↦ val ++ expand_from fuel (suc room - length val) (drop 1 back)
        | false ↦ c ∷ expand_from fuel room (d ∷ p)
      ]

  -- The text in `dst`.
  unfoldable pub config_expand_env : ℕ → Bytes → Bytes
  config_expand_env dstsize src = expand_from (length src) (dstsize - 1) src
