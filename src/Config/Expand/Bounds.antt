-- ===== src/Config/Expand/Bounds.antt =====
-- c/config_parser.c: what config_expand_env writes.
use browserhistory.Prelude.{
  ℕ, zero, suc, ◌-◌, ◌≤◌, ◌<◌, ◌≡◌, refl, ap, ◌≢◌, inl, inr, false, not, ◌&&◌, Option, [], ◌∷◌,
  arith, ◌==◌, Bool-cases, length, take, drop, length-append, length-take,
}
use browserhistory.Prelude.Text.{Bytes, copy_into, is_nonempty, span}
use browserhistory.Config.Expand.{value_of, expand_from, config_expand_env}

module _ (env : Bytes → Option Bytes) where
  expand_from-length : (fuel room : ℕ) (p : Bytes) → length (expand_from env fuel room p) ≤ room
  unfolding expand_from
  expand_from-length zero room p = omega arith
  expand_from-length (suc fuel) zero p = omega arith
  expand_from-length (suc fuel) (suc room) [] = omega arith
  expand_from-length (suc fuel) (suc room) (c ∷ []) = omega arith
  expand_from-length (suc fuel) (suc room) (c ∷ d ∷ p) =
      let name = (span (λ x. not (x == b'}')) p).0 in
      let back = (span (λ x. not (x == b'}')) p).1 in
      let val = take (suc room) (value_of (env (copy_into 256 name))) in
      let rest = expand_from env fuel (suc room - length val) (drop 1 back) in
      elim (Bool-cases (c == b'$' && d == b'{' && is_nonempty back)) [
        | inl e ↦
            rw (e, expand_from)
              (omega (
                arith,
                length-append val rest,
                length-take (suc room) (value_of (env (copy_into 256 name))),
                expand_from-length fuel (suc room - length val) (drop 1 back),
              ))
        | inr e ↦ rw (e, expand_from) (omega (arith, expand_from-length fuel room (d ∷ p)))
      ]

  -- A text with no dollar sign.
  abbrev pub NoDollar : Bytes → Type 0
  NoDollar [] = Unit
  NoDollar (c ∷ s) = (c ≢ b'$') × NoDollar s

  expand_from_plain :
      (fuel room : ℕ) (p : Bytes)
      → NoDollar p
      → length p ≤ fuel
      → expand_from env fuel room p ≡ take room p
  unfolding expand_from
  expand_from_plain zero zero [] h k = refl
  expand_from_plain zero (suc room) [] h k = refl
  expand_from_plain zero room (c ∷ p) h k = absurd (omega (arith, k))
  expand_from_plain (suc fuel) zero p h k = refl
  expand_from_plain (suc fuel) (suc room) [] h k = refl
  expand_from_plain (suc fuel) (suc zero) (c ∷ []) h k = refl
  expand_from_plain (suc fuel) (suc (suc room)) (c ∷ []) h k = refl
  expand_from_plain (suc fuel) (suc room) (c ∷ d ∷ p) h k =
      let plain : (c == b'$') ≡ false = ground (arith, h.0) in
      rw (plain, expand_from)
        (ap (◌∷◌ c) (expand_from_plain fuel room (d ∷ p) h.1 (omega (arith, k))))

  -- What an expansion writes fits its buffer with the NUL, whatever the environment holds.
  pub config_expand_env-length :
      (dstsize : ℕ) (src : Bytes)
      → 0 < dstsize
      → length (config_expand_env env dstsize src) < dstsize
  unfolding config_expand_env
  config_expand_env-length dstsize src h =
      omega (arith, expand_from-length (length src) (dstsize - 1) src)

  -- A text with no dollar sign is copied.
  pub config_expand_env_plain :
      (dstsize : ℕ) (src : Bytes)
      → NoDollar src
      → config_expand_env env dstsize src ≡ copy_into dstsize src
  unfolding config_expand_env
  config_expand_env_plain dstsize src plain =
      expand_from_plain (length src) (dstsize - 1) src plain (omega arith)
