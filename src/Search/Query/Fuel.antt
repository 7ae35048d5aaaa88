-- ===== src/Search/Query/Fuel.antt =====
-- c/search_engine.c: the loop of the query parser ends by its own test.
use browserhistory.Prelude.{◌≤◌, ◌≡◌, true, false, [], ◌∷◌, arith, length}
use browserhistory.Prelude.Text.{Bytes}
use browserhistory.Strings.{is_space, has_prefix_nocase}

-- The text begins with no white space.
abbrev Trimmed : Bytes → Type 0
Trimmed [] = Unit
Trimmed (c ∷ s) = is_space c ≡ false

prefix-length : (p s : Bytes) → has_prefix_nocase p s ≡ true → length p ≤ length s
unfolding has_prefix_nocase
prefix-length [] s h = omega arith
prefix-length (p ∷ ps) [] h = cc
prefix-length (p ∷ ps) (c ∷ s) h = ground (arith, prefix-length ps s)
