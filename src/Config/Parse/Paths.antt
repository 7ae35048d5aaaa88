-- ===== src/Config/Parse/Paths.antt =====
-- c/config_parser.c: a parser never takes a path off the list of included files.
use browserhistory.Prelude.{
  ltb→lt, ℕ, zero, suc, ◌+◌, ◌≤◌, ◌<◌, ◌≡◌, refl, inl, inr, Bool, true, false, not, ◌&&◌, Option,
  none, some, List, [], ◌∷◌, ◌++◌, arith, ltb, leb, ◌==◌, if◌then◌else◌, Bool-cases, Option-cases,
  length, drop, length-append,
}
use browserhistory.Prelude.Text.{Bytes, copy_into, is_nonempty, span}
use browserhistory.Config.{Config, Floats, max_keys, max_includes, max_value_len}
use browserhistory.Config.Text.{trim_whitespace, strip_quotes, split_from, Accumulated, join_line}
use browserhistory.Config.Parse.{
  Reading, reads_on, is_listed, add_section, section_name, read_section, store_entry, read_pair,
  clean_value, include_path, read_line, line_text, read_joined, read_lines, parse_buffer_internal,
}

-- How many paths are listed.
abbrev pub paths : Config → ℕ
paths c = length c.include_paths

and_right : (a b : Bool) → (a && b) ≡ true → b ≡ true
and_right true b h = h
and_right false b h = absurd cc

add_section-paths : (section : Bytes) (c : Config) → paths (add_section section c) ≡ paths c
unfolding add_section
add_section-paths section c = ground arith

read_section-paths :
    (section s : Bytes) (c : Config) → paths (read_section section s c).config ≡ paths c
unfolding read_section
read_section-paths section s c =
    let inner = (span (λ x. not (x == b']')) s).0 in
    elim (Bool-cases (is_nonempty (span (λ x. not (x == b']')) s).1)) [
      | inl e ↦ rw e (add_section-paths (section_name inner) c)
      | inr e ↦ rw e refl
    ]

-- A parser never takes a path off the list.
abbrev pub Grows : (Bytes → Bytes → Config → Config) → Type 0
Grows parse = (s t : Bytes) (c : Config) → paths c ≤ paths (parse s t c)

abbrev pub listed : Bytes → Config → Config
listed path c = record c { include_paths = c.include_paths ++ copy_into max_value_len path ∷ [] }

pub listed-paths : (path : Bytes) (c : Config) → paths (listed path c) ≡ paths c + 1
listed-paths path c = length-append c.include_paths (copy_into max_value_len path ∷ [])

abbrev pub included : (Bytes → Bytes → Config → Config) → Bytes → Option Bytes → Config → Config
included parse section none c = c
included parse section (some text) c = parse section text c

abbrev pub is_new : Bytes → Config → Bool
is_new path c =
    is_nonempty path && not (is_listed path c.include_paths) && ltb (paths c) max_includes

pub new_room : (path : Bytes) (c : Config) → is_new path c ≡ true → paths c < max_includes
new_room path c e = ltb→lt (paths c) max_includes (
    and_right (is_nonempty path && not (is_listed path c.include_paths))
      (ltb (paths c) max_includes) e)

included-paths :
    (parse : Bytes → Bytes → Config → Config) (section : Bytes) (text : Option Bytes) (c : Config)
    → Grows parse
    → paths c ≤ paths (included parse section text c)
included-paths parse section none c g = omega arith
included-paths parse section (some text) c g = g section text c

module _ (floats : Floats) (env : Bytes → Option Bytes) where
  store_entry-paths :
      (section key val : Bytes) (n : ℕ) (c : Config)
      → paths (store_entry floats env section key val n c).config ≡ paths c
  unfolding store_entry
  store_entry-paths section key val n c = elim (Bool-cases (leb max_keys (length c.entries))) [
    | inl e ↦ rw e refl
    | inr e ↦ rw e refl
  ]

  read_pair-paths :
      (section : Bytes) (n : ℕ) (s : Bytes) (c : Config)
      → paths (read_pair floats env section n s c).config ≡ paths c
  unfolding read_pair
  read_pair-paths section n s c =
      let front = (span (λ x. not (x == b'=')) s).0 in
      let back = (span (λ x. not (x == b'=')) s).1 in
      elim (Bool-cases (is_nonempty back)) [
        | inl e ↦ rw e (
            store_entry-paths section (trim_whitespace (copy_into 128 front))
              (clean_value floats env (drop 1 back)) n c)
        | inr e ↦ rw e refl
      ]

  module _ (files : Bytes → Option Bytes) where
    pub include_path-included :
        (parse : Bytes → Bytes → Config → Config) (section path : Bytes) (c : Config)
        → include_path floats env files parse section path c
          ≡ (if is_new path c then included parse section (files path) (listed path c) else c)
    unfolding include_path
    include_path-included parse section path c = elim (Option-cases (files path)) [
      | inl e ↦ rw e refl
      | inr (text, e) ↦ rw e refl
    ]

    include_path-paths :
        (parse : Bytes → Bytes → Config → Config) (section path : Bytes) (c : Config)
        → Grows parse
        → paths c ≤ paths (include_path floats env files parse section path c)
    include_path-paths parse section path c g =
        let more = included-paths parse section (files path) (listed path c) g in
        rw (include_path-included parse section path c) (elim (Bool-cases (is_new path c)) [
          | inl e ↦ rw e (omega (arith, more, listed-paths path c))
          | inr e ↦ rw e (omega arith)
        ])

    abbrev pub include_text : Bytes → Bytes
    include_text s = strip_quotes (trim_whitespace (drop 8 s))

    read_line-paths :
        (parse : Bytes → Bytes → Config → Config) (section : Bytes) (n : ℕ) (s : Bytes) (c : Config)
        → Grows parse
        → paths c ≤ paths (read_line floats env files parse section n s c).config
    unfolding read_line
    read_line-paths parse section n [] c g = omega arith
    read_line-paths parse section n (x ∷ s) c g = ground (
      arith,
      include_path-paths parse section (include_text (x ∷ s)) c g,
      read_section-paths section s c,
      read_pair-paths section n (x ∷ s) c,
    )

    pub read_joined-paths :
        (parse : Bytes → Bytes → Config → Config) (section : Bytes) (n : ℕ) (line : Option Bytes)
        (c : Config)
        → Grows parse
        → paths c ≤ paths (read_joined floats env files parse section n line c).config
    read_joined-paths parse section n none c g = omega arith
    read_joined-paths parse section n (some line) c g =
        read_line-paths parse section n (line_text line) c g

    read_lines-paths :
        (parse : Bytes → Bytes → Config → Config) (accum : Accumulated) (n : ℕ) (lines : List Bytes)
        (r : Reading)
        → Grows parse
        → paths r.config ≤ paths (read_lines floats env files parse accum n lines r).config
    unfolding read_lines
    read_lines-paths parse accum n [] r g = omega arith
    read_lines-paths parse accum n (line ∷ lines) r g =
        let j = join_line accum line in
        let done = read_joined floats env files parse r.section (n + 1) j.1 r.config in
        let step = read_joined-paths parse r.section (n + 1) j.1 r.config g in
        elim (Bool-cases done.ok) [
          | inl e ↦
              rw (e, read_lines)
                (omega (arith, step, read_lines-paths parse j.0 (n + 1) lines done g))
          | inr e ↦ rw (e, read_lines) step
        ]

    pub parse-Grows :
        (f : ℕ) (s t : Bytes) (c : Config)
        → paths c ≤ paths (parse_buffer_internal floats env files f s t c).config
    unfolding parse_buffer_internal
    parse-Grows zero s t c = omega arith
    parse-Grows (suc f) s t c =
        read_lines-paths (λ s t c. (parse_buffer_internal floats env files f s t c).config) none 0
          (split_from false t) (reads_on c s) (parse-Grows f)
