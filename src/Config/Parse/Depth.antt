-- ===== src/Config/Parse/Depth.antt =====
-- c/config_parser.c: the depth of inclusion is bounded by the list of the paths.
use browserhistory.Prelude.{
  ℕ, zero, suc, ◌+◌, ◌≤◌, ◌<◌, ◌≡◌, refl, sym, ap, ◌∙◌, inl, inr, true, false, Option, none, some,
  List, [], ◌∷◌, arith, Bool-cases,
}
use browserhistory.Prelude.Text.{Bytes}
use browserhistory.Config.{Config, Floats, max_includes}
use browserhistory.Config.Text.{split_from, Accumulated, join_line}
use browserhistory.Config.Parse.{
  Reading, reads_on, include_path, read_line, line_text, read_joined, read_lines,
  parse_buffer_internal,
}
use browserhistory.Config.Parse.Paths.{
  paths, Grows, listed, listed-paths, included, is_new, new_room, include_path-included,
  include_text, read_joined-paths, parse-Grows,
}

-- Two parsers agree where the list has more than so many paths and is within its bound.
abbrev Agree : ℕ → (Bytes → Bytes → Config → Config) → (Bytes → Bytes → Config → Config) → Type 0
Agree m p q = (s t : Bytes) (c : Config) → m < paths c → paths c ≤ max_includes → p s t c ≡ q s t c

included-Agree :
    (p q : Bytes → Bytes → Config → Config) (section : Bytes) (text : Option Bytes) (c : Config)
    (m : ℕ)
    → Agree m p q
    → m < paths c
    → paths c ≤ max_includes
    → included p section text c ≡ included q section text c
included-Agree p q section none c m a h k = refl
included-Agree p q section (some text) c m a h k = a section text c h k

module _ (floats : Floats) (env : Bytes → Option Bytes) (files : Bytes → Option Bytes) where
  include_path-Agree :
      (p q : Bytes → Bytes → Config → Config) (section path : Bytes) (c : Config) (m : ℕ)
      → Agree m p q
      → m ≤ paths c
      → include_path floats env files p section path c
        ≡ include_path floats env files q section path c
  include_path-Agree p q section path c m a h =
      include_path-included floats env files p section path c
      ∙ elim (Bool-cases (is_new path c)) [
        | inl e ↦
            let room = new_room path c e in
            let more = listed-paths path c in
            rw e (
              included-Agree p q section (files path) (listed path c) m a (omega (arith, h, more))
                (omega (arith, room, more)))
        | inr e ↦ rw e refl
      ]
      ∙ sym (include_path-included floats env files q section path c)

  read_line-Agree :
      (p q : Bytes → Bytes → Config → Config) (section : Bytes) (n : ℕ) (s : Bytes) (c : Config)
      (m : ℕ)
      → Agree m p q
      → m ≤ paths c
      → read_line floats env files p section n s c ≡ read_line floats env files q section n s c
  unfolding read_line
  read_line-Agree p q section n [] c m a h = refl
  read_line-Agree p q section n (x ∷ s) c m a h =
      rw (include_path-Agree p q section (include_text floats env files (x ∷ s)) c m a h) refl

  read_joined-Agree :
      (p q : Bytes → Bytes → Config → Config) (section : Bytes) (n : ℕ) (line : Option Bytes)
      (c : Config) (m : ℕ)
      → Agree m p q
      → m ≤ paths c
      → read_joined floats env files p section n line c
        ≡ read_joined floats env files q section n line c
  read_joined-Agree p q section n none c m a h = refl
  read_joined-Agree p q section n (some line) c m a h =
      read_line-Agree p q section n (line_text line) c m a h

  -- What the loop does behind a line.
  abbrev resume :
      (Bytes → Bytes → Config → Config) → Accumulated → ℕ → List Bytes → Reading → Reading
  resume parse accum n lines done = elim done.ok [
    | true ↦ read_lines floats env files parse accum n lines done
    | false ↦ done
  ]

  resume-Agree :
      (p q : Bytes → Bytes → Config → Config) (accum : Accumulated) (n : ℕ) (lines : List Bytes)
      (done : Reading)
      → read_lines floats env files p accum n lines done
        ≡ read_lines floats env files q accum n lines done
      → resume p accum n lines done ≡ resume q accum n lines done
  resume-Agree p q accum n lines done same = elim (Bool-cases done.ok) [
    | inl e ↦ rw (e, resume) same
    | inr e ↦ rw (e, resume) refl
  ]

  read_lines-Agree :
      (p q : Bytes → Bytes → Config → Config) (accum : Accumulated) (n : ℕ) (lines : List Bytes)
      (r : Reading) (m : ℕ)
      → Grows p
      → Agree m p q
      → m ≤ paths r.config
      → read_lines floats env files p accum n lines r
        ≡ read_lines floats env files q accum n lines r
  unfolding read_lines
  read_lines-Agree p q accum n [] r m g a h = refl
  read_lines-Agree p q accum n (line ∷ lines) r m g a h =
      let j = join_line accum line in
      let done = read_joined floats env files p r.section (n + 1) j.1 r.config in
      let step = read_joined-paths floats env files p r.section (n + 1) j.1 r.config g in
      let same = read_joined-Agree p q r.section (n + 1) j.1 r.config m a h in
      resume-Agree p q j.0 (n + 1) lines done
        (read_lines-Agree p q j.0 (n + 1) lines done m g a (omega (arith, step, h)))
      ∙ ap (resume q j.0 (n + 1) lines) same

  -- The parser on an included file.
  abbrev parser : ℕ → Bytes → Bytes → Config → Config
  parser f s t c = (parse_buffer_internal floats env files f s t c).config

  lines_enough :
      (f g : ℕ) (s t : Bytes) (c : Config)
      → Agree (paths c) (parser f) (parser g)
      → parse_buffer_internal floats env files (suc f) s t c
        ≡ parse_buffer_internal floats env files (suc g) s t c
  unfolding parse_buffer_internal
  lines_enough f g s t c a =
      read_lines-Agree (parser f) (parser g) none 0 (split_from false t) (reads_on c s) (paths c)
        (parse-Grows floats env files f) a (omega arith)

  parse_enough :
      (f g : ℕ) (s t : Bytes) (c : Config)
      → max_includes ≤ f + paths c
      → max_includes ≤ g + paths c
      → parse_buffer_internal floats env files (suc f) s t c
        ≡ parse_buffer_internal floats env files (suc g) s t c
  parse_enough zero g s t c h k =
      lines_enough zero g s t c (λ s t d more few. absurd (omega (arith, h, more, few)))
  parse_enough (suc f) zero s t c h k =
      lines_enough (suc f) zero s t c (λ s t d more few. absurd (omega (arith, k, more, few)))
  parse_enough (suc f) (suc g) s t c h k = lines_enough (suc f) (suc g) s t c (λ s t d more few.
      ap (λ r. r.config) (parse_enough f g s t d (omega (arith, h, more)) (omega (arith, k, more))))

  -- More depth than the list of paths has places changes nothing: the inclusion of files, also of
  -- files that include each other, comes to an end by the bound on the list.
  pub parse_buffer_internal-max_includes :
      (more : ℕ) (section text : Bytes) (c : Config)
      → parse_buffer_internal floats env files (suc (max_includes + more)) section text c
        ≡ parse_buffer_internal floats env files (suc max_includes) section text c
  parse_buffer_internal-max_includes more section text c =
      parse_enough (max_includes + more) max_includes section text c (omega arith) (omega arith)
