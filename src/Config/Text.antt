-- ===== src/Config/Text.antt =====
-- c/config_parser.c, the text of a line: its end, its continuation, quotes and comments.
use browserhistory.Prelude.{
  ℕ, ◌+◌, ◌-◌, Bool, true, false, not, ◌&&◌, ◌||◌, Option, none, some, List, [], ◌∷◌, ◌++◌, ltb,
  leb, ◌==◌, if◌then◌else◌, length, get_or, take, drop,
}
use browserhistory.Prelude.Text.{Bytes, is_nonempty}
use browserhistory.Strings.{skip_spaces, trim_end}

unfoldable pub trim_whitespace : Bytes → Bytes
trim_whitespace str = trim_end (skip_spaces str)

abbrev pub last_byte : Bytes → ℕ
last_byte s = get_or s (length s - 1) 0

unfoldable pub strip_quotes : Bytes → Bytes
strip_quotes value =
    let n = length value in
    let first = get_or value 0 0 in
    if leb 2 n
      && (first == b'"' && last_byte value == b'"' || first == b'\'' && last_byte value == b'\'')
    then take (n - 2) (drop 1 value)
    else value

-- The value up to a comment that does not stand in quotes; either quote opens and closes.
unfoldable pub strip_comment : Bool → Bytes → Bytes
strip_comment in_quotes [] = []
strip_comment in_quotes (c ∷ s) =
    let quoted = if c == b'"' || c == b'\'' then not in_quotes else in_quotes in
    let rest = strip_comment quoted s in
    if not quoted && (c == b'#' || c == b';') then [] else c ∷ rest

abbrev pub prepend : ℕ → List Bytes → List Bytes
prepend c [] = (c ∷ []) ∷ []
prepend c (line ∷ lines) = (c ∷ line) ∷ lines

-- The lines of the data; the flag says whether a carriage return stands in front.
unfoldable pub split_from : Bool → Bytes → List Bytes
split_from after_cr [] = []
split_from after_cr (c ∷ s) = elim (after_cr && c == b'\n') [
  | true ↦ split_from false s
  | false ↦ elim (c == b'\n') [
    | true ↦ [] ∷ split_from false s
    | false ↦ elim (c == b'\r') [
      | true ↦ [] ∷ split_from true s
      | false ↦ prepend c (split_from false s)
    ]
  ]
]

abbrev pub line_size : ℕ
line_size = 4096

-- The line buffer while a line is continued.
abbrev pub Accumulated : Type 0
Accumulated = Option Bytes

abbrev pub ends_open : Bytes → Bool
ends_open s = is_nonempty s && last_byte s == b'\\'

abbrev pub closed : Bytes → Bytes
closed s = take (length s - 1) s ++ b' ' ∷ []

-- The buffer behind a line, and the whole line where it ends there.
unfoldable pub join_line : Accumulated → Bytes → Accumulated × Option Bytes
join_line (some accum) line =
    let joined = if ltb (length accum + length line + 1) line_size then accum ++ line else accum in
    if ends_open joined then (some (closed joined), none) else (none, some joined)
join_line none line =
    if ends_open line && ltb (length line) line_size
    then (some (closed line), none)
    else (none, some line)
