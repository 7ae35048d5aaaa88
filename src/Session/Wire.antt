-- ===== src/Session/Wire.antt =====
-- c/session_tracker.c, event parsing from raw bytes. `data` is what is left of the buffer, a list of
-- bytes; `slots` is max_events - count.
pub mod Bounds
pub mod RoundTrip
use browserhistory.Prelude.{
  ℕ, zero, suc, ◌+◌, ◌-◌, ◌*◌, ◌/◌, ◌%◌, ◌^◌, ◌≤◌, ◌<◌, ◌≡◌, refl, sym, ap, ◌∙◌, ◌≢◌, ◌↔◌, ◌⊎◌, inl,
  inr, Bool, true, false, not, ◌&&◌, ◌||◌, Option, none, some, List, [], ◌∷◌, ◌++◌, map, append-nil,
  append_assoc, arith, ltb, leb, ◌==◌, if◌then◌else◌, Bool-cases, Option-cases, length, get_elem?,
  get_or, take, drop, length-append, length-take, length-drop, take-eq_self, drop-eq_nil,
}
use browserhistory.Prelude.Int.{
  ◌+ℤ◌, ◌%ℤ◌, ℤ, pos, negsuc, minus_one, is_positive, is_nat, pos_part,
}
use browserhistory.Prelude.Text.{c_string, Bytes, codes, copy_into, is_nonempty, str_eq}
use browserhistory.Session.Store.{
  TabEvent, TabEventType, open_tab, close_tab, navigate, switch_tab, reload, go_back, go_forward,
}
use browserhistory.Session.Tab.{url_size, title_size}

-- The event type of a byte, TAB_EVENT_OPEN = 0 up to TAB_EVENT_FORWARD = 6.
unfoldable pub event_type : ℕ → TabEventType
event_type zero = open_tab
event_type (suc zero) = close_tab
event_type (suc (suc zero)) = navigate
event_type (suc (suc (suc zero))) = switch_tab
event_type (suc (suc (suc (suc zero)))) = reload
event_type (suc (suc (suc (suc (suc zero))))) = go_back
event_type (suc (suc (suc (suc (suc (suc n)))))) = go_forward

-- The little-endian value of bytes.
unfoldable pub little_endian : Bytes → ℕ
little_endian [] = 0
little_endian (b ∷ bs) = b + 256 * little_endian bs

-- `delta` for a 64-bit pattern, behind the change of its sign. The least value, of which the negation
-- overflows, is its own negation modulo 2^64 and stays negative.
unfoldable pub magnitude : ℕ → ℤ
magnitude w =
    if ltb w (2 ^ 63) then pos w else if w == 2 ^ 63 then negsuc (2 ^ 63 - 1) else pos (2 ^ 64 - w)

abbrev pub max_delta : ℕ
max_delta = 3600 * 1000000

unfoldable pub next_timestamp : ℤ → ℕ → ℤ
unfolding magnitude
next_timestamp running raw = running +ℤ ((magnitude raw %ℤ max_delta) +ℤ pos 1000000)

-- The length of a text after both clamps: to what is left of the buffer, and to the field.
unfoldable pub clamp_length : ℕ → ℕ → ℕ → ℕ
clamp_length size n left =
    let n' = if ltb left n then left else n in if leb size n' then size - 1 else n'

abbrev pub head_or_zero : Bytes → ℕ
head_or_zero [] = 0
head_or_zero (b ∷ _) = b

-- A length byte and its text, and what stands behind them.
unfoldable pub read_text : ℕ → Bytes → Bytes × Bytes
unfolding clamp_length
read_text size [] = ([], [])
read_text size (n ∷ bytes) =
    let k = clamp_length size n (length bytes) in (c_string (take k bytes), drop k bytes)

-- The event at the front of the buffer, of which more than eleven bytes are left.
unfoldable pub read_event : ℤ → Bytes → TabEvent × Bytes
read_event running buffer =
    let body = drop 10 buffer in
    let (url, behind) = read_text url_size body in
    let (title, rest) = read_text title_size behind in
    (
      record {
        type = event_type (head_or_zero buffer % 7);
        tab_id = pos (head_or_zero (drop 1 buffer) + 1);
        url = url;
        title = title;
        timestamp = next_timestamp running (little_endian (take 8 (drop 2 buffer)));
      },
      rest,
    )

-- The loop. The event whose title length is missing is the last one: nothing is left behind it.
unfoldable pub parse_from : ℕ → ℤ → Bytes → List TabEvent
parse_from zero running buffer = []
parse_from (suc slots) running buffer =
    let (event, rest) = read_event running buffer in
    let later = parse_from slots event.timestamp rest in
    if ltb 11 (length buffer) then event ∷ later else []

abbrev pub base_timestamp : ℤ
base_timestamp = pos 1000000000000000

unfoldable pub session_parse_events : Bytes → ℕ → List TabEvent
session_parse_events buffer max_events = parse_from max_events base_timestamp buffer
