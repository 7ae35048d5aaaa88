-- ===== src/Session/Wire/RoundTrip.antt =====
-- c/session_tracker.c: the wire format that the comment of `session_parse_events` describes, written
-- by an encoder, is read back.
use browserhistory.Prelude.{
  sym, ◌∙◌, true, ltb, take, lt→ltb, take-append_self, drop-append_self, ℕ, zero, suc, ◌+◌, ◌/◌,
  ◌%◌, ◌^◌, ◌≤◌, ◌<◌, ◌≡◌, refl, List, [], ◌∷◌, ◌++◌, append_assoc, arith, length, length-append,
}
use browserhistory.Prelude.Int.{pos-+ℤ, ◌+ℤ◌, ℤ, pos}
use browserhistory.Prelude.Text.{c_string-NoNul, NoNul, Bytes}
use native.Mathlib.Nat.{pow-suc}
use browserhistory.Session.Store.{TabEvent}
use browserhistory.Session.Tab.{url_size, title_size}
use browserhistory.Session.Wire.{
  event_type, little_endian, magnitude, max_delta, next_timestamp, clamp_length, read_text,
  read_event, parse_from, base_timestamp, session_parse_events,
}

-- An event as it is sent: its type and tab by their bytes, the time since the event before it.
pub record WireEvent : Type 0 where
  pub kind : ℕ
  pub id : ℕ
  pub delta : ℕ
  pub url : Bytes
  pub title : Bytes

pub record IsWire (w : WireEvent) : Type 0 where
  pub kind_low : w.kind < 7
  pub delta_low : w.delta < max_delta
  pub url_length : length w.url ≤ 255
  pub title_length : length w.title ≤ 255
  pub url_text : NoNul w.url
  pub title_text : NoNul w.title

pub le_bytes : ℕ → ℕ → Bytes
le_bytes zero v = []
le_bytes (suc n) v = v % 256 ∷ le_bytes n (v / 256)

pub encode : WireEvent → Bytes
unfolding le_bytes
encode w =
    w.kind ∷ w.id ∷ (le_bytes 8 w.delta ++ (length w.url ∷ (w.url ++ (length w.title ∷ w.title))))

abbrev pub encode_all : List WireEvent → Bytes
encode_all [] = []
encode_all (w ∷ ws) = encode w ++ encode_all ws

abbrev pub received : ℤ → WireEvent → TabEvent
received running w = record {
  type = event_type w.kind;
  tab_id = pos (w.id + 1);
  url = w.url;
  title = w.title;
  timestamp = running +ℤ pos (w.delta + 1000000);
}

abbrev pub received_all : ℤ → List WireEvent → List TabEvent
received_all running [] = []
received_all running (w ∷ ws) =
    received running w ∷ received_all (running +ℤ pos (w.delta + 1000000)) ws

abbrev pub AreWire : List WireEvent → Type 0
AreWire [] = Unit
AreWire (w ∷ ws) = IsWire w × AreWire ws

little_endian-le_bytes : (n v : ℕ) → v < 256 ^ n → little_endian (le_bytes n v) ≡ v
unfolding little_endian le_bytes
little_endian-le_bytes zero v h = omega arith
little_endian-le_bytes (suc n) v h =
    let p : v / 256 < 256 ^ n = omega (arith, pow-suc 256 n) in
    omega (arith, little_endian-le_bytes n (v / 256) p)

read_text-encode :
    (size : ℕ) (text rest : Bytes)
    → length text < size
    → NoNul text
    → read_text size (length text ∷ (text ++ rest)) ≡ (text, rest)
unfolding read_text
read_text-encode size text rest h n =
    let k : clamp_length size (length text) (length (text ++ rest)) ≡ length text =
      unfold clamp_length in ground (arith, length-append text rest) in
    rw (k, take-append_self, drop-append_self, c_string-NoNul text n)

next_timestamp-low :
    (running : ℤ) (delta : ℕ)
    → delta < max_delta
    → next_timestamp running delta ≡ running +ℤ pos (delta + 1000000)
unfolding next_timestamp magnitude
next_timestamp-low running delta h =
    let low : ltb delta (2 ^ 63) ≡ true = ground (arith, h) in
    let same : delta % max_delta ≡ delta = omega (arith, h) in rw (low, same, pos-+ℤ) refl

read_event-encode :
    (running : ℤ) (w : WireEvent) (rest : Bytes)
    → IsWire w
    → read_event running (encode w ++ rest) ≡ (received running w, rest)
unfolding read_event encode
read_event-encode running w rest h =
    let behind = length w.title ∷ (w.title ++ rest) in
    let url = read_text-encode url_size w.url behind (omega (arith, h.url_length)) h.url_text in
    let title =
      read_text-encode title_size w.title rest (omega (arith, h.title_length)) h.title_text in
    let value = little_endian-le_bytes 8 w.delta (omega (arith, h.delta_low)) in
    let kind : w.kind % 7 ≡ w.kind = omega (arith, h.kind_low) in
    rw (
      append_assoc,
      read_event,
      url,
      title,
      value,
      kind,
      next_timestamp-low running w.delta h.delta_low,
    )

length-encode : (w : WireEvent) (rest : Bytes) → 11 < length (encode w ++ rest)
unfolding encode
length-encode w rest = omega (
  arith,
  length-append (w.url ++ length w.title ∷ w.title) rest,
  length-append w.url (length w.title ∷ w.title),
)

parse_from-nil : (slots : ℕ) (running : ℤ) → parse_from slots running [] ≡ []
unfolding parse_from
parse_from-nil zero running = refl
parse_from-nil (suc slots) running = refl

take-nil : (n : ℕ) → take {A = TabEvent} n [] ≡ []
take-nil zero = refl
take-nil (suc n) = refl

parse_from-encode :
    (ws : List WireEvent) (slots : ℕ) (running : ℤ)
    → AreWire ws
    → parse_from slots running (encode_all ws) ≡ take slots (received_all running ws)
unfolding parse_from
parse_from-encode [] slots running h = parse_from-nil slots running ∙ sym (take-nil slots)
parse_from-encode (w ∷ ws) zero running h = refl
parse_from-encode (w ∷ ws) (suc slots) running h = rw (
  read_event-encode running w (encode_all ws) h.0,
  lt→ltb 11 _ (length-encode w (encode_all ws)),
  parse_from-encode ws slots (running +ℤ pos (w.delta + 1000000)) h.1,
)

-- A buffer that holds well-formed events, one behind another, is read back as those events, or as the
-- first `max_events` of them where there are more: types and texts as they were sent, the tab id one
-- higher, as the code counts tabs from 1, and each time the one before it plus the difference and a
-- second. An event is well formed where its type is one of the seven, its difference is below an hour,
-- and its texts have at most 255 bytes and no NUL.
pub session_parse_events-encode :
    (ws : List WireEvent) (max_events : ℕ)
    → AreWire ws
    → session_parse_events (encode_all ws) max_events
      ≡ take max_events (received_all base_timestamp ws)
unfolding session_parse_events
session_parse_events-encode ws max_events h = parse_from-encode ws max_events base_timestamp h
