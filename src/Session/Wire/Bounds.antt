-- ===== src/Session/Wire/Bounds.antt =====
-- c/session_tracker.c: the ranges of what is parsed.
use browserhistory.Prelude.{
  ◌≡◌, refl, ◌⊎◌, ◌-◌, ◌%◌, ◌^◌, ◌==◌, ℕ, zero, suc, ◌+◌, ◌≤◌, ◌<◌, inl, inr, List, [], ◌∷◌, arith,
  ltb, Bool-cases, length, take, drop, length-take,
}
use browserhistory.Prelude.Int.{pos-+ℤ, ◌+ℤ◌, minus_ℕ, pos, negsuc, ℤ, pos_part}
use browserhistory.Prelude.Text.{c_string, AreBytes, Bytes}
use browserhistory.Session.Store.{TabEvent}
use browserhistory.Session.Tab.{url_size, title_size}
use browserhistory.Session.Wire.{
  magnitude, little_endian, max_delta, next_timestamp, clamp_length, read_text, read_event,
  parse_from, base_timestamp, session_parse_events, head_or_zero,
}

-- How far an event with the least difference, -2^63, moves the time back.
abbrev pub setback : ℕ
setback = 53775808

-- A parsed event: a tab id from 1 to 256, texts that their length bytes and fields can hold, with no
-- NUL, and a time from one second to less than an hour and a second after `previous`, or the one that
-- is 53.775808 seconds before it.
pub record InRange (previous : ℤ) (e : TabEvent) : Type 0 where
  pub url_fits : length e.url ≤ 255
  pub title_fits : length e.title ≤ 255
  pub id_low : 1 ≤ pos_part e.tab_id
  pub id_high : pos_part e.tab_id ≤ 256
  pub moved :
      ((step : ℕ) × (e.timestamp ≡ previous +ℤ pos step)
        × (1000000 ≤ step)
        × (step < 1000000 + max_delta))
      ⊎ (e.timestamp ≡ previous +ℤ minus_ℕ setback)

abbrev pub InOrder : ℤ → List TabEvent → Type 0
InOrder previous [] = Unit
InOrder previous (e ∷ es) = InRange previous e × InOrder e.timestamp es

pub AreBytes-drop : (n : ℕ) (bs : Bytes) → AreBytes bs → AreBytes (drop n bs)
AreBytes-drop zero bs h = h
AreBytes-drop (suc n) [] h = tt
AreBytes-drop (suc n) (b ∷ bs) h = AreBytes-drop n bs h.1

c_string-length : (bs : Bytes) → length (c_string bs) ≤ length bs
unfolding c_string
c_string-length [] = omega arith
c_string-length (b ∷ bs) = ground (arith, c_string-length bs)

head-lt : (bs : Bytes) → AreBytes bs → head_or_zero bs < 256
head-lt [] h = omega arith
head-lt (b ∷ bs) h = h.0

read_text-bounds :
    (size : ℕ) (bs : Bytes)
    → AreBytes bs
    → (length (read_text size bs).0 ≤ 255) × AreBytes (read_text size bs).1
unfolding read_text
read_text-bounds size [] h = (omega arith, tt)
read_text-bounds size (n ∷ bs) h =
    let k = clamp_length size n (length bs) in
    (ground (arith, c_string-length (take k bs), length-take k bs), AreBytes-drop k bs h.1)

magnitude_sign :
    (raw : ℕ) → ((n : ℕ) × (magnitude raw ≡ pos n)) ⊎ (magnitude raw ≡ negsuc (2 ^ 63 - 1))
unfolding magnitude
magnitude_sign raw = elim (Bool-cases (ltb raw (2 ^ 63))) [
  | inl e ↦ inl (raw, rw e refl)
  | inr e ↦ elim (Bool-cases (raw == 2 ^ 63)) [
    | inl d ↦ inr (rw (e, d) refl)
    | inr d ↦ inl (2 ^ 64 - raw, rw (e, d) refl)
  ]
]

next_timestamp-bounds :
    (running : ℤ) (raw : ℕ)
    → ((step : ℕ) × (next_timestamp running raw ≡ running +ℤ pos step)
        × (1000000 ≤ step)
        × (step < 1000000 + max_delta))
      ⊎ (next_timestamp running raw ≡ running +ℤ minus_ℕ setback)
unfolding next_timestamp
next_timestamp-bounds running raw = elim (magnitude_sign raw) [
  | inl (n, e) ↦ inl (n % max_delta + 1000000, rw (e, pos-+ℤ) refl, omega arith, omega arith)
  | inr e ↦ inr (rw e (unfold ◌+ℤ◌ in refl))
]

read_event-InRange :
    (running : ℤ) (bytes : Bytes)
    → AreBytes bytes
    → InRange running (read_event running bytes).0 × AreBytes (read_event running bytes).1
unfolding read_event
read_event-InRange running bytes h =
    let u = read_text-bounds url_size (drop 10 bytes) (AreBytes-drop 10 bytes h) in
    let behind = (read_text url_size (drop 10 bytes)).1 in
    ground (
      arith,
      u,
      read_text-bounds title_size behind u.1,
      head-lt (drop 1 bytes) (AreBytes-drop 1 bytes h),
      next_timestamp-bounds running (little_endian (take 8 (drop 2 bytes))),
    )

parse_from-InOrder :
    (slots : ℕ) (running : ℤ) (bytes : Bytes)
    → AreBytes bytes
    → InOrder running (parse_from slots running bytes)
      × (length (parse_from slots running bytes) ≤ slots)
unfolding parse_from
parse_from-InOrder zero running bytes h = (tt, omega arith)
parse_from-InOrder (suc slots) running bytes h =
    let r = read_event-InRange running bytes h in
    let later =
      parse_from-InOrder slots (read_event running bytes).0.timestamp (read_event running bytes).1
        r.1 in
    elim (Bool-cases (ltb 11 (length bytes))) [
      | inl e ↦ rw e ((r.0, later.0), omega (arith, later.1))
      | inr e ↦ rw e (tt, omega arith)
    ]

-- Whatever the buffer holds, at most `max_events` events come back, with tab ids and texts in range.
-- The time of each is one second to less than an hour and a second after that of the event before it
-- or, for the first one, after the base time; or else it is exactly 53.775808 seconds before that.
pub session_parse_events-InOrder :
    (bytes : Bytes) (max_events : ℕ)
    → AreBytes bytes
    → InOrder base_timestamp (session_parse_events bytes max_events)
      × (length (session_parse_events bytes max_events) ≤ max_events)
unfolding session_parse_events
session_parse_events-InOrder bytes max_events h =
    parse_from-InOrder max_events base_timestamp bytes h
