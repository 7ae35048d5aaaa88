-- ===== src/Session/Tracker/Start.antt =====
-- c/session_tracker.c: every event keeps a tracker well formed, one that starts a session included.
use browserhistory.Prelude.{
  ℕ, ◌+◌, ◌<◌, ◌≡◌, refl, sym, ap, ◌∙◌, ◌≢◌, inl, inr, true, Option, none, some, List, [], ◌∷◌,
  ◌++◌, arith, Bool-cases, Option-cases, length,
}
use mathlib.Core.Path.{subst}
use browserhistory.Session.Store.Invariant.{IsSession, session_create-IsSession}
use browserhistory.Session.Store.{Session, idle, active, gap_us, session_create, TabEvent}
use browserhistory.Session.Tab.{Alloc}
use browserhistory.Session.Tracker.Timeline.{Timeline, Timeline-concat}
use browserhistory.Session.Tracker.Events.{
  EmptyUnlessCurrent, IsTracker, length-concat, put_current-IsTracker, current_valid,
  run_event-IsTracker,
}
use browserhistory.Session.Tracker.{
  SessionTracker, sessions, session_count, current_list, need_new_session, finalize, start_session,
  reserve_session, append_session, map_current, event_time, process_event,
}

abbrev Gap : ℕ → Option Session → Type 0
Gap timestamp none = Unit
Gap timestamp (some s) = s.end_time + gap_us < timestamp

created-state : (id timestamp : ℕ) → (session_create id timestamp).state ≡ active
unfolding session_create
created-state id timestamp = refl

created-fields :
    (id timestamp : ℕ)
    → ((session_create id timestamp).session_id ≡ id)
      × ((session_create id timestamp).start_time ≡ timestamp)
unfolding session_create
created-fields id timestamp = (refl, refl)

-- The sessions of a tracker with one more at the end.
extended :
    (finished : List Session) (o : Option Session) (r : Session) (timestamp : ℕ)
    → IsSession r
    → r.session_id ≡ length (finished ++ current_list o) + 1
    → r.start_time ≡ timestamp
    → r.state ≢ idle
    → Gap timestamp o
    → EmptyUnlessCurrent finished o
    → Timeline 1 (finished ++ current_list o)
    → Timeline 1 ((finished ++ current_list o) ++ r ∷ [])
extended finished none r timestamp v i b n g c h = rw c (v, i ∙ rw c, n, tt, tt)
extended finished (some s) r timestamp v i b n g c h =
    Timeline-concat 1 finished s r v (omega (arith, i, length-concat finished s)) (rw b g) n h

append_session-IsTracker :
    (m : Alloc) (timestamp : ℕ) (t : SessionTracker)
    → IsTracker t
    → session_count t < t.session_capacity
    → Gap timestamp t.current_session
    → IsTracker (append_session m timestamp t).0
unfolding append_session
append_session-IsTracker m timestamp t h k g =
    let r = session_create (session_count t + 1) timestamp in
    let fields = created-fields (session_count t + 1) timestamp in
    let state = created-state (session_count t + 1) timestamp in
    elim (Bool-cases m.new_session) [
      | inl e ↦ rw e (record {
        capacity_max = h.capacity_max;
        capacity_pos = h.capacity_pos;
        count_fits = omega (arith, length-concat (sessions t) r);
        timeline =
            extended t.finished t.current_session r timestamp (session_create-IsSession _ timestamp)
              fields.0 fields.1 (λ z. cc state) g h.current_last h.timeline;
        state_current = sym state;
        current_last = tt;
      })
      | inr e ↦ rw e h
    ]

reserve_session-IsTracker :
    (m : Alloc) (t r : SessionTracker)
    → IsTracker t
    → reserve_session m t ≡ some r
    → IsTracker r × (session_count r < r.session_capacity) × (r.current_session ≡ t.current_session)
unfolding reserve_session
reserve_session-IsTracker m t r h e = ground arith

finalize-keeps :
    (s : Session)
    → IsSession s
    → IsSession (finalize s)
      × ((finalize s).session_id ≡ s.session_id)
      × ((finalize s).start_time ≡ s.start_time)
      × ((finalize s).state ≡ s.state)
unfolding finalize
finalize-keeps s h = ground arith

pub finalize-IsTracker :
    (t : SessionTracker)
    → IsTracker t
    → IsTracker (record t { current_session = map_current finalize t.current_session })
finalize-IsTracker t h = elim (Option-cases t.current_session) [
  | inl e ↦ at (sym (ap (map_current finalize) e ∙ sym e)) h
  | inr (s, e) ↦
      let old = current_valid t s h e in
      let f = finalize-keeps s old.0 in
      at (sym (ap (map_current finalize) e)) (
        put_current-IsTracker t s (finalize s) t.current_state t.last_event_time h e f.0 f.1 f.2
          (λ z. old.1 (sym f.3 ∙ z)) (old.2 ∙ sym f.3))
]
  where
    at :
        {a b : Option Session}
        → a ≡ b
        → IsTracker (record t { current_session = a })
        → IsTracker (record t { current_session = b })
    at e v = subst (λ o. IsTracker (record t { current_session = o })) e v

finalize-Gap :
    (timestamp : ℕ) (o : Option Session) → Gap timestamp o → Gap timestamp (map_current finalize o)
unfolding finalize
finalize-Gap timestamp none g = g
finalize-Gap timestamp (some s) g = g

start_session-IsTracker :
    (m : Alloc) (timestamp : ℕ) (t : SessionTracker)
    → IsTracker t
    → Gap timestamp t.current_session
    → IsTracker (start_session m timestamp t).0
unfolding start_session
start_session-IsTracker m timestamp t h g =
    let closed = record t { current_session = map_current finalize t.current_session } in
    let final = finalize-IsTracker t h in
    elim (Option-cases (reserve_session m closed)) [
      | inl e ↦ rw (e, start_session) final
      | inr (r, e) ↦
          let (valid, room, same) = reserve_session-IsTracker m closed r final e in
          rw (e, start_session)
            (append_session-IsTracker m timestamp r valid room
              (rw same (finalize-Gap timestamp t.current_session g)))
    ]

need_new_session-Gap :
    (o : Option Session) (timestamp : ℕ) → need_new_session o timestamp ≡ true → Gap timestamp o
unfolding need_new_session
need_new_session-Gap none timestamp e = tt
need_new_session-Gap (some s) timestamp e = ground arith

-- An event keeps a well-formed tracker well formed, whichever allocations fail: its capacities and
-- counts are bounded, each session and each tab in it is well formed, the sessions have the ids 1,
-- 2, … and are more than 30 minutes apart, none is idle, and the active tab of each, if there is
-- one, is open.
pub process_event-IsTracker :
    (m : Alloc) (t : SessionTracker) (event : TabEvent)
    → IsTracker t
    → IsTracker (process_event m t event).0
unfolding process_event
process_event-IsTracker m t event h =
    let n = event_time t event.timestamp in
    elim (Bool-cases (need_new_session t.current_session n)) [
      | inl e ↦
          let v = start_session-IsTracker m n t h (need_new_session-Gap t.current_session n e) in
          elim (Bool-cases (start_session m n t).1) [
            | inl d ↦
                rw (e, d, process_event) (run_event-IsTracker m n event (start_session m n t).0 v)
            | inr d ↦ rw (e, d, process_event) v
          ]
      | inr e ↦ rw (e, process_event) (run_event-IsTracker m n event t h)
    ]
