-- ===== src/Session/Tracker/Events.antt =====
-- c/session_tracker.c: what holds of a tracker after every event, whichever allocations fail.
use browserhistory.Prelude.{
  ℕ, ◌+◌, ◌≤◌, ◌≡◌, sym, ◌∙◌, ◌≢◌, inl, inr, Option, none, some, List, [], ◌∷◌, ◌++◌, arith,
  if◌then◌else◌, Bool-cases, Option-cases, length, length-append,
}
use mathlib.Core.Path.{subst}
use browserhistory.Session.Store.Invariant.{IsSession}
use browserhistory.Session.Store.{
  Session, SessionState, idle, TabEvent, TabEventType, compute_state_transition, same_state,
}
use browserhistory.Session.Tab.{Alloc}
use browserhistory.Session.Tracker.Invariant.{Kept, dispatch-Kept}
use browserhistory.Session.Tracker.Machine.{
  same_state_sound, settled-Edge, Edge-ne_idle, change_state-state, change_state-IsSession,
  change_state-keeps, touch_session-keeps, touch_session-IsSession,
}
use browserhistory.Session.Tracker.Timeline.{Timeline, Timeline-replace, Timeline-last}
use browserhistory.Session.Tracker.{
  SessionTracker, sessions, session_count, current_list, max_sessions, session_tracker_create,
  dispatch, touch_session, change_state, settle, run_event,
}

abbrev pub SameState : SessionState → Option Session → Type 0
SameState state none = state ≡ idle
SameState state (some s) = state ≡ s.state

abbrev pub EmptyUnlessCurrent : List Session → Option Session → Type 0
EmptyUnlessCurrent finished none = finished ≡ []
EmptyUnlessCurrent finished (some _) = Unit

pub record IsTracker (t : SessionTracker) : Type 0 where
  pub capacity_max : t.session_capacity ≤ max_sessions
  pub capacity_pos : 32 ≤ t.session_capacity
  pub count_fits : session_count t ≤ t.session_capacity
  pub timeline : Timeline 1 (sessions t)
  pub state_current : SameState t.current_state t.current_session
  pub current_last : EmptyUnlessCurrent t.finished t.current_session

pub session_tracker_create-IsTracker : IsTracker session_tracker_create
unfolding session_tracker_create
session_tracker_create-IsTracker = ground arith

pub length-concat : (xs : List Session) (s : Session) → length (xs ++ s ∷ []) ≡ length xs + 1
length-concat xs s = length-append xs (s ∷ [])

-- The current session of a tracker is changed in place.
pub put_current-IsTracker :
    (t : SessionTracker) (s r : Session) (state : SessionState) (n : ℕ)
    → IsTracker t
    → t.current_session ≡ some s
    → IsSession r
    → r.session_id ≡ s.session_id
    → r.start_time ≡ s.start_time
    → r.state ≢ idle
    → state ≡ r.state
    → IsTracker (record t { current_session = some r; current_state = state; last_event_time = n })
put_current-IsTracker t s r state n h e k i w b c =
    let fits =
      subst (λ o. length (t.finished ++ current_list o) ≤ t.session_capacity) e h.count_fits in
    record {
      capacity_max = h.capacity_max;
      capacity_pos = h.capacity_pos;
      count_fits = omega (arith, fits, length-concat t.finished s, length-concat t.finished r);
      timeline =
          Timeline-replace 1 t.finished s r k i w b
            (subst (λ o. Timeline 1 (t.finished ++ current_list o)) e h.timeline);
      state_current = c;
      current_last = tt;
    }

pub current_valid :
    (t : SessionTracker) (s : Session)
    → IsTracker t
    → t.current_session ≡ some s
    → IsSession s × (s.state ≢ idle) × (t.current_state ≡ s.state)
current_valid t s h e =
    let last =
      Timeline-last 1 t.finished s
        (subst (λ o. Timeline 1 (t.finished ++ current_list o)) e h.timeline) in
    (last.0, last.1, subst (SameState t.current_state) e h.state_current)

pub tracked :
    (new old state : SessionState) → state ≡ old → (if same_state new old then state else new) ≡ new
tracked new old state e = elim (Bool-cases (same_state new old)) [
  | inl d ↦ rw d (e ∙ sym (same_state_sound new old d))
  | inr d ↦ rw d
]

settle-IsTracker :
    (timestamp : ℕ) (type : TabEventType) (t : SessionTracker) (s r : Session)
    → IsTracker t
    → t.current_session ≡ some s
    → Kept s r
    → IsTracker (settle timestamp type r t)
unfolding settle
settle-IsTracker timestamp type t s r h e k =
    let touched = touch_session timestamp r in
    let new = compute_state_transition touched timestamp type in
    let old = current_valid t s h e in
    let kept = touch_session-keeps timestamp r in
    let changed = change_state-keeps new touched in
    let reached = change_state-state new touched in
    let not_idle =
      Edge-ne_idle (settled-Edge timestamp type r) (λ z. old.1 (sym k.same_state ∙ z)) in
    put_current-IsTracker t s (change_state new touched) _ timestamp h e
      (change_state-IsSession new touched (touch_session-IsSession timestamp r k.valid))
      (changed.1 ∙ kept.1 ∙ k.same_id) (changed.0 ∙ kept.0 ∙ k.same_start)
      (λ z. not_idle (sym reached ∙ z))
      (tracked new r.state t.current_state (old.2 ∙ sym k.same_state) ∙ sym reached)

pub run_event-IsTracker :
    (m : Alloc) (timestamp : ℕ) (event : TabEvent) (t : SessionTracker)
    → IsTracker t
    → IsTracker (run_event m timestamp event t).0
unfolding run_event
run_event-IsTracker m timestamp event t h = elim (Option-cases t.current_session) [
  | inl e ↦ rw (e, run_event) h
  | inr (s, e) ↦
      let k = dispatch-Kept event.type m timestamp event s (current_valid t s h e).0 in
      elim (Bool-cases (dispatch event.type m timestamp event s).1) [
        | inl d ↦ rw (e, d, run_event) (settle-IsTracker timestamp event.type t s _ h e k)
        | inr d ↦
            rw (e, d, run_event)
              (put_current-IsTracker t s _ t.current_state t.last_event_time h e k.valid k.same_id
                k.same_start (λ z. (current_valid t s h e).1 (sym k.same_state ∙ z))
                ((current_valid t s h e).2 ∙ sym k.same_state))
      ]
]
