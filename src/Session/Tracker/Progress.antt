-- ===== src/Session/Tracker/Progress.antt =====
-- c/session_tracker.c: when an event goes through, and how it moves the state machine.
use browserhistory.Prelude.{
  ℕ, ◌≡◌, sym, ap, ◌∙◌, inl, inr, Bool, false, some, if◌then◌else◌, Bool-cases,
}
use mathlib.Core.Path.{subst}
use browserhistory.Session.Store.{Session, rapid_fire, TabEvent, compute_state_transition}
use browserhistory.Session.Tab.{Alloc}
use browserhistory.Session.Tracker.Invariant.{dispatch-Kept}
use browserhistory.Session.Tracker.Machine.{
  Edge, stay, settled-Edge, Edge-rapid_fire, change_state-state,
}
use browserhistory.Session.Tracker.Events.{IsTracker, current_valid}
use browserhistory.Session.Tracker.{
  SessionTracker, need_new_session, dispatch, touch_session, change_state, settle, run_event,
  event_time, process_event,
}

-- What the machine does at an event that continues the session `s`: the event's handler leaves `r`,
-- and the new state is reached from the old one by an edge that `r`, moved to the event, allows.
pub record Moves (m : Alloc) (t : SessionTracker) (event : TabEvent) (s : Session) : Type 0 where
  pub after : Session
  pub is_current : (process_event m t event).0.current_session ≡ some after
  pub edge :
      let n = event_time t event.timestamp in
      let touched = touch_session n (dispatch event.type m n event s).0 in
      Edge touched n event.type s.state after.state

run_event-current :
    (m : Alloc) (n : ℕ) (event : TabEvent) (t : SessionTracker) (s : Session)
    → t.current_session ≡ some s
    → (run_event m n event t).0.current_session
      ≡ some (
          if (dispatch event.type m n event s).1
          then (let touched = touch_session n (dispatch event.type m n event s).0 in
              change_state (compute_state_transition touched n event.type) touched)
          else (dispatch event.type m n event s).0)
unfolding run_event settle
run_event-current m n event t s e = elim (Bool-cases (dispatch event.type m n event s).1) [
  | inl d ↦ rw (e, d, run_event)
  | inr d ↦ rw (e, d, run_event)
]

process_event_continues :
    (m : Alloc) (t : SessionTracker) (event : TabEvent)
    → need_new_session t.current_session (event_time t event.timestamp) ≡ false
    → process_event m t event ≡ run_event m (event_time t event.timestamp) event t
unfolding process_event
process_event_continues m t event g = rw (g, process_event)

-- In a well-formed tracker, an event within 30 minutes of the current session's last one moves that
-- session's state along an edge of Edge, whose conditions the session after the event's handler
-- meets. Edge has no edge to IDLE from another state, and none out of RAPID_FIRE.
pub process_event-Moves :
    (m : Alloc) (t : SessionTracker) (event : TabEvent) (s : Session)
    → IsTracker t
    → t.current_session ≡ some s
    → need_new_session (some s) (event_time t event.timestamp) ≡ false
    → Moves m t event s
process_event-Moves m t event s h e g =
    let n = event_time t event.timestamp in
    let r = (dispatch event.type m n event s).0 in
    let k = dispatch-Kept event.type m n event s (current_valid t s h e).0 in
    let new = compute_state_transition (touch_session n r) n event.type in
    let here =
      process_event_continues m t event (subst (λ o. need_new_session o n ≡ false) (sym e) g) in
    let now =
      ap (λ (p : SessionTracker × Bool). p.0.current_session) here
      ∙ run_event-current m n event t s e in
    elim (Bool-cases (dispatch event.type m n event s).1) [
      | inl d ↦ record {
        after = change_state new (touch_session n r);
        is_current = now ∙ rw d;
        edge =
            subst
              (λ a.
                Edge (touch_session n r) n event.type a
                  (change_state new (touch_session n r)).state)
              k.same_state
              (rw (change_state-state new (touch_session n r)) (settled-Edge n event.type r));
      }
      | inr d ↦ record {
        after = r;
        is_current = now ∙ rw d;
        edge = subst (λ a. Edge (touch_session n r) n event.type s.state a) (sym k.same_state) stay;
      }
    ]

-- In a well-formed tracker RAPID_FIRE is never left within a session: an event that continues a
-- session in that state, also one after more than 30 seconds of inactivity, keeps the session in
-- it.
pub rapid_fire_stays :
    (m : Alloc) (t : SessionTracker) (event : TabEvent) (s : Session)
    → IsTracker t
    → t.current_session ≡ some s
    → s.state ≡ rapid_fire
    → need_new_session (some s) (event_time t event.timestamp) ≡ false
    → (r : Session) × ((process_event m t event).0.current_session ≡ some r)
      × (r.state ≡ rapid_fire)
rapid_fire_stays m t event s h e q g =
    let v = process_event-Moves m t event s h e g in
    (v.after, v.is_current, Edge-rapid_fire v.edge q)
