-- ===== src/Session/Tracker/Machine.antt =====
-- c/session_tracker.c: which transitions of the state machine can fire. The end time of the session
-- has already been moved to the event when the transition is computed.
use browserhistory.Prelude.{
  ℕ, ◌≤◌, ◌<◌, ◌≡◌, refl, sym, ◌≢◌, ◌⊎◌, inl, inr, true, arith, Bool-cases,
}
use browserhistory.Session.Store.Invariant.{IsSession}
use browserhistory.Session.Store.{
  Session, SessionState, idle, active, deep_browse, rapid_fire, TabEventType, open_tab, navigate,
  switch_tab, compute_state_transition, same_state,
}
use browserhistory.Session.Tracker.{touch_session, change_state}

-- The edges that can fire, with what they need of the session and the event.
pub data Edge (s : Session) (timestamp : ℕ) (event : TabEventType)
    : SessionState → SessionState → Type 0 where
  stay : {a : SessionState} → Edge s timestamp event a a
  wake : (event ≡ open_tab) ⊎ (event ≡ navigate) → Edge s timestamp event idle active
  dive : s.tab_switches ≡ 0 → 3 < s.page_count → Edge s timestamp event active deep_browse
  rush : 5 < s.tab_switches → Edge s timestamp event active rapid_fire
  surface : event ≡ switch_tab → Edge s timestamp event deep_browse active

pub touch_session-end :
    (timestamp : ℕ) (s : Session) → timestamp ≤ (touch_session timestamp s).end_time
unfolding touch_session
touch_session-end timestamp s = ground arith

pub touch_session-IsSession :
    (timestamp : ℕ) (s : Session) → IsSession s → IsSession (touch_session timestamp s)
unfolding touch_session
touch_session-IsSession timestamp s h = ground arith

transition-Edge :
    (state : SessionState) (s : Session) (timestamp : ℕ) (event : TabEventType)
    → s.state ≡ state
    → timestamp ≤ s.end_time
    → Edge s timestamp event state (compute_state_transition s timestamp event)
unfolding compute_state_transition
transition-Edge idle s timestamp event e h = grind (arith, stay, wake)
transition-Edge active s timestamp event e h = grind (arith, stay, dive, rush)
transition-Edge deep_browse s timestamp event e h = grind (arith, stay, surface)
transition-Edge rapid_fire s timestamp event e h = grind (arith, stay)

pub same_state_sound : (a b : SessionState) → same_state a b ≡ true → a ≡ b
unfolding same_state
same_state_sound a b e = ground arith

pub change_state-state : (new : SessionState) (s : Session) → (change_state new s).state ≡ new
unfolding change_state
change_state-state new s = elim (Bool-cases (same_state new s.state)) [
  | inl e ↦ rw e (sym (same_state_sound new s.state e))
  | inr e ↦ rw e
]

pub change_state-IsSession :
    (new : SessionState) (s : Session) → IsSession s → IsSession (change_state new s)
unfolding change_state
change_state-IsSession new s h = ground arith

pub change_state-keeps :
    (new : SessionState) (s : Session)
    → ((change_state new s).start_time ≡ s.start_time)
      × ((change_state new s).session_id ≡ s.session_id)
      × ((change_state new s).end_time ≡ s.end_time)
unfolding change_state
change_state-keeps new s = ground arith

pub touch_session-keeps :
    (timestamp : ℕ) (s : Session)
    → ((touch_session timestamp s).start_time ≡ s.start_time)
      × ((touch_session timestamp s).session_id ≡ s.session_id)
      × ((touch_session timestamp s).state ≡ s.state)
unfolding touch_session
touch_session-keeps timestamp s = ground arith

-- The machine after an event: one of the edges, seen from the session as the event left it.
pub settled-Edge :
    (timestamp : ℕ) (event : TabEventType) (s : Session)
    → let touched = touch_session timestamp s in
      Edge touched timestamp event s.state (compute_state_transition touched timestamp event)
settled-Edge timestamp event s =
    transition-Edge s.state (touch_session timestamp s) timestamp event
      ((touch_session-keeps timestamp s).2) (touch_session-end timestamp s)

pub Edge-ne_idle :
    {s : Session} {timestamp : ℕ} {event : TabEventType} {a b : SessionState}
    → Edge s timestamp event a b
    → a ≢ idle
    → b ≢ idle
Edge-ne_idle stay h = h
Edge-ne_idle (wake e) h = absurd (h refl)
Edge-ne_idle (dive e f) h = λ k. cc
Edge-ne_idle (rush e) h = λ k. cc
Edge-ne_idle (surface e) h = λ k. cc

pub Edge-rapid_fire :
    {s : Session} {timestamp : ℕ} {event : TabEventType} {a b : SessionState}
    → Edge s timestamp event a b
    → a ≡ rapid_fire
    → b ≡ rapid_fire
Edge-rapid_fire stay h = h
Edge-rapid_fire (wake e) h = cc
Edge-rapid_fire (dive e f) h = cc
Edge-rapid_fire (rush e) h = refl
Edge-rapid_fire (surface e) h = cc
