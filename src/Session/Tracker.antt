-- ===== src/Session/Tracker.antt =====
-- c/session_tracker.c, event processing: the tracker and its one entry point. `sessions` of the C
-- struct is `finished` followed by the session that `current_session` points to.
pub mod Invariant
pub mod Machine
pub mod Timeline
pub mod Events
pub mod Start
pub mod Progress
use browserhistory.Prelude.Int.{ℤ, pos, is_positive, pos_part}
use browserhistory.Prelude.Text.{is_nonempty}
use browserhistory.Prelude.{
  ℕ, ◌+◌, ◌-◌, ◌/◌, Bool, true, false, not, ◌&&◌, List, [], ◌∷◌, ◌++◌, Option, none, some,
  if◌then◌else◌, leb, ltb, length,
}
use browserhistory.Session.Store.{
  Session, SessionState, idle, active, TabEvent, TabEventType, open_tab, close_tab, navigate,
  switch_tab, reload, go_back, go_forward, gap_us, session_create, find_tab, is_open, update_tab,
  session_add_tab, session_close_tab, compute_state_transition, same_state,
}
use browserhistory.Session.Tab.{
  Alloc, TabContext, tab_navigate, tab_go_back, tab_go_forward, grown_capacity,
}

abbrev pub max_sessions : ℕ
max_sessions = 1024

pub record SessionTracker : Type 0 where
  pub finished : List Session
  pub current_session : Option Session
  pub session_capacity : ℕ
  pub current_state : SessionState
  pub last_event_time : ℕ

abbrev current_list : Option Session → List Session
current_list none = []
current_list (some s) = s ∷ []

abbrev pub sessions : SessionTracker → List Session
sessions t = t.finished ++ current_list t.current_session

abbrev pub session_count : SessionTracker → ℕ
session_count t = length (sessions t)

unfoldable pub session_tracker_create : SessionTracker
session_tracker_create = record {
  finished = [];
  current_session = none;
  session_capacity = 32;
  current_state = idle;
  last_event_time = 0;
}

unfoldable pub event_time : SessionTracker → ℤ → ℕ
event_time tracker timestamp =
    if is_positive timestamp then pos_part timestamp else tracker.last_event_time + 1000000

unfoldable pub need_new_session : Option Session → ℕ → Bool
need_new_session none timestamp = true
need_new_session (some s) timestamp = ltb (s.end_time + gap_us) timestamp

unfoldable pub finalize : Session → Session
finalize s = record s { duration_seconds = (s.end_time - s.start_time) / 1000000 }

abbrev pub map_current : (Session → Session) → Option Session → Option Session
map_current f none = none
map_current f (some s) = some (f s)

-- The array of sessions has room for one more, or could not get it.
unfoldable pub reserve_session : Alloc → SessionTracker → Option SessionTracker
unfolding grown_capacity
reserve_session m tracker =
    let capacity = grown_capacity max_sessions tracker.session_capacity in
    if leb tracker.session_capacity (session_count tracker)
    then if leb capacity (session_count tracker)
      then none
      else if m.grow_sessions
      then some (record tracker { session_capacity = capacity })
      else none
    else some tracker

unfoldable pub append_session : Alloc → ℕ → SessionTracker → SessionTracker × Bool
append_session m timestamp tracker =
    if m.new_session
    then (
      record tracker {
        finished = sessions tracker;
        current_session = some (session_create (session_count tracker + 1) timestamp);
        current_state = active;
      },
      true,
    )
    else (tracker, false)

-- The current session is finalized and a new one made; false is the error -1.
unfoldable pub start_session : Alloc → ℕ → SessionTracker → SessionTracker × Bool
start_session m timestamp tracker =
    let closed = record tracker {
      current_session = map_current finalize tracker.current_session;
    } in
    elim (reserve_session m closed) [
      | none ↦ (closed, false)
      | some reserved ↦ append_session m timestamp reserved
    ]

-- The session's active tab, where it is open.
unfoldable pub active_tab : Session → Option TabContext
active_tab s = if is_positive s.active_tab_id then find_tab s.tabs s.active_tab_id else none

-- A page load in the tab of that id, if the event names a page.
unfoldable pub load_page : Alloc → ℕ → TabEvent → ℤ → Session → Session
load_page m timestamp event id s =
    let visit = λ (t : TabContext). record (tab_navigate m t event.url event.title).0 {
      last_activity = timestamp;
    } in
    if is_nonempty event.url
    then record s { tabs = update_tab id visit s.tabs; page_count = s.page_count + 1 }
    else s

-- A new tab becomes the active one and loads the page; false is the error -1.
unfoldable pub open_in_new_tab : Alloc → ℕ → TabEvent → Session → Session × Bool
open_in_new_tab m timestamp event s =
    let (added, id) = session_add_tab m s timestamp in
    elim id [
      | none ↦ (added, false)
      | some n ↦
          (load_page m timestamp event (pos n) (record added { active_tab_id = pos n }), true)
    ]

unfoldable pub on_navigate : Alloc → ℕ → TabEvent → Session → Session × Bool
on_navigate m timestamp event s =
    if is_open (active_tab s)
    then (load_page m timestamp event s.active_tab_id s, true)
    else open_in_new_tab m timestamp event s

unfoldable pub close_target : ℤ → Session → ℤ
close_target id s =
    if not (is_positive id) && is_positive s.active_tab_id then s.active_tab_id else id

unfoldable pub on_close : TabEvent → Session → Session
on_close event s =
    let target = close_target event.tab_id s in
    if is_positive target then session_close_tab s (pos_part target) else s

unfoldable pub on_switch : ℕ → TabEvent → Session → Session
on_switch timestamp event s =
    let touch = λ (t : TabContext). record t { last_activity = timestamp } in
    if is_open (find_tab s.tabs event.tab_id)
    then record s {
      active_tab_id = event.tab_id;
      tab_switches = s.tab_switches + 1;
      tabs = update_tab event.tab_id touch s.tabs;
    }
    else s

-- The change of the active tab at a reload, a step back or a step forward, if it is open.
unfoldable pub in_active_tab : ℕ → (TabContext → TabContext) → ℕ → Session → Session
in_active_tab timestamp change pages s =
    let step = λ (t : TabContext). record (change t) { last_activity = timestamp } in
    if is_open (active_tab s)
    then record s {
      tabs = update_tab s.active_tab_id step s.tabs;
      page_count = s.page_count + pages;
    }
    else s

unfoldable pub dispatch : TabEventType → Alloc → ℕ → TabEvent → Session → Session × Bool
dispatch open_tab m timestamp event s = open_in_new_tab m timestamp event s
dispatch close_tab m timestamp event s = (on_close event s, true)
dispatch navigate m timestamp event s = on_navigate m timestamp event s
dispatch switch_tab m timestamp event s = (on_switch timestamp event s, true)
dispatch reload m timestamp event s =
    (in_active_tab timestamp (λ t. record t { page_loads = t.page_loads + 1 }) 1 s, true)
dispatch go_back m timestamp event s = (in_active_tab timestamp (λ t. (tab_go_back t).0) 0 s, true)
dispatch go_forward m timestamp event s =
    (in_active_tab timestamp (λ t. (tab_go_forward t).0) 0 s, true)

unfoldable pub touch_session : ℕ → Session → Session
touch_session timestamp s = record s {
  end_time = if ltb s.end_time timestamp then timestamp else s.end_time;
}

-- `s->transitions[from][to]++`
unfoldable pub count_transition :
    SessionState
    → SessionState
    → (SessionState → SessionState → ℕ)
    → SessionState
    → SessionState
    → ℕ
count_transition from to counts a b =
    if same_state a from && same_state b to then counts a b + 1 else counts a b

unfoldable pub change_state : SessionState → Session → Session
change_state new s =
    if same_state new s.state
    then s
    else record s { transitions = count_transition s.state new s.transitions; state = new }

-- What follows the switch of `session_tracker_process_event`.
unfoldable pub settle : ℕ → TabEventType → Session → SessionTracker → SessionTracker
settle timestamp event s tracker =
    let touched = touch_session timestamp s in
    let new = compute_state_transition touched timestamp event in
    record tracker {
      current_session = some (change_state new touched);
      current_state = if same_state new s.state then tracker.current_state else new;
      last_event_time = timestamp;
    }

unfoldable pub run_event : Alloc → ℕ → TabEvent → SessionTracker → SessionTracker × Bool
run_event m timestamp event tracker = elim tracker.current_session [
  | none ↦ (tracker, false)
  | some s ↦
      let (changed, done) = dispatch event.type m timestamp event s in
      if done
      then (settle timestamp event.type changed tracker, true)
      else (record tracker { current_session = some changed }, false)
]

-- The Boolean is true for the return value 0, and false for -1.
unfoldable pub process_event : Alloc → SessionTracker → TabEvent → SessionTracker × Bool
process_event m tracker event =
    let timestamp = event_time tracker event.timestamp in
    let (ready, started) =
      if need_new_session tracker.current_session timestamp
      then start_session m timestamp tracker
      else (tracker, true) in
    if started then run_event m timestamp event ready else (ready, false)
