-- ===== src/Session/Tests.antt =====
-- c/session_tracker.c: the theorems at concrete inputs, and runs of the code.
use browserhistory.Prelude.{
  map, take, ◌-◌, ◌<◌, ◌≤◌, ◌≡◌, refl, ◌⊎◌, true, false, some, List, [], ◌∷◌, ◌++◌, arith, length,
}
use browserhistory.Prelude.Int.{◌+ℤ◌, pos, negsuc}
use browserhistory.Prelude.Text.{c_string, codes, copy_into}
use browserhistory.Session.Tab.{
  Alloc, TabContext, url_size, tab_navigate, tab_go_back, tab_go_forward,
}
use browserhistory.Session.Tab.Invariant.{IsTab, navigation-IsTab}
use browserhistory.Session.Tab.History.{
  IsSynced, view, visit, entry_before, entry_at, tab_navigate-visit, tab_go_back-view,
  tab_go_forward-view, back_forward-navigate,
}
use browserhistory.Session.Store.{
  Session, TabEvent, navigate, open_tab, active, rapid_fire, count_active, compute_state_transition,
}
use browserhistory.Session.Tracker.{
  SessionTracker, sessions, finalize, map_current, session_tracker_create, process_event,
  need_new_session, event_time,
}
use browserhistory.History.{HistoryEntry}
use browserhistory.Session.Analyze.{Stats, process_entries, compute_stats, session_tracker_analyze}
use browserhistory.Session.Analyze.Totals.{
  AllBelow, sum_pages, sum_tabs, tabs_at, session_tracker_analyze-IsTracker, compute_stats-totals,
}
use browserhistory.Session.Tracker.Events.{IsTracker, session_tracker_create-IsTracker}
use browserhistory.Session.Tracker.Progress.{Moves, process_event-Moves, rapid_fire_stays}
use browserhistory.Session.Tracker.Start.{process_event-IsTracker}
use browserhistory.Session.Wire.{
  event_type, clamp_length, little_endian, magnitude, next_timestamp, read_text, read_event,
  parse_from, session_parse_events, base_timestamp,
}
use browserhistory.Session.Wire.Bounds.{setback, InOrder, session_parse_events-InOrder}
use browserhistory.Session.Wire.RoundTrip.{
  WireEvent, AreWire, encode_all, received_all, session_parse_events-encode,
}

abbrev plenty : Alloc
plenty = record {
  grow_history = true;
  copy_url = true;
  grow_tabs = true;
  new_tab = true;
  grow_sessions = true;
  new_session = true;
}

-- A tab that shows the first of two pages.
abbrev reading : TabContext
reading = record {
  tab_id = 1;
  is_active = true;
  current_url = codes "a.org";
  current_title = codes "A";
  opened_at = 5;
  last_activity = 7;
  nav_history = codes "a.org" ∷ codes "b.org" ∷ [];
  nav_capacity = 16;
  nav_position = pos 0;
  referrer_url = [];
  page_loads = 2;
}

reading-IsTab : IsTab reading
reading-IsTab = ground arith

reading-IsSynced : IsSynced reading
reading-IsSynced = record {
  in_history = omega arith;
  started = λ e. ground (arith, e);
  shows = λ p. refl;
}

navigation-IsTab_example :
    IsTab (tab_navigate plenty reading (codes "c.org") []).0
    × IsTab (tab_go_back reading).0
    × IsTab (tab_go_forward reading).0
navigation-IsTab_example = navigation-IsTab plenty (codes "c.org") [] reading reading-IsTab

tab_navigate-visit_example :
    ((tab_navigate plenty reading (codes "c.org") []).1 ≡ true)
    × (view (tab_navigate plenty reading (codes "c.org") []).0
        ≡ visit (codes "c.org") (view reading))
    × IsSynced (tab_navigate plenty reading (codes "c.org") []).0
tab_navigate-visit_example =
    tab_navigate-visit plenty reading (codes "c.org") [] (refl, refl) reading-IsTab reading-IsSynced

back_forward-navigate_example :
    let visited = (tab_navigate plenty reading (codes "c.org") []).0 in
    let back = (tab_go_back visited).0 in
    let again = (tab_go_forward back).0 in
    (back.current_url ≡ reading.current_url)
    × (again.current_url ≡ copy_into url_size (codes "c.org"))
    × (view again ≡ view visited)
back_forward-navigate_example =
    back_forward-navigate plenty reading (codes "c.org") [] (refl, refl) reading-IsTab
      reading-IsSynced (omega arith)

tab_go_back-view_example :
    IsSynced (tab_go_back reading).0
    × ((length (view reading).shown ≤ 1) × (tab_go_back reading ≡ (reading, false))
        ⊎ ((tab_go_back reading).1 ≡ true)
          × (2 ≤ length (view reading).shown)
          × ((view reading).shown
              ≡ (view (tab_go_back reading).0).shown ++ entry_before reading ∷ [])
          × ((view (tab_go_back reading).0).ahead ≡ entry_before reading ∷ (view reading).ahead))
tab_go_back-view_example = tab_go_back-view reading reading-IsSynced

tab_go_forward-view_example :
    IsSynced (tab_go_forward reading).0
    × (((view reading).ahead ≡ []) × (tab_go_forward reading ≡ (reading, false))
        ⊎ ((tab_go_forward reading).1 ≡ true)
          × ((view (tab_go_forward reading).0).shown
              ≡ (view reading).shown ++ entry_at reading ∷ [])
          × ((view reading).ahead ≡ entry_at reading ∷ (view (tab_go_forward reading).0).ahead))
tab_go_forward-view_example = tab_go_forward-view reading reading-IsSynced

abbrev opening : TabEvent
opening = record {
  type = open_tab;
  tab_id = pos 1;
  url = codes "a.org";
  title = codes "A";
  timestamp = pos 1000;
}

abbrev opened : SessionTracker
opened = (process_event plenty session_tracker_create opening).0

-- 45 seconds after the session's last event
abbrev loading : TabEvent
loading = record {
  type = navigate;
  tab_id = pos 1;
  url = codes "b.org";
  title = codes "B";
  timestamp = pos 145000000;
}

process_event-IsTracker_example : IsTracker (process_event plenty opened loading).0
process_event-IsTracker_example =
    process_event-IsTracker plenty opened loading (
      process_event-IsTracker plenty session_tracker_create opening
        session_tracker_create-IsTracker)

-- A session in the state RAPID_FIRE with no tab.
abbrev hurried : Session
hurried = record {
  session_id = 1;
  start_time = 1000;
  end_time = 100000000;
  state = rapid_fire;
  tabs = [];
  tab_capacity = 8;
  active_tab_id = negsuc 0;
  next_tab_id = 1;
  page_count = 9;
  tab_switches = 6;
  max_concurrent_tabs = 0;
  duration_seconds = 0;
  transitions = λ from to. 0;
}

abbrev hurry : SessionTracker
hurry = record {
  finished = [];
  current_session = some hurried;
  session_capacity = 32;
  current_state = rapid_fire;
  last_event_time = 100000000;
}

hurry-IsTracker : IsTracker hurry
unfolding count_active
hurry-IsTracker = ground arith

hurry_continues : need_new_session (some hurried) (event_time hurry loading.timestamp) ≡ false
unfolding need_new_session event_time
hurry_continues = refl

process_event-Moves_example : Moves plenty hurry loading hurried
process_event-Moves_example =
    process_event-Moves plenty hurry loading hurried hurry-IsTracker refl hurry_continues

rapid_fire_stays_example :
    (r : Session) × ((process_event plenty hurry loading).0.current_session ≡ some r)
    × (r.state ≡ rapid_fire)
rapid_fire_stays_example =
    rapid_fire_stays plenty hurry loading hurried hurry-IsTracker refl refl hurry_continues

-- The transition alone, computed before the end time moves, would leave RAPID_FIRE here.
transition_leaves_rapid_fire : compute_state_transition hurried 145000000 navigate ≡ active
unfolding compute_state_transition
transition_leaves_rapid_fire = refl

abbrev sent : List WireEvent
sent =
    record { kind = 0; id = 4; delta = 250; url = codes "ab"; title = codes "c" }
    ∷ record { kind = 3; id = 255; delta = 0; url = []; title = codes "de" }
    ∷ []

sent-AreWire : AreWire sent
sent-AreWire = (
  record {
    kind_low = omega arith;
    delta_low = omega arith;
    url_length = omega arith;
    title_length = omega arith;
    url_text = ground arith;
    title_text = ground arith;
  },
  (
    record {
      kind_low = omega arith;
      delta_low = omega arith;
      url_length = omega arith;
      title_length = omega arith;
      url_text = ground arith;
      title_text = ground arith;
    },
    tt,
  ),
)

session_parse_events-encode_example :
    session_parse_events (encode_all sent) 2 ≡ take 2 (received_all base_timestamp sent)
session_parse_events-encode_example = session_parse_events-encode sent 2 sent-AreWire

-- An event with the difference -2^63 moves the time back.
least_difference :
    map
      (λ e. e.timestamp)
      (session_parse_events (0 ∷ 0 ∷ 0 ∷ 0 ∷ 0 ∷ 0 ∷ 0 ∷ 0 ∷ 0 ∷ 128 ∷ 0 ∷ 0 ∷ []) 1)
    ≡ pos (1000000000000000 - setback) ∷ []
unfolding session_parse_events parse_from read_event read_text next_timestamp magnitude
    little_endian clamp_length event_type c_string ◌+ℤ◌
least_difference = refl

session_parse_events-InOrder_example :
    InOrder base_timestamp (session_parse_events (codes "0123456789abcdefgh") 3)
    × (length (session_parse_events (codes "0123456789abcdefgh") 3) ≤ 3)
session_parse_events-InOrder_example =
    session_parse_events-InOrder (codes "0123456789abcdefgh") 3 (ground arith)

-- Two visits an hour apart, the later one first as the sort leaves them.
abbrev visits : List HistoryEntry
visits =
    record {
      url = codes "https://b.org/x";
      title = codes "B";
      visit_count = pos 2;
      typed_count = pos 0;
      last_visit_time = [];
      last_visit_raw = pos 3700000000;
    }
    ∷ record {
      url = codes "https://a.org/";
      title = codes "A";
      visit_count = pos 1;
      typed_count = pos 1;
      last_visit_time = [];
      last_visit_raw = pos 1000;
    }
    ∷ []

abbrev no_stats : Stats
no_stats = record {
  total_sessions = 0;
  total_pages = 0;
  total_seconds = 0;
  total_tabs = 0;
  longest_session_idx = 0;
  most_tabs_session_idx = 0;
}

abbrev processed : SessionTracker
processed = process_entries (λ n. plenty) visits session_tracker_create

abbrev analyzed : SessionTracker
analyzed = record processed { current_session = map_current finalize processed.current_session }

analyzed_visits :
    session_tracker_analyze (λ es. es) true (λ n. plenty) session_tracker_create no_stats visits
    ≡ some (analyzed, compute_stats (sessions analyzed) no_stats)
unfolding session_tracker_analyze
analyzed_visits = refl

session_tracker_analyze-IsTracker_example :
    IsTracker analyzed
    × (compute_stats (sessions analyzed) no_stats ≡ compute_stats (sessions analyzed) no_stats)
session_tracker_analyze-IsTracker_example =
    session_tracker_analyze-IsTracker (λ es. es) true (λ n. plenty) session_tracker_create no_stats
      visits session_tracker_create-IsTracker analyzed_visits

abbrev two_sessions : List Session
two_sessions = hurried ∷ record hurried { max_concurrent_tabs = 3; page_count = 2 } ∷ []

compute_stats-totals_example :
    ((compute_stats two_sessions no_stats).total_sessions ≡ length two_sessions)
    × ((compute_stats two_sessions no_stats).total_pages ≡ sum_pages two_sessions)
    × ((compute_stats two_sessions no_stats).total_tabs ≡ sum_tabs two_sessions)
    × ((AllBelow 0 two_sessions
          × ((compute_stats two_sessions no_stats).most_tabs_session_idx
              ≡ no_stats.most_tabs_session_idx))
        ⊎ (((compute_stats two_sessions no_stats).most_tabs_session_idx < length two_sessions)
            × (0 < tabs_at (compute_stats two_sessions no_stats).most_tabs_session_idx two_sessions)
            × AllBelow
                (tabs_at (compute_stats two_sessions no_stats).most_tabs_session_idx two_sessions)
                two_sessions))
compute_stats-totals_example = compute_stats-totals two_sessions no_stats (omega arith)
