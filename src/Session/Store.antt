-- ===== src/Session/Store.antt =====
-- c/session_tracker.c, session management and state machine: a session with its tabs.
-- Times are microseconds; a difference of two times is compared without the subtraction.
pub mod Lookup
pub mod Invariant
use browserhistory.Prelude.Int.{ℤ, pos, minus_one, is_nat}
use browserhistory.Prelude.Text.{Bytes}
use browserhistory.Prelude.{
  true, Bool, ℕ, ◌+◌, ◌*◌, false, ◌&&◌, List, [], ◌∷◌, ◌++◌, Option, none, some, if◌then◌else◌, leb,
  ltb, ◌==◌, length,
}
use browserhistory.Session.Tab.{Alloc, TabContext, tab_create, grown_capacity}

abbrev pub max_tabs : ℕ
max_tabs = 64

-- SESSION_GAP_SECONDS in microseconds
abbrev pub gap_us : ℕ
gap_us = 1800 * 1000000

pub data SessionState : Type 0 where
  idle active deep_browse rapid_fire : SessionState

unfoldable pub same_state : SessionState → SessionState → Bool
same_state idle idle = true
same_state active active = true
same_state deep_browse deep_browse = true
same_state rapid_fire rapid_fire = true
same_state _ _ = false

pub data TabEventType : Type 0 where
  open_tab close_tab navigate switch_tab reload go_back go_forward : TabEventType

pub record TabEvent : Type 0 where
  pub type : TabEventType
  pub tab_id : ℤ
  pub url : Bytes
  pub title : Bytes
  pub timestamp : ℤ

-- `transitions` counts the changes from one state to another. `duration_seconds` stands for
-- `duration_minutes`, 60 times that float.
pub record Session : Type 0 where
  pub session_id : ℕ
  pub start_time : ℕ
  pub end_time : ℕ
  pub state : SessionState
  pub tabs : List TabContext
  pub tab_capacity : ℕ
  pub active_tab_id : ℤ
  pub next_tab_id : ℕ
  pub page_count : ℕ
  pub tab_switches : ℕ
  pub max_concurrent_tabs : ℕ
  pub duration_seconds : ℕ
  pub transitions : SessionState → SessionState → ℕ

abbrev pub tab_count : Session → ℕ
tab_count s = length s.tabs

unfoldable pub session_create : ℕ → ℕ → Session
session_create id timestamp = record {
  session_id = id;
  start_time = timestamp;
  end_time = timestamp;
  state = active;
  tabs = [];
  tab_capacity = 8;
  active_tab_id = minus_one;
  next_tab_id = 1;
  page_count = 0;
  tab_switches = 0;
  max_concurrent_tabs = 0;
  duration_seconds = 0;
  transitions = λ from to. 0;
}

unfoldable pub find_tab : List TabContext → ℤ → Option TabContext
find_tab [] id = none
find_tab (t ∷ ts) id = if is_nat id t.tab_id then some t else find_tab ts id

abbrev pub is_open : Option TabContext → Bool
is_open none = false
is_open (some t) = t.is_active

-- The write of a tab through the pointer that `session_find_tab` returned.
unfoldable pub update_tab : ℤ → (TabContext → TabContext) → List TabContext → List TabContext
update_tab id f [] = []
update_tab id f (t ∷ ts) = if is_nat id t.tab_id then f t ∷ ts else t ∷ update_tab id f ts

unfoldable pub count_active : List TabContext → ℕ
count_active [] = 0
count_active (t ∷ ts) = (if t.is_active then 1 else 0) + count_active ts

-- The array has room for one more tab, or could not get it.
unfoldable pub reserve_tab : Alloc → Session → Option Session
unfolding grown_capacity
reserve_tab m s =
    let capacity = grown_capacity max_tabs s.tab_capacity in
    if leb s.tab_capacity (tab_count s)
    then if leb capacity (tab_count s)
      then none
      else if m.grow_tabs
      then some (record s { tab_capacity = capacity })
      else none
    else some s

-- The new tab's id is used up also where the tab cannot be allocated.
unfoldable pub append_tab : Alloc → ℕ → Session → Session × Option ℕ
append_tab m timestamp s =
    let numbered = record s { next_tab_id = s.next_tab_id + 1 } in
    let tabs = s.tabs ++ tab_create s.next_tab_id timestamp ∷ [] in
    let running = count_active tabs in
    if m.new_tab
    then (
      record numbered {
        tabs = tabs;
        max_concurrent_tabs =
            if ltb s.max_concurrent_tabs running then running else s.max_concurrent_tabs;
      },
      some s.next_tab_id,
    )
    else (numbered, none)

-- The answer is the id of the new tab.
unfoldable pub session_add_tab : Alloc → Session → ℕ → Session × Option ℕ
session_add_tab m s timestamp = elim (reserve_tab m s) [
  | none ↦ (s, none)
  | some reserved ↦ append_tab m timestamp reserved
]

-- The id of the last tab of the array that is active.
unfoldable pub last_active : List TabContext → Option ℕ
last_active [] = none
last_active (t ∷ ts) = elim (last_active ts) [
  | some id ↦ some id
  | none ↦ if t.is_active then some t.tab_id else none
]

abbrev pub id_or_minus_one : Option ℕ → ℤ
id_or_minus_one none = minus_one
id_or_minus_one (some id) = pos id

unfoldable pub session_close_tab : Session → ℕ → Session
session_close_tab s id = elim (find_tab s.tabs (pos id)) [
  | none ↦ s
  | some _ ↦
      let tabs = update_tab (pos id) (λ t. record t { is_active = false }) s.tabs in
      if is_nat s.active_tab_id id
      then record s { tabs = tabs; active_tab_id = id_or_minus_one (last_active tabs) }
      else record s { tabs = tabs }
]

by_activity : SessionState → TabEventType → Session → ℕ → SessionState
by_activity idle open_tab s timestamp = active
by_activity idle navigate s timestamp = active
by_activity active event s timestamp =
    if s.tab_switches == 0 && ltb 3 s.page_count
    then deep_browse
    else if ltb 5 s.tab_switches && ltb timestamp (s.end_time + 60000000)
    then rapid_fire
    else active
by_activity deep_browse switch_tab s timestamp = active
by_activity rapid_fire event s timestamp =
    if ltb (s.end_time + 30000000) timestamp then active else rapid_fire
by_activity state event s timestamp = state

unfoldable pub compute_state_transition : Session → ℕ → TabEventType → SessionState
unfolding by_activity
compute_state_transition s timestamp event =
    if ltb (s.end_time + gap_us) timestamp then idle else by_activity s.state event s timestamp
