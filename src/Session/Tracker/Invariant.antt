-- ===== src/Session/Tracker/Invariant.antt =====
-- c/session_tracker.c: what holds of the tracker after every event, whichever allocations fail.
use browserhistory.Prelude.{
  ℕ, ◌+◌, ◌≤◌, ◌≡◌, refl, ◌∙◌, inl, inr, true, [], arith, Bool-cases, Option-cases,
}
use browserhistory.Prelude.Int.{ℤ, pos, is_positive}
use browserhistory.Prelude.Text.{Bytes, is_nonempty}
use browserhistory.Session.Store.Lookup.{KeepsId, KeepsOpen, open_at, open_at-positive}
use browserhistory.Session.Store.Invariant.{
  IsSession, session_add_tab-Added, update_tab-IsSession, session_close_tab-IsSession,
}
use browserhistory.Session.Store.{
  is_open, Session, TabEvent, TabEventType, open_tab, close_tab, navigate, switch_tab, reload,
  go_back, go_forward, find_tab, session_add_tab, session_close_tab,
}
use browserhistory.Session.Tab.Invariant.{IsTab, navigation-IsTab}
use browserhistory.Session.Tab.{Alloc, TabContext, tab_navigate, tab_go_back, tab_go_forward}
use browserhistory.Session.Tracker.{
  open_in_new_tab, load_page, on_navigate, on_close, close_target, on_switch, in_active_tab,
  dispatch, active_tab,
}

-- What the switch of `session_tracker_process_event` keeps of a session.
pub record Kept (s r : Session) : Type 0 where
  pub valid : IsSession r
  pub same_end : r.end_time ≡ s.end_time
  pub same_start : r.start_time ≡ s.start_time
  pub same_state : r.state ≡ s.state
  pub same_id : r.session_id ≡ s.session_id

tab_navigate-keeps :
    (m : Alloc) (url title : Bytes) (t : TabContext)
    → ((tab_navigate m t url title).0.tab_id ≡ t.tab_id)
      × ((tab_navigate m t url title).0.is_active ≡ t.is_active)
unfolding tab_navigate
tab_navigate-keeps m url title t = ground arith

tab_go-keeps :
    (t : TabContext)
    → ((tab_go_back t).0.tab_id ≡ t.tab_id)
      × ((tab_go_back t).0.is_active ≡ t.is_active)
      × ((tab_go_forward t).0.tab_id ≡ t.tab_id)
      × ((tab_go_forward t).0.is_active ≡ t.is_active)
unfolding tab_go_back tab_go_forward
tab_go-keeps t = ground arith

touched-IsTab :
    (t : TabContext) (n k : ℕ) → IsTab t → IsTab (record t { last_activity = n; page_loads = k })
touched-IsTab t n k h = ground arith

load_page-Kept :
    (m : Alloc) (timestamp : ℕ) (event : TabEvent) (id : ℤ) (s : Session)
    → IsSession s
    → Kept s (load_page m timestamp event id s)
unfolding load_page
load_page-Kept m timestamp event id s h = elim (Bool-cases (is_nonempty event.url)) [
  | inl e ↦ rw e (record {
    valid = counted (
        update_tab-IsSession visit id s (λ t. (tab_navigate-keeps m event.url event.title t).0)
          (λ t. (tab_navigate-keeps m event.url event.title t).1)
          (λ t v.
            touched-IsTab (tab_navigate m t event.url event.title).0 timestamp _
              (navigation-IsTab m event.url event.title t v).0)
          h);
    same_end = refl;
    same_start = refl;
    same_state = refl;
    same_id = refl;
  })
  | inr e ↦
      rw e (record {
        valid = h;
        same_end = refl;
        same_start = refl;
        same_state = refl;
        same_id = refl;
      })
]
  where
    visit : TabContext → TabContext
    visit t = record (tab_navigate m t event.url event.title).0 { last_activity = timestamp }

    counted : {r : Session} → IsSession r → IsSession (record r { page_count = s.page_count + 1 })
    counted v = ground arith

open_in_new_tab-Kept :
    (m : Alloc) (timestamp : ℕ) (event : TabEvent) (s : Session)
    → IsSession s
    → Kept s (open_in_new_tab m timestamp event s).0
unfolding open_in_new_tab
open_in_new_tab-Kept m timestamp event s h =
    let added = (session_add_tab m s timestamp).0 in
    let a = session_add_tab-Added m s timestamp h in
    elim (Option-cases (session_add_tab m s timestamp).1) [
      | inl e ↦
          rw (e, open_in_new_tab)
            (record {
              valid = a.valid;
              same_end = a.same_end;
              same_start = a.same_start;
              same_state = a.same_state;
              same_id = a.same_id;
            })
      | inr (n, e) ↦
          let shown = active_at added n a.valid (a.opened n e) in
          let k =
            load_page-Kept m timestamp event (pos n) (record added { active_tab_id = pos n })
              shown in
          rw (e, open_in_new_tab)
            (record {
              valid = k.valid;
              same_end = k.same_end ∙ a.same_end;
              same_start = k.same_start ∙ a.same_start;
              same_state = k.same_state ∙ a.same_state;
              same_id = k.same_id ∙ a.same_id;
            })
    ]
  where
    active_at :
        (r : Session) (n : ℕ)
        → IsSession r
        → (1 ≤ n) × (open_at r.tabs (pos n) ≡ true)
        → IsSession (record r { active_tab_id = pos n })
    active_at r n v o = ground arith

on_navigate-Kept :
    (m : Alloc) (timestamp : ℕ) (event : TabEvent) (s : Session)
    → IsSession s
    → Kept s (on_navigate m timestamp event s).0
unfolding on_navigate
on_navigate-Kept m timestamp event s h = elim (Bool-cases (is_open (active_tab s))) [
  | inl e ↦ rw e (load_page-Kept m timestamp event s.active_tab_id s h)
  | inr e ↦ rw e (open_in_new_tab-Kept m timestamp event s h)
]

on_close-Kept : (event : TabEvent) (s : Session) → IsSession s → Kept s (on_close event s)
unfolding on_close
on_close-Kept event s h = elim (Bool-cases (is_positive (close_target event.tab_id s))) [
  | inl e ↦ rw e (record {
    valid = session_close_tab-IsSession s _ (ground arith) h;
    same_end = unfold session_close_tab in ground arith;
    same_start = unfold session_close_tab in ground arith;
    same_state = unfold session_close_tab in ground arith;
    same_id = unfold session_close_tab in ground arith;
  })
  | inr e ↦
      rw e (record {
        valid = h;
        same_end = refl;
        same_start = refl;
        same_state = refl;
        same_id = refl;
      })
]

on_switch-Kept :
    (timestamp : ℕ) (event : TabEvent) (s : Session)
    → IsSession s
    → Kept s (on_switch timestamp event s)
unfolding on_switch
on_switch-Kept timestamp event s h = elim (Bool-cases (is_open (find_tab s.tabs event.tab_id))) [
  | inl e ↦
      let visited = switched s event.tab_id s.active_tab_id h e in
      rw e (record {
        valid =
            update_tab-IsSession touch event.tab_id _ (λ t. refl) (λ t. refl)
              (λ t v. touched-IsTab t timestamp t.page_loads v) visited;
        same_end = refl;
        same_start = refl;
        same_state = refl;
        same_id = refl;
      })
  | inr e ↦
      rw e (record {
        valid = h;
        same_end = refl;
        same_start = refl;
        same_state = refl;
        same_id = refl;
      })
]
  where
    touch : TabContext → TabContext
    touch t = record t { last_activity = timestamp }

    switched :
        (r : Session) (id old : ℤ)
        → IsSession r
        → open_at r.tabs id ≡ true
        → IsSession (record r { active_tab_id = id; tab_switches = r.tab_switches + 1 })
    switched r id old v o = ground (arith, open_at-positive r.tabs r.next_tab_id id v.numbered o)

in_active_tab-Kept :
    (timestamp : ℕ) (f : TabContext → TabContext) (pages : ℕ) (s : Session)
    → KeepsId f
    → KeepsOpen f
    → ((t : TabContext) → IsTab t → IsTab (f t))
    → IsSession s
    → Kept s (in_active_tab timestamp f pages s)
unfolding in_active_tab
in_active_tab-Kept timestamp f pages s k o v h = elim (Bool-cases (is_open (active_tab s))) [
  | inl e ↦ rw e (record {
    valid = counted (
        update_tab-IsSession step s.active_tab_id s k o
          (λ t w. touched-IsTab (f t) timestamp (f t).page_loads (v t w)) h);
    same_end = refl;
    same_start = refl;
    same_state = refl;
    same_id = refl;
  })
  | inr e ↦
      rw e (record {
        valid = h;
        same_end = refl;
        same_start = refl;
        same_state = refl;
        same_id = refl;
      })
]
  where
    step : TabContext → TabContext
    step t = record (f t) { last_activity = timestamp }

    counted :
        {r : Session} → IsSession r → IsSession (record r { page_count = s.page_count + pages })
    counted w = ground arith

-- The switch on the event's type keeps a session well formed, and leaves its times and state alone.
pub dispatch-Kept :
    (type : TabEventType) (m : Alloc) (timestamp : ℕ) (event : TabEvent) (s : Session)
    → IsSession s
    → Kept s (dispatch type m timestamp event s).0
unfolding dispatch
dispatch-Kept open_tab m timestamp event s h = open_in_new_tab-Kept m timestamp event s h
dispatch-Kept close_tab m timestamp event s h = on_close-Kept event s h
dispatch-Kept navigate m timestamp event s h = on_navigate-Kept m timestamp event s h
dispatch-Kept switch_tab m timestamp event s h = on_switch-Kept timestamp event s h
dispatch-Kept reload m timestamp event s h =
    in_active_tab-Kept timestamp _ 1 s (λ t. refl) (λ t. refl)
      (λ t v. touched-IsTab t t.last_activity (t.page_loads + 1) v) h
dispatch-Kept go_back m timestamp event s h =
    in_active_tab-Kept timestamp _ 0 s (λ t. (tab_go-keeps t).0) (λ t. (tab_go-keeps t).1)
      (λ t v. (navigation-IsTab m [] [] t v).1) h
dispatch-Kept go_forward m timestamp event s h =
    in_active_tab-Kept timestamp _ 0 s (λ t. (tab_go-keeps t).2) (λ t. (tab_go-keeps t).3)
      (λ t v. (navigation-IsTab m [] [] t v).2) h
