-- ===== src/Session/Store/Invariant.antt =====
-- c/session_tracker.c: what holds of a session between two events.
use browserhistory.Prelude.{
  ℕ, ◌≤◌, ◌<◌, ◌≡◌, refl, ◌∙◌, ◌⊎◌, inl, inr, true, Option, some, List, [], ◌∷◌, ◌++◌, arith,
  Option-cases, length-append,
}
use browserhistory.Prelude.Int.{ℤ, pos, minus_one, is_positive}
use browserhistory.Session.Store.Lookup.{
  open_at-update_other, count_active-deactivate, deactivate, Numbered-suc, All, Numbered, KeepsId,
  KeepsOpen, open_at, Numbered-le, Numbered-concat, update_tab-Numbered, length-update_tab,
  update_tab-All, count_active-update_tab, open_at-update_tab, count_active-le, last_active-open,
  open_at-concat, open_at_new, All-concat,
}
use browserhistory.Session.Store.{
  Session, max_tabs, tab_count, session_create, update_tab, count_active, reserve_tab, append_tab,
  session_add_tab, last_active, session_close_tab,
}
use browserhistory.Session.Tab.Invariant.{IsTab, tab_create-IsTab}
use browserhistory.Session.Tab.{Alloc, TabContext, tab_create}

-- The active tab, if there is one, is an open tab of the session.
abbrev pub ActiveOpen : ℤ → List TabContext → Type 0
ActiveOpen id ts = (id ≡ minus_one) ⊎ ((is_positive id ≡ true) × (open_at ts id ≡ true))

pub record IsSession (s : Session) : Type 0 where
  pub capacity_pos : 8 ≤ s.tab_capacity
  pub capacity_max : s.tab_capacity ≤ max_tabs
  pub count_fits : tab_count s ≤ s.tab_capacity
  pub ordered : s.start_time ≤ s.end_time
  pub numbered : Numbered 1 s.tabs s.next_tab_id
  pub tabs_valid : All IsTab s.tabs
  pub concurrent_max : s.max_concurrent_tabs ≤ tab_count s
  pub concurrent_now : count_active s.tabs ≤ s.max_concurrent_tabs
  pub active_open : ActiveOpen s.active_tab_id s.tabs

pub session_create-IsSession : (id timestamp : ℕ) → IsSession (session_create id timestamp)
unfolding session_create count_active
session_create-IsSession id timestamp = ground arith

reserve_tab-IsSession :
    (m : Alloc) (s r : Session)
    → IsSession s
    → reserve_tab m s ≡ some r
    → IsSession r
      × (tab_count r < r.tab_capacity)
      × ((r.end_time ≡ s.end_time)
          × (r.start_time ≡ s.start_time)
          × (r.state ≡ s.state)
          × (r.session_id ≡ s.session_id))
unfolding reserve_tab
reserve_tab-IsSession m s r h e = ground arith

append_tab-IsSession :
    (m : Alloc) (timestamp : ℕ) (s : Session)
    → IsSession s
    → tab_count s < s.tab_capacity
    → IsSession (append_tab m timestamp s).0
unfolding append_tab tab_create
append_tab-IsSession m timestamp s h k =
    let t = tab_create s.next_tab_id timestamp in
    ground (
      arith,
      Numbered-concat 1 s.tabs t s.next_tab_id h.numbered refl,
      Numbered-suc 1 s.tabs s.next_tab_id h.numbered,
      All-concat s.tabs t h.tabs_valid (tab_create-IsTab s.next_tab_id timestamp),
      count_active-le (s.tabs ++ t ∷ []),
      length-append s.tabs (t ∷ []),
      open_at-concat s.tabs t s.active_tab_id,
    )

-- What an event may do to the tabs, the counters and the active tab, seen from the times.
pub record Added (s r : Session) (id : Option ℕ) : Type 0 where
  pub valid : IsSession r
  pub same_end : r.end_time ≡ s.end_time
  pub same_start : r.start_time ≡ s.start_time
  pub same_state : r.state ≡ s.state
  pub same_id : r.session_id ≡ s.session_id
  pub opened : (n : ℕ) → id ≡ some n → (1 ≤ n) × (open_at r.tabs (pos n) ≡ true)

append_tab-Added :
    (m : Alloc) (timestamp : ℕ) (s : Session)
    → IsSession s
    → tab_count s < s.tab_capacity
    → Added s (append_tab m timestamp s).0 (append_tab m timestamp s).1
append_tab-Added m timestamp s h k = record {
  valid = append_tab-IsSession m timestamp s h k;
  same_end = unfold append_tab in ground arith;
  same_start = unfold append_tab in ground arith;
  same_state = unfold append_tab in ground arith;
  same_id = unfold append_tab in ground arith;
  opened = λ n e.
      unfold append_tab tab_create in
      let t = tab_create s.next_tab_id timestamp in
      ground (
        arith,
        open_at_new 1 s.tabs t s.next_tab_id h.numbered refl,
        Numbered-le 1 s.tabs s.next_tab_id h.numbered,
      );
}

pub session_add_tab-Added :
    (m : Alloc) (s : Session) (timestamp : ℕ)
    → IsSession s
    → Added s (session_add_tab m s timestamp).0 (session_add_tab m s timestamp).1
unfolding session_add_tab
session_add_tab-Added m s timestamp h = elim (Option-cases (reserve_tab m s)) [
  | inl e ↦
      rw (e, session_add_tab)
        (record {
          valid = h;
          same_end = refl;
          same_start = refl;
          same_state = refl;
          same_id = refl;
          opened = λ n e. cc;
        })
  | inr (r, e) ↦
      let (valid, room, times) = reserve_tab-IsSession m s r h e in
      let a = append_tab-Added m timestamp r valid room in
      rw (e, session_add_tab)
        (record {
          valid = a.valid;
          same_end = a.same_end ∙ times.0;
          same_start = a.same_start ∙ times.1;
          same_state = a.same_state ∙ times.2;
          same_id = a.same_id ∙ times.3;
          opened = a.opened;
        })
]

pub update_tab-IsSession :
    (f : TabContext → TabContext) (id : ℤ) (s : Session)
    → KeepsId f
    → KeepsOpen f
    → ((t : TabContext) → IsTab t → IsTab (f t))
    → IsSession s
    → IsSession (record s { tabs = update_tab id f s.tabs })
update_tab-IsSession f id s k o v h = ground (
  arith,
  update_tab-Numbered f id 1 s.tabs s.next_tab_id k h.numbered,
  length-update_tab f id s.tabs,
  update_tab-All f id s.tabs v h.tabs_valid,
  count_active-update_tab f id s.tabs o,
  open_at-update_tab f id s.active_tab_id s.tabs k o,
)

deactivate-IsTab : (t : TabContext) → IsTab t → IsTab (deactivate t)
deactivate-IsTab t v = ground arith

pub session_close_tab-IsSession :
    (s : Session) (n : ℕ) → 1 ≤ n → IsSession s → IsSession (session_close_tab s n)
unfolding session_close_tab
session_close_tab-IsSession s n p h =
    let ts = update_tab (pos n) deactivate s.tabs in
    let numbered =
      update_tab-Numbered deactivate (pos n) 1 s.tabs s.next_tab_id (λ t. refl) h.numbered in
    let valid =
      update_tab-All deactivate (pos n) s.tabs (λ t v. deactivate-IsTab t v) h.tabs_valid in
    elim (Option-cases (last_active ts)) [
      | inl e ↦ ground (
        arith,
        e,
        numbered,
        valid,
        length-update_tab deactivate (pos n) s.tabs,
        count_active-deactivate (pos n) s.tabs,
        open_at-update_other deactivate n s.active_tab_id s.tabs (λ t. refl),
      )
      | inr (j, e) ↦ ground (
        arith,
        e,
        numbered,
        valid,
        length-update_tab deactivate (pos n) s.tabs,
        count_active-deactivate (pos n) s.tabs,
        last_active-open 1 ts s.next_tab_id j numbered e,
        open_at-update_other deactivate n s.active_tab_id s.tabs (λ t. refl),
      )
    ]
