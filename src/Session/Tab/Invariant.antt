-- ===== src/Session/Tab/Invariant.antt =====
-- c/session_tracker.c: what holds of a tab between two operations, whichever allocations fail.
use browserhistory.Prelude.{
  ℕ, ◌+◌, ◌≤◌, ◌<◌, ◌≡◌, true, List, [], ◌∷◌, arith, length, length-take, length-drop,
  length-append,
}
use browserhistory.Prelude.Int.{ℤ, pos, negsuc}
use browserhistory.Prelude.Text.{Bytes}
use browserhistory.Session.Tab.{
  Alloc, TabContext, max_chain, nav_count, next_position, tab_create, truncate_forward, make_room,
  push_entry, tab_navigate, tab_go_back, tab_go_forward,
}

-- The position may stand one past the end: an oldest entry was dropped for a page that could then
-- not be copied.
pub record IsTab (t : TabContext) : Type 0 where
  pub capacity_pos : 16 ≤ t.nav_capacity
  pub capacity_max : t.nav_capacity ≤ max_chain
  pub count_fits : nav_count t ≤ t.nav_capacity
  pub position_near : next_position t.nav_position ≤ nav_count t + 1
  pub position_fits : next_position t.nav_position ≤ t.nav_capacity

pub tab_create-IsTab : (id timestamp : ℕ) → IsTab (tab_create id timestamp)
unfolding tab_create
tab_create-IsTab id timestamp = ground arith

pub truncate_forward-length :
    (n : ℤ) (h : List Bytes)
    → (length (truncate_forward n h) ≤ length h)
      × (next_position n ≤ length h + 1 → next_position n ≤ length (truncate_forward n h) + 1)
unfolding truncate_forward
truncate_forward-length (pos p) h = ground (arith, length-take (p + 1) h)
truncate_forward-length (negsuc p) h = (omega arith, λ h. omega arith)

make_room-IsTab :
    (m : Alloc) (t : TabContext)
    → IsTab t
    → IsTab (make_room m t).0
      × ((make_room m t).1 ≡ true → nav_count (make_room m t).0 < (make_room m t).0.nav_capacity)
unfolding make_room
make_room-IsTab m t h = ground (arith, length-drop 1 t.nav_history)

push_entry-IsTab :
    (m : Alloc) (url title : Bytes) (t : TabContext)
    → IsTab t
    → nav_count t < t.nav_capacity
    → IsTab (push_entry m url title t).0
unfolding push_entry
push_entry-IsTab m url title t h k = ground (arith, length-append t.nav_history (url ∷ []))

pub truncated-IsTab :
    (t : TabContext)
    → IsTab t
    → IsTab (record t { nav_history = truncate_forward t.nav_position t.nav_history })
truncated-IsTab t h = ground (arith, truncate_forward-length t.nav_position t.nav_history)

-- Navigating, going back and going forward keep the bounds of a well-formed tab's history,
-- whichever allocations fail.
pub navigation-IsTab :
    (m : Alloc) (url title : Bytes) (t : TabContext)
    → IsTab t
    → IsTab (tab_navigate m t url title).0 × IsTab (tab_go_back t).0 × IsTab (tab_go_forward t).0
unfolding tab_navigate tab_go_back tab_go_forward
navigation-IsTab m url title t h = (navigated, ground arith, ground arith)
  where
    cut : TabContext
    cut = record t { nav_history = truncate_forward t.nav_position t.nav_history }

    navigated : IsTab (tab_navigate m t url title).0
    navigated = ground (
      arith,
      truncated-IsTab t h,
      make_room-IsTab m cut,
      push_entry-IsTab m url title (make_room m cut).0,
    )
