-- ===== src/Session/Tab/History.antt =====
-- c/session_tracker.c: a tab as a browser's history, the pages up to the one shown and those ahead.
use browserhistory.Prelude.{
  ◌⊎◌, ℕ, suc, ◌+◌, ◌-◌, ◌≤◌, ◌<◌, ◌≡◌, refl, sym, ◌∙◌, true, false, List, [], ◌∷◌, ◌++◌, arith,
  length, take, drop, get_or, length-take, length-drop, length-append, take-eq_self, drop-eq_nil,
  take-suc, drop-suc, get_or-length, get_or-append, get_or-take, drop-append, get_or-drop,
}
use browserhistory.Prelude.Int.{ℤ, pos, negsuc}
use browserhistory.Prelude.Text.{Bytes, copy_into}
use browserhistory.Session.Tab.Invariant.{IsTab, truncated-IsTab}
use browserhistory.Session.Tab.{
  Alloc, TabContext, max_chain, url_size, nav_count, next_position, truncate_forward, make_room,
  push_entry, tab_navigate, tab_go_back, tab_go_forward,
}

pub record Pages : Type 0 where
  pub shown : List Bytes
  pub ahead : List Bytes

abbrev pub view : TabContext → Pages
view t = record {
  shown = take (next_position t.nav_position) t.nav_history;
  ahead = drop (next_position t.nav_position) t.nav_history;
}

abbrev pub keep_last : ℕ → List Bytes → List Bytes
keep_last n l = drop (length l - n) l

-- A visited page is the last one shown; no page is ahead of it, and the oldest may be forgotten.
abbrev pub visit : Bytes → Pages → Pages
visit url p = record { shown = keep_last max_chain (p.shown ++ url ∷ []); ahead = [] }

-- The entry at the position is the page that the tab shows.
pub record IsSynced (t : TabContext) : Type 0 where
  pub in_history : next_position t.nav_position ≤ nav_count t
  pub started : next_position t.nav_position ≡ 0 → t.nav_history ≡ []
  pub shows :
      0 < next_position t.nav_position
      → t.current_url
        ≡ copy_into url_size (get_or t.nav_history (next_position t.nav_position - 1) [])

abbrev pub Allocates : Alloc → Type 0
Allocates m = (m.grow_history ≡ true) × (m.copy_url ≡ true)

truncate_forward-view :
    (n : ℤ) (h : List Bytes)
    → next_position n ≤ length h
    → (next_position n ≡ 0 → h ≡ [])
    → truncate_forward n h ≡ take (next_position n) h
unfolding truncate_forward
truncate_forward-view (pos p) h b s = ground (arith, take-eq_self (p + 1) h)
truncate_forward-view (negsuc p) h b s = s refl

make_room-history :
    (m : Alloc) (t : TabContext)
    → IsTab t
    → m.grow_history ≡ true
    → ((make_room m t).1 ≡ true)
      × ((make_room m t).0.nav_history ≡ keep_last 127 t.nav_history)
      × ((make_room m t).0.current_url ≡ t.current_url)
unfolding make_room
make_room-history m t h e = ground (arith)

keep_last-concat :
    (l : List Bytes) (url : Bytes)
    → length l ≤ 128
    → keep_last 127 l ++ url ∷ [] ≡ keep_last 128 (l ++ url ∷ [])
keep_last-concat l url h =
    let e : length (l ++ url ∷ []) - 128 ≡ length l - 127 =
      omega (arith, length-append l (url ∷ [])) in
    sym (rw e (drop-append (length l - 127) l (url ∷ []) (omega arith)))

push_entry-view :
    (m : Alloc) (url title : Bytes) (t : TabContext)
    → m.copy_url ≡ true
    → ((push_entry m url title t).1 ≡ true)
      × (view (push_entry m url title t).0
          ≡ record { shown = t.nav_history ++ url ∷ []; ahead = [] })
      × IsSynced (push_entry m url title t).0
      × ((push_entry m url title t).0.nav_history ≡ t.nav_history ++ url ∷ [])
      × ((push_entry m url title t).0.nav_position ≡ pos (nav_count t))
      × ((push_entry m url title t).0.current_url ≡ copy_into url_size url)
unfolding push_entry
push_entry-view m url title t e =
    let full = length-append t.nav_history (url ∷ []) in
    let all = take-eq_self (nav_count t + 1) (t.nav_history ++ url ∷ []) (omega (arith, full)) in
    let none_left =
      drop-eq_nil (nav_count t + 1) (t.nav_history ++ url ∷ []) (omega (arith, full)) in
    let last = get_or-length t.nav_history [] url [] in ground (arith, full, all, none_left, last)

-- A visit with all allocations made, in the parts that the laws below use.
record Visited (m : Alloc) (t : TabContext) (url title : Bytes) : Type 0 where
  fits : (tab_navigate m t url title).1 ≡ true
  history :
      (tab_navigate m t url title).0.nav_history ≡ keep_last max_chain ((view t).shown ++ url ∷ [])
  seen : view (tab_navigate m t url title).0 ≡ visit url (view t)
  synced : IsSynced (tab_navigate m t url title).0
  page : (tab_navigate m t url title).0.current_url ≡ copy_into url_size url
  position :
      next_position (tab_navigate m t url title).0.nav_position
      ≡ length (keep_last max_chain ((view t).shown ++ url ∷ []))

navigate-Visited :
    (m : Alloc) (t : TabContext) (url title : Bytes)
    → Allocates m
    → IsTab t
    → IsSynced t
    → Visited m t url title
unfolding tab_navigate
navigate-Visited m t url title a h s =
    let cut = record t { nav_history = truncate_forward t.nav_position t.nav_history } in
    let kept = truncate_forward-view t.nav_position t.nav_history s.in_history s.started in
    let room = make_room-history m cut (truncated-IsTab t h) a.0 in
    let pushed = push_entry-view m url title (make_room m cut).0 a.1 in
    let short =
      keep_last-concat (view t).shown url
        (omega (arith, length-take (next_position t.nav_position) t.nav_history)) in
    let grown = length-append (make_room m cut).0.nav_history (url ∷ []) in
    ground (arith, kept, room, pushed, short, grown)

-- If memory suffices, a navigation in a well-formed tab that shows its entry is a visit: the new
-- page follows those up to the one shown, the pages ahead are gone, all but the last 128 pages are
-- forgotten, and the tab shows the new page.
pub tab_navigate-visit :
    (m : Alloc) (t : TabContext) (url title : Bytes)
    → Allocates m
    → IsTab t
    → IsSynced t
    → ((tab_navigate m t url title).1 ≡ true)
      × (view (tab_navigate m t url title).0 ≡ visit url (view t))
      × IsSynced (tab_navigate m t url title).0
tab_navigate-visit m t url title a h s =
    let v = navigate-Visited m t url title a h s in (v.fits, v.seen, v.synced)

-- The entry of the page that is shown, and that of the page next ahead.
abbrev pub entry_before : TabContext → Bytes
entry_before t = get_or t.nav_history (next_position t.nav_position - 1) []

abbrev pub entry_at : TabContext → Bytes
entry_at t = get_or t.nav_history (next_position t.nav_position) []

-- Going back in a tab that shows its entry moves one page from those shown to those ahead, if at
-- least two are shown; else it fails and changes nothing. The tab then shows its entry again.
pub tab_go_back-view :
    (t : TabContext)
    → IsSynced t
    → IsSynced (tab_go_back t).0
      × ((length (view t).shown ≤ 1) × (tab_go_back t ≡ (t, false))
          ⊎ ((tab_go_back t).1 ≡ true)
            × (2 ≤ length (view t).shown)
            × ((view t).shown ≡ (view (tab_go_back t).0).shown ++ entry_before t ∷ [])
            × ((view (tab_go_back t).0).ahead ≡ entry_before t ∷ (view t).ahead))
unfolding tab_go_back
tab_go_back-view t s =
    let h = t.nav_history in
    let p = next_position t.nav_position - 2 in
    let n = length-take (next_position t.nav_position) h in
    (ground arith, ground (arith, n, take-suc (suc p) h [], drop-suc (suc p) h []))

-- Going forward in a tab that shows its entry moves one page from those ahead to those shown, if
-- there is one; else it fails and changes nothing. The tab then shows its entry again.
pub tab_go_forward-view :
    (t : TabContext)
    → IsSynced t
    → IsSynced (tab_go_forward t).0
      × (((view t).ahead ≡ []) × (tab_go_forward t ≡ (t, false))
          ⊎ ((tab_go_forward t).1 ≡ true)
            × ((view (tab_go_forward t).0).shown ≡ (view t).shown ++ entry_at t ∷ [])
            × ((view t).ahead ≡ entry_at t ∷ (view (tab_go_forward t).0).ahead))
unfolding tab_go_forward
tab_go_forward-view t s =
    let p = next_position t.nav_position in
    let h = t.nav_history in
    (ground arith, ground (arith, drop-eq_nil p h, take-suc p h [], drop-suc p h []))

visited_before :
    (l : List Bytes) (url : Bytes)
    → 0 < length l
    → length l ≤ 128
    → get_or (keep_last 128 (l ++ url ∷ [])) (length (keep_last 128 (l ++ url ∷ [])) - 2) []
      ≡ get_or l (length l - 1) []
visited_before l url a b =
    let k = length (l ++ url ∷ []) - 128 in
    let i = length (keep_last 128 (l ++ url ∷ [])) - 2 in
    let n = length-append l (url ∷ []) in
    let d = length-drop k (l ++ url ∷ []) in
    let e : k + i ≡ length l - 1 = omega (arith, n, d) in
    get_or-drop k i (l ++ url ∷ []) []
    ∙ rw e (get_or-append (length l - 1) l (url ∷ []) [] (omega arith))

forward-back :
    (v : TabContext)
    → IsSynced v
    → 2 ≤ next_position v.nav_position
    → let back = (tab_go_back v).0 in
      let again = (tab_go_forward back).0 in
      (back.current_url
        ≡ copy_into url_size (get_or v.nav_history (next_position v.nav_position - 2) []))
      × (again.current_url ≡ v.current_url)
      × (view again ≡ view v)
unfolding tab_go_back tab_go_forward
forward-back v s p = ground arith

-- If memory suffices and the tab is well formed and shows a page, its entry: back after a
-- navigation is that page again, and forward after it is the new page, with the pages that the
-- navigation left.
pub back_forward-navigate :
    (m : Alloc) (t : TabContext) (url title : Bytes)
    → Allocates m
    → IsTab t
    → IsSynced t
    → 0 < length (view t).shown
    → let visited = (tab_navigate m t url title).0 in
      let back = (tab_go_back visited).0 in
      let again = (tab_go_forward back).0 in
      (back.current_url ≡ t.current_url)
      × (again.current_url ≡ copy_into url_size url)
      × (view again ≡ view visited)
back_forward-navigate m t url title a h s p =
    let v = navigate-Visited m t url title a h s in
    let l = (view t).shown in
    let short = length-take (next_position t.nav_position) t.nav_history in
    let before = visited_before l url p (omega (arith, short)) in
    let last =
      get_or-take (next_position t.nav_position) (length l - 1) t.nav_history []
        (omega (arith, short)) in
    let k = length (l ++ url ∷ []) - 128 in
    let n = length-append l (url ∷ []) in
    let d = length-drop k (l ++ url ∷ []) in
    let f =
      forward-back (tab_navigate m t url title).0 v.synced (omega (arith, n, d, v.position)) in
    ground (arith, before, last, n, d, short, v.position, v.history, v.page, f)
