-- ===== src/Session/Tab.antt =====
-- c/session_tracker.c, tab context management: a tab with its navigation history. `nav_history`
-- lists the `nav_count` live entries of the C array; `nav_position` is -1 for no page.
pub mod Invariant
pub mod History
use browserhistory.Prelude.{
  ℕ, suc, ◌+◌, ◌*◌, Bool, true, false, List, [], ◌∷◌, ◌++◌, if◌then◌else◌, leb, ltb, length, take,
  drop, get_or,
}
use browserhistory.Prelude.Int.{ℤ, pos, negsuc, minus_one}
use browserhistory.Prelude.Text.{Bytes, copy_into}

abbrev pub max_chain : ℕ
max_chain = 128

abbrev pub url_size : ℕ
url_size = 2048

abbrev pub title_size : ℕ
title_size = 512

-- Which of the allocations that one event can ask for succeed.
pub record Alloc : Type 0 where
  pub grow_history : Bool
  pub copy_url : Bool
  pub grow_tabs : Bool
  pub new_tab : Bool
  pub grow_sessions : Bool
  pub new_session : Bool

pub record TabContext : Type 0 where
  pub tab_id : ℕ
  pub is_active : Bool
  pub current_url : Bytes
  pub current_title : Bytes
  pub opened_at : ℕ
  pub last_activity : ℕ
  pub nav_history : List Bytes
  pub nav_capacity : ℕ
  pub nav_position : ℤ
  pub referrer_url : Bytes
  pub page_loads : ℕ

abbrev pub nav_count : TabContext → ℕ
nav_count t = length t.nav_history

unfoldable pub tab_create : ℕ → ℕ → TabContext
tab_create id timestamp = record {
  tab_id = id;
  is_active = true;
  current_url = [];
  current_title = [];
  opened_at = timestamp;
  last_activity = timestamp;
  nav_history = [];
  nav_capacity = 16;
  nav_position = minus_one;
  referrer_url = [];
  page_loads = 0;
}

-- `nav_position >= 0 && nav_position < nav_count - 1`: the entries in front of the page are freed.
unfoldable pub truncate_forward : ℤ → List Bytes → List Bytes
truncate_forward (pos p) history =
    if ltb (p + 1) (length history) then take (p + 1) history else history
truncate_forward (negsuc _) history = history

-- The new capacity of a full history array.
unfoldable pub grown_capacity : ℕ → ℕ → ℕ
grown_capacity limit capacity = if ltb limit (capacity * 2) then limit else capacity * 2

-- Room for one more entry: the array grows, or at its limit the oldest entry is dropped. The
-- answer is false if the array could not be reallocated.
unfoldable pub make_room : Alloc → TabContext → TabContext × Bool
unfolding grown_capacity
make_room m t =
    let capacity = grown_capacity max_chain t.nav_capacity in
    if leb t.nav_capacity (nav_count t)
    then if leb capacity (nav_count t)
      then (record t { nav_history = drop 1 t.nav_history }, true)
      else if m.grow_history
      then (record t { nav_capacity = capacity }, true)
      else (t, false)
    else (t, true)

-- The entry is added and becomes the page; the answer is false if it could not be copied.
unfoldable pub push_entry : Alloc → Bytes → Bytes → TabContext → TabContext × Bool
push_entry m url title t =
    let referred = record t { referrer_url = copy_into url_size t.current_url } in
    if m.copy_url
    then (
      record referred {
        nav_history = t.nav_history ++ url ∷ [];
        nav_position = pos (nav_count t);
        current_url = copy_into url_size url;
        current_title = copy_into title_size title;
        page_loads = t.page_loads + 1;
      },
      true,
    )
    else (referred, false)

unfoldable pub tab_navigate : Alloc → TabContext → Bytes → Bytes → TabContext × Bool
unfolding truncate_forward make_room push_entry
tab_navigate m t url title =
    let truncated = record t { nav_history = truncate_forward t.nav_position t.nav_history } in
    let (roomy, grown) = make_room m truncated in
    if grown then push_entry m url title roomy else (roomy, false)

-- The page at a position of the history becomes the current one. The C code reads the array; the
-- empty text stands for a read out of its bounds.
unfoldable pub show_entry : ℕ → TabContext → TabContext
show_entry p t = record t {
  nav_position = pos p;
  referrer_url = copy_into url_size t.current_url;
  current_url = copy_into url_size (get_or t.nav_history p []);
}

go_back_from : ℤ → TabContext → TabContext × Bool
unfolding show_entry
go_back_from (pos (suc p)) t = (show_entry p t, true)
go_back_from _ t = (t, false)

unfoldable pub tab_go_back : TabContext → TabContext × Bool
unfolding go_back_from
tab_go_back t = go_back_from t.nav_position t

-- The position in front of `nav_position`.
abbrev pub next_position : ℤ → ℕ
next_position (pos p) = p + 1
next_position (negsuc _) = 0

unfoldable pub tab_go_forward : TabContext → TabContext × Bool
unfolding show_entry
tab_go_forward t =
    let p = next_position t.nav_position in
    if leb (nav_count t) p then (t, false) else (show_entry p t, true)
