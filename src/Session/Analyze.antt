-- ===== src/Session/Analyze.antt =====
-- c/session_tracker.c, analysis and statistics: session_tracker_analyze and
-- session_tracker_compute_stats. `qsort` is the parameter `sort`; which allocations the event of an
-- entry makes is given by the number of entries that are processed before it.
pub mod Totals
use browserhistory.Prelude.{
  ℕ, zero, suc, ◌+◌, ◌-◌, ◌*◌, ◌/◌, ◌%◌, ◌^◌, ◌≤◌, ◌<◌, ◌≡◌, refl, sym, ap, ◌∙◌, ◌≢◌, ◌↔◌, ◌⊎◌, inl,
  inr, Bool, true, false, not, ◌&&◌, ◌||◌, Option, none, some, List, [], ◌∷◌, ◌++◌, map, append-nil,
  append_assoc, arith, ltb, leb, ◌==◌, if◌then◌else◌, Bool-cases, Option-cases, length, get_elem?,
  get_or, take, drop, length-append, length-take, length-drop, take-eq_self, drop-eq_nil,
}
use browserhistory.Prelude.Int.{ℤ, pos, negsuc, minus_one, is_positive, is_nat, pos_part}
use browserhistory.Prelude.Text.{
  Bytes, codes, copy_into, is_nonempty, str_eq, c_string, span, NoNul, AreBytes,
}
use browserhistory.History.{HistoryEntry}
use browserhistory.Session.Tab.{Alloc, url_size, title_size}
use browserhistory.Session.Store.{Session, TabEvent, navigate, tab_count, max_tabs}
use browserhistory.Session.Tracker.{SessionTracker, sessions, finalize, map_current, process_event}

-- `unsigned int` arithmetic
unfoldable pub hash_host : ℕ → Bytes → ℕ
hash_host hash [] = hash
hash_host hash (c ∷ s) =
    let rest = hash_host ((hash * 31 + c) % 2 ^ 32) s in
    if c == b'/' || c == b'?' || c == b'#' then hash else rest

-- What follows the first `://`.
unfoldable pub after_protocol : Bytes → Option Bytes
after_protocol (a ∷ b ∷ c ∷ s) =
    if a == b':' && b == b'/' && c == b'/' then some s else after_protocol (b ∷ c ∷ s)
after_protocol s = none

abbrev hash_or_zero : Option Bytes → ℕ
hash_or_zero none = 0
hash_or_zero (some s) = hash_host 0 s

unfoldable pub entry_event : HistoryEntry → TabEvent
entry_event entry = record {
  type = navigate;
  tab_id = pos (hash_or_zero (after_protocol entry.url) % max_tabs + 1);
  url = copy_into url_size entry.url;
  title = copy_into title_size entry.title;
  timestamp = entry.last_visit_raw;
}

-- The loop from the last entry of the sorted array, the oldest, to the first.
unfoldable pub process_entries : (ℕ → Alloc) → List HistoryEntry → SessionTracker → SessionTracker
process_entries m [] tracker = tracker
process_entries m (entry ∷ older) tracker =
    (process_event (m (length older)) (process_entries m older tracker) (entry_event entry)).0

-- The aggregate statistics of the tracker. The totals stand for the averages, which are these
-- divided by the number of sessions; a duration is in seconds.
pub record Stats : Type 0 where
  pub total_sessions : ℕ
  pub total_pages : ℕ
  pub total_seconds : ℕ
  pub total_tabs : ℕ
  pub longest_session_idx : ℕ
  pub most_tabs_session_idx : ℕ

-- The loop's `longest` and `most_tabs`.
pub record Maxima : Type 0 where
  pub stats : Stats
  pub longest : ℕ
  pub most_tabs : ℕ

unfoldable pub add_session : ℕ → Session → Maxima → Maxima
add_session i s x = record {
  stats = record x.stats {
    total_pages = x.stats.total_pages + s.page_count;
    total_seconds = x.stats.total_seconds + s.duration_seconds;
    total_tabs = x.stats.total_tabs + tab_count s;
    longest_session_idx =
        if ltb x.longest s.duration_seconds then i else x.stats.longest_session_idx;
    most_tabs_session_idx =
        if ltb x.most_tabs s.max_concurrent_tabs then i else x.stats.most_tabs_session_idx;
  };
  longest = if ltb x.longest s.duration_seconds then s.duration_seconds else x.longest;
  most_tabs = if ltb x.most_tabs s.max_concurrent_tabs then s.max_concurrent_tabs else x.most_tabs;
}

unfoldable pub add_sessions : ℕ → List Session → Maxima → Maxima
add_sessions i [] x = x
add_sessions i (s ∷ rest) x = add_sessions (i + 1) rest (add_session i s x)

unfoldable pub compute_stats : List Session → Stats → Stats
compute_stats [] old = old
compute_stats (s ∷ rest) old =
    (add_sessions 0 (s ∷ rest) (record {
      stats = record old {
        total_sessions = length (s ∷ rest);
        total_pages = 0;
        total_seconds = 0;
        total_tabs = 0;
      };
      longest = 0;
      most_tabs = 0;
    })).stats

-- `none` is the error -1: no entries, or no memory for their copy.
unfoldable pub session_tracker_analyze :
    (List HistoryEntry → List HistoryEntry)
    → Bool
    → (ℕ → Alloc)
    → SessionTracker
    → Stats
    → List HistoryEntry
    → Option (SessionTracker × Stats)
session_tracker_analyze sort copied m tracker stats [] = none
session_tracker_analyze sort copied m tracker stats (entry ∷ entries) =
    let processed = process_entries m (sort (entry ∷ entries)) tracker in
    let final = record processed {
      current_session = map_current finalize processed.current_session;
    } in
    if copied then some (final, compute_stats (sessions final) stats) else none
