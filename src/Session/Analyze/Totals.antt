-- ===== src/Session/Analyze/Totals.antt =====
-- c/session_tracker.c: the tracker and the statistics after an analysis.
use browserhistory.Prelude.{
  ℕ, zero, suc, ◌+◌, ◌≤◌, ◌<◌, ◌≡◌, refl, ◌⊎◌, inl, inr, Bool, some, List, [], ◌∷◌, arith, ltb,
  Bool-cases, length,
}
use mathlib.Core.Path.{subst}
use browserhistory.Session.Tab.{Alloc}
use browserhistory.Session.Store.{Session, tab_count}
use browserhistory.Session.Tracker.{SessionTracker, sessions}
use browserhistory.Session.Tracker.Events.{IsTracker}
use browserhistory.Session.Tracker.Start.{process_event-IsTracker, finalize-IsTracker}
use browserhistory.History.{HistoryEntry}
use browserhistory.Session.Analyze.{
  entry_event, process_entries, Stats, Maxima, add_session, add_sessions, compute_stats,
  session_tracker_analyze,
}

process_entries-IsTracker :
    (m : ℕ → Alloc) (entries : List HistoryEntry) (t : SessionTracker)
    → IsTracker t
    → IsTracker (process_entries m entries t)
unfolding process_entries
process_entries-IsTracker m [] t h = h
process_entries-IsTracker m (e ∷ es) t h =
    process_event-IsTracker (m (length es)) (process_entries m es t) (entry_event e)
      (process_entries-IsTracker m es t h)

-- Whatever the sort does and whichever allocations fail, an analysis keeps a tracker well formed,
-- and its statistics are computed from the sessions that the tracker then has.
pub session_tracker_analyze-IsTracker :
    (sort : List HistoryEntry → List HistoryEntry) (copied : Bool) (m : ℕ → Alloc)
    (t : SessionTracker) (old : Stats) (entries : List HistoryEntry) {r : SessionTracker}
    {stats : Stats}
    → IsTracker t
    → session_tracker_analyze sort copied m t old entries ≡ some (r, stats)
    → IsTracker r × (stats ≡ compute_stats (sessions r) old)
unfolding session_tracker_analyze
session_tracker_analyze-IsTracker sort copied m t old [] h e = cc
session_tracker_analyze-IsTracker sort copied m t old (x ∷ xs) h e =
    let done = process_entries m (sort (x ∷ xs)) t in
    let v = finalize-IsTracker done (process_entries-IsTracker m (sort (x ∷ xs)) t h) in
    elim (Bool-cases copied) [ inl b ↦ ground (arith, v) | inr b ↦ absurd (ground (arith, e)) ]

abbrev pub sum_pages : List Session → ℕ
sum_pages [] = 0
sum_pages (s ∷ ss) = s.page_count + sum_pages ss

abbrev pub sum_tabs : List Session → ℕ
sum_tabs [] = 0
sum_tabs (s ∷ ss) = tab_count s + sum_tabs ss

-- The number of tabs that one session had open at most, for the session at a place of the list.
abbrev pub tabs_at : ℕ → List Session → ℕ
tabs_at i [] = 0
tabs_at zero (s ∷ ss) = s.max_concurrent_tabs
tabs_at (suc i) (s ∷ ss) = tabs_at i ss

abbrev pub AllBelow : ℕ → List Session → Type 0
AllBelow n [] = Unit
AllBelow n (s ∷ ss) = (s.max_concurrent_tabs ≤ n) × AllBelow n ss

-- What the loop makes of the sessions from the place `i` on.
record Summed (i : ℕ) (ss : List Session) (x r : Maxima) : Type 0 where
  pages : r.stats.total_pages ≡ x.stats.total_pages + sum_pages ss
  tabs : r.stats.total_tabs ≡ x.stats.total_tabs + sum_tabs ss
  sessions_same : r.stats.total_sessions ≡ x.stats.total_sessions
  grows : x.most_tabs ≤ r.most_tabs
  below : AllBelow r.most_tabs ss
  place :
      ((r.most_tabs ≡ x.most_tabs)
        × (r.stats.most_tabs_session_idx ≡ x.stats.most_tabs_session_idx))
      ⊎ ((j : ℕ) × (x.most_tabs < r.most_tabs)
          × (r.stats.most_tabs_session_idx ≡ i + j)
          × (tabs_at j ss ≡ r.most_tabs)
          × (j < length ss))

add_sessions-Summed : (i : ℕ) (ss : List Session) (x : Maxima) → Summed i ss x (add_sessions i ss x)
unfolding add_sessions add_session
add_sessions-Summed i [] x = record {
  pages = omega arith;
  tabs = omega arith;
  sessions_same = refl;
  grows = omega arith;
  below = tt;
  place = inl (refl, refl);
}
add_sessions-Summed i (s ∷ ss) x =
    let later = add_sessions-Summed (i + 1) ss (add_session i s x) in
    record {
      pages = omega (arith, later.pages);
      tabs = omega (arith, later.tabs);
      sessions_same = later.sessions_same;
      grows = ground (arith, later.grows);
      below = (ground (arith, later.grows), later.below);
      place = elim later.place [
        | inl (e, d) ↦ elim (Bool-cases (ltb x.most_tabs s.max_concurrent_tabs)) [
          | inl b ↦ inr (0, ground (arith, b, e), ground arith, ground arith, omega arith)
          | inr b ↦ inl (ground arith, ground arith)
        ]
        | inr (j, more, e, d, b) ↦
            inr (suc j, ground (arith, more), omega (arith, e), d, omega (arith, b))
      ];
    }

AllBelow-place :
    (ss : List Session) (i j most : ℕ)
    → 0 < most
    → i ≡ j
    → tabs_at j ss ≡ most
    → j < length ss
    → AllBelow most ss
    → (i < length ss) × (0 < tabs_at i ss) × AllBelow (tabs_at i ss) ss
AllBelow-place ss i j most p e d b h = (omega arith, rw (e, d) p, rw (e, d) h)

-- For a tracker with sessions, the statistics count the sessions, their pages and their tabs. Where
-- some session had tabs open at once, the index of the session with the most of them is that of a
-- session that had some and that no other exceeds; where none had, it is left at its old value.
pub compute_stats-totals :
    (ss : List Session) (old : Stats)
    → 0 < length ss
    → ((compute_stats ss old).total_sessions ≡ length ss)
      × ((compute_stats ss old).total_pages ≡ sum_pages ss)
      × ((compute_stats ss old).total_tabs ≡ sum_tabs ss)
      × ((AllBelow 0 ss
            × ((compute_stats ss old).most_tabs_session_idx ≡ old.most_tabs_session_idx))
          ⊎ (((compute_stats ss old).most_tabs_session_idx < length ss)
              × (0 < tabs_at (compute_stats ss old).most_tabs_session_idx ss)
              × AllBelow (tabs_at (compute_stats ss old).most_tabs_session_idx ss) ss))
unfolding compute_stats
compute_stats-totals [] old h = absurd (omega arith)
compute_stats-totals (s ∷ ss) old h =
    let first : Maxima = record {
      stats = record old {
        total_sessions = length (s ∷ ss);
        total_pages = 0;
        total_seconds = 0;
        total_tabs = 0;
      };
      longest = 0;
      most_tabs = 0;
    } in
    let v = add_sessions-Summed 0 (s ∷ ss) first in
    (
      v.sessions_same,
      omega (arith, v.pages),
      omega (arith, v.tabs),
      elim v.place [
        | inl (e, d) ↦ inl (subst (λ n. AllBelow n (s ∷ ss)) e v.below, d)
        | inr (j, p, d, e, b) ↦ inr (AllBelow-place (s ∷ ss) _ j _ p (omega (arith, d)) e b v.below)
      ],
    )
