-- ===== src/Session/Tracker/Timeline.antt =====
-- c/session_tracker.c: the sessions of a tracker in the order of time.
use browserhistory.Prelude.{ℕ, suc, ◌+◌, ◌<◌, ◌≡◌, ◌∙◌, ◌≢◌, List, [], ◌∷◌, ◌++◌, arith, length}
use browserhistory.Session.Store.Invariant.{IsSession}
use browserhistory.Session.Store.{Session, idle, gap_us}

abbrev pub After : Session → List Session → Type 0
After s [] = Unit
After s (t ∷ _) = s.end_time + gap_us < t.start_time

-- Valid sessions with consecutive ids, none idle, each more than the gap after the one before.
abbrev pub Timeline : ℕ → List Session → Type 0
Timeline k [] = Unit
Timeline k (s ∷ rest) =
    IsSession s × (s.session_id ≡ k) × (s.state ≢ idle) × After s rest × Timeline (suc k) rest

pub Timeline-replace :
    (k : ℕ) (xs : List Session) (s r : Session)
    → IsSession r
    → r.session_id ≡ s.session_id
    → r.start_time ≡ s.start_time
    → r.state ≢ idle
    → Timeline k (xs ++ s ∷ [])
    → Timeline k (xs ++ r ∷ [])
Timeline-replace k [] s r v i b n h = (v, i ∙ h.1, n, tt, tt)
Timeline-replace k (x ∷ []) s r v i b n h =
    (h.0, h.1, h.2, rw b h.3, Timeline-replace (suc k) [] s r v i b n h.4)
Timeline-replace k (x ∷ y ∷ xs) s r v i b n h =
    (h.0, h.1, h.2, h.3, Timeline-replace (suc k) (y ∷ xs) s r v i b n h.4)

pub Timeline-last :
    (k : ℕ) (xs : List Session) (s : Session)
    → Timeline k (xs ++ s ∷ [])
    → IsSession s × (s.state ≢ idle)
Timeline-last k [] s h = (h.0, h.2)
Timeline-last k (x ∷ xs) s h = Timeline-last (suc k) xs s h.4

pub Timeline-concat :
    (k : ℕ) (xs : List Session) (s r : Session)
    → IsSession r
    → r.session_id ≡ k + length xs + 1
    → s.end_time + gap_us < r.start_time
    → r.state ≢ idle
    → Timeline k (xs ++ s ∷ [])
    → Timeline k ((xs ++ s ∷ []) ++ r ∷ [])
Timeline-concat k [] s r v i g n h = (h.0, h.1, h.2, g, (v, i ∙ (omega arith), n, tt, tt))
Timeline-concat k (x ∷ []) s r v i g n h =
    (h.0, h.1, h.2, h.3, Timeline-concat (suc k) [] s r v (i ∙ (omega arith)) g n h.4)
Timeline-concat k (x ∷ y ∷ xs) s r v i g n h =
    (h.0, h.1, h.2, h.3, Timeline-concat (suc k) (y ∷ xs) s r v (i ∙ (omega arith)) g n h.4)
