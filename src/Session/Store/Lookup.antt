-- ===== src/Session/Store/Lookup.antt =====
-- c/session_tracker.c: the tabs of a session, found and changed by their id.
use browserhistory.Prelude.{
  ℕ, zero, suc, ◌+◌, ◌≤◌, ◌<◌, ◌≡◌, refl, inl, inr, Bool, true, false, none, some, List, [], ◌∷◌,
  ◌++◌, arith, Bool-cases, length,
}
use browserhistory.Prelude.Int.{ℤ, pos, negsuc, is_positive, is_nat}
use browserhistory.Session.Store.{
  is_open, [], ◌++◌, ◌∷◌, length, Bool, ℤ, ℕ, List, find_tab, update_tab, count_active, last_active,
}
use browserhistory.Session.Tab.{TabContext}
use browserhistory.Session.Tab.Invariant.{IsTab}

abbrev pub All {ℓ κ} : {A : Type ℓ} → (A → Type κ) → List A → Type κ
All P [] = Unit
All P (x ∷ xs) = P x × All P xs

-- The ids grow along the array, from `lo` and below `hi`.
abbrev pub Numbered : ℕ → List TabContext → ℕ → Type 0
Numbered lo [] hi = lo ≤ hi
Numbered lo (t ∷ ts) hi = (lo ≤ t.tab_id) × Numbered (suc t.tab_id) ts hi

abbrev pub KeepsId : (TabContext → TabContext) → Type 0
KeepsId f = (t : TabContext) → (f t).tab_id ≡ t.tab_id

abbrev pub KeepsOpen : (TabContext → TabContext) → Type 0
KeepsOpen f = (t : TabContext) → (f t).is_active ≡ t.is_active

abbrev pub open_at : List TabContext → ℤ → Bool
open_at ts id = is_open (find_tab ts id)

pub Numbered-le : (lo : ℕ) (ts : List TabContext) (hi : ℕ) → Numbered lo ts hi → lo ≤ hi
Numbered-le lo [] hi h = h
Numbered-le lo (t ∷ ts) hi h = omega (arith, Numbered-le (suc t.tab_id) ts hi h.1)

pub Numbered-concat :
    (lo : ℕ) (ts : List TabContext) (t : TabContext) (hi : ℕ)
    → Numbered lo ts hi
    → t.tab_id ≡ hi
    → Numbered lo (ts ++ t ∷ []) (hi + 1)
Numbered-concat lo [] t hi h e = omega arith
Numbered-concat lo (x ∷ ts) t hi h e = (h.0, Numbered-concat (suc x.tab_id) ts t hi h.1 e)

pub find_tab-below :
    (lo : ℕ) (ts : List TabContext) (hi n : ℕ)
    → Numbered lo ts hi
    → n < lo
    → find_tab ts (pos n) ≡ none
unfolding find_tab
find_tab-below lo [] hi n h b = refl
find_tab-below lo (t ∷ ts) hi n h b = ground (arith, find_tab-below (suc t.tab_id) ts hi n h.1)

pub find_tab-above :
    (lo : ℕ) (ts : List TabContext) (hi n : ℕ)
    → Numbered lo ts hi
    → hi ≤ n
    → find_tab ts (pos n) ≡ none
unfolding find_tab
find_tab-above lo [] hi n h b = refl
find_tab-above lo (t ∷ ts) hi n h b =
    ground (arith, find_tab-above (suc t.tab_id) ts hi n h.1, Numbered-le (suc t.tab_id) ts hi h.1)

find_tab-negsuc : (ts : List TabContext) (n : ℕ) → find_tab ts (negsuc n) ≡ none
unfolding find_tab
find_tab-negsuc [] n = refl
find_tab-negsuc (t ∷ ts) n = find_tab-negsuc ts n

pub update_tab-Numbered :
    (f : TabContext → TabContext) (id : ℤ) (lo : ℕ) (ts : List TabContext) (hi : ℕ)
    → KeepsId f
    → Numbered lo ts hi
    → Numbered lo (update_tab id f ts) hi
unfolding update_tab
update_tab-Numbered f id lo [] hi k h = h
update_tab-Numbered f id lo (t ∷ ts) hi k h =
    ground (arith, k t, update_tab-Numbered f id (suc t.tab_id) ts hi k h.1)

pub length-update_tab :
    (f : TabContext → TabContext) (id : ℤ) (ts : List TabContext)
    → length (update_tab id f ts) ≡ length ts
unfolding update_tab
length-update_tab f id [] = refl
length-update_tab f id (t ∷ ts) = ground (arith, length-update_tab f id ts)

pub update_tab-All :
    (f : TabContext → TabContext) (id : ℤ) (ts : List TabContext)
    → ((t : TabContext) → IsTab t → IsTab (f t))
    → All IsTab ts
    → All IsTab (update_tab id f ts)
unfolding update_tab
update_tab-All f id [] k h = tt
update_tab-All f id (t ∷ ts) k h = elim (Bool-cases (is_nat id t.tab_id)) [
  | inl e ↦ rw e (k t h.0, h.1)
  | inr e ↦ rw e (h.0, update_tab-All f id ts k h.1)
]

pub count_active-update_tab :
    (f : TabContext → TabContext) (id : ℤ) (ts : List TabContext)
    → KeepsOpen f
    → count_active (update_tab id f ts) ≡ count_active ts
unfolding count_active update_tab
count_active-update_tab f id [] k = refl
count_active-update_tab f id (t ∷ ts) k = ground (arith, k t, count_active-update_tab f id ts k)

pub open_at-update_tab :
    (f : TabContext → TabContext) (id j : ℤ) (ts : List TabContext)
    → KeepsId f
    → KeepsOpen f
    → open_at (update_tab id f ts) j ≡ open_at ts j
unfolding find_tab update_tab
open_at-update_tab f id j [] k o = refl
open_at-update_tab f id j (t ∷ ts) k o = ground (arith, k t, o t, open_at-update_tab f id j ts k o)

pub count_active-le : (ts : List TabContext) → count_active ts ≤ length ts
unfolding count_active
count_active-le [] = omega arith
count_active-le (t ∷ ts) = ground (arith, count_active-le ts)

pub count_active-concat :
    (ts : List TabContext) (t : TabContext) → count_active (ts ++ t ∷ []) ≤ count_active ts + 1
unfolding count_active
count_active-concat [] t = ground arith
count_active-concat (x ∷ ts) t = ground (arith, count_active-concat ts t)

-- The id that `last_active` finds is that of an open tab.
pub last_active-open :
    (lo : ℕ) (ts : List TabContext) (hi n : ℕ)
    → Numbered lo ts hi
    → last_active ts ≡ some n
    → (open_at ts (pos n) ≡ true) × (lo ≤ n)
unfolding last_active find_tab
last_active-open lo [] hi n h e = cc
last_active-open lo (t ∷ ts) hi n h e = ground (arith, last_active-open (suc t.tab_id) ts hi n h.1)

pub open_at-concat :
    (ts : List TabContext) (t : TabContext) (j : ℤ)
    → open_at ts j ≡ true
    → open_at (ts ++ t ∷ []) j ≡ true
unfolding find_tab
open_at-concat [] t j e = cc
open_at-concat (x ∷ ts) t j e = ground (arith, open_at-concat ts t j)

pub open_at_new :
    (lo : ℕ) (ts : List TabContext) (t : TabContext) (hi : ℕ)
    → Numbered lo ts hi
    → t.tab_id ≡ hi
    → open_at (ts ++ t ∷ []) (pos hi) ≡ t.is_active
unfolding find_tab
open_at_new lo [] t hi h e = ground arith
open_at_new lo (x ∷ ts) t hi h e =
    ground (arith, open_at_new (suc x.tab_id) ts t hi h.1 e, Numbered-le (suc x.tab_id) ts hi h.1)

pub All-concat :
    (ts : List TabContext) (t : TabContext) → All IsTab ts → IsTab t → All IsTab (ts ++ t ∷ [])
All-concat [] t h k = (k, tt)
All-concat (x ∷ ts) t h k = (h.0, All-concat ts t h.1 k)

pub Numbered-suc :
    (lo : ℕ) (ts : List TabContext) (hi : ℕ) → Numbered lo ts hi → Numbered lo ts (hi + 1)
Numbered-suc lo [] hi h = omega arith
Numbered-suc lo (t ∷ ts) hi h = (h.0, Numbered-suc (suc t.tab_id) ts hi h.1)

abbrev pub deactivate : TabContext → TabContext
deactivate t = record t { is_active = false }

pub count_active-deactivate :
    (id : ℤ) (ts : List TabContext) → count_active (update_tab id deactivate ts) ≤ count_active ts
unfolding count_active update_tab
count_active-deactivate id [] = omega arith
count_active-deactivate id (t ∷ ts) = ground (arith, count_active-deactivate id ts)

pub open_at-update_other :
    (f : TabContext → TabContext) (n : ℕ) (j : ℤ) (ts : List TabContext)
    → KeepsId f
    → is_nat j n ≡ false
    → open_at (update_tab (pos n) f ts) j ≡ open_at ts j
unfolding find_tab update_tab
open_at-update_other f n j [] k e = refl
open_at-update_other f n j (t ∷ ts) k e = ground (arith, k t, open_at-update_other f n j ts k e)

pub open_at-positive :
    (ts : List TabContext) (hi : ℕ) (id : ℤ)
    → Numbered 1 ts hi
    → open_at ts id ≡ true
    → is_positive id ≡ true
open_at-positive ts hi (pos zero) h e = ground (arith, find_tab-below 1 ts hi 0 h)
open_at-positive ts hi (pos (suc n)) h e = ground arith
open_at-positive ts hi (negsuc n) h e = ground (arith, find_tab-negsuc ts n)
