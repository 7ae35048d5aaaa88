-- ===== src/Search/Score.antt =====
-- c/search_engine.c, search_compute_score. A `float` is counted in units of 2 ^ -28, of which every
-- value here is a multiple; a sum is rounded to 24 bits, ties to even, as single precision does.
use browserhistory.Prelude.{
  ℕ, ◌+◌, ◌-◌, ◌*◌, ◌/◌, ◌%◌, ◌^◌, Bool, ◌&&◌, ◌||◌, ltb, leb, ◌==◌, if◌then◌else◌,
}
use browserhistory.Prelude.Int.{is_positive, pos_part}
use browserhistory.History.{HistoryEntry}
use browserhistory.Search.{SearchQuery}

abbrev pub one : ℕ
one = 268435456

-- The multiple of the step that is nearest to the value.
unfoldable pub round_at : ℕ → ℕ → ℕ
round_at step v =
    let q = v / step in
    let r = v % step in
    if ltb (2 * r) step || 2 * r == step && q % 2 == 0 then q * step else (q + 1) * step

-- The single precision number that is nearest to a value below 2.
unfoldable pub single : ℕ → ℕ
single v =
    if ltb v (2 ^ 24)
    then v
    else if ltb v (2 ^ 25)
    then round_at 2 v
    else if ltb v (2 ^ 26)
    then round_at 4 v
    else if ltb v (2 ^ 27)
    then round_at 8 v
    else if ltb v (2 ^ 28)
    then round_at 16 v
    else round_at 32 v

-- 0.4f, 0.3f and 0.2f
unfoldable pub relevance_score : Bool → Bool → ℕ
relevance_score url_hit title_hit =
    if url_hit && title_hit
    then 107374184
    else if title_hit
    then 80530640
    else if url_hit
    then 53687092
    else 0

-- 0.3f, 0.25f, 0.2f, 0.15f, 0.1f and 0.05f
unfoldable pub visit_score : ℕ → ℕ
visit_score vc =
    if leb 100 vc
    then 80530640
    else if leb 50 vc
    then 67108864
    else if leb 20 vc
    then 53687092
    else if leb 10 vc
    then 40265320
    else if leb 5 vc
    then 26843546
    else 13421773

-- The age in days; the difference is 0 for a visit that is not in the past.
unfoldable pub age_days : ℕ → ℕ → ℕ
age_days now raw =
    if ltb 1000000000000000 raw
    then (now + 11644473600 - raw / 1000000) / 86400
    else if ltb 1000000000000 raw
    then (now - raw / 1000) / 86400
    else (now - raw) / 86400

-- 0.3f, 0.25f, 0.2f, 0.15f, 0.1f and 0.05f
unfoldable pub recency_score : ℕ → ℕ
recency_score days =
    if leb days 1
    then 80530640
    else if leb days 7
    then 67108864
    else if leb days 30
    then 53687092
    else if leb days 90
    then 40265320
    else if leb days 365
    then 26843546
    else 13421773

-- `time(NULL)` is the parameter `now`.
unfoldable pub search_compute_score : ℕ → HistoryEntry → SearchQuery → Bool → Bool → ℕ
search_compute_score now entry query url_hit title_hit =
    let relevance = if query.rank_by_relevance then relevance_score url_hit title_hit else 0 in
    let visits =
      if query.rank_by_visits && is_positive entry.visit_count
      then single (relevance + visit_score (pos_part entry.visit_count))
      else relevance in
    let score =
      if query.rank_by_recency && is_positive entry.last_visit_raw
      then single (visits + recency_score (age_days now (pos_part entry.last_visit_raw)))
      else visits in
    if ltb one score then one else score
