-- ===== src/History.antt =====
-- c/history_db.h: an entry of the browser's history.
use browserhistory.Prelude.Int.{ℤ}
use browserhistory.Prelude.Text.{Bytes}

pub record HistoryEntry : Type 0 where
  pub url : Bytes
  pub title : Bytes
  pub visit_count : ℤ
  pub typed_count : ℤ
  pub last_visit_time : Bytes
  pub last_visit_raw : ℤ
