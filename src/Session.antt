-- ===== src/Session.antt =====
-- c/session_tracker.c and c/session_tracker.h: the session analyzer.
pub mod Tab
pub mod Store
pub mod Tracker
pub mod Wire
pub mod Analyze
mod Tests
