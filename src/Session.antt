-- ===== src/Session.antt =====
-- The session service's store (src/watchdog/services/session_service: models.py, store.py and the
-- event recording of service.py).
pub mod Records
pub mod Append
pub mod Invariant
pub mod Replay
pub mod Growth
pub mod Reads
mod Tests
