-- ===== src/Spine.antt =====
-- The persisted session spine (src/watchdog/services/session_spine/store.py).
pub mod Store
pub mod Versions
pub mod Tests
