-- ===== src/Outbox.antt =====
-- The delivery outbox (src/watchdog/services/delivery/store.py).
pub mod Records
pub mod Operations
pub mod Invariant
pub mod Preserved
pub mod Refresh
pub mod Updates
pub mod Transport
pub mod Outcomes
pub mod Keys
pub mod Pending
pub mod Calls
mod Tests
