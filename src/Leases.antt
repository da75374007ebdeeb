-- ===== src/Leases.antt =====
-- The command lease store (src/watchdog/services/session_spine/command_leases.py).
pub mod State
pub mod Operations
pub mod Replay
pub mod Fencing
pub mod Service
pub mod Expiry
pub mod Guards
mod Tests
