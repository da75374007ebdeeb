-- ===== src/Policy.antt =====
-- The policy engine (src/watchdog/services/policy, and the read contracts of
-- src/watchdog/services/brain).
pub mod Rules
pub mod Decisions
pub mod Evidence
pub mod Engine
pub mod Safety
pub mod Execution
pub mod Store
mod Tests
