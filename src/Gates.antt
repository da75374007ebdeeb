-- ===== src/Gates.antt =====
-- The gates that the brain's proposals pass before the policy engine reads their verdicts
-- (src/watchdog/services/brain: validator.py and release_gate.py).
pub mod Validator
pub mod Release
pub mod Chain
pub mod Reasons
mod Tests
