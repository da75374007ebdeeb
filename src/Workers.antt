-- ===== src/Workers.antt =====
-- Future workers (src/watchdog/services/future_worker): tasks that a session hands to a worker, with
-- their life recorded in the session's log.
pub mod Models
pub mod Log
pub mod Record
pub mod Service
pub mod Views
pub mod Writes
pub mod Diagram
pub mod Effects
pub mod Calls
pub mod Outcomes
pub mod Refinement
pub mod Unstarted
pub mod Tests
