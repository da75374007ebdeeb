-- ===== src/Approvals.antt =====
-- The approvals of the control agent: risk/classifier.py and storage/approvals_store.py of
-- src/a_control_agent.
pub mod Splitting
pub mod Risk
pub mod Store
pub mod Forms
pub mod Pytest
pub mod Harmless
pub mod Decisions
pub mod Tests
