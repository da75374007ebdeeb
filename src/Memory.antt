-- ===== src/Memory.antt =====
-- The queue that feeds the memory hub (src/watchdog/services/memory_hub): ingest_queue.py and
-- ingest_worker.py.
pub mod Records
pub mod Queue
pub mod Worker
pub mod Sorting
pub mod Tables
pub mod Invariant
pub mod Claims
pub mod Rounds
pub mod Results
pub mod Drain
pub mod Calls
pub mod Progress
pub mod History
pub mod Tests
