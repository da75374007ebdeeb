-- ===== src/Lib.antt =====
-- codex-watchdog: the stores and the policy behind unattended runs of Codex.
--
-- The program supervises long tasks. A brain proposes an action for a session; the policy engine
-- decides whether it executes by itself, asks a person, or is blocked, and stores the decision. A
-- decision becomes a command, which a worker claims under a lease; the lease store mirrors what
-- happens to the command into the session service's log, the record of truth. What a person must
-- be told goes into the delivery outbox, which a delivery worker empties. The control agent beside
-- Codex approves harmless commands by itself and keeps the others until a person decides.
--
-- The files, and the code that each models (paths from the root of the repository):
--   Common     what Python gives the code: exceptions (Errors), dicts in insertion order (Dicts),
--              text formatting and tests (Texts), numbers in texts (Numerals), JSON values (Values),
--              membership and the order of texts (Membership, Ordering), lists and numbers. A method
--              that may raise returns a `Result`.
--   Session    src/watchdog/services/session_service/store.py, models.py and the recording of
--              events in service.py. The state is `StoreFile`, the content of the store's file.
--              Append has the appends and `record_event`, Reads the filtered reads. The proofs are
--              in Invariant, Replay and Growth.
--   Leases     src/watchdog/services/session_spine/command_leases.py. The state is `Store`: the
--              lease file, and the session service's file if the store has one. State has the data
--              and the clock, Operations the methods, in the source's names; `claimed_file`,
--              `renewed_file`, `terminal_file` and `expired_file` are what a method writes, and
--              `commit` the write and the mirroring. Service runs any sequence of calls. The proofs
--              are in Replay, Fencing, Service, Expiry and Guards.
--   Outbox     src/watchdog/services/delivery/store.py. The state is `OutboxFile`. Records has the
--              data and the refresh of a record, Operations the methods. The proofs are in
--              Invariant, Preserved, Refresh, Updates, Transport, Outcomes, Keys and Pending. Calls
--              has the writing calls as steps; an update changes a stored record in its
--              place, or brings one under a new id at a reserved position, as
--              session_spine/recovery.py does.
--   Policy     src/watchdog/services/policy (engine.py, rules.py, decisions.py) and the read
--              contracts of the gates in src/watchdog/services/brain. Rules has the constants,
--              Decisions the record, Evidence the gates' snapshots, Engine the ladder of
--              `evaluate_persisted_session_policy`, Store the decision store. The proofs are in
--              Safety, Execution and Store.
--   Gates      src/watchdog/services/brain/validator.py and release_gate.py. Validator has
--              `DecisionValidator` and the contracts on arguments, Release the evaluator of the
--              release gate, Reasons the labels of degraded gates. Chain puts the validator, the
--              release gate and the policy engine one after the other.
--   Workers    src/watchdog/services/future_worker (service.py, models.py), over the log of Session.
--              Models has the data and the tables, Log what is read of the log, Record the events
--              that are written, Service the methods. Diagram is the life of a worker as a relation,
--              Calls any sequence of calls. The proofs are in Refinement and Unstarted, on top of
--              Views, Writes, Effects and Outcomes.
--   Memory     src/watchdog/services/memory_hub/ingest_queue.py and ingest_worker.py. The state is
--              `QueueFile`. Records has the data, Queue the stores' methods, Worker the worker,
--              Calls what happens to a queue over time. The proofs are in Claims, Rounds, Results,
--              Drain and History, on top of Sorting, Tables, Invariant and Progress.
--   Approvals  src/a_control_agent/risk/classifier.py and storage/approvals_store.py. Splitting has the
--              text methods, Risk the classifier, Store the store, whose state is `ApprovalFiles`.
--              The proofs are in Forms, Pytest, Harmless and Decisions.
--   Spine      src/watchdog/services/session_spine/store.py. The state is `SpineFile`. Store has the
--              methods; the proofs are in Versions, with the outbox's reading of a version.
-- Each part has a module Tests, which applies the theorems to small inputs.
--
-- How the code is read. A store's method runs under a file lock, so a run is a sequence of calls; a
-- method maps the content of the file to its result and the content that it leaves, also when it
-- raises. The lease store writes its file before it mirrors the events, so an error of the session
-- service leaves the new lease file in place; the model does the same. Loops are recursions on
-- their lists, and need no fuel; the loop of `drain_all` runs on fuel, and more than `work` of its
-- queue, the attempts that are left to its open records, is enough. The loop of the digits of a
-- number runs on fuel as well, one more than the number. Numbers are unbounded, as in Python.
-- SHA-256 (`digest`), `str.lower`, `shlex.split`, `datetime.fromisoformat`, pydantic's validation
-- and dumps, the class `\w` of a regular expression, and the clock are parameters; the theorems
-- hold for all of them. A text's digits and white space are those of ASCII.
--
-- Not modelled: failing reads and writes of the disk, the caches of the files, threads that wait
-- for a lock, the listeners of the session service, and the parts of the program that are listed
-- nowhere above: the HTTP and Feishu interfaces, the clients of Codex and of language models, the
-- orchestration, the watchdog's own approvals, goal contracts, the memory behind its queue, and the
-- repository's checks.
pub mod Common
pub mod Session
pub mod Leases
pub mod Outbox
pub mod Policy
pub mod Gates
pub mod Workers
pub mod Memory
pub mod Approvals
pub mod Spine
