-- ===== src/Store.antt =====
-- src/runner_observability/store.py: the event log and the current state. `State` has the store and
-- its helpers; each of the other modules one group of its methods. SQLite carries the
-- statements out, so the handlers of `sqlite3.DatabaseError` have no case but that of the cleanup.
pub mod State
pub mod Time
pub mod Transaction
pub mod Ingest
pub mod Liveness
pub mod Stale
pub mod Replay
pub mod Prune
pub mod Expired
pub mod Cleanup
pub mod History
pub mod Queries
pub mod Pages
pub mod Failures
pub mod Duplicates
pub mod Revalidation
