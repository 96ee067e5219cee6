-- ===== src/Outbox.antt =====
-- src/runner_observability/outbox.py: the durable outbox. `State` has the files and their envelopes,
-- `Enqueue` and `Drain` its two operations.
pub mod State
pub mod Enqueue
pub mod Drain
pub mod Capacity
pub mod Retention
pub mod Durability
