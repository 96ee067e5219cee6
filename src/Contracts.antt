-- ===== src/Contracts.antt =====
-- src/runner_observability/contracts.py: the validation of schema-v1 events. `Fields` has the
-- constants and the checks of single fields, `Content` those of the whole payload, `Event` the
-- validation of an event. The proofs are in the other children.
pub mod Sorted
pub mod SortedEvent
pub mod Fields
pub mod Content
pub mod Event
pub mod Job
pub mod Accepts
pub mod Raises
pub mod Clean
pub mod Steps
pub mod HasJob
