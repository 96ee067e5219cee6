-- ===== src/Heartbeat.antt =====
-- src/runner_observability/heartbeat.py: the heartbeat producer of a runner. `Config` has its
-- configuration, `State` the persisted sequence, `Loop` what one heartbeat does and the schedule.
pub mod Config
pub mod Settings
pub mod State
pub mod Loop
pub mod Sequence
pub mod Schedule
pub mod Drift
