-- ===== src/Dashboard.antt =====
-- dashboard.py: the snapshot of the monitor's state that the dashboard shows.
pub mod Reading
pub mod Phases
pub mod Timeline
pub mod Views
pub mod Snapshot
pub mod Received
pub mod Latest
pub mod Stages
pub mod Clean
