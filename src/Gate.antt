-- ===== src/Gate.antt =====
-- gate.py: the local verification gate. `Suite` has the reading of the test run, `Report` the reports,
-- `Run` the run of the gate, and `Verdict` what its exit code says.
pub mod Suite
pub mod Report
pub mod Run
pub mod Verdict
