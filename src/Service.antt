-- ===== src/Service.antt =====
-- service.py: the Windows service that runs the monitor. `Config` has its configuration, `Child` the
-- supervision of the process of the monitor, `Ends` how that ends, and `Settings` what an accepted
-- configuration is.
pub mod Config
pub mod Child
pub mod Ends
pub mod Settings
