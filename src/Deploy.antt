-- ===== src/Deploy.antt =====
-- src/runner_observability/deploy.py: the deployment of a release. `Layout` has the release
-- directories and the pointer to the active one, `Preflight` the checks before a deployment, `Service`
-- the adapter of the Windows service, `Release` the deployment with its rollback.
pub mod Layout
pub mod Preflight
pub mod Service
pub mod Release
pub mod Staging
pub mod Restore
pub mod Success
pub mod Redeploy
pub mod Command
pub mod Probes
