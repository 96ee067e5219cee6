-- ===== src/Tests.antt =====
-- Runs of the model at concrete inputs, and the theorems at inputs that meet their hypotheses.
mod Fixtures
mod Events
mod Stores
mod Senders
mod Deployments
mod Requests
mod Dashboards
mod Services
mod Gates
