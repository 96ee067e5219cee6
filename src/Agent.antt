-- ===== src/Agent.antt =====
-- src/runner_observability/agent.py: `deliver_event` and what `main` does with the outbox.
pub mod Delivery
pub mod Bounds
