-- ===== src/Projection/Log.antt =====
-- The projections leave the log, and the mark of its completeness, alone.
use runner_observability.Base.{String, ◌≡◌, refl, Bool, Option, ok, arith}
use runner_observability.Python.{Python}
use runner_observability.Contracts.Event.{ValidatedEvent}
use runner_observability.Contracts.Job.{Job}
use runner_observability.Database.{Database}
use runner_observability.Projection.{apply_heartbeat, apply_offline, apply_job, apply_event}
use runner_observability.Projection.Outcome.{
  Outcome, late, inert, refused, job_applied, heartbeat_applied, offline_applied,
  apply_event_outcome,
}

abbrev pub SameLog : Database → Database → Type 0
SameLog a b = (a.events ≡ b.events) × (a.monitor_meta ≡ b.monitor_meta)

module _ (py : Python) (db : Database) (event : ValidatedEvent) (received_at : String)
    (mi mw : Bool) where
  log-apply_job : (job : Job) → SameLog (apply_job py db event job received_at mi mw) db
  unfolding apply_job
  log-apply_job job = ground arith

  log-apply_heartbeat :
      (job : Option Job) → SameLog (apply_heartbeat py db event job received_at mi mw) db
  unfolding apply_heartbeat
  log-apply_heartbeat job = ground arith

  log-apply_offline : (job : Option Job) → SameLog (apply_offline py db event job received_at mw) db
  unfolding apply_offline
  log-apply_offline job = ground arith

  outcome_log :
      {db' : Database} {applied : Bool}
      → Outcome py db event received_at mi mw db' applied
      → SameLog db' db
  outcome_log (late _ _ e) = rw e (refl, refl)
  outcome_log (inert _ _ e) = rw e (refl, refl)
  outcome_log (refused _ _ _ _ _ e) = rw e (refl, refl)
  outcome_log (job_applied j _ _ _ _ _ _ e) = rw e (log-apply_job j)
  outcome_log (heartbeat_applied j _ _ _ _ _ e) = rw e (log-apply_heartbeat j)
  outcome_log (offline_applied j _ _ _ _ _ e) = rw e (log-apply_offline j)

  pub log-apply_event :
      {db' : Database} {applied : Bool}
      → apply_event py db event received_at mi mw ≡ ok (db', applied)
      → SameLog db' db
  log-apply_event h = outcome_log (apply_event_outcome py db event received_at mi mw h)
