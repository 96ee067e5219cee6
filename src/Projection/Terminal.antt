-- ===== src/Projection/Terminal.antt =====
-- What the current state never loses a finished job.
use runner_observability.Base.{
  String, ◌≡◌, ◌≢◌, inl, inr, Bool, true, some, ok, arith, ◌==◌, string_eq, number_eq, eq_iff,
  Bool-cases,
}
use runner_observability.Base.Table.{select, select-upsert}
use runner_observability.Python.{Python}
use runner_observability.Contracts.Event.{ValidatedEvent}
use runner_observability.Contracts.Job.{Job}
use runner_observability.Database.{Database, JobRow}
use runner_observability.Database.Keys.{JobKey, job_key_eq}
use runner_observability.Projection.{job_key, job_accepts, apply_event}
use runner_observability.Projection.Frame.{
  job_state-apply_job, job_state-apply_heartbeat, job_state-apply_offline,
}
use runner_observability.Projection.Outcome.{
  Outcome, late, inert, refused, job_applied, heartbeat_applied, offline_applied,
  apply_event_outcome,
}

module _ (py : Python) (db : Database) (event : ValidatedEvent) (received_at : String)
    (mi mw : Bool) where
  accepts_no_finished :
      (job : Job) (row : JobRow)
      → job_accepts db job ≡ true
      → select (job_key job) db.job_state ≡ some row
      → row.state ≢ "finished"
  unfolding job_accepts
  accepts_no_finished job row h e done = ground (arith, eq_iff row.state "finished")

  outcome_finished :
      {db' : Database} {applied : Bool}
      → Outcome py db event received_at mi mw db' applied
      → (key : JobKey) (row : JobRow) → select key db.job_state ≡ some row
      → row.state ≡ "finished"
      → select key db'.job_state ≡ some row
  outcome_finished (late _ _ e) key row h done = rw e h
  outcome_finished (inert _ _ e) key row h done = rw e h
  outcome_finished (refused _ _ _ _ _ e) key row h done = rw e h
  outcome_finished (heartbeat_applied j _ _ _ _ _ e) key row h done =
      rw (e, job_state-apply_heartbeat py db event received_at mi mw j) h
  outcome_finished (offline_applied j _ _ _ _ _ e) key row h done =
      rw (e, job_state-apply_offline py db event received_at mi mw j) h
  outcome_finished (job_applied j _ _ accepted _ _ _ e) key row h done =
      elim (Bool-cases (job_key j == key)) [
        | inl same ↦
            let k : job_key j ≡ key = (job_key_eq.agree_iff (job_key j) key).0 same in
            absurd (accepts_no_finished j row accepted (rw k h) done)
        | inr other ↦
            rw (e, job_state-apply_job py db event received_at mi mw j, select-upsert, other) h
      ]

  -- The row of a finished job is never changed again, whatever the event.
  pub apply_event_finished :
      {db' : Database} {applied : Bool}
      → apply_event py db event received_at mi mw ≡ ok (db', applied)
      → (key : JobKey) (row : JobRow) → select key db.job_state ≡ some row
      → row.state ≡ "finished"
      → select key db'.job_state ≡ some row
  apply_event_finished h = outcome_finished (apply_event_outcome py db event received_at mi mw h)
