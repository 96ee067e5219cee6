-- ===== src/Projection/Frame.antt =====
-- The tables after an event, as the statements that `apply_event` runs on them.
use runner_observability.Base.{
  String, ◌≡◌, refl, Bool, true, false, Option, some, arith, string_eq, number_eq,
}
use runner_observability.Base.Table.{select, upsert}
use runner_observability.Python.{Python}
use runner_observability.Contracts.Event.{ValidatedEvent}
use runner_observability.Contracts.Job.{Job}
use runner_observability.Database.{Database}
use runner_observability.Database.Keys.{job_key_eq}
use runner_observability.Projection.{
  job_key, job_row, new_state, job_outcome, runner_row, job_update, heartbeat_update,
  offline_update, apply_heartbeat, apply_offline, apply_job,
}

module _ (py : Python) (db : Database) (event : ValidatedEvent) (received_at : String)
    (mi mw : Bool) where
  pub job_state-apply_job :
      (job : Job)
      → (apply_job py db event job received_at mi mw).job_state
        ≡ upsert
            (job_key job)
            (job_row event job received_at (new_state event) (job_outcome event))
            db.job_state
  unfolding apply_job
  job_state-apply_job job = split mi mw
    where
      split :
          (mi mw : Bool)
          → (apply_job py db event job received_at mi mw).job_state
            ≡ upsert
                (job_key job)
                (job_row event job received_at (new_state event) (job_outcome event))
                db.job_state
      split true true = refl
      split true false = refl
      split false true = refl
      split false false = refl

  pub runner_state-apply_job :
      (job : Job)
      → (apply_job py db event job received_at mi mw).runner_state
        ≡ upsert event.runner_id
            (runner_row event
              (some job)
              received_at
              (job_update event)
              (select event.runner_id db.runner_state))
            db.runner_state
  unfolding apply_job
  runner_state-apply_job job = split mi mw
    where
      split :
          (mi mw : Bool)
          → (apply_job py db event job received_at mi mw).runner_state
            ≡ upsert event.runner_id
                (runner_row event
                  (some job)
                  received_at
                  (job_update event)
                  (select event.runner_id db.runner_state))
                db.runner_state
      split true true = refl
      split true false = refl
      split false true = refl
      split false false = refl

  pub runner_state-apply_heartbeat :
      (job : Option Job)
      → (apply_heartbeat py db event job received_at mi mw).runner_state
        ≡ upsert event.runner_id
            (runner_row event job received_at
              (heartbeat_update received_at)
              (select event.runner_id db.runner_state))
            db.runner_state
  unfolding apply_heartbeat
  runner_state-apply_heartbeat job = split mi mw
    where
      split :
          (mi mw : Bool)
          → (apply_heartbeat py db event job received_at mi mw).runner_state
            ≡ upsert event.runner_id
                (runner_row event job received_at
                  (heartbeat_update received_at)
                  (select event.runner_id db.runner_state))
                db.runner_state
      split true true = refl
      split true false = refl
      split false true = refl
      split false false = refl

  pub runner_state-apply_offline :
      (job : Option Job)
      → (apply_offline py db event job received_at mw).runner_state
        ≡ upsert event.runner_id
            (runner_row event job received_at offline_update
              (select event.runner_id db.runner_state))
            db.runner_state
  unfolding apply_offline
  runner_state-apply_offline job = ground arith

  pub job_state-apply_heartbeat :
      (job : Option Job)
      → (apply_heartbeat py db event job received_at mi mw).job_state ≡ db.job_state
  unfolding apply_heartbeat
  job_state-apply_heartbeat job = ground arith

  pub job_state-apply_offline :
      (job : Option Job) → (apply_offline py db event job received_at mw).job_state ≡ db.job_state
  unfolding apply_offline
  job_state-apply_offline job = ground arith
