-- ===== src/Projection/Outcome.antt =====
-- The four ways in which `apply_event` can return.
use runner_observability.Base.{
  String, ◌≡◌, inl, inr, Bool, true, false, not, ◌&&◌, ◌||◌, Option, Result, ok, arith, ◌==◌,
  string_eq, if◌then◌else◌, Bool-cases, >>=-eq-ok,
}
use runner_observability.Python.{Python, Exception}
use runner_observability.Contracts.Event.{ValidatedEvent}
use runner_observability.Contracts.Job.{Job, event_job}
use runner_observability.Database.{Database}
use runner_observability.Projection.{
  runner_accepts, apply_heartbeat, apply_offline, apply_job, payload_job, job_accepts,
  older_attempt_than_runner_current, is_job_event, apply_event,
}

module _ (py : Python) (db : Database) (event : ValidatedEvent) (received_at : String)
    (mi mw : Bool) where
  -- the watermark lets the event through, or watermarks are not managed
  abbrev pub passes : Bool
  passes = not (mw && not (runner_accepts db event))

  -- the event is one that never changes the current state
  abbrev pub is_inert : String → Bool
  is_inert kind = not (is_job_event kind || kind == "runner.heartbeat" || kind == "runner.offline")

  pub data Outcome (db' : Database) (applied : Bool) : Type 0 where
    late : passes ≡ false → applied ≡ false → db' ≡ db → Outcome db' applied
    inert : is_inert event.event_type ≡ true → applied ≡ false → db' ≡ db → Outcome db' applied
    refused :
        (job : Job)
        → event_job event ≡ ok job
        → is_job_event event.event_type ≡ true
        → (not (job_accepts db job) || older_attempt_than_runner_current db event job) ≡ true
        → applied ≡ false
        → db' ≡ db
        → Outcome db' applied
    job_applied :
        (job : Job)
        → event_job event ≡ ok job
        → is_job_event event.event_type ≡ true
        → job_accepts db job ≡ true
        → older_attempt_than_runner_current db event job ≡ false
        → passes ≡ true
        → applied ≡ true
        → db' ≡ apply_job py db event job received_at mi mw
        → Outcome db' applied
    heartbeat_applied :
        (job : Option Job)
        → payload_job event ≡ ok job
        → is_job_event event.event_type ≡ false
        → (event.event_type == "runner.heartbeat") ≡ true
        → passes ≡ true
        → applied ≡ true
        → db' ≡ apply_heartbeat py db event job received_at mi mw
        → Outcome db' applied
    offline_applied :
        (job : Option Job)
        → payload_job event ≡ ok job
        → is_job_event event.event_type ≡ false
        → (event.event_type == "runner.offline") ≡ true
        → passes ≡ true
        → applied ≡ true
        → db' ≡ apply_offline py db event job received_at mw
        → Outcome db' applied

  module _ {db' : Database} {applied : Bool} where
    job_outcome :
        (j : Job)
        → event_job event ≡ ok j
        → is_job_event event.event_type ≡ true
        → passes ≡ true
        → ◌≡◌ {A = Result Exception (Database × Bool)}
            (if not (job_accepts db j) || older_attempt_than_runner_current db event j
              then ok (db, false)
              else ok (apply_job py db event j received_at mi mw, true))
            (ok (db', applied))
        → Outcome db' applied
    job_outcome j read kind pass h =
        elim (Bool-cases (not (job_accepts db j) || older_attempt_than_runner_current db event j)) [
          | inl no_way ↦ refused j read kind no_way (ground arith) (ground arith)
          | inr fine ↦
              job_applied j read kind (ground arith) (ground arith) pass (ground arith)
                (ground arith)
        ]

    pub apply_event_outcome :
        apply_event py db event received_at mi mw ≡ ok (db', applied) → Outcome db' applied
    unfolding apply_event
    apply_event_outcome h = elim (Bool-cases (mw && not (runner_accepts db event))) [
      | inl blocked ↦ late (ground arith) (ground arith) (ground arith)
      | inr open_way ↦
          let pass : passes ≡ true = ground arith in
          elim (Bool-cases (is_job_event event.event_type)) [
            | inl kind ↦
                let (j, read, rest) = >>=-eq-ok (event_job event) _ (rw (open_way, kind) at h) in
                job_outcome j read kind pass rest
            | inr other ↦ elim (Bool-cases (event.event_type == "runner.heartbeat")) [
              | inl beat ↦
                  let (j, read, rest) =
                    >>=-eq-ok (payload_job event) _ (rw (open_way, other, beat) at h) in
                  heartbeat_applied j read other beat pass (ground arith) (ground arith)
              | inr no_beat ↦ elim (Bool-cases (event.event_type == "runner.offline")) [
                | inl shut ↦
                    let (j, read, rest) =
                      >>=-eq-ok (payload_job event) _ (rw (open_way, other, no_beat, shut) at h) in
                    offline_applied j read other shut pass (ground arith) (ground arith)
                | inr no_shut ↦ inert (ground arith) (ground arith) (ground arith)
              ]
            ]
          ]
    ]
