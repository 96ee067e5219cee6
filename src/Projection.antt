-- ===== src/Projection.antt =====
-- src/runner_observability/projection.py: how an event advances the current state.
pub mod Frame
pub mod Outcome
pub mod Log
pub mod Watermark
pub mod Terminal
use runner_observability.Base.{
  ℕ, String, Bool, true, false, not, ◌&&◌, ◌||◌, Option, none, some, Result, ok, err, ◌>>=◌, ltb,
  string_eq, number_eq, ◌==◌, if◌then◌else◌,
}
use Prim.Native.String.{◌++◌}
use runner_observability.Base.Table.{select, upsert}
use runner_observability.Value.{Value, str, as_mapping, get}
use runner_observability.Python.{Python, Exception, key_error}
use runner_observability.Contracts.Event.{ValidatedEvent}
use runner_observability.Contracts.Job.{Job, read_job, event_job}
use runner_observability.Database.{Database, RunnerRow, JobRow}
use runner_observability.Database.Keys.{JobKey, job_key_eq, WatermarkKey, watermark_key_eq}
use runner_observability.Health.{recover_resource}

abbrev pub watermark_key : ValidatedEvent → WatermarkKey
watermark_key event = record {
  runner_id = event.runner_id;
  producer_id = event.producer_id;
  producer_epoch = event.producer_epoch;
}

abbrev pub job_key : Job → JobKey
job_key job = record {
  repository = job.repository;
  workflow_run_id = job.workflow_run_id;
  run_attempt = job.run_attempt;
  job_id = job.job_id;
}

unfoldable pub runner_accepts : Database → ValidatedEvent → Bool
runner_accepts db event = elim (select (watermark_key event) db.producer_watermarks) [
  | none ↦ true
  | some sequence ↦ ltb sequence event.producer_sequence
]

unfoldable pub advance_watermark : Database → ValidatedEvent → Database
advance_watermark db event = record db {
  producer_watermarks = upsert (watermark_key event) event.producer_sequence db.producer_watermarks;
}

abbrev same_text : Option String → String → Bool
same_text none s = false
same_text (some t) s = t == s

abbrev same_number : Option ℕ → ℕ → Bool
same_number none n = false
same_number (some m) n = m == n

abbrev is_below : ℕ → Option ℕ → Bool
is_below n none = false
is_below n (some m) = ltb n m

unfoldable pub older_attempt_than_runner_current : Database → ValidatedEvent → Job → Bool
older_attempt_than_runner_current db event job = elim (select event.runner_id db.runner_state) [
  | none ↦ false
  | some row ↦
      same_text row.current_repository job.repository
      && same_number row.current_workflow_run_id job.workflow_run_id
      && is_below job.run_attempt row.current_run_attempt
]

unfoldable pub job_accepts : Database → Job → Bool
job_accepts db job = elim (select (job_key job) db.job_state) [
  | none ↦ true
  | some row ↦ not (row.state == "finished")
]

-- event.payload.get("job"), where it is a mapping
unfoldable pub payload_job : ValidatedEvent → Result Exception (Option Job)
payload_job event = elim (as_mapping event.payload) [
  | none ↦ err key_error
  | some payload ↦ elim (as_mapping (get payload "job")) [
    | none ↦ ok none
    | some job ↦ (do j ← read_job job; ok (some j))
  ]
]

-- event.payload.get("outcome"), where it is a text
unfoldable pub payload_outcome : ValidatedEvent → Option String
payload_outcome event = elim (as_mapping event.payload) [
  | none ↦ none
  | some payload ↦ elim (get payload "outcome") [ str s ↦ some s | _ ↦ none ]
]

abbrev or_else {ℓ} : {A : Type ℓ} → Option A → Option A → Option A
or_else (some a) prior = some a
or_else none prior = prior

abbrev prior {ℓ} : {A : Type ℓ} → (RunnerRow → Option A) → Option RunnerRow → Option A
prior column none = none
prior column (some row) = column row

abbrev new_activity : Option String → Option RunnerRow → String
new_activity (some activity) existing = activity
new_activity none none = "idle"
new_activity none (some row) = row.activity

abbrev from_job {ℓ} : {A : Type ℓ} → (Job → A) → Option Job → Option A → Option A
from_job column (some job) existing = some (column job)
from_job column none existing = existing

-- The keyword arguments of `_upsert_runner`.
pub record RunnerUpdate : Type 0 where
  pub liveness : String
  pub activity : Option String
  pub heartbeat_at : Option String
  pub terminal_outcome : Option String
  pub offline_reason : Option String

-- the row that the statement of `_upsert_runner` writes
abbrev pub runner_row :
    ValidatedEvent → Option Job → String → RunnerUpdate → Option RunnerRow → RunnerRow
runner_row event job received_at u existing = record {
  producer_id = event.producer_id;
  producer_epoch = event.producer_epoch;
  producer_sequence = event.producer_sequence;
  liveness = u.liveness;
  activity = new_activity u.activity existing;
  last_received_at = received_at;
  last_heartbeat_at = or_else u.heartbeat_at (prior (λ r. r.last_heartbeat_at) existing);
  last_job_outcome = or_else u.terminal_outcome (prior (λ r. r.last_job_outcome) existing);
  last_event_id = event.event_id;
  offline_reason = u.offline_reason;
  current_repository =
      from_job (λ j. j.repository) job (prior (λ r. r.current_repository) existing);
  current_workflow_run_id =
      from_job (λ j. j.workflow_run_id) job (prior (λ r. r.current_workflow_run_id) existing);
  current_run_attempt =
      from_job (λ j. j.run_attempt) job (prior (λ r. r.current_run_attempt) existing);
  current_job_id = from_job (λ j. j.job_id) job (prior (λ r. r.current_job_id) existing);
}

unfoldable pub upsert_runner :
    Database → ValidatedEvent → Option Job → String → RunnerUpdate → Database
upsert_runner db event job received_at u =
    let existing = select event.runner_id db.runner_state in
    record db {
      runner_state =
          upsert event.runner_id (runner_row event job received_at u existing) db.runner_state;
    }

-- the row that the statement of `_upsert_job` writes
abbrev pub job_row : ValidatedEvent → Job → String → String → Option String → JobRow
job_row event job received_at state outcome = record {
  runner_id = event.runner_id;
  job_name = job.job_name;
  run_url = job.run_url;
  state = state;
  outcome = outcome;
  last_received_at = received_at;
  last_event_id = event.event_id;
  liveness = "online";
  last_heartbeat_at = some received_at;
  offline_reason = none;
}

unfoldable pub upsert_job :
    Database → ValidatedEvent → Job → String → String → Option String → Database
upsert_job db event job received_at state outcome = record db {
  job_state = upsert (job_key job) (job_row event job received_at state outcome) db.job_state;
}

abbrev pub is_job_event : String → Bool
is_job_event event_type =
    event_type == "job.started" || event_type == "job.heartbeat" || event_type == "job.finished"

abbrev is_finished : ValidatedEvent → Bool
is_finished event = event.event_type == "job.finished"

abbrev pub new_state : ValidatedEvent → String
new_state event = if is_finished event then "finished" else "running"

abbrev pub job_outcome : ValidatedEvent → Option String
job_outcome event = if is_finished event then payload_outcome event else none

abbrev pub job_update : ValidatedEvent → RunnerUpdate
job_update event = record {
  liveness = "online";
  activity = some (if is_finished event then "idle" else "running");
  heartbeat_at = none;
  terminal_outcome = job_outcome event;
  offline_reason = none;
}

abbrev pub heartbeat_update : String → RunnerUpdate
heartbeat_update received_at = record {
  liveness = "online";
  activity = none;
  heartbeat_at = some received_at;
  terminal_outcome = none;
  offline_reason = none;
}

abbrev pub offline_update : RunnerUpdate
offline_update = record {
  liveness = "offline";
  activity = none;
  heartbeat_at = none;
  terminal_outcome = none;
  offline_reason = some "explicit_shutdown";
}

module _ (py : Python) where
  unfoldable pub job_resource_id : JobKey → String
  job_resource_id key =
      key.repository
      ++ (":"
          ++ (py.show_int key.workflow_run_id
              ++ (":" ++ (py.show_int key.run_attempt ++ (":" ++ py.show_int key.job_id)))))

  -- the statements under `if manage_watermarks`
  abbrev advance_if : Bool → ValidatedEvent → Database → Database
  advance_if manage_watermarks event db =
      if manage_watermarks then advance_watermark db event else db

  unfoldable pub apply_heartbeat :
      Database → ValidatedEvent → Option Job → String → Bool → Bool → Database
  unfolding advance_watermark upsert_runner recover_resource
  apply_heartbeat db event job received_at manage_incidents manage_watermarks =
      let db₁ = upsert_runner db event job received_at (heartbeat_update received_at) in
      let db₂ =
        if manage_incidents
        then recover_resource db₁ "runner" event.runner_id received_at
        else db₁ in
      advance_if manage_watermarks event db₂

  unfoldable pub apply_offline : Database → ValidatedEvent → Option Job → String → Bool → Database
  unfolding advance_watermark upsert_runner
  apply_offline db event job received_at manage_watermarks =
      advance_if manage_watermarks event (upsert_runner db event job received_at offline_update)

  unfoldable pub apply_job : Database → ValidatedEvent → Job → String → Bool → Bool → Database
  unfolding advance_watermark upsert_runner upsert_job recover_resource job_resource_id
  apply_job db event job received_at manage_incidents manage_watermarks =
      let db₁ = upsert_runner db event (some job) received_at (job_update event) in
      let db₂ = upsert_job db₁ event job received_at (new_state event) (job_outcome event) in
      let db₃ =
        if manage_incidents
        then recover_resource (recover_resource db₂ "runner" event.runner_id received_at) "job"
            (job_resource_id (job_key job)) received_at
        else db₂ in
      advance_if manage_watermarks event db₃

  -- The new state, and whether the event was applied.
  unfoldable pub apply_event :
      Database → ValidatedEvent → String → Bool → Bool → Result Exception (Database × Bool)
  apply_event db event received_at manage_incidents manage_watermarks =
      if manage_watermarks && not (runner_accepts db event)
      then ok (db, false)
      else if is_job_event event.event_type
      then (do
        job ← event_job event
        if not (job_accepts db job) || older_attempt_than_runner_current db event job
            then ok (db, false)
            else ok (apply_job db event job received_at manage_incidents manage_watermarks, true))
      else if event.event_type == "runner.heartbeat"
      then (do
        job ← payload_job event
        ok (apply_heartbeat db event job received_at manage_incidents manage_watermarks, true))
      else if event.event_type == "runner.offline"
      then (do
        job ← payload_job event
        ok (apply_offline db event job received_at manage_watermarks, true))
      else ok (db, false)
