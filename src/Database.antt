-- ===== src/Database.antt =====
-- The tables of store.py's `_migrate`: a row is a record of the columns that are not in the table's
-- key. The tables stand in the order of their row ids.
pub mod Keys
use runner_observability.Base.{ℕ, String, Bool, Option, List}
use runner_observability.Base.Table.{Table}
use runner_observability.Database.Keys.{JobKey, IncidentKey, WatermarkKey}

pub record EventRow : Type 0 where
  pub event_row_id : ℕ
  pub event_id : String
  pub event_type : String
  pub runner_id : String
  pub producer_id : String
  pub producer_epoch : String
  pub producer_sequence : ℕ
  pub occurred_at : String
  pub received_at : String
  pub payload_json : String
  pub projection_applied : Bool

-- runner_state, by runner_id
pub record RunnerRow : Type 0 where
  pub producer_id : String
  pub producer_epoch : String
  pub producer_sequence : ℕ
  pub liveness : String
  pub activity : String
  pub last_received_at : String
  pub last_heartbeat_at : Option String
  pub last_job_outcome : Option String
  pub last_event_id : String
  pub offline_reason : Option String
  pub current_repository : Option String
  pub current_workflow_run_id : Option ℕ
  pub current_run_attempt : Option ℕ
  pub current_job_id : Option ℕ

-- job_state, by the key of a job's attempt
pub record JobRow : Type 0 where
  pub runner_id : String
  pub job_name : String
  pub run_url : String
  pub state : String
  pub outcome : Option String
  pub last_received_at : String
  pub last_event_id : String
  pub liveness : String
  pub last_heartbeat_at : Option String
  pub offline_reason : Option String

-- incidents, by their UNIQUE columns
pub record IncidentRow : Type 0 where
  pub active : Bool
  pub opened_at : String
  pub closed_at : Option String
  pub last_changed_at : String

pub record Database : Type 0 where
  pub events : List EventRow
  pub runner_state : Table String RunnerRow
  pub job_state : Table JobKey JobRow
  pub incidents : Table IncidentKey IncidentRow
  pub producer_watermarks : Table WatermarkKey ℕ
  pub monitor_meta : Table String String
