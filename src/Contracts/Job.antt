-- ===== src/Contracts/Job.antt =====
-- The job of a job event, as projection.py and store.py read it from the payload, and that every
-- validated job event has one.
use runner_observability.Base.{ℕ, String, none, some, pos, Result, ok, err, ◌>>=◌, string_eq}
use runner_observability.Value.{Fields, int, str, as_mapping, get}
use runner_observability.Python.{Exception, key_error}
use runner_observability.Contracts.Event.{ValidatedEvent}

pub record Job : Type 0 where
  pub repository : String
  pub workflow_run_id : ℕ
  pub run_attempt : ℕ
  pub job_id : ℕ
  pub job_name : String
  pub run_url : String

-- mapping[key], for a text and for a number that is not negative
abbrev pub str_at : Fields → String → Result Exception String
str_at f key = elim (get f key) [ str s ↦ ok s | _ ↦ err key_error ]

abbrev pub int_at : Fields → String → Result Exception ℕ
int_at f key = elim (get f key) [
  | int i ↦ elim i [ pos n ↦ ok n | _ ↦ err key_error ]
  | _ ↦ err key_error
]

abbrev pub mapping_at : Fields → String → Result Exception Fields
mapping_at f key = elim (as_mapping (get f key)) [ none ↦ err key_error | some m ↦ ok m ]

-- the fields of a job that the program reads
unfoldable pub read_job : Fields → Result Exception Job
read_job job = do
  repository ← str_at job "repository"
  workflow_run_id ← int_at job "workflow_run_id"
  run_attempt ← int_at job "run_attempt"
  job_id ← int_at job "job_id"
  job_name ← str_at job "job_name"
  run_url ← str_at job "run_url"
  ok (record {
    repository = repository;
    workflow_run_id = workflow_run_id;
    run_attempt = run_attempt;
    job_id = job_id;
    job_name = job_name;
    run_url = run_url;
  })

-- event.payload["job"]
unfoldable pub event_job : ValidatedEvent → Result Exception Job
event_job event = do
  payload ← elim (as_mapping event.payload) [ none ↦ err key_error | some m ↦ ok m ]
  job ← mapping_at payload "job"
  read_job job
