-- ===== src/Dashboard/Views.antt =====
-- dashboard.py: the views of runners, jobs and incidents.
use runner_observability.Base.{
  ℕ, String, Bool, Option, none, some, List, [], ◌∷◌, Result, ok, ◌>>=◌, string_eq,
}
use mathlib.Core.List.{reverse}
use runner_observability.Base.Table.{Table}
use runner_observability.Python.{Python, Exception}
use runner_observability.Database.{Database, RunnerRow, JobRow, IncidentRow}
use runner_observability.Database.Keys.{JobKey, IncidentKey}
use runner_observability.Store.History.{HistoryItem}
use runner_observability.Store.Queries.{current_job, recent_job_events}
use runner_observability.Dashboard.Reading.{
  Display, runner_alias, display_time, display_optional_time,
}
use runner_observability.Dashboard.Phases.{
  PhaseView, FallbackView, job_history, progress_unreported, aggregate_phases, latest_fallback,
}
use runner_observability.Dashboard.Timeline.{TimelineEntry, timeline}

abbrev pub job_timeline_limit : ℕ
job_timeline_limit = 5

pub record JobView : Type 0 where
  pub key : JobKey
  pub job_name : String
  pub run_url : String
  pub state : String
  pub outcome : Option String
  pub liveness : String
  pub offline_reason : Option String
  pub last_received_at : String
  pub last_heartbeat_at : Option String
  pub progress_unreported : Bool
  pub phases : Table String PhaseView
  pub fallback : Option FallbackView
  pub timeline : List TimelineEntry

pub record RunnerView : Type 0 where
  pub runner_id : String
  pub alias : String
  pub liveness : String
  pub activity : String
  pub offline_reason : Option String
  pub last_received_at : String
  pub last_heartbeat_at : Option String
  pub last_job_outcome : Option String
  pub current_job : Option JobView

pub record IncidentView : Type 0 where
  pub key : IncidentKey
  pub active : Bool
  pub opened_at : String
  pub closed_at : Option String
  pub last_changed_at : String

-- the job that a runner is on, if all its columns are set
abbrev key_of : Option String → Option ℕ → Option ℕ → Option ℕ → Option JobKey
key_of (some repository) (some workflow_run_id) (some run_attempt) (some job_id) = some (record {
  repository = repository;
  workflow_run_id = workflow_run_id;
  run_attempt = run_attempt;
  job_id = job_id;
})
key_of _ _ _ _ = none

abbrev pub current_key : RunnerRow → Option JobKey
current_key row =
    key_of row.current_repository row.current_workflow_run_id row.current_run_attempt
      row.current_job_id

module _ (py : Python) (display : Display) where
  -- `_job_view`
  unfoldable pub job_view :
      JobKey → JobRow → List HistoryItem → List HistoryItem → Result Exception JobView
  unfolding display_time display_optional_time progress_unreported aggregate_phases latest_fallback
      timeline
  job_view key row job_history timeline_history = do
    last_received_at ← display_time py display row.last_received_at
    last_heartbeat_at ← display_optional_time py display row.last_heartbeat_at
    unreported ← progress_unreported py row job_history
    phases ← aggregate_phases py display job_history
    fallback ← latest_fallback py display job_history
    entries ← timeline py display (reverse timeline_history)
    ok (record {
      key = key;
      job_name = row.job_name;
      run_url = row.run_url;
      state = row.state;
      outcome = row.outcome;
      liveness = row.liveness;
      offline_reason = row.offline_reason;
      last_received_at = last_received_at;
      last_heartbeat_at = last_heartbeat_at;
      progress_unreported = unreported;
      phases = phases;
      fallback = fallback;
      timeline = entries;
    })

  abbrev pub stored_job_view :
      Database → List HistoryItem → JobKey → Option JobRow → Result Exception (Option JobView)
  stored_job_view db window key none = ok none
  stored_job_view db window key (some row) = do
    recent ← recent_job_events py db key job_timeline_limit
    view ← job_view key row (job_history py window key) recent
    ok (some view)

  abbrev pub current_job_view :
      Database → List HistoryItem → Option JobKey → Result Exception (Option JobView)
  current_job_view db window none = ok none
  current_job_view db window (some key) = stored_job_view db window key (current_job db key)

  -- `_runner_view`
  unfoldable pub runner_view :
      Database → List HistoryItem → String → RunnerRow → Result Exception RunnerView
  unfolding current_job recent_job_events job_history job_view runner_alias display_time
      display_optional_time
  runner_view db window runner_id row = do
    current ← current_job_view db window (current_key row)
    last_received_at ← display_time py display row.last_received_at
    last_heartbeat_at ← display_optional_time py display row.last_heartbeat_at
    ok (record {
      runner_id = runner_id;
      alias = runner_alias runner_id;
      liveness = row.liveness;
      activity = row.activity;
      offline_reason = row.offline_reason;
      last_received_at = last_received_at;
      last_heartbeat_at = last_heartbeat_at;
      last_job_outcome = row.last_job_outcome;
      current_job = current;
    })

  unfoldable pub runner_views :
      Database → List HistoryItem → List (String × RunnerRow) → Result Exception (List RunnerView)
  unfolding runner_view
  runner_views db window [] = ok []
  runner_views db window ((runner_id, row) ∷ rows) = do
    view ← runner_view db window runner_id row
    views ← runner_views db window rows
    ok (view ∷ views)

  -- `_incident_view`
  unfoldable pub incident_view : IncidentKey → IncidentRow → Result Exception IncidentView
  unfolding display_time display_optional_time
  incident_view key row = do
    opened_at ← display_time py display row.opened_at
    closed_at ← display_optional_time py display row.closed_at
    last_changed_at ← display_time py display row.last_changed_at
    ok (record {
      key = key;
      active = row.active;
      opened_at = opened_at;
      closed_at = closed_at;
      last_changed_at = last_changed_at;
    })

  unfoldable pub incident_views :
      List (IncidentKey × IncidentRow) → Result Exception (List IncidentView)
  unfolding incident_view
  incident_views [] = ok []
  incident_views ((key, row) ∷ rows) = do
    view ← incident_view key row
    views ← incident_views rows
    ok (view ∷ views)
