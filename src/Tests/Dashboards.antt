-- ===== src/Tests/Dashboards.antt =====
-- The dashboard of a runner whose job has sent its progress twice, the later event first.
use runner_observability.Store.Liveness.{stale_runners, stale_jobs, mark_runners, mark_jobs}
use runner_observability.Base.Sort.{sort_by}
use runner_observability.Base.{
  String, ◌≡◌, refl, true, false, none, some, List, [], ◌∷◌, ok, pos, string_eq,
}
use runner_observability.Base.Table.{Table, select, upsert}
use runner_observability.Value.{Value, dict, str, int, bool, end, field, get}
use runner_observability.Python.{Python}
use runner_observability.Database.{EventRow}
use runner_observability.Store.State.{Store, degraded}
use runner_observability.Store.Time.{text, parse_received_at, normalise_received_at, subtract}
use runner_observability.Store.History.{HistoryItem, history_item_from_row}
use runner_observability.Dashboard.Reading.{lookup, display_time, unit_label}
use runner_observability.Dashboard.Phases.{PhaseView, aggregate_phases}
use runner_observability.Dashboard.Timeline.{FeedEntry}
use runner_observability.Dashboard.Views.{JobView, RunnerView}
use runner_observability.Dashboard.Snapshot.{Snapshot, dashboard_snapshot, history_filter_keys}
use runner_observability.Dashboard.Latest.{ShowsLatest, aggregate_phases-ShowsLatest}
use runner_observability.Dashboard.Clean.{IsClean, dashboard_snapshot-IsClean}
use runner_observability.Tests.Fixtures.{py, empty_database}
use runner_observability.Tests.Stores.{heartbeat_row, heartbeat_log, build_key, finished_row}
use runner_observability.Tests.Requests.{display}

abbrev progress_payload : String → Value
progress_payload state = dict (
    field "job" (dict end) (
      field "progress"
        (dict (
          field "stage_id" (str "lint_check") (
            field "state" (str state) (
              field "determinate" (bool true) (
                field "total" (int (pos 9)) (
                  field "pending" (int (pos 2)) (
                    field "completed" (int (pos 7)) (
                      field "failed" (int (pos 0)) (
                        field "fallback_group_count" (int (pos 0)) (
                          field "affected_test_count" (int (pos 0))
                            (field "attempt" (int (pos 1)) end)))))))))))
        end))

abbrev progress_row : String → EventRow
progress_row received_at = record (heartbeat_log received_at) { event_type = "job.progress" }

abbrev progress_at : String → String → HistoryItem
progress_at state received_at = record {
  row = progress_row received_at;
  payload = progress_payload state;
}

abbrev history : List HistoryItem
history = progress_at "finished" "late" ∷ progress_at "running" "now" ∷ []

abbrev lint_view : String → PhaseView
lint_view state = record {
  stage_id = "lint_check";
  category = "pr_check_phase";
  state = str state;
  determinate = bool true;
  total = int (pos 9);
  processed = 7;
  completed = int (pos 7);
  failed = int (pos 0);
  pending = int (pos 2);
  fallback_group_count = int (pos 0);
  affected_test_count = int (pos 0);
  attempt = int (pos 1);
  unit_label = "files";
  received_at = "08:00";
  occurred_at = "08:00";
}

abbrev phases : Table String PhaseView
phases = ("lint_check", lint_view "finished") ∷ []

finished_last : aggregate_phases py display history ≡ ok phases
unfolding select aggregate_phases parse_received_at sort_by lookup display_time upsert unit_label
finished_last = refl

aggregate_phases-ShowsLatest_example :
    ShowsLatest py display history "lint_check" (select "lint_check" phases)
aggregate_phases-ShowsLatest_example =
    aggregate_phases-ShowsLatest py display history "lint_check" finished_last

-- a library that reads every stored payload as the progress of the job
abbrev progress_py : Python
progress_py = record py { loads = λ s. some (progress_payload "running") }

abbrev busy_store : Store
busy_store = record {
  db = record empty_database {
    events = progress_row "now" ∷ [];
    runner_state =
        (
          "r-1",
          record heartbeat_row {
            current_repository = some "o/r";
            current_workflow_run_id = some 10;
            current_run_attempt = some 1;
            current_job_id = some 3;
          },
        )
        ∷ [];
    job_state = (build_key, finished_row) ∷ [];
  };
  degraded_reasons = [];
}

abbrev build_view : JobView
build_view = record {
  key = build_key;
  job_name = "build";
  run_url = "https://github.com/o/r/actions/runs/10";
  state = "finished";
  outcome = some "succeeded";
  liveness = "online";
  offline_reason = none;
  last_received_at = "08:00";
  last_heartbeat_at = some "08:00";
  progress_unreported = false;
  phases = ("lint_check", lint_view "running") ∷ [];
  fallback = none;
  timeline = [];
}

abbrev busy_view : RunnerView
busy_view = record {
  runner_id = "r-1";
  alias = "runner-r-1";
  liveness = "online";
  activity = "idle";
  offline_reason = none;
  last_received_at = "08:00";
  last_heartbeat_at = some "08:00";
  last_job_outcome = none;
  current_job = some build_view;
}

abbrev fed : FeedEntry
fed = record {
  event_type = "job.progress";
  runner_id = "r-1";
  runner_alias = "runner-r-1";
  received_at = "08:00";
  occurred_at = "08:00";
  job_name = Value.null;
  run_url = Value.null;
  summary = "lint_check: 7 (7/7 files)";
}

abbrev busy_snapshot : Snapshot
busy_snapshot = record {
  generated_at = "08:00";
  degraded = false;
  reasons = [];
  history_filter_keys = history_filter_keys;
  incidents = [];
  runners = busy_view ∷ [];
  active_runners = busy_view ∷ [];
  event_feed = fed ∷ [];
}

shown :
    dashboard_snapshot progress_py display busy_store (text "now")
    ≡ (busy_store, [], ok busy_snapshot)
unfolding select dashboard_snapshot normalise_received_at parse_received_at subtract stale_runners
    stale_jobs mark_runners mark_jobs history_item_from_row sort_by get lookup degraded upsert
shown = refl

dashboard_snapshot-IsClean_example : IsClean busy_snapshot
dashboard_snapshot-IsClean_example =
    dashboard_snapshot-IsClean progress_py display busy_store (text "now") shown
