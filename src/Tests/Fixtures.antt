-- ===== src/Tests/Fixtures.antt =====
-- A small standard library and the events that the tests use. Its clock knows three times.
use runner_observability.Base.{
  ℕ, String, true, false, Option, none, some, [], ◌∷◌, pos, string_eq, ◌==◌, if◌then◌else◌,
}
use runner_observability.Value.{Value, dict, str, int, end, field, freeze}
use runner_observability.Python.{Python, Url}
use runner_observability.Contracts.Event.{ValidatedEvent}
use runner_observability.Database.{Database}
use runner_observability.Store.State.{Store}

abbrev pub heartbeat : Value
heartbeat = dict (
    field "schema_version" (int (pos 1)) (
      field "event_type" (str "runner.heartbeat") (
        field "event_id" (str "e-1") (
          field "runner_id" (str "r-1") (
            field "producer_id" (str "p-1") (
              field "producer_epoch" (str "epoch-1") (
                field "producer_sequence" (int (pos 7)) (field "occurred_at" (str "now") end))))))))

abbrev job_payload : String → Value
job_payload run_url = dict (
    field "repository" (str "o/r") (
      field "workflow_run_id" (int (pos 10)) (
        field "run_attempt" (int (pos 1)) (
          field "job_id" (int (pos 3))
            (field "job_name" (str "build") (field "run_url" (str run_url) end))))))

abbrev pub started_at : String → Value
started_at run_url = dict (
    field "schema_version" (int (pos 1)) (
      field "event_type" (str "job.started") (
        field "event_id" (str "e-2") (
          field "runner_id" (str "r-1") (
            field "producer_id" (str "p-1") (
              field "producer_epoch" (str "epoch-1") (
                field "producer_sequence" (int (pos 8))
                  (field "occurred_at" (str "now") (field "job" (job_payload run_url) end)))))))))

abbrev pub started : Value
started = started_at "https://github.com/o/r/actions/runs/10"

abbrev time_of : String → ℕ
time_of s = if s == "old" then 0 else if s == "late" then 9000000000000 else 1000000000000

abbrev url_of : String → Option Url
url_of s =
    if s == "https://["
    then none
    else some (record {
      scheme = "https";
      hostname = some "github.com";
      username = none;
      password = none;
      path = "/o/r/actions/runs/10";
      query = "";
      fragment = "";
    })

abbrev pub py : Python
py = record {
  re_search = λ p s. false;
  re_fullmatch = λ p s. true;
  is_uuid = λ s. true;
  fromisoformat = λ s. some (record { aware = true; instant = time_of s });
  urlparse = url_of;
  dumps_size = λ v. some 400;
  dumps_too_deep = λ v. false;
  search_depth = 20;
  freeze_too_deep = λ v. false;
  dumps = λ v. "{}";
  loads = λ s. some heartbeat;
  encode = λ v. "{}";
  dump_sorted = λ v. "{}";
  equals = λ a b. true;
  show_int = λ n. "1";
  read_int = λ s. some (pos 1);
  split_colons = λ s. s ∷ [];
  isoformat = λ n. "now";
}

abbrev pub heartbeat_event : ValidatedEvent
heartbeat_event = record {
  schema_version = 1;
  event_type = "runner.heartbeat";
  event_id = "e-1";
  runner_id = "r-1";
  producer_id = "p-1";
  producer_epoch = "epoch-1";
  producer_sequence = 7;
  occurred_at = "now";
  payload = freeze heartbeat;
}

abbrev pub started_event : ValidatedEvent
started_event = record {
  schema_version = 1;
  event_type = "job.started";
  event_id = "e-2";
  runner_id = "r-1";
  producer_id = "p-1";
  producer_epoch = "epoch-1";
  producer_sequence = 8;
  occurred_at = "now";
  payload = freeze started;
}

abbrev pub empty_database : Database
empty_database = record {
  events = [];
  runner_state = [];
  job_state = [];
  incidents = [];
  producer_watermarks = [];
  monitor_meta = ("projection_history_complete", "1") ∷ [];
}

abbrev pub empty_store : Store
empty_store = record { db = empty_database; degraded_reasons = [] }
