-- ===== src/Tests/Stores.antt =====
-- The projections and the store.
use runner_observability.Contracts.Fields.{
  required_string, required_uuid, required_identifier, required_positive_int, required_timestamp,
}
use runner_observability.Contracts.Content.{validate_payload_size, validate_no_forbidden_content}
use runner_observability.Contracts.Job.{event_job, read_job}
use runner_observability.Base.{
  All, ◌⊎◌, ◌-◌, ◌*◌, ◌+◌, ℕ, String, ◌≡◌, ◌≤◌, refl, true, false, ◌&&◌, none, some, [], ◌∷◌, ok,
  arith, string_eq, number_eq, ◌==◌, if◌then◌else◌, take, drop, length, ltb,
}
use runner_observability.Base.Table.{select, upsert, update_where, update}
use runner_observability.Value.{get, freeze, thaw, has_exact_keys}
use runner_observability.Contracts.Event.{validate_event, validate_envelope_fields}
use runner_observability.Database.{Database, RunnerRow, JobRow, EventRow}
use runner_observability.Database.Keys.{IncidentKey, watermark_key_eq, JobKey, job_key_eq}
use runner_observability.Health.{opened_row, open_incident, recover_resource}
use runner_observability.Health.Incidents.{
  open_incident-open_incident, open_incident-recover_resource,
}
use runner_observability.Projection.{
  apply_event, watermark_key, runner_accepts, payload_job, apply_heartbeat, job_accepts,
}
use runner_observability.Projection.Watermark.{
  apply_event_rejected, apply_event_watermarks, apply_event_monotone,
}
use runner_observability.Projection.Terminal.{apply_event_finished}
use runner_observability.Store.State.{
  Store, degraded, add_reason, discard_reason, history_is_complete, validated_event, find_event,
  set_applied, producer_watermark, next_row_id,
}
use runner_observability.Store.Time.{
  retention, liveness_timeout, text, normalise_received_at, parse_received_at, subtract,
}
use runner_observability.Store.Liveness.{
  refresh_liveness, stale_runners, stale_jobs, mark_runners, mark_jobs,
}
use runner_observability.Store.Stale.{refresh_liveness-timed_out}
use runner_observability.Store.Cleanup.{IsFresh, SameProjections, prune_history-IsFresh}
use runner_observability.Store.Ingest.{
  IngestResult, ingest, ingest_new, append_event, open_shutdown,
}
use runner_observability.Store.Duplicates.{duplicate_of, ingest-ingest}
use runner_observability.Store.Expired.{IsFailedCleanup}
use runner_observability.Store.Transaction.{transaction}
use runner_observability.Store.Prune.{
  CleanupFaults, delete_before, delete_rows, prune_history, expired_rows, delete_expired,
}
use runner_observability.Python.{Python}
use runner_observability.Store.Replay.{clear_projections, replay_rows, replay_row, rebuild, replay}
use runner_observability.Store.Failures.{prune_then_replay, replay_failed}
use runner_observability.Store.History.{
  HistoryItem, matching, page_rows, history_page, validate_history_filters, history_item_from_row,
  matches_history_filters,
}
use runner_observability.Store.Pages.{history_page-matching}
use runner_observability.Tests.Fixtures.{
  py, heartbeat, heartbeat_event, started_event, empty_database, empty_store,
}

abbrev pub heartbeat_row : RunnerRow
heartbeat_row = record {
  producer_id = "p-1";
  producer_epoch = "epoch-1";
  producer_sequence = 7;
  liveness = "online";
  activity = "idle";
  last_received_at = "now";
  last_heartbeat_at = some "now";
  last_job_outcome = none;
  last_event_id = "e-1";
  offline_reason = none;
  current_repository = none;
  current_workflow_run_id = none;
  current_run_attempt = none;
  current_job_id = none;
}

abbrev pub heard : Database
heard = record empty_database {
  runner_state = ("r-1", heartbeat_row) ∷ [];
  producer_watermarks = (watermark_key heartbeat_event, 7) ∷ [];
}

abbrev pub build_key : JobKey
build_key = record { repository = "o/r"; workflow_run_id = 10; run_attempt = 1; job_id = 3 }

abbrev pub finished_row : JobRow
finished_row = record {
  runner_id = "r-1";
  job_name = "build";
  run_url = "https://github.com/o/r/actions/runs/10";
  state = "finished";
  outcome = some "succeeded";
  last_received_at = "now";
  last_event_id = "e-3";
  liveness = "online";
  last_heartbeat_at = some "now";
  offline_reason = none;
}

abbrev finished_database : Database
finished_database = record empty_database { job_state = (build_key, finished_row) ∷ [] }

abbrev pub heartbeat_log : String → EventRow
heartbeat_log received_at = record {
  event_row_id = 1;
  event_id = "e-1";
  event_type = "runner.heartbeat";
  runner_id = "r-1";
  producer_id = "p-1";
  producer_epoch = "epoch-1";
  producer_sequence = 7;
  occurred_at = "now";
  received_at = received_at;
  payload_json = "{}";
  projection_applied = true;
}

abbrev pub heard_store : String → Store
heard_store received_at = record {
  db = record heard { events = heartbeat_log received_at ∷ [] };
  degraded_reasons = [];
}

abbrev pub heard_result : IngestResult
heard_result = record {
  event_id = "e-1";
  accepted = true;
  duplicate = false;
  projection_applied = true;
  producer_watermark = some 7;
}

abbrev pruned_store : Store
pruned_store = record {
  db = record heard { events = []; monitor_meta = ("projection_history_complete", "0") ∷ [] };
  degraded_reasons = [];
}

heartbeat_applied : apply_event py empty_database heartbeat_event "now" true true ≡ ok (heard, true)
unfolding apply_event runner_accepts select payload_job freeze get apply_heartbeat upsert
    update_where
heartbeat_applied = refl

heartbeat_repeated : apply_event py heard heartbeat_event "now" true true ≡ ok (heard, false)
unfolding apply_event runner_accepts select
heartbeat_repeated = refl

late_start :
    apply_event py finished_database started_event "now" true true ≡ ok (finished_database, false)
unfolding apply_event runner_accepts select event_job freeze get read_job job_accepts
late_start = refl

pub heartbeat_ingested :
    ingest py empty_store heartbeat_event (text "now") ≡ ok (heard_store "now", heard_result, [])
unfolding ingest validated_event validate_event validate_payload_size thaw freeze
    validate_no_forbidden_content get required_string validate_envelope_fields has_exact_keys
    required_uuid required_identifier required_positive_int required_timestamp normalise_received_at
    find_event set_applied producer_watermark next_row_id ingest_new append_event open_shutdown
    apply_event runner_accepts select payload_job apply_heartbeat upsert update_where
heartbeat_ingested = refl

abbrev no_cleanup_faults : CleanupFaults
no_cleanup_faults = record { select_fails = false; delete_fails = false; insert_fails = false }

old_pruned :
    prune_history py no_cleanup_faults (heard_store "old") (text "now") ≡ ok (pruned_store, 1)
unfolding prune_history normalise_received_at parse_received_at subtract expired_rows delete_expired
    transaction delete_before delete_rows discard_reason upsert
old_pruned = refl

abbrev unreading_py : Python
unreading_py = record py { loads = λ s. none }

-- a row of the log cannot be read, after the projections have been deleted
failed_replay :
    replay unreading_py (heard_store "now")
    ≡ ok (record (heard_store "now") { degraded_reasons = "replay_failed" ∷ [] }, false)
unfolding replay transaction rebuild clear_projections replay_rows replay_row history_is_complete
    select add_reason
failed_replay = refl

abbrev heartbeat_item : HistoryItem
heartbeat_item = record { row = heartbeat_log "now"; payload = heartbeat }

heard_matching :
    matching py [] (page_rows py (heard_store "now").db [] []) ≡ ok (heartbeat_item ∷ [])
unfolding matching page_rows history_item_from_row matches_history_filters
heard_matching = refl

now_normal : normalise_received_at py (text "now") ≡ ok "now"
unfolding normalise_received_at
now_normal = refl

no_filters : validate_history_filters [] ≡ ok tt
unfolding validate_history_filters
no_filters = refl

ingest-ingest_example :
    ingest py (heard_store "now") heartbeat_event (text "now")
    ≡ ok (heard_store "now", duplicate_of heard_result, [])
ingest-ingest_example =
    ingest-ingest py empty_store heartbeat_event (text "now") (text "now") heartbeat_ingested
      now_normal

apply_event_watermarks_example :
    select (watermark_key heartbeat_event) heard.producer_watermarks ≡ (
      if true && (true && watermark_key heartbeat_event == watermark_key heartbeat_event)
      then some 7
      else select (watermark_key heartbeat_event) empty_database.producer_watermarks)
apply_event_watermarks_example =
    apply_event_watermarks py empty_database heartbeat_event "now" true true heartbeat_applied
      (watermark_key heartbeat_event)

heard_watermark : select (watermark_key heartbeat_event) heard.producer_watermarks ≡ some 7
unfolding select
heard_watermark = refl

apply_event_monotone_example :
    (m : ℕ) × (select (watermark_key heartbeat_event) heard.producer_watermarks ≡ some m) × (7 ≤ m)
apply_event_monotone_example =
    apply_event_monotone py heard heartbeat_event "now" true heartbeat_repeated
      (watermark_key heartbeat_event) 7 heard_watermark

apply_event_rejected_example : heard ≡ heard
apply_event_rejected_example =
    apply_event_rejected py heard heartbeat_event "now" true true heartbeat_repeated

build_finished : select build_key finished_database.job_state ≡ some finished_row
unfolding select
build_finished = refl

apply_event_finished_example : select build_key finished_database.job_state ≡ some finished_row
apply_event_finished_example =
    apply_event_finished py finished_database started_event "now" true true late_start build_key
      finished_row build_finished refl

prune_then_replay_example :
    replay py pruned_store
    ≡ ok (
      record pruned_store {
        degraded_reasons = add_reason "replay_incomplete_history" pruned_store.degraded_reasons;
      },
      false,
    )
prune_then_replay_example =
    prune_then_replay py no_cleanup_faults (heard_store "old") (text "now") old_pruned (omega arith)

replay_failed_example :
    ((heard_store "now").db ≡ (heard_store "now").db)
    × (degraded (record (heard_store "now") { degraded_reasons = "replay_failed" ∷ [] }) ≡ true)
replay_failed_example = replay_failed unreading_py (heard_store "now") failed_replay

history_page-matching_example :
    history_page py (heard_store "now").db [] 1 1 []
    ≡ ok (
      take 1 (drop ((1 - 1) * 1) (heartbeat_item ∷ [])),
      ltb ((1 - 1) * 1 + 1) (length (heartbeat_item ∷ [])),
    )
history_page-matching_example =
    history_page-matching py (heard_store "now").db [] 1 1 [] (omega arith) (omega arith) no_filters
      heard_matching

open_incident-open_incident_example :
    let (db', _) = open_incident empty_database "runner" "r-1" "heartbeat_timeout" "now" in
    open_incident db' "runner" "r-1" "heartbeat_timeout" "late" ≡ (db', none)
open_incident-open_incident_example =
    open_incident-open_incident empty_database "runner" "r-1" "heartbeat_timeout" "now" "late"

open_incident-recover_resource_example :
    (open_incident
      (recover_resource empty_database "runner" "r-1" "now")
      "runner"
      "r-1"
      "heartbeat_timeout"
      "late").1
    ≡ some (record {
      key = record {
        resource_kind = "runner";
        resource_id = "r-1";
        condition = "heartbeat_timeout";
      };
      row = opened_row "late";
    })
open_incident-recover_resource_example =
    open_incident-recover_resource empty_database "runner" "r-1" "heartbeat_timeout" "now" "late"

abbrev stale_row : RunnerRow
stale_row = record heartbeat_row { last_received_at = "old" }

abbrev stale_store : Store
stale_store = record {
  db = record empty_database { runner_state = ("r-1", stale_row) ∷ [] };
  degraded_reasons = [];
}

abbrev timeout_key : IncidentKey
timeout_key = record {
  resource_kind = "runner";
  resource_id = "r-1";
  condition = "heartbeat_timeout";
}

abbrev refreshed_store : Store
refreshed_store = record {
  db = record empty_database {
    runner_state =
        (
          "r-1",
          record stale_row { liveness = "offline"; offline_reason = some "heartbeat_timeout" },
        )
        ∷ [];
    incidents = (timeout_key, opened_row "now") ∷ [];
  };
  degraded_reasons = [];
}

stale_refreshed :
    refresh_liveness py stale_store (text "now")
    ≡ ok (refreshed_store, record { key = timeout_key; row = opened_row "now" } ∷ [])
unfolding refresh_liveness normalise_received_at parse_received_at subtract stale_runners stale_jobs
    mark_runners select mark_jobs update upsert
stale_refreshed = refl

now_parsed : parse_received_at py "now" ≡ ok 1000000000000
unfolding parse_received_at
now_parsed = refl

old_parsed : parse_received_at py "old" ≡ ok 0
unfolding parse_received_at
old_parsed = refl

ten_minutes_before : subtract 1000000000000 liveness_timeout ≡ ok 999400000000
unfolding subtract
ten_minutes_before = refl

stale_selected : select "r-1" stale_store.db.runner_state ≡ some stale_row
unfolding select
stale_selected = refl

refresh_liveness-timed_out_example :
    select "r-1" refreshed_store.db.runner_state
    ≡ some (record stale_row { liveness = "offline"; offline_reason = some "heartbeat_timeout" })
refresh_liveness-timed_out_example =
    refresh_liveness-timed_out py stale_store (text "now") "r-1" stale_row stale_refreshed
      now_normal now_parsed ten_minutes_before stale_selected refl old_parsed (omega arith)

seven_days_before : subtract 1000000000000 retention ≡ ok 395200000000
unfolding subtract
seven_days_before = refl

prune_history-IsFresh_example :
    All (IsFresh py 395200000000) pruned_store.db.events
      × SameProjections (heard_store "old").db pruned_store.db
    ⊎ IsFailedCleanup no_cleanup_faults (heard_store "old") pruned_store 1
prune_history-IsFresh_example =
    prune_history-IsFresh py no_cleanup_faults (heard_store "old") (text "now") old_pruned
      now_normal now_parsed seven_days_before
