-- ===== src/Store/Replay.antt =====
-- store.py: `Store.replay`, which rebuilds the current state from the log.
use runner_observability.Base.{
  ℕ, String, Bool, true, false, ◌&&◌, Option, none, some, List, [], ◌∷◌, Result, ok, err, ◌>>=◌,
  string_eq, ◌==◌, if◌then◌else◌, pos, negsuc,
}
use runner_observability.Base.Table.{Table}
use runner_observability.Python.{
  Python, Exception, validation_error, value_error, type_error, key_error, attribute_error,
  overflow_error, os_error, recursion_error, database_error,
}
use runner_observability.Contracts.Event.{validate_event}
use runner_observability.Database.{Database, EventRow, RunnerRow, JobRow, IncidentRow}
use runner_observability.Database.Keys.{JobKey, IncidentKey}
use runner_observability.Projection.{apply_event}
use runner_observability.Store.State.{
  Store, add_reason, discard_reason, set_applied, history_is_complete,
}
use runner_observability.Store.Transaction.{Outcome, transaction}
use runner_observability.Store.Liveness.{set_runner_offline, set_job_offline}

-- SELECT runner_id, offline_reason FROM runner_state WHERE liveness = 'offline'
unfoldable pub offline_runners : Table String RunnerRow → List (String × Option String)
offline_runners [] = []
offline_runners ((runner_id, row) ∷ rest) =
    let others = offline_runners rest in
    if row.liveness == "offline" then (runner_id, row.offline_reason) ∷ others else others

unfoldable pub offline_jobs : Table JobKey JobRow → List (JobKey × Option String)
offline_jobs [] = []
offline_jobs ((key, row) ∷ rest) =
    let others = offline_jobs rest in
    if row.liveness == "offline" then (key, row.offline_reason) ∷ others else others

unfoldable pub active_incidents : Table IncidentKey IncidentRow → List IncidentKey
active_incidents [] = []
active_incidents ((key, row) ∷ rest) =
    let others = active_incidents rest in if row.active then key ∷ others else others

-- DELETE FROM runner_state, job_state and producer_watermarks
unfoldable pub clear_projections : Database → Database
clear_projections db = record db { runner_state = []; job_state = []; producer_watermarks = [] }

unfoldable pub restore_runners : List (String × Option String) → Database → Database
unfolding set_runner_offline
restore_runners [] db = db
restore_runners ((runner_id, reason) ∷ rest) db =
    restore_runners rest (set_runner_offline db runner_id reason)

unfoldable pub restore_jobs : List (JobKey × Option String) → Database → Database
unfolding set_job_offline
restore_jobs [] db = db
restore_jobs ((key, reason) ∷ rest) db = restore_jobs rest (set_job_offline db key reason)

module _ (py : Python) where
  abbrev read_nonnegative : String → Option ℕ
  read_nonnegative s = elim (py.read_int s) [
    | none ↦ none
    | some i ↦ elim i [ pos n ↦ some n | negsuc n ↦ none ]
  ]

  abbrev parse_parts : List String → Option JobKey
  parse_parts (repository ∷ run ∷ attempt ∷ job ∷ []) = elim (read_nonnegative run) [
    | none ↦ none
    | some workflow_run_id ↦ elim (read_nonnegative attempt) [
      | none ↦ none
      | some run_attempt ↦ elim (read_nonnegative job) [
        | none ↦ none
        | some job_id ↦ some (record {
          repository = repository;
          workflow_run_id = workflow_run_id;
          run_attempt = run_attempt;
          job_id = job_id;
        })
      ]
    ]
  ]
  parse_parts _ = none

  -- `_parse_job_resource_id`. A negative number is the key of no row, so it is `none` here too.
  unfoldable pub parse_job_resource_id : String → Option JobKey
  parse_job_resource_id resource_id = parse_parts (py.split_colons resource_id)

  abbrev restore_incident : IncidentKey → Database → Database
  restore_incident incident db =
      if incident.resource_kind == "runner"
      then set_runner_offline db incident.resource_id (some incident.condition)
      else if incident.resource_kind == "job" && incident.condition == "heartbeat_timeout"
      then elim (parse_job_resource_id incident.resource_id) [
        | none ↦ db
        | some key ↦ set_job_offline db key (some "heartbeat_timeout")
      ]
      else db

  -- `_restore_offline_incident_liveness`
  unfoldable pub restore_offline_incident_liveness : List IncidentKey → Database → Database
  unfolding set_runner_offline set_job_offline parse_job_resource_id
  restore_offline_incident_liveness [] db = db
  restore_offline_incident_liveness (incident ∷ rest) db =
      restore_offline_incident_liveness rest (restore_incident incident db)

  -- one row of the loop over the events
  unfoldable pub replay_row : Database → EventRow → Result Exception Database
  replay_row db row = do
    payload ← elim (py.loads row.payload_json) [ none ↦ err value_error | some v ↦ ok v ]
    validated ← validate_event py payload
    (db', applied) ← apply_event py db validated row.received_at false true
    ok (record db' { events = set_applied row.event_id applied db'.events })

  -- The tables as far as they are rebuilt. A row that raises an exception adds nothing here.
  unfoldable pub replay_rows : List EventRow → Database → Outcome (Unit {0})
  replay_rows [] db = (db, ok tt)
  replay_rows (row ∷ rest) db = elim (replay_row db row) [
    | ok db' ↦ replay_rows rest db'
    | err e ↦ (db, err e)
  ]

  abbrev restore_liveness : Database → Database → Database
  restore_liveness db rebuilt = restore_offline_incident_liveness (active_incidents db.incidents) (
      restore_jobs (offline_jobs db.job_state)
        (restore_runners (offline_runners db.runner_state) rebuilt))

  abbrev after_rows : Database → Outcome (Unit {0}) → Outcome (Unit {0})
  after_rows db (rebuilt, ok t) = (restore_liveness db rebuilt, ok tt)
  after_rows db (rebuilt, err e) = (rebuilt, err e)

  -- the statements of the transaction of `replay`
  unfoldable pub rebuild : Database → Outcome (Unit {0})
  rebuild db = after_rows db (replay_rows db.events (clear_projections db))

  -- except (ValueError, TypeError, json.JSONDecodeError, sqlite3.DatabaseError)
  abbrev pub is_caught : Exception → Bool
  is_caught (validation_error reason) = true
  is_caught value_error = true
  is_caught type_error = true
  is_caught key_error = false
  is_caught attribute_error = false
  is_caught overflow_error = false
  is_caught os_error = false
  is_caught recursion_error = false
  is_caught database_error = true

  abbrev pub finish_replay : Store → Outcome (Unit {0}) → Result Exception (Store × Bool)
  finish_replay store (db, ok t) = ok (
    record {
      db = db;
      degraded_reasons =
          discard_reason "replay_incomplete_history"
            (discard_reason "replay_failed" store.degraded_reasons);
    },
    true,
  )
  finish_replay store (db, err e) =
      if is_caught e
      then ok (
        record { db = db; degraded_reasons = add_reason "replay_failed" store.degraded_reasons },
        false,
      )
      else err e

  unfoldable pub replay : Store → Result Exception (Store × Bool)
  replay store =
      if history_is_complete store.db
      then finish_replay store (transaction rebuild store.db)
      else ok (
        record store {
          degraded_reasons = add_reason "replay_incomplete_history" store.degraded_reasons;
        },
        false,
      )

  abbrev new_state : Result Exception (Store × Bool) → Result Exception Store
  new_state (ok (store, _)) = ok store
  new_state (err e) = err e

  -- `_replay_if_projections_are_missing`
  unfoldable pub replay_if_projections_are_missing : Store → Result Exception Store
  replay_if_projections_are_missing store = elim store.db.events [
    | [] ↦ ok store
    | row ∷ rows ↦ new_state (replay store)
  ]
