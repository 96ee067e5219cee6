-- ===== src/Store/Queries.antt =====
-- store.py: the queries of a `Store`, its health, and what happens when it is opened.
use runner_observability.Base.{
  ℕ, String, Bool, true, false, ◌&&◌, Option, none, some, List, [], ◌∷◌, Result, guard, leb,
  string_eq, ◌==◌, if◌then◌else◌, keep, take, ◌>>◌,
}
use Prim.Native.Nat.{Ordering}
use Prim.Native.String.{compare}
use mathlib.Core.List.{reverse}
use runner_observability.Base.Table.{select}
use runner_observability.Base.Sort.{sort_by}
use runner_observability.Python.{Python, Exception, value_error}
use runner_observability.Value.{get}
use runner_observability.Database.{Database, EventRow, RunnerRow, JobRow, IncidentRow}
use runner_observability.Database.Keys.{JobKey, IncidentKey, job_key_eq}
use runner_observability.Store.State.{Store, add_reason, discard_reason, degraded}
use runner_observability.Store.History.{HistoryItem, decode_all, is_str, is_int, job_of}
use runner_observability.Store.Replay.{replay_if_projections_are_missing}

unfoldable pub current_runner : Database → String → Option RunnerRow
current_runner db runner_id = select runner_id db.runner_state

unfoldable pub current_job : Database → JobKey → Option JobRow
current_job db key = select key db.job_state

-- The order of texts by their code points, as SQLite's and Python's.
abbrev pub text_le : String → String → Bool
text_le a b = elim (compare a b) [ Ordering.gt ↦ false | _ ↦ true ]

-- ORDER BY last_received_at DESC, runner_id ASC
abbrev runner_before : String × RunnerRow → String × RunnerRow → Bool
runner_before (id, row) (id', row') = elim (compare row.last_received_at row'.last_received_at) [
  | Ordering.gt ↦ true
  | Ordering.lt ↦ false
  | Ordering.eq ↦ text_le id id'
]

unfoldable pub list_runners : Database → List (String × RunnerRow)
list_runners db = sort_by runner_before db.runner_state

unfoldable pub incidents : Database → Bool → List (IncidentKey × IncidentRow)
incidents db active_only =
    keep (λ (entry : IncidentKey × IncidentRow). if active_only then entry.1.active else true)
      db.incidents

-- `health`: whether the store is degraded, and the sorted reasons
unfoldable pub health : Store → Bool × List String
health store = (degraded store, sort_by text_le store.degraded_reasons)

-- `check_integrity`, on the values of `PRAGMA integrity_check`; `none` is an error of the database
abbrev is_sound : Option (List String) → Bool
is_sound none = false
is_sound (some []) = false
is_sound (some (value ∷ [])) = value == "ok"
is_sound (some (_ ∷ _ ∷ _)) = false

unfoldable pub check_integrity : Option (List String) → Store → Store × Bool
check_integrity values store =
    if is_sound values
    then (
      record store {
        degraded_reasons = discard_reason "integrity_check_failed" store.degraded_reasons;
      },
      true,
    )
    else (
      record store {
        degraded_reasons = add_reason "integrity_check_failed" store.degraded_reasons;
      },
      false,
    )

module _ (py : Python) where
  -- the opening of a database that has its tables: the integrity check, and the replay
  unfoldable pub open_store : Option (List String) → Database → Result Exception Store
  unfolding check_integrity replay_if_projections_are_missing
  open_store values db =
      replay_if_projections_are_missing py
        (check_integrity values (record { db = db; degraded_reasons = [] })).0

  -- the condition on the payload's job; SQLite reads the JSON as `json.loads` does
  abbrev is_of_job : JobKey → EventRow → Bool
  is_of_job key row = elim (py.loads row.payload_json) [
    | none ↦ false
    | some payload ↦
        is_str key.repository (get (job_of payload) "repository")
        && is_int key.workflow_run_id (get (job_of payload) "workflow_run_id")
        && is_int key.run_attempt (get (job_of payload) "run_attempt")
        && is_int key.job_id (get (job_of payload) "job_id")
  ]

  unfoldable pub recent_job_events : Database → JobKey → ℕ → Result Exception (List HistoryItem)
  unfolding decode_all
  recent_job_events db key limit = do
    guard (leb 1 limit) value_error
    decode_all py (reverse (take limit (keep (is_of_job key) (reverse db.events))))
