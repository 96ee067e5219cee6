-- ===== src/Dashboard/Phases.antt =====
-- dashboard.py: the progress of a job's phases, its last fallback, and whether progress is missing,
-- from the events of the job in the window.
use runner_observability.Base.{
  ℕ, String, Bool, true, false, not, ◌&&◌, ◌||◌, Option, none, some, List, [], ◌∷◌, ℤ, Result, ok,
  ◌>>=◌, ltb, leb, string_eq, ◌==◌, keep, if◌then◌else◌,
}
use runner_observability.Base.Table.{Table, upsert}
use runner_observability.Base.Sort.{sort_by}
use runner_observability.Value.{Value, str, int, get}
use runner_observability.Python.{Python, Exception}
use runner_observability.Database.{JobRow}
use runner_observability.Database.Keys.{JobKey}
use runner_observability.Store.Time.{parse_received_at}
use runner_observability.Store.History.{HistoryItem}
use runner_observability.Dashboard.Reading.{
  Display, subscript, integer, processed, display_stage_id, unit_label, category, job_field,
  display_time,
}

pub record PhaseView : Type 0 where
  pub stage_id : String
  pub category : String
  pub state : Value
  pub determinate : Value
  pub total : Value
  pub processed : ℕ
  pub completed : Value
  pub failed : Value
  pub pending : Value
  pub fallback_group_count : Value
  pub affected_test_count : Value
  pub attempt : Value
  pub unit_label : String
  pub received_at : String
  pub occurred_at : String

pub record FallbackView : Type 0 where
  pub target_stage_id : String
  pub completed_groups : Value
  pub total_groups : Value
  pub fallback_group_count : Value
  pub affected_test_count : Value
  pub received_at : String
  pub occurred_at : String

-- An event with its received time, which the program sorts by.
abbrev pub Keyed : Type 0
Keyed = ℕ × HistoryItem

-- sorted(…) and sorted(…, reverse=True) by that time
abbrev pub not_later : Keyed → Keyed → Bool
not_later (at, _) (at', _) = leb at at'

abbrev pub not_earlier : Keyed → Keyed → Bool
not_earlier (at, _) (at', _) = leb at' at

abbrev pub is_progress : HistoryItem → Bool
is_progress item = item.row.event_type == "job.progress"

abbrev is_fallback : HistoryItem → Bool
is_fallback item = item.row.event_type == "job.fallback"

-- the last item, at the end of a list
abbrev pub last_of : Keyed → List Keyed → Keyed
last_of x [] = x
last_of x (y ∷ ys) = last_of y ys

-- max(…)
abbrev largest : ℕ → List Keyed → ℕ
largest n [] = n
largest n ((at, _) ∷ rest) = largest (if ltb n at then at else n) rest

module _ (py : Python) where
  -- the key `_received_at_key` of every item
  unfoldable pub keyed : List HistoryItem → Result Exception (List Keyed)
  keyed [] = ok []
  keyed (item ∷ items) = do
    at ← parse_received_at py item.row.received_at
    rest ← keyed items
    ok ((at, item) ∷ rest)

  -- whether the tuple of the job's fields equals the key
  abbrev belongs_to : JobKey → HistoryItem → Bool
  belongs_to key item = elim (job_field item) [
    | none ↦ false
    | some job ↦
        py.equals (get job "repository") (str key.repository)
        && py.equals (get job "workflow_run_id") (int (ℤ.pos key.workflow_run_id))
        && py.equals (get job "run_attempt") (int (ℤ.pos key.run_attempt))
        && py.equals (get job "job_id") (int (ℤ.pos key.job_id))
  ]

  -- `_job_history`
  unfoldable pub job_history : List HistoryItem → JobKey → List HistoryItem
  unfolding job_field
  job_history window key = keep (belongs_to key) window

  abbrev unreported_since : List Keyed → String → Result Exception Bool
  unreported_since [] heartbeat = ok true
  unreported_since ((at, _) ∷ rest) heartbeat = do
    heard ← parse_received_at py heartbeat
    ok (ltb (largest at rest) heard)

  abbrev unreported_progress : List HistoryItem → Option String → Result Exception Bool
  unreported_progress items none = ok false
  unreported_progress items (some heartbeat) = do
    events ← keyed (keep is_progress items)
    unreported_since events heartbeat

  -- `_progress_unreported`
  unfoldable pub progress_unreported : JobRow → List HistoryItem → Result Exception Bool
  unfolding keyed
  progress_unreported row items =
      if not (row.liveness == "online") || not (row.state == "running")
      then ok false
      else unreported_progress items row.last_heartbeat_at

module _ (py : Python) (display : Display) where
  -- `_phase_view`
  unfoldable pub phase_view : String → Value → HistoryItem → Result Exception PhaseView
  phase_view display_id progress item = do
    state ← subscript progress "state"
    determinate ← subscript progress "determinate"
    total ← subscript progress "total"
    pending ← subscript progress "pending"
    all_of_it ← integer total
    left ← integer pending
    completed ← subscript progress "completed"
    failed ← subscript progress "failed"
    fallback_group_count ← subscript progress "fallback_group_count"
    affected_test_count ← subscript progress "affected_test_count"
    attempt ← subscript progress "attempt"
    received_at ← display_time py display item.row.received_at
    occurred_at ← display_time py display item.row.occurred_at
    ok (record {
      stage_id = display_id;
      category = category display_id;
      state = state;
      determinate = determinate;
      total = total;
      processed = processed all_of_it left;
      completed = completed;
      failed = failed;
      pending = pending;
      fallback_group_count = fallback_group_count;
      affected_test_count = affected_test_count;
      attempt = attempt;
      unit_label = unit_label display_id;
      received_at = received_at;
      occurred_at = occurred_at;
    })

  -- the phase that a progress event shows, with its id
  unfoldable pub shown_phase : HistoryItem → Result Exception (String × PhaseView)
  unfolding display_stage_id phase_view
  shown_phase item = do
    progress ← subscript item.payload "progress"
    stage_id ← subscript progress "stage_id"
    display_id ← display_stage_id stage_id
    view ← phase_view display_id progress item
    ok (display_id, view)

  -- the loop over the progress events
  unfoldable pub put_phases :
      List Keyed → Table String PhaseView → Result Exception (Table String PhaseView)
  unfolding shown_phase
  put_phases [] phases = ok phases
  put_phases ((_, item) ∷ rest) phases = do
    (display_id, view) ← shown_phase item
    put_phases rest (upsert display_id view phases)

  -- `_aggregate_phases`
  unfoldable pub aggregate_phases : List HistoryItem → Result Exception (Table String PhaseView)
  unfolding keyed put_phases
  aggregate_phases items = do
    events ← keyed py (keep is_progress items)
    put_phases (sort_by not_later events) []

  abbrev pub fallback_view : HistoryItem → Value → String → Result Exception (Option FallbackView)
  fallback_view latest fallback target_stage_id = do
    completed_groups ← subscript fallback "completed_groups"
    total_groups ← subscript fallback "total_groups"
    fallback_group_count ← subscript fallback "fallback_group_count"
    affected_test_count ← subscript fallback "affected_test_count"
    received_at ← display_time py display latest.row.received_at
    occurred_at ← display_time py display latest.row.occurred_at
    ok (
        some (record {
          target_stage_id = target_stage_id;
          completed_groups = completed_groups;
          total_groups = total_groups;
          fallback_group_count = fallback_group_count;
          affected_test_count = affected_test_count;
          received_at = received_at;
          occurred_at = occurred_at;
        }))

  -- the view of the last of the sorted fallback events
  abbrev pub shown_fallback : List Keyed → Result Exception (Option FallbackView)
  shown_fallback [] = ok none
  shown_fallback (x ∷ xs) = do
    let latest = (last_of x xs).1
    fallback ← subscript latest.payload "fallback"
    target ← subscript fallback "target_stage_id"
    target_stage_id ← display_stage_id target
    fallback_view latest fallback target_stage_id

  -- `_latest_fallback`
  unfoldable pub latest_fallback : List HistoryItem → Result Exception (Option FallbackView)
  unfolding keyed
  latest_fallback items = do
    events ← keyed py (keep is_fallback items)
    shown_fallback (sort_by not_later events)
