-- ===== src/Dashboard/Snapshot.antt =====
-- dashboard.py: `dashboard_snapshot` and `history_event_view`.
use runner_observability.Base.{
  ℕ, String, Bool, false, none, some, List, [], ◌∷◌, Result, ok, err, ◌>>=◌, string_eq, ◌==◌, keep,
  if◌then◌else◌,
}
use runner_observability.Value.{Value, Fields, field, end, str, null, dict, as_mapping, get}
use runner_observability.Python.{Python, Exception}
use runner_observability.Health.{Incident}
use runner_observability.Store.State.{Store}
use runner_observability.Store.Time.{ReceivedAt}
use runner_observability.Store.History.{HistoryItem, recent_events}
use runner_observability.Store.Liveness.{refresh_liveness}
use runner_observability.Store.Queries.{list_runners, incidents, health}
use runner_observability.Dashboard.Reading.{Display, runner_alias, display_time, display_now}
use runner_observability.Dashboard.Views.{IncidentView, RunnerView, runner_views, incident_views}
use runner_observability.Dashboard.Timeline.{FeedEntry, event_feed_limit, event_feed}

abbrev pub dashboard_event_window : ℕ
dashboard_event_window = 500

abbrev pub history_filter_keys : List String
history_filter_keys =
    "runner_id" ∷ "repository" ∷ "workflow_run_id" ∷ "outcome" ∷ "received_after"
    ∷ "received_before" ∷ []

pub record Snapshot : Type 0 where
  pub generated_at : String
  pub degraded : Bool
  pub reasons : List String
  pub history_filter_keys : List String
  pub incidents : List IncidentView
  pub runners : List RunnerView
  pub active_runners : List RunnerView
  pub event_feed : List FeedEntry

-- An item of the history as it is shown: the stored item, with what is shown in place of its times
-- and its payload.
pub record HistoryView : Type 0 where
  pub item : HistoryItem
  pub runner_alias : String
  pub received_at : String
  pub occurred_at : String
  pub payload : Value

abbrev pub is_online : RunnerView → Bool
is_online view = view.liveness == "online"

-- mapping[key] = value, for a key that is there
unfoldable pub set_field : String → Value → Fields → Fields
set_field key value end = end
set_field key value (field k v rest) =
    if k == key then field k value rest else field k v (set_field key value rest)

module _ (py : Python) (display : Display) where
  -- what is read from the store after its liveness is refreshed
  unfoldable pub read_snapshot : Store → ReceivedAt → Result Exception Snapshot
  unfolding recent_events health list_runners incidents runner_views incident_views display_now
      event_feed
  read_snapshot store now = do
    window ← recent_events py store.db dashboard_event_window []
    feed_window ← recent_events py store.db event_feed_limit ("runner.heartbeat" ∷ [])
    runners ← runner_views py display store.db window (list_runners store.db)
    generated_at ← display_now py display now
    shown_incidents ← incident_views py display (incidents store.db false)
    feed ← event_feed py display feed_window
    let (degraded, reasons) = health store
    ok (record {
      generated_at = generated_at;
      degraded = degraded;
      reasons = reasons;
      history_filter_keys = history_filter_keys;
      incidents = shown_incidents;
      runners = runners;
      active_runners = keep is_online runners;
      event_feed = feed;
    })

  -- the reading after the refresh of the store
  abbrev pub after_refresh :
      Store
      → ReceivedAt
      → Result Exception (Store × List Incident)
      → Store × List Incident × Result Exception Snapshot
  after_refresh store now (err e) = (store, [], err e)
  after_refresh store now (ok (refreshed, sent)) = (refreshed, sent, read_snapshot refreshed now)

  -- The new state, the incidents that are notified, and the snapshot or what is raised: the refresh
  -- is committed before anything is read.
  unfoldable pub dashboard_snapshot :
      Store → ReceivedAt → Store × List Incident × Result Exception Snapshot
  unfolding refresh_liveness read_snapshot
  dashboard_snapshot store now = after_refresh store now (refresh_liveness py store now)

  abbrev shown_fields : Fields → Value → Result Exception Fields
  shown_fields payload null = ok payload
  shown_fields payload value = do
    shown ← display_time py display (display.show value)
    ok (set_field "occurred_at" (str shown) payload)

  abbrev shown_payload : Value → Result Exception Value
  shown_payload value = elim (as_mapping value) [
    | none ↦ ok value
    | some payload ↦ do shown ← shown_fields payload (get payload "occurred_at"); ok (dict shown)
  ]

  unfoldable pub history_event_view : HistoryItem → Result Exception HistoryView
  unfolding runner_alias display_time set_field
  history_event_view item = do
    received_at ← display_time py display item.row.received_at
    occurred_at ← display_time py display item.row.occurred_at
    payload ← shown_payload item.payload
    ok (record {
      item = item;
      runner_alias = runner_alias item.row.runner_id;
      received_at = received_at;
      occurred_at = occurred_at;
      payload = payload;
    })
