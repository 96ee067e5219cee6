-- ===== src/Dashboard/Clean.antt =====
-- What a snapshot never shows: a stage id that is not approved, and heartbeats of runners in the feed.
use runner_observability.Base.{
  suc, ◌≤◌, String, ◌≡◌, ◌≢◌, refl, sym, subst, true, false, Option, none, some, List, [], ◌∷◌,
  Result, ok, err, arith, string_eq, eq_iff, keep, take, length, All-take, All-keep, All-kept,
  length-take_le, All, Ensures, Ensures-at, Ensures-intro, >>=-eq-ok, ok-injective, ap,
}
use runner_observability.Base.Sort.{sort_by}
use runner_observability.Python.{Python, Exception}
use runner_observability.Health.{Incident}
use runner_observability.Database.{Database, RunnerRow, JobRow}
use runner_observability.Database.Keys.{JobKey}
use runner_observability.Store.State.{Store}
use runner_observability.Store.Time.{ReceivedAt}
use mathlib.Core.List.{reverse}
use runner_observability.Store.Queries.{recent_job_events, current_job, list_runners, incidents}
use runner_observability.Store.Liveness.{refresh_liveness}
use runner_observability.Store.History.{HistoryItem, recent_events}
use runner_observability.Dashboard.Reading.{
  Display, display_time, display_optional_time, display_now,
}
use runner_observability.Dashboard.Phases.{
  Keyed, not_earlier, keyed, job_history, progress_unreported, aggregate_phases, latest_fallback,
}
use runner_observability.Dashboard.Timeline.{
  FeedEntry, event_feed_limit, is_feed_item, summarize, timeline, feed_entry, feed_entries,
  event_feed,
}
use runner_observability.Dashboard.Stages.{
  IsShownPhase, IsShownFallback, aggregate_phases-IsShownPhase, latest_fallback-IsShownFallback,
}
use runner_observability.Dashboard.Views.{
  JobView, RunnerView, job_view, stored_job_view, current_job_view, current_key, job_timeline_limit,
  incident_views, runner_view, runner_views,
}
use runner_observability.Dashboard.Snapshot.{
  Snapshot, is_online, dashboard_event_window, read_snapshot, after_refresh, dashboard_snapshot,
}

abbrev IsCleanJob : Option JobView → Type 0
IsCleanJob none = Unit
IsCleanJob (some job) = All IsShownPhase job.phases × IsShownFallback job.fallback

abbrev IsCleanRunner : RunnerView → Type 0
IsCleanRunner view = IsCleanJob view.current_job

abbrev IsNoHeartbeat : FeedEntry → Type 0
IsNoHeartbeat entry = entry.event_type ≢ "runner.heartbeat"

-- Every stage id of a snapshot may be shown, in the list of the runners and in that of the runners
-- online, and its feed has at most 7 entries and no heartbeat of a
-- runner.
pub record IsClean (snapshot : Snapshot) : Type 0 where
  pub runners : All IsCleanRunner snapshot.runners
  pub active : All IsCleanRunner snapshot.active_runners
  pub bounded : length snapshot.event_feed ≤ 7
  pub no_heartbeat : All IsNoHeartbeat snapshot.event_feed

module _ (py : Python) (display : Display) where
  job_view-IsCleanJob :
      (key : JobKey) (row : JobRow) (items recent : List HistoryItem) {view : JobView}
      → job_view py display key row items recent ≡ ok view
      → IsCleanJob (some view)
  unfolding job_view
  job_view-IsCleanJob key row items recent h =
      let (_, _, h1) = >>=-eq-ok (display_time py display row.last_received_at) _ h in
      let (_, _, h2) = >>=-eq-ok (display_optional_time py display row.last_heartbeat_at) _ h1 in
      let (_, _, h3) = >>=-eq-ok (progress_unreported py row items) _ h2 in
      let (phases, shown, h4) = >>=-eq-ok (aggregate_phases py display items) _ h3 in
      let (fallback, last, h5) = >>=-eq-ok (latest_fallback py display items) _ h4 in
      let (_, _, h6) = >>=-eq-ok (timeline py display (reverse recent)) _ h5 in
      subst (λ view. IsCleanJob (some view)) (ok-injective h6)
        (
          Ensures-at (All IsShownPhase) (aggregate_phases py display items)
              (aggregate_phases-IsShownPhase py display items) shown,
          Ensures-at IsShownFallback (latest_fallback py display items)
              (latest_fallback-IsShownFallback py display items) last,
        )

  stored_job_view-IsCleanJob :
      (db : Database) (window : List HistoryItem) (key : JobKey) (row : Option JobRow)
      {view : Option JobView}
      → stored_job_view py display db window key row ≡ ok view
      → IsCleanJob view
  stored_job_view-IsCleanJob db window key none h = subst IsCleanJob (ok-injective h) tt
  stored_job_view-IsCleanJob db window key (some row) h =
      let (recent, _, h1) = >>=-eq-ok (recent_job_events py db key job_timeline_limit) _ h in
      let (view, viewed, h2) =
        >>=-eq-ok (job_view py display key row (job_history py window key) recent) _ h1 in
      subst IsCleanJob (ok-injective h2)
        (job_view-IsCleanJob key row (job_history py window key) recent viewed)

  current_job_view-IsCleanJob :
      (db : Database) (window : List HistoryItem) (key : Option JobKey) {view : Option JobView}
      → current_job_view py display db window key ≡ ok view
      → IsCleanJob view
  current_job_view-IsCleanJob db window none h = subst IsCleanJob (ok-injective h) tt
  current_job_view-IsCleanJob db window (some key) h =
      stored_job_view-IsCleanJob db window key (current_job db key) h

  runner_view-IsCleanRunner :
      (db : Database) (window : List HistoryItem) (id : String) (row : RunnerRow)
      {view : RunnerView}
      → runner_view py display db window id row ≡ ok view
      → IsCleanRunner view
  unfolding runner_view
  runner_view-IsCleanRunner db window id row h =
      let (current, viewed, h1) =
        >>=-eq-ok (current_job_view py display db window (current_key row)) _ h in
      let (_, _, h2) = >>=-eq-ok (display_time py display row.last_received_at) _ h1 in
      let (_, _, h3) = >>=-eq-ok (display_optional_time py display row.last_heartbeat_at) _ h2 in
      subst IsCleanRunner (ok-injective h3)
        (current_job_view-IsCleanJob db window (current_key row) viewed)

  runner_views-IsCleanRunner :
      (db : Database) (window : List HistoryItem) (rows : List (String × RunnerRow))
      {views : List RunnerView}
      → runner_views py display db window rows ≡ ok views
      → All IsCleanRunner views
  unfolding runner_views
  runner_views-IsCleanRunner db window [] h = subst (All IsCleanRunner) (ok-injective h) tt
  runner_views-IsCleanRunner db window ((id, row) ∷ rows) h =
      let (view, viewed, h1) = >>=-eq-ok (runner_view py display db window id row) _ h in
      let (views, others, h2) = >>=-eq-ok (runner_views py display db window rows) _ h1 in
      subst (All IsCleanRunner) (ok-injective h2) (
        runner_view-IsCleanRunner db window id row viewed,
        runner_views-IsCleanRunner db window rows others,
      )

  -- the entries have the types of their items, in number and order
  feed_entry-event_type :
      (item : HistoryItem) {entry : FeedEntry}
      → feed_entry py display item ≡ ok entry
      → entry.event_type ≡ item.row.event_type
  unfolding feed_entry
  feed_entry-event_type item h =
      let (_, _, h1) = >>=-eq-ok (display_time py display item.row.received_at) _ h in
      let (_, _, h2) = >>=-eq-ok (display_time py display item.row.occurred_at) _ h1 in
      let (_, _, h3) = >>=-eq-ok (summarize py display item) _ h2 in
      ap (λ (e : FeedEntry). e.event_type) (sym (ok-injective h3))

  feed_entries-IsNoHeartbeat :
      (events : List Keyed) {feed : List FeedEntry}
      → feed_entries py display events ≡ ok feed
      → All (λ (x : Keyed). is_feed_item x ≡ true) events
      → (length feed ≡ length events) × All IsNoHeartbeat feed
  unfolding feed_entries
  feed_entries-IsNoHeartbeat [] h kept =
      subst (λ feed. (length feed ≡ 0) × All IsNoHeartbeat feed) (ok-injective h) (refl, tt)
  feed_entries-IsNoHeartbeat ((at, item) ∷ events) h (first, kept) =
      let (entry, shown, h1) = >>=-eq-ok (feed_entry py display item) _ h in
      let (entries, others, h2) = >>=-eq-ok (feed_entries py display events) _ h1 in
      let (same, clean) = feed_entries-IsNoHeartbeat events others kept in
      let new : IsNoHeartbeat entry = ground (
        arith,
        feed_entry-event_type item shown,
        first,
        eq_iff item.row.event_type "runner.heartbeat",
      ) in
      subst (λ feed. (length feed ≡ suc (length events)) × All IsNoHeartbeat feed) (ok-injective h2)
        (ap suc same, (new, clean))

  event_feed-IsNoHeartbeat :
      (window : List HistoryItem) {feed : List FeedEntry}
      → event_feed py display window ≡ ok feed
      → (length feed ≤ 7) × All IsNoHeartbeat feed
  unfolding event_feed
  event_feed-IsNoHeartbeat window h =
      let (events, _, h1) = >>=-eq-ok (keyed py window) _ h in
      let kept = keep is_feed_item (sort_by not_earlier events) in
      let (same, clean) = feed_entries-IsNoHeartbeat (take event_feed_limit kept) h1 (
        All-take (λ (x : Keyed). is_feed_item x ≡ true) event_feed_limit kept
          (All-keep is_feed_item (sort_by not_earlier events))) in
      (omega (arith, same, length-take_le event_feed_limit kept), clean)

  read_snapshot-IsClean :
      (store : Store) (now : ReceivedAt) {snapshot : Snapshot}
      → read_snapshot py display store now ≡ ok snapshot
      → IsClean snapshot
  unfolding read_snapshot
  read_snapshot-IsClean store now h =
      let (window, _, h1) = >>=-eq-ok (recent_events py store.db dashboard_event_window []) _ h in
      let (feed_window, _, h2) =
        >>=-eq-ok (recent_events py store.db event_feed_limit ("runner.heartbeat" ∷ [])) _ h1 in
      let (views, viewed, h3) =
        >>=-eq-ok (runner_views py display store.db window (list_runners store.db)) _ h2 in
      let (_, _, h4) = >>=-eq-ok (display_now py display now) _ h3 in
      let (_, _, h5) = >>=-eq-ok (incident_views py display (incidents store.db false)) _ h4 in
      let (feed, fed, h6) = >>=-eq-ok (event_feed py display feed_window) _ h5 in
      let (bounded, clean) = event_feed-IsNoHeartbeat feed_window fed in
      let shown = runner_views-IsCleanRunner store.db window (list_runners store.db) viewed in
      subst IsClean (ok-injective h6) (record {
        runners = shown;
        active = All-kept IsCleanRunner is_online views shown;
        bounded = bounded;
        no_heartbeat = clean;
      })

  after_refresh-IsClean :
      (store : Store) (now : ReceivedAt) (r : Result Exception (Store × List Incident))
      → Ensures IsClean (after_refresh py display store now r).2
  after_refresh-IsClean store now (err e) = tt
  after_refresh-IsClean store now (ok (refreshed, sent)) =
      Ensures-intro IsClean (read_snapshot py display refreshed now)
        (λ snapshot h. read_snapshot-IsClean refreshed now h)

  -- Whatever senders have put into their events, every stage id that a snapshot shows, in the phases
  -- and in the fallback of a job of any runner or of any active runner, is one of the nine approved ids or the fixed label
  -- "unrecognised_stage"; and the feed of events has at most 7 entries, none of them a heartbeat of a
  -- runner. The snapshot is returned.
  pub dashboard_snapshot-IsClean :
      (store : Store) (now : ReceivedAt) {store' : Store} {sent : List Incident}
      {snapshot : Snapshot}
      → dashboard_snapshot py display store now ≡ (store', sent, ok snapshot)
      → IsClean snapshot
  unfolding dashboard_snapshot
  dashboard_snapshot-IsClean store now h =
      Ensures-at IsClean (dashboard_snapshot py display store now).2
        (after_refresh-IsClean store now (refresh_liveness py store now))
        (ap (λ (r : Store × List Incident × Result Exception Snapshot). r.2) h)
