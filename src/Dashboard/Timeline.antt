-- ===== src/Dashboard/Timeline.antt =====
-- dashboard.py: the summaries of events, the timeline of a job, and the feed of events.
use runner_observability.Base.{
  ℕ, String, Bool, true, false, not, none, some, List, [], ◌∷◌, Result, ok, err, ◌>>=◌, nat_eq,
  string_eq, ◌==◌, keep, take, if◌then◌else◌, pos, ◌||◌, ◌^◌,
}
use Prim.Native.String.{◌++◌ as append}
use runner_observability.Base.Sort.{sort_by}
use runner_observability.Value.{
  Value, cons, nil, field, end, null, bool, int, float, str, dict, proxy, list, tuple, as_mapping,
  get,
}
use runner_observability.Python.{Python, Exception, attribute_error}
use runner_observability.Store.History.{HistoryItem}
use runner_observability.Dashboard.Reading.{
  Display, subscript, display_stage_id, unit_label, runner_alias, job_field_value, display_time,
}
use runner_observability.Dashboard.Phases.{Keyed, not_earlier, keyed}

pub record TimelineEntry : Type 0 where
  pub event_type : String
  pub received_at : String
  pub occurred_at : String
  pub summary : String

pub record FeedEntry : Type 0 where
  pub event_type : String
  pub runner_id : String
  pub runner_alias : String
  pub received_at : String
  pub occurred_at : String
  pub job_name : Value
  pub run_url : Value
  pub summary : String

abbrev pub event_feed_limit : ℕ
event_feed_limit = 7

-- bool(value) of a value from JSON. A float is false if it is a zero of either sign.
abbrev truth : Value → Bool
truth null = false
truth (bool b) = b
truth (int (pos n)) = not (nat_eq n 0)
truth (int _) = true
truth (float bits) = not (nat_eq bits 0 || nat_eq bits (2 ^ 63))
truth (str s) = not (s == "")
truth (dict end) = false
truth (proxy end) = false
truth (list nil) = false
truth (tuple nil) = false
truth (dict (field _ _ _)) = true
truth (proxy (field _ _ _)) = true
truth (list (cons _ _)) = true
truth (tuple (cons _ _)) = true

abbrev pub is_feed_item : Keyed → Bool
is_feed_item (_, item) = not (item.row.event_type == "runner.heartbeat")

module _ (py : Python) (display : Display) where
  abbrev finished_summary : HistoryItem → Result Exception String
  finished_summary item = elim (as_mapping item.payload) [
    | none ↦ err attribute_error
    | some payload ↦ ok (append "finished: " (display.show (get payload "outcome")))
  ]

  abbrev determinate_summary : Value → String → String → Result Exception String
  determinate_summary progress stage_id state = do
    completed ← subscript progress "completed"
    total ← subscript progress "total"
    ok (
        append stage_id (
          append ": " (
            append state (
              append " (" (
                append (display.show completed) (
                  append "/" (
                    append (display.show total)
                      (append " " (append (unit_label stage_id) ")")))))))))

  abbrev progress_summary : HistoryItem → Result Exception String
  progress_summary item = do
    progress ← subscript item.payload "progress"
    raw ← subscript progress "stage_id"
    stage_id ← display_stage_id raw
    determinate ← subscript progress "determinate"
    state ← subscript progress "state"
    if truth determinate
        then determinate_summary progress stage_id (display.show state)
        else ok (append stage_id (append ": " (append (display.show state) " (indeterminate)")))

  abbrev fallback_summary : HistoryItem → Result Exception String
  fallback_summary item = do
    fallback ← subscript item.payload "fallback"
    raw ← subscript fallback "target_stage_id"
    target ← display_stage_id raw
    groups ← subscript fallback "fallback_group_count"
    tests ← subscript fallback "affected_test_count"
    ok (
        append "fallback -> " (
          append target (
            append " (" (
              append (display.show groups)
                (append " groups, " (append (display.show tests) " tests)"))))))

  -- `_summarize`
  unfoldable pub summarize : HistoryItem → Result Exception String
  unfolding display_stage_id unit_label
  summarize item =
      let event_type = item.row.event_type in
      if event_type == "job.started"
      then ok "job started"
      else if event_type == "job.heartbeat"
      then ok "heartbeat"
      else if event_type == "job.finished"
      then finished_summary item
      else if event_type == "job.progress"
      then progress_summary item
      else if event_type == "job.fallback"
      then fallback_summary item
      else ok event_type

  -- `_timeline_entry`
  unfoldable pub timeline_entry : HistoryItem → Result Exception TimelineEntry
  unfolding summarize display_time
  timeline_entry item = do
    received_at ← display_time py display item.row.received_at
    occurred_at ← display_time py display item.row.occurred_at
    summary ← summarize item
    ok (record {
      event_type = item.row.event_type;
      received_at = received_at;
      occurred_at = occurred_at;
      summary = summary;
    })

  unfoldable pub timeline : List HistoryItem → Result Exception (List TimelineEntry)
  unfolding timeline_entry
  timeline [] = ok []
  timeline (item ∷ items) = do
    entry ← timeline_entry item
    entries ← timeline items
    ok (entry ∷ entries)

  unfoldable pub feed_entry : HistoryItem → Result Exception FeedEntry
  unfolding summarize display_time runner_alias job_field_value
  feed_entry item = do
    received_at ← display_time py display item.row.received_at
    occurred_at ← display_time py display item.row.occurred_at
    summary ← summarize item
    ok (record {
      event_type = item.row.event_type;
      runner_id = item.row.runner_id;
      runner_alias = runner_alias item.row.runner_id;
      received_at = received_at;
      occurred_at = occurred_at;
      job_name = job_field_value item "job_name";
      run_url = job_field_value item "run_url";
      summary = summary;
    })

  unfoldable pub feed_entries : List Keyed → Result Exception (List FeedEntry)
  unfolding feed_entry
  feed_entries [] = ok []
  feed_entries ((_, item) ∷ items) = do
    entry ← feed_entry item
    entries ← feed_entries items
    ok (entry ∷ entries)

  -- `_event_feed`
  unfoldable pub event_feed : List HistoryItem → Result Exception (List FeedEntry)
  unfolding keyed feed_entries
  event_feed window = do
    events ← keyed py window
    feed_entries (take event_feed_limit (keep is_feed_item (sort_by not_earlier events)))
