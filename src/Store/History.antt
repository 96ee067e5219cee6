-- ===== src/Store/History.antt =====
-- store.py: the queries of the event log, `history`, `history_page` and `recent_events`.
use runner_observability.Base.{
  ℕ, ◌-◌, ◌*◌, String, Bool, true, false, not, ◌&&◌, ◌||◌, none, some, List, [], ◌∷◌, ℤ, pos,
  negsuc, Result, ok, err, ◌>>=◌, ◌>>◌, guard, ltb, nat_eq, string_eq, number_eq, ◌==◌, contains,
  keep, all, take, length, if◌then◌else◌,
}
use mathlib.Core.List.{reverse}
use runner_observability.Value.{Value, Fields, end, str, int, as_mapping, get}
use runner_observability.Python.{Python, Exception, value_error, attribute_error}
use runner_observability.Database.{Database, EventRow}
use runner_observability.Store.Time.{ReceivedAt, normalise_received_at, parse_received_at}

-- An entry of the mapping of filters: its key with the value that is expected.
pub data Filter : Type 0 where
  runner_id repository outcome : String → Filter
  workflow_run_id : ℤ → Filter
  received_after received_before : ReceivedAt → Filter
  unknown : String → Filter

abbrev is_allowed : Filter → Bool
is_allowed (unknown key) = false
is_allowed _ = true

-- `_validate_history_filters`
unfoldable pub validate_history_filters : List Filter → Result Exception (Unit {0})
validate_history_filters filters = guard (all is_allowed filters) value_error

-- A row with its payload decoded.
pub record HistoryItem : Type 0 where
  pub row : EventRow
  pub payload : Value

abbrev pub is_str : String → Value → Bool
is_str expected (str s) = s == expected
is_str expected _ = false

abbrev pub is_int : ℕ → Value → Bool
is_int expected (int (pos n)) = nat_eq n expected
is_int expected _ = false

abbrev is_integer : ℤ → Value → Bool
is_integer (pos n) v = is_int n v
is_integer (negsuc n) (int (negsuc m)) = nat_eq m n
is_integer (negsuc n) _ = false

abbrev pub fields_of : Value → Fields
fields_of v = elim (as_mapping v) [ none ↦ end | some f ↦ f ]

-- payload.get("job", {}), or no fields where that is no mapping
abbrev pub job_of : Value → Fields
job_of payload = fields_of (get (fields_of payload) "job")

module _ (py : Python) where
  -- `_history_item_from_row`
  unfoldable pub history_item_from_row : EventRow → Result Exception HistoryItem
  history_item_from_row row = elim (py.loads row.payload_json) [
    | none ↦ err value_error
    | some payload ↦ ok (record { row = row; payload = payload })
  ]

  abbrev matches_filter : HistoryItem → Filter → Result Exception Bool
  matches_filter item (runner_id expected) = ok (item.row.runner_id == expected)
  matches_filter item (repository expected) =
      ok (is_str expected (get (job_of item.payload) "repository"))
  matches_filter item (workflow_run_id expected) =
      ok (is_integer expected (get (job_of item.payload) "workflow_run_id"))
  matches_filter item (outcome expected) = elim (as_mapping item.payload) [
    | none ↦ err attribute_error
    | some payload ↦ ok (is_str expected (get payload "outcome"))
  ]
  matches_filter item (received_after expected) = do
    received ← parse_received_at py item.row.received_at
    bound ← normalise_received_at py expected
    limit ← parse_received_at py bound
    ok (not (ltb received limit))
  matches_filter item (received_before expected) = do
    received ← parse_received_at py item.row.received_at
    bound ← normalise_received_at py expected
    limit ← parse_received_at py bound
    ok (not (ltb limit received))
  matches_filter item (unknown key) = ok true

  -- `_matches_history_filters`: the first filter that fails ends the loop.
  unfoldable pub matches_history_filters : HistoryItem → List Filter → Result Exception Bool
  matches_history_filters item [] = ok true
  matches_history_filters item (filter ∷ rest) =
      let others = matches_history_filters item rest in
      do fits ← matches_filter item filter; if fits then others else ok false

  -- the loop of `history`
  unfoldable pub matching : List Filter → List EventRow → Result Exception (List HistoryItem)
  matching filters [] = ok []
  matching filters (row ∷ rows) =
      let rest = matching filters rows in
      do
        item ← history_item_from_row row
        fits ← matches_history_filters item filters
        items ← rest
        ok (if fits then item ∷ items else items)

  unfoldable pub history : Database → List Filter → Result Exception (List HistoryItem)
  history db filters = do validate_history_filters filters; matching filters db.events

  -- The loop of `history_page`: how many matching rows are still to skip, and how many may still be
  -- collected before the loop breaks.
  unfoldable pub collect_page :
      List Filter → List EventRow → ℕ → ℕ → Result Exception (List HistoryItem)
  collect_page filters [] offset room = ok []
  collect_page filters (row ∷ rows) offset room = do
    item ← history_item_from_row row
    fits ← matches_history_filters item filters
    let skipped = collect_page filters rows offset room
    let passed = collect_page filters rows (offset - 1) room
    let collected = collect_page filters rows offset (room - 1)
    if not fits
        then skipped
        else if ltb 0 offset
        then passed
        else if nat_eq room 0
        then ok (item ∷ [])
        else (do items ← collected; ok (item ∷ items))

  abbrev has_runner : List Filter → EventRow → Bool
  has_runner [] row = true
  has_runner (runner_id expected ∷ rest) row = row.runner_id == expected && has_runner rest row
  has_runner (_ ∷ rest) row = has_runner rest row

  -- the rows of the query, newest first: the WHERE clauses on the event's type and the runner
  unfoldable pub page_rows : Database → List Filter → List String → List EventRow
  page_rows db filters excluded =
      keep (λ row. not (contains row.event_type excluded) && has_runner filters row)
        (reverse db.events)

  -- A page of the history and whether there is another one.
  unfoldable pub history_page :
      Database → List Filter → ℕ → ℕ → List String → Result Exception (List HistoryItem × Bool)
  unfolding page_rows
  history_page db filters page page_size excluded = do
    guard (not (ltb page 1 || ltb page_size 1)) value_error
    validate_history_filters filters
    results ←
        collect_page filters (page_rows db filters excluded) ((page - 1) * page_size) page_size
    ok (take page_size results, ltb page_size (length results))

  unfoldable pub decode_all : List EventRow → Result Exception (List HistoryItem)
  decode_all [] = ok []
  decode_all (row ∷ rows) = do
    item ← history_item_from_row row
    items ← decode_all rows
    ok (item ∷ items)

  -- The newest `limit` events that are not excluded, oldest first.
  unfoldable pub recent_events : Database → ℕ → List String → Result Exception (List HistoryItem)
  recent_events db limit excluded = decode_all (
      reverse
        (take limit (keep (λ row. not (contains row.event_type excluded)) (reverse db.events))))
