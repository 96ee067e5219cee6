-- ===== src/Server/Get.antt =====
-- server.py: `do_GET` and the other methods; and the checks of `create_server` before it binds a
-- socket.
use runner_observability.Base.{
  ℕ, String, Bool, Option, none, some, List, [], ◌∷◌, Result, ok, err, ◌>>=◌, string_eq, ◌==◌,
  if◌then◌else◌, ◌≡◌, ◌≢◌, ◌↔◌, arith, eq_iff,
}
use runner_observability.Base.Table.{Table}
use runner_observability.Python.{Python, Exception, validation_error, value_error}
use runner_observability.Health.{Incident}
use runner_observability.Store.State.{Store}
use runner_observability.Store.Time.{ReceivedAt}
use runner_observability.Store.History.{HistoryItem, history_page}
use runner_observability.Store.Queries.{health}
use runner_observability.Dashboard.Reading.{Display}
use runner_observability.Dashboard.Snapshot.{
  Snapshot, HistoryView, history_event_view, dashboard_snapshot,
}
use runner_observability.Server.Request.{
  Request, Target, Reply, error, static, Response, answer, reject,
}
use runner_observability.Server.Query.{history_filters, history_page_number}
use runner_observability.Server.Post.{Handled, unchanged}

abbrev pub history_page_size : ℕ
history_page_size = 20

-- The answer to a query that may raise: a ValueError is answered, any other exception escapes.
abbrev catch_value_error : Result Exception Response → Result Exception Response
catch_value_error (ok response) = ok response
catch_value_error (err value_error) = ok (reject 400 "invalid_history_filter")
catch_value_error (err (validation_error reason)) = ok (reject 400 "invalid_history_filter")
catch_value_error (err e) = err e

-- A snapshot, or the answer to whatever it raises, which is reported by another text.
abbrev pub dashboard_answer : Store × List Incident × Result Exception Snapshot → Handled
dashboard_answer (store, sent, ok snapshot) =
    (store, sent, ok (answer 200 (Reply.dashboard snapshot)))
dashboard_answer (store, sent, err e) = (
  store,
  sent,
  ok (record (answer 500 (error "dashboard_unavailable")) {
    reported = some "dashboard_snapshot_failed";
  }),
)

-- `parse_qs(query, keep_blank_values=True)`, where `none` is a ValueError.
module _ (py : Python) (display : Display)
    (parse_qs : String → Option (Table String (List String))) where
  unfoldable pub history_views : List HistoryItem → Result Exception (List HistoryView)
  unfolding history_event_view
  history_views [] = ok []
  history_views (item ∷ items) = do
    view ← history_event_view py display item
    views ← history_views items
    ok (view ∷ views)

  -- The page of a query with the items on it; the part inside the `try`.
  unfoldable pub read_history : Store → String → Result Exception (ℕ × List HistoryItem × Bool)
  unfolding history_filters history_page_number history_page
  read_history store text = elim (parse_qs text) [
    | none ↦ err value_error
    | some query ↦ do
      page ← history_page_number py query
      filters ← history_filters py query
      (items, has_next) ←
          history_page py store.db filters page history_page_size ("runner.heartbeat" ∷ [])
      ok (page, items, has_next)
  ]

  abbrev history_answer : Result Exception (ℕ × List HistoryItem × Bool) → Result Exception Response
  history_answer (err e) = catch_value_error (err e)
  history_answer (ok (page, items, has_next)) = do
    views ← history_views items
    ok (answer 200 (Reply.history views page history_page_size has_next))

  abbrev health_answer : Store → Response
  health_answer store =
      let (degraded, reasons) = health store in answer 200 (Reply.health degraded reasons)

  -- the routes
  abbrev pub get_path : Store → Target → ReceivedAt → Handled
  get_path store target now =
      if target.path == "/"
      then unchanged store (answer 200 (static "index.html"))
      else if target.path == "/app.css"
      then unchanged store (answer 200 (static "app.css"))
      else if target.path == "/app.js"
      then unchanged store (answer 200 (static "app.js"))
      else if target.path == "/api/health"
      then unchanged store (health_answer store)
      else if target.path == "/api/history"
      then (store, [], history_answer (read_history store target.query))
      else if target.path == "/api/dashboard"
      then dashboard_answer (dashboard_snapshot py display store now)
      else unchanged store (answer 404 (error "not_found"))

  abbrev pub get_target : Store → Option Target → ReceivedAt → Handled
  get_target store none now = (store, [], err value_error)
  get_target store (some target) now = get_path store target now

  unfoldable pub do_get : Store → Request → ReceivedAt → Handled
  unfolding health read_history history_views dashboard_snapshot
  do_get store request now = get_target store request.target now

-- `do_PUT` and `do_DELETE`
unfoldable pub do_other : Store → Handled
do_other store = unchanged store (answer 405 (error "method_not_allowed"))

-- How a server listens, and what `create_server` raises.
pub data Transport : Type 0 where
  plain : Transport
  tls : String → String → Transport

pub data CreateError : Type 0 where
  empty_token : CreateError
  tls_error : String → CreateError

-- `loads` is whether `load_cert_chain` takes the pair of files. A blank path is a path.
unfoldable pub create_server :
    String → Option String → Option String → (String → String → Bool) → Result CreateError Transport
create_server bearer_token certificate key loads =
    if bearer_token == "" then err empty_token else listen certificate key
  where
    listen : Option String → Option String → Result CreateError Transport
    listen none none = ok plain
    listen (some c) (some k) =
        if loads c k then ok (tls c k) else err (tls_error "tls_certificate_load_failed")
    listen none (some k) = err (tls_error "tls_partial_configuration")
    listen (some c) none = err (tls_error "tls_partial_configuration")

-- A server listens without TLS exactly where a token and neither a certificate nor a key are given: a
-- path that is given, the blank one included, and one of the pair alone never lead to plain HTTP.
create_server-plain :
    (bearer_token : String) (certificate key : Option String) (loads : String → String → Bool)
    → (create_server bearer_token certificate key loads ≡ ok plain)
      ↔ ((bearer_token ≢ "") × (certificate ≡ none) × (key ≡ none))
unfolding create_server
create_server-plain token none none loads = ground (arith, eq_iff token "")
create_server-plain token (some c) none loads = ground (arith, eq_iff token "")
create_server-plain token none (some k) loads = ground (arith, eq_iff token "")
create_server-plain token (some c) (some k) loads = ground (arith, eq_iff token "")
