-- ===== src/Server/Post.antt =====
-- server.py: `do_POST`, by which an event comes in.
use runner_observability.Base.{
  ℕ, String, true, not, Option, none, some, List, [], Result, ok, err, ltb, nat_eq, string_eq, ◌==◌,
  if◌then◌else◌,
}
use runner_observability.Value.{Value}
use runner_observability.Python.{Python, Exception, validation_error, value_error, recursion_error}
use runner_observability.Contracts.Fields.{max_payload_bytes}
use runner_observability.Contracts.Event.{ValidatedEvent, validate_event}
use runner_observability.Health.{Incident}
use runner_observability.Store.State.{Store}
use runner_observability.Store.Time.{ReceivedAt}
use runner_observability.Store.Ingest.{IngestResult, ingest}
use runner_observability.Server.Request.{
  BodyRead, timeout, bytes, Request, Target, error, ingested, Response, answer, reject, authorized,
  read_content_length,
}

-- The store after a request, the incidents that are notified, and the answer or what escapes the
-- handler; then the connection ends without an answer.
abbrev pub Handled : Type 0
Handled = Store × List Incident × Result Exception Response

abbrev pub unchanged : Store → Response → Handled
unchanged store response = (store, [], ok response)

abbrev pub after_ingest : Store → Result Exception (Store × IngestResult × List Incident) → Handled
after_ingest store (err e) = (store, [], err e)
after_ingest store (ok (store', result, sent)) = (store', sent, ok (answer 202 (ingested result)))

module _ (py : Python) (bearer_token : String) where
  -- a ValidationError and a RecursionError are answered, any other exception escapes
  abbrev pub after_validation : Store → ReceivedAt → Result Exception ValidatedEvent → Handled
  after_validation store now (err (validation_error reason)) =
      unchanged store (reject (if reason == "payload_too_large" then 413 else 422) reason)
  after_validation store now (err recursion_error) = unchanged store (reject 422 "invalid_event")
  after_validation store now (err e) = (store, [], err e)
  after_validation store now (ok event) = after_ingest store (ingest py store event now)

  abbrev pub after_decoding : Store → ReceivedAt → Option Value → Handled
  after_decoding store now none = unchanged store (reject 400 "invalid_json")
  after_decoding store now (some payload) = after_validation store now (validate_event py payload)

  abbrev pub after_read : Store → ReceivedAt → ℕ → BodyRead → Handled
  after_read store now length timeout = unchanged store (reject 408 "request_timeout")
  after_read store now length (bytes n decoded) =
      if nat_eq n length
      then after_decoding store now decoded
      else unchanged store (reject 400 "invalid_body")

  abbrev pub after_length : Store → Request → ReceivedAt → Result Response ℕ → Handled
  after_length store request now (err response) = unchanged store response
  after_length store request now (ok length) =
      if ltb max_payload_bytes length
      then unchanged store (record (reject 413 "payload_too_large") { closes = true })
      else after_read store now length (request.read length)

  abbrev pub at_path : Store → Request → ReceivedAt → Option Target → Handled
  at_path store request now none = (store, [], err value_error)
  at_path store request now (some target) =
      if not (target.path == "/v1/events")
      then unchanged store (answer 404 (error "not_found"))
      else if not (authorized bearer_token request)
      then unchanged store (reject 401 "unauthorized")
      else after_length store request now (read_content_length py request)

  -- `now` is what the clock of the monitor shows. The small body of a request that is not authorized
  -- is read away, which changes nothing here.
  unfoldable pub do_post : Store → Request → ReceivedAt → Handled
  unfolding validate_event ingest authorized read_content_length
  do_post store request now = at_path store request now request.target
