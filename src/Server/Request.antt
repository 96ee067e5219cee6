-- ===== src/Server/Request.antt =====
-- server.py: a request as its handler sees it, the answer, and the checks of the headers. The socket
-- is a parameter: what a read of the body gives.
use runner_observability.Base.{
  ℕ, String, Bool, true, false, ◌&&◌, Option, none, some, List, pos, negsuc, Result, ok, err, ltb,
  string_eq, ◌==◌,
}
use Prim.Native.String.{◌++◌ as append}
use Prim.Native.Char.{code}
use runner_observability.Value.{Value}
use runner_observability.Python.{Python}
use runner_observability.Store.Ingest.{IngestResult}
use runner_observability.Dashboard.Snapshot.{Snapshot, HistoryView}

-- What a read of the body gives: a timeout, or a number of bytes with the value that is decoded from
-- them, if they are UTF-8 and JSON.
pub data BodyRead : Type 0 where
  timeout : BodyRead
  bytes : ℕ → Option Value → BodyRead

-- A path that `urlsplit` has read, with its query.
pub record Target : Type 0 where
  pub path : String
  pub query : String

-- `target` is `none` where `urlsplit` raises a ValueError; `read` gives the body for a length.
pub record Request : Type 0 where
  pub target : Option Target
  pub authorization : Option String
  pub content_length : Option String
  pub read : ℕ → BodyRead

-- The JSON of an answer, or a static file.
pub data Reply : Type 0 where
  error : String → Reply
  ingested : IngestResult → Reply
  static : String → Reply
  health : Bool → List String → Reply
  history : List HistoryView → ℕ → ℕ → Bool → Reply
  dashboard : Snapshot → Reply

-- The answer, with the reason that is reported, and whether the connection is closed after it.
pub record Response : Type 0 where
  pub status : ℕ
  pub reply : Reply
  pub reported : Option String
  pub closes : Bool

-- `_json`
abbrev pub answer : ℕ → Reply → Response
answer status reply = record { status = status; reply = reply; reported = none; closes = false }

-- `_reject`
abbrev pub reject : ℕ → String → Response
reject status reason = record {
  status = status;
  reply = error reason;
  reported = some reason;
  closes = false;
}

-- text.isascii()
abbrev is_ascii : String → Bool
is_ascii String.[] = true
is_ascii (String.◌∷◌ c s) = ltb (code c) 128 && is_ascii s

-- headers.get(name, "")
abbrev header : Option String → String
header none = ""
header (some text) = text

-- `_authorized`. A token that is not ASCII equals no header that is.
unfoldable pub authorized : String → Request → Bool
authorized bearer_token request =
    is_ascii (header request.authorization)
    && header request.authorization == append "Bearer " bearer_token

-- `_content_length`: the length, or the answer that has been given.
unfoldable pub read_content_length : Python → Request → Result Response ℕ
read_content_length py request = elim request.content_length [
  | none ↦ err (reject 411 "content_length_required")
  | some raw ↦ elim (py.read_int raw) [
    | none ↦ err (reject 400 "invalid_content_length")
    | some (negsuc _) ↦ err (reject 400 "invalid_content_length")
    | some (pos n) ↦ ok n
  ]
]
