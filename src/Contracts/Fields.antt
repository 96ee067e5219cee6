-- ===== src/Contracts/Fields.antt =====
-- contracts.py: its constants, and the functions `_required_…` that check one field of a mapping.
use runner_observability.Base.{
  ℕ, ◌*◌, String, Bool, true, false, ◌&&◌, ◌||◌, none, some, List, [], ◌∷◌, pos, Result, ok, err,
  ◌>>=◌, ◌>>◌, guard, ltb, string_eq, ◌==◌, if◌then◌else◌,
}
use Prim.Native.String.{count}
use runner_observability.Value.{Value, Fields, int, str, get, has_exact_keys}
use runner_observability.Python.{Python, Pattern, Url, Exception, validation_error, value_error}

abbrev pub max_payload_bytes : ℕ
max_payload_bytes = 16 * 1024

abbrev pub event_types : List String
event_types =
    "runner.heartbeat" ∷ "runner.offline" ∷ "job.started" ∷ "job.heartbeat" ∷ "job.finished"
    ∷ "job.progress" ∷ "job.fallback" ∷ []

abbrev pub common_fields : List String
common_fields =
    "schema_version" ∷ "event_type" ∷ "event_id" ∷ "runner_id" ∷ "producer_id" ∷ "producer_epoch"
    ∷ "producer_sequence" ∷ "occurred_at" ∷ []

abbrev pub job_fields : List String
job_fields =
    "repository" ∷ "workflow_run_id" ∷ "run_attempt" ∷ "job_id" ∷ "job_name" ∷ "run_url" ∷ []

abbrev pub progress_fields : List String
progress_fields =
    "stage_id" ∷ "stage_kind" ∷ "state" ∷ "determinate" ∷ "total" ∷ "completed" ∷ "failed"
    ∷ "pending" ∷ "fallback_group_count" ∷ "affected_test_count" ∷ "attempt" ∷ []

abbrev pub fallback_fields : List String
fallback_fields =
    "target_stage_id" ∷ "reason_code" ∷ "completed_groups" ∷ "total_groups" ∷ "fallback_group_count"
    ∷ "affected_test_count" ∷ []

abbrev pub forbidden_field_fragment : Pattern
forbidden_field_fragment = record {
  source =
      "(?:token|bearer|authorization|password|secret|raw_log|environment|command|(?:^|_)path(?:$|_)|pr_(?:title|body)|pull_request|test_(?:name|id)|group_(?:name|id)|fallback_reason)";
  ignore_case = true;
}

abbrev pub secret_value : Pattern
secret_value = record {
  source = "(?:\\bbearer\\s+\\S+|\\bgh[pousr]_[A-Za-z0-9_]+|\\bgithub_pat_[A-Za-z0-9_]+)";
  ignore_case = true;
}

abbrev pub absolute_path : Pattern
absolute_path = record {
  source = "(?:(?<![A-Za-z0-9])[A-Za-z]:[\\\\/]|\\\\\\\\|(?:^|\\s)/)";
  ignore_case = false;
}

abbrev pub identifier : Pattern
identifier = record { source = "^[A-Za-z0-9][A-Za-z0-9_.-]{0,63}$"; ignore_case = false }

abbrev pub repository : Pattern
repository = record {
  source = "^[A-Za-z0-9][A-Za-z0-9_.-]{0,99}/[A-Za-z0-9][A-Za-z0-9_.-]{0,99}$";
  ignore_case = false;
}

abbrev pub stage_id : Pattern
stage_id = record { source = "^[a-z][a-z0-9_]{0,63}$"; ignore_case = false }

abbrev pub job_name : Pattern
job_name = record {
  source =
      "^[A-Za-z0-9][A-Za-z0-9 ._()\\[\\]&+,'-]*(?: / [A-Za-z0-9][A-Za-z0-9 ._()\\[\\]&+,'-]*)*$";
  ignore_case = false;
}

abbrev pub run_path : Pattern
run_path = record {
  source = "/[A-Za-z0-9_.-]+/[A-Za-z0-9_.-]+/actions/runs/[1-9][0-9]*";
  ignore_case = false;
}

-- `_reject_invalid`
abbrev pub invalid : Exception
invalid = validation_error "invalid_event"

unfoldable pub validate_exact_keys : Fields → List String → Result Exception (Unit {0})
validate_exact_keys payload expected = guard (has_exact_keys payload expected) invalid

unfoldable pub string_in_range : Value → ℕ → Result Exception String
string_in_range (str value) maximum =
    if value == "" || ltb maximum (count value) then err invalid else ok value
string_in_range _ maximum = err invalid

unfoldable pub required_string : Fields → String → ℕ → Result Exception String
unfolding string_in_range
required_string payload key maximum = string_in_range (get payload key) maximum

-- the tests on a number with the least value that is allowed; a `bool` is no number here
unfoldable pub int_at_least : ℕ → Value → Result Exception ℕ
int_at_least least (int (pos value)) = if ltb value least then err invalid else ok value
int_at_least least _ = err invalid

unfoldable pub required_positive_int : Fields → String → Result Exception ℕ
unfolding int_at_least
required_positive_int payload key = int_at_least 1 (get payload key)

unfoldable pub required_nonnegative_int : Fields → String → Result Exception ℕ
unfolding int_at_least
required_nonnegative_int payload key = int_at_least 0 (get payload key)

module _ (py : Python) where
  unfoldable pub required_uuid : Fields → String → Result Exception String
  required_uuid payload key = do
    value ← required_string payload key 36
    guard (py.is_uuid value) invalid
    ok value

  unfoldable pub required_identifier : Fields → String → Result Exception String
  required_identifier payload key = do
    value ← required_string payload key 64
    guard (py.re_fullmatch identifier value) invalid
    ok value

  unfoldable pub required_stage_id : Fields → String → Result Exception String
  required_stage_id payload key = do
    value ← required_string payload key 64
    guard (py.re_fullmatch stage_id value) invalid
    ok value

  abbrev pub is_aware : String → Bool
  is_aware value = elim (py.fromisoformat value) [ none ↦ false | some parsed ↦ parsed.aware ]

  unfoldable pub required_timestamp : Fields → String → Result Exception String
  required_timestamp payload key = do
    value ← required_string payload key 35
    guard (is_aware value) invalid
    ok value

  abbrev pub is_run_url : Url → Bool
  is_run_url parsed =
      parsed.scheme == "https"
      && elim parsed.hostname [ none ↦ false | some host ↦ host == "github.com" ]
      && elim parsed.username [ none ↦ true | some _ ↦ false ]
      && elim parsed.password [ none ↦ true | some _ ↦ false ]
      && parsed.query == ""
      && parsed.fragment == ""
      && py.re_fullmatch run_path parsed.path

  -- A ValueError of `urlparse` is not caught.
  unfoldable pub required_run_url : Fields → String → Result Exception String
  required_run_url payload key = do
    value ← required_string payload key 256
    parsed ← elim (py.urlparse value) [ none ↦ err value_error | some url ↦ ok url ]
    guard (is_run_url parsed) invalid
    ok value
