-- ===== src/Contracts/Event.antt =====
-- contracts.py: `ValidatedEvent` and `validate_event`.
use runner_observability.Base.{
  ℕ, String, Bool, true, false, ◌&&◌, ◌||◌, none, some, List, [], ◌∷◌, ◌++◌, pos, Result, ok, err,
  ◌>>=◌, ◌>>◌, guard, not, string_eq, ◌==◌, contains, nat_eq, if◌then◌else◌,
}
use runner_observability.Value.{Value, Fields, bool, int, as_mapping, get, freeze}
use runner_observability.Python.{Python, Exception, validation_error, recursion_error}
use runner_observability.Contracts.Fields.{
  event_types, common_fields, job_fields, progress_fields, fallback_fields, repository, job_name,
  invalid, validate_exact_keys, required_string, required_positive_int, required_nonnegative_int,
  required_uuid, required_identifier, required_stage_id, required_timestamp, required_run_url,
}
use runner_observability.Contracts.Content.{validate_payload_size, validate_no_forbidden_content}

pub record ValidatedEvent : Type 0 where
  pub schema_version : ℕ
  pub event_type : String
  pub event_id : String
  pub runner_id : String
  pub producer_id : String
  pub producer_epoch : String
  pub producer_sequence : ℕ
  pub occurred_at : String
  pub payload : Value

-- isinstance(value, Mapping), or `_reject_invalid`
abbrev pub required_mapping : Value → Result Exception Fields
required_mapping value = elim (as_mapping value) [ none ↦ err invalid | some f ↦ ok f ]

-- `type(schema_version) is not int or schema_version != SCHEMA_VERSION`, negated
abbrev pub is_schema_version : Value → Bool
is_schema_version (int (pos n)) = nat_eq n 1
is_schema_version _ = false

abbrev pub is_bool : Value → Bool
is_bool (bool b) = true
is_bool _ = false

abbrev pub expected_fields : String → List String
expected_fields event_type =
    if event_type == "job.started" || event_type == "job.heartbeat"
    then common_fields ++ "job" ∷ []
    else if event_type == "job.finished"
    then common_fields ++ "job" ∷ "outcome" ∷ []
    else if event_type == "job.progress"
    then common_fields ++ "job" ∷ "progress" ∷ []
    else if event_type == "job.fallback"
    then common_fields ++ "job" ∷ "fallback" ∷ []
    else common_fields

unfoldable pub validate_envelope_fields : Fields → String → Result Exception (Unit {0})
unfolding validate_exact_keys
validate_envelope_fields payload event_type =
    validate_exact_keys payload (expected_fields event_type)

-- for key in keys: _required_nonnegative_int(payload, key)
unfoldable pub required_nonnegative_ints : Fields → List String → Result Exception (Unit {0})
unfolding required_nonnegative_int
required_nonnegative_ints payload [] = ok tt
required_nonnegative_ints payload (key ∷ rest) = do
  _ ← required_nonnegative_int payload key
  required_nonnegative_ints payload rest

module _ (py : Python) where
  unfoldable pub validate_progress : Value → Result Exception (Unit {0})
  validate_progress value = do
    progress ← required_mapping value
    validate_exact_keys progress progress_fields
    _ ← required_stage_id py progress "stage_id"
    _ ← required_stage_id py progress "stage_kind"
    state ← required_string progress "state" 16
    guard
        (contains state ("running" ∷ "completed" ∷ "failed" ∷ "cancelled" ∷ [])
          && is_bool (get progress "determinate"))
        invalid
    required_nonnegative_ints progress (
        "total" ∷ "completed" ∷ "failed" ∷ "pending" ∷ "fallback_group_count"
        ∷ "affected_test_count" ∷ [])
    _ ← required_positive_int progress "attempt"
    ok tt

  unfoldable pub validate_fallback : Value → Result Exception (Unit {0})
  validate_fallback value = do
    fallback ← required_mapping value
    validate_exact_keys fallback fallback_fields
    _ ← required_stage_id py fallback "target_stage_id"
    _ ← required_stage_id py fallback "reason_code"
    required_nonnegative_ints fallback
        ("completed_groups" ∷ "total_groups" ∷ "fallback_group_count" ∷ "affected_test_count" ∷ [])

  -- the part of `_validate_job_event` on the mapping `job`
  unfoldable pub validate_job : Fields → Result Exception (Unit {0})
  validate_job job = do
    validate_exact_keys job job_fields
    name ← required_string job "repository" 201
    guard (py.re_fullmatch repository name) invalid
    _ ← required_positive_int job "workflow_run_id"
    _ ← required_positive_int job "run_attempt"
    _ ← required_positive_int job "job_id"
    title ← required_string job "job_name" 200
    guard (py.re_fullmatch job_name title) invalid
    _ ← required_run_url py job "run_url"
    ok tt

  -- the part of `_validate_job_event` that depends on the type of the event
  unfoldable pub validate_job_details : Fields → String → Result Exception (Unit {0})
  unfolding validate_progress validate_fallback
  validate_job_details payload event_type =
      if event_type == "job.finished"
      then (do
        outcome ← required_string payload "outcome" 16
        guard (contains outcome ("succeeded" ∷ "failed" ∷ "cancelled" ∷ [])) invalid)
      else if event_type == "job.progress"
      then validate_progress (get payload "progress")
      else if event_type == "job.fallback"
      then validate_fallback (get payload "fallback")
      else ok tt

  unfoldable pub validate_job_event : Fields → String → Result Exception (Unit {0})
  unfolding validate_job validate_job_details
  validate_job_event payload event_type = do
    job ← required_mapping (get payload "job")
    validate_job job
    validate_job_details payload event_type

  abbrev pub is_runner_event : String → Bool
  is_runner_event event_type = event_type == "runner.heartbeat" || event_type == "runner.offline"

  unfoldable pub validate_event : Value → Result Exception ValidatedEvent
  validate_event value = do
    validate_payload_size py value
    payload ← required_mapping value
    validate_no_forbidden_content py py.search_depth value
    guard (is_schema_version (get payload "schema_version")) (validation_error "unsupported_schema")
    event_type ← required_string payload "event_type" 64
    guard (contains event_type event_types) invalid
    validate_envelope_fields payload event_type
    event_id ← required_uuid py payload "event_id"
    runner_id ← required_uuid py payload "runner_id"
    producer_id ← required_identifier py payload "producer_id"
    producer_epoch ← required_identifier py payload "producer_epoch"
    producer_sequence ← required_positive_int payload "producer_sequence"
    occurred_at ← required_timestamp py payload "occurred_at"
    if is_runner_event event_type
        then validate_exact_keys payload common_fields
        else validate_job_event payload event_type
    guard (not (py.freeze_too_deep value)) recursion_error
    ok (record {
      schema_version = 1;
      event_type = event_type;
      event_id = event_id;
      runner_id = runner_id;
      producer_id = producer_id;
      producer_epoch = producer_epoch;
      producer_sequence = producer_sequence;
      occurred_at = occurred_at;
      payload = freeze value;
    })
