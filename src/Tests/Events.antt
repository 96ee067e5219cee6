-- ===== src/Tests/Events.antt =====
-- The validation of events.
use runner_observability.Base.{◌≡◌, refl, All, ok, err, arith, string_eq}
use runner_observability.Value.{Fields, get, has_exact_keys, IsJson, json_payload}
use runner_observability.Python.{value_error}
use runner_observability.Contracts.Fields.{
  required_string, required_uuid, required_identifier, required_positive_int, required_timestamp,
  required_run_url,
}
use runner_observability.Contracts.Content.{validate_payload_size, validate_no_forbidden_content}
use runner_observability.Contracts.Event.{
  validate_event, validate_envelope_fields, validate_job_event,
}
use runner_observability.Contracts.Job.{Job, event_job}
use runner_observability.Contracts.Accepts.{Describes, validate_event-Describes}
use runner_observability.Contracts.HasJob.{IsJob, validate_event-has_job}
use runner_observability.Contracts.Clean.{
  IsSafeText, IsSafeName, texts, names, validate_event_clean,
}
use runner_observability.Contracts.Raises.{IsRejection, validate_event-IsRejection}
use runner_observability.Store.State.{validated_event}
use runner_observability.Store.Revalidation.{validated_event-validate_event}
use runner_observability.Tests.Fixtures.{
  py, heartbeat, heartbeat_event, started_at, started, started_event,
}

pub heartbeat_valid : validate_event py heartbeat ≡ ok heartbeat_event
unfolding validate_event validate_payload_size validate_no_forbidden_content get required_string
    validate_envelope_fields has_exact_keys required_uuid required_identifier required_positive_int
    required_timestamp
heartbeat_valid = refl

started_valid : validate_event py started ≡ ok started_event
unfolding validate_event validate_payload_size validate_no_forbidden_content get required_string
    validate_envelope_fields has_exact_keys required_uuid required_identifier required_positive_int
    required_timestamp validate_job_event required_run_url
started_valid = refl

url_raises : validate_event py (started_at "https://[") ≡ err value_error
unfolding validate_event validate_payload_size validate_no_forbidden_content get required_string
    validate_envelope_fields has_exact_keys required_uuid required_identifier required_positive_int
    required_timestamp validate_job_event required_run_url
url_raises = refl

validate_event-Describes_example : (f : Fields) × Describes py heartbeat f heartbeat_event
validate_event-Describes_example =
    validate_event-Describes py heartbeat heartbeat_event heartbeat_valid

validate_event-has_job_example : (j : Job) × (event_job started_event ≡ ok j) × IsJob py j
validate_event-has_job_example = validate_event-has_job py started started_event started_valid refl

validate_event_clean_example :
    All (IsSafeText py) (texts started) × All (IsSafeName py) (names started)
validate_event_clean_example = validate_event_clean py started started_event started_valid

validate_event-IsRejection_example : IsRejection py value_error
validate_event-IsRejection_example =
    validate_event-IsRejection py (started_at "https://[") value_error url_raises

started-IsJson : IsJson started
started-IsJson = ground arith

validated_event-validate_event_example :
    (validated_event py started_event ≡ ok started_event)
    × (json_payload started_event.payload ≡ started)
validated_event-validate_event_example =
    validated_event-validate_event py started started_event started-IsJson started_valid
