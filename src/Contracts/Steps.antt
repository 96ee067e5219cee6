-- ===== src/Contracts/Steps.antt =====
-- An accepted event has passed every check of `validate_event`, in its fields.
use runner_observability.Base.{
  ◌≡◌, refl, true, Result, ok, guard, not, contains, string_eq, subst, if◌then◌else◌, >>=-eq-ok,
  guard-eq-ok, ok-injective, arith, some,
}
use runner_observability.Value.{Value, Fields, as_mapping, get, freeze, has_exact_keys}
use runner_observability.Python.{Python, Exception, validation_error, recursion_error}
use runner_observability.Contracts.Fields.{
  event_types, common_fields, invalid, validate_exact_keys, required_string, required_uuid,
  required_identifier, required_positive_int, required_timestamp,
}
use runner_observability.Contracts.Content.{validate_payload_size, validate_no_forbidden_content}
use runner_observability.Contracts.Event.{
  ValidatedEvent, required_mapping, is_schema_version, expected_fields, is_runner_event,
  validate_envelope_fields, validate_job_event, validate_event,
}

abbrev pub schema_guard : Fields → Result Exception (Unit {0})
schema_guard f =
    guard (is_schema_version (get f "schema_version")) (validation_error "unsupported_schema")

pub record Steps (py : Python) (value : Value) (e : ValidatedEvent) : Type 0 where
  pub f : Fields
  pub sized : validate_payload_size py value ≡ ok tt
  pub mapping : as_mapping value ≡ some f
  pub clean : validate_no_forbidden_content py py.search_depth value ≡ ok tt
  pub supported : schema_guard f ≡ ok tt
  pub schema_version : e.schema_version ≡ 1
  pub event_type : required_string f "event_type" 64 ≡ ok e.event_type
  pub known_type : contains e.event_type event_types ≡ true
  pub exact_keys : has_exact_keys f (expected_fields e.event_type) ≡ true
  pub event_id : required_uuid py f "event_id" ≡ ok e.event_id
  pub runner_id : required_uuid py f "runner_id" ≡ ok e.runner_id
  pub producer_id : required_identifier py f "producer_id" ≡ ok e.producer_id
  pub producer_epoch : required_identifier py f "producer_epoch" ≡ ok e.producer_epoch
  pub producer_sequence : required_positive_int f "producer_sequence" ≡ ok e.producer_sequence
  pub occurred_at : required_timestamp py f "occurred_at" ≡ ok e.occurred_at
  pub details :
      (if is_runner_event py e.event_type
        then validate_exact_keys f common_fields
        else validate_job_event py f e.event_type)
      ≡ ok tt
  pub copied : guard (not (py.freeze_too_deep value)) recursion_error ≡ ok tt
  pub payload : e.payload ≡ freeze value

required_mapping-eq-ok :
    (v : Value) {f : Fields} → required_mapping v ≡ ok f → as_mapping v ≡ some f
required_mapping-eq-ok v h = ground arith

pub validate_event-Steps :
    (py : Python) (value : Value) (e : ValidatedEvent)
    → validate_event py value ≡ ok e
    → Steps py value e
unfolding validate_event validate_envelope_fields validate_exact_keys
validate_event-Steps py value e h =
    let (t1, sized, h1) = >>=-eq-ok (validate_payload_size py value) _ h in
    let (f, mapped, h2) = >>=-eq-ok (required_mapping value) _ h1 in
    let (t2, clean, h3) = >>=-eq-ok (validate_no_forbidden_content py py.search_depth value) _ h2 in
    let (t3, schema, h4) = >>=-eq-ok (schema_guard f) _ h3 in
    let (kind, typed, h5) = >>=-eq-ok (required_string f "event_type" 64) _ h4 in
    let (t4, known, h6) = >>=-eq-ok (guard (contains kind event_types) invalid) _ h5 in
    let (t5, exact, h7) = >>=-eq-ok (validate_envelope_fields f kind) _ h6 in
    let (event_id, event_id_ok, h8) = >>=-eq-ok (required_uuid py f "event_id") _ h7 in
    let (runner_id, runner_ok, h9) = >>=-eq-ok (required_uuid py f "runner_id") _ h8 in
    let (producer, producer_ok, h10) = >>=-eq-ok (required_identifier py f "producer_id") _ h9 in
    let (epoch, epoch_ok, h11) = >>=-eq-ok (required_identifier py f "producer_epoch") _ h10 in
    let (number, number_ok, h12) = >>=-eq-ok (required_positive_int f "producer_sequence") _ h11 in
    let (time, time_ok, h13) = >>=-eq-ok (required_timestamp py f "occurred_at") _ h12 in
    let (t6, details, h14) =
      >>=-eq-ok
        (if is_runner_event py kind
          then validate_exact_keys f common_fields
          else validate_job_event py f kind)
        _ h13 in
    let (t7, copied, made) =
      >>=-eq-ok (guard (not (py.freeze_too_deep value)) recursion_error) _ h14 in
    subst (Steps py value) (ok-injective made) (record {
      f = f;
      sized = sized;
      mapping = required_mapping-eq-ok value mapped;
      clean = clean;
      supported = schema;
      schema_version = refl;
      event_type = typed;
      known_type = guard-eq-ok _ _ known;
      exact_keys = guard-eq-ok _ _ exact;
      event_id = event_id_ok;
      runner_id = runner_ok;
      producer_id = producer_ok;
      producer_epoch = epoch_ok;
      producer_sequence = number_ok;
      occurred_at = time_ok;
      details = details;
      copied = copied;
      payload = refl;
    })
