-- ===== src/Contracts/Accepts.antt =====
-- What an accepted event is: every field of a `ValidatedEvent` against the payload that it is from.
use runner_observability.Base.{
  ℕ, String, ◌≤◌, ◌≡◌, ◌≢◌, true, some, pos, ok, arith, contains, Ensures, eq_iff, string_eq,
  Ensures-at,
}
use Prim.Native.String.{count}
use runner_observability.Value.{Value, Fields, int, str, as_mapping, get, freeze, has_exact_keys}
use runner_observability.Python.{Python}
use runner_observability.Contracts.Fields.{
  event_types, identifier, string_in_range, required_string, required_uuid, required_identifier,
  required_positive_int, is_aware, required_timestamp,
}
use runner_observability.Contracts.Event.{ValidatedEvent, expected_fields, validate_event}
use runner_observability.Contracts.Steps.{Steps, validate_event-Steps}

-- `value` is a text of the size that is asked for.
abbrev pub IsText : Value → ℕ → String → Type 0
IsText v maximum value = (v ≡ str value) × (count value ≤ maximum) × (value ≢ "")

string_in_range-Ensures :
    (v : Value) (maximum : ℕ) → Ensures (IsText v maximum) (string_in_range v maximum)
unfolding string_in_range
string_in_range-Ensures (str value) maximum = ground (arith, eq_iff value "")
string_in_range-Ensures _ maximum = tt

pub required_string-Ensures :
    (f : Fields) (key : String) (maximum : ℕ)
    → Ensures (IsText (get f key) maximum) (required_string f key maximum)
unfolding required_string
required_string-Ensures f key maximum = string_in_range-Ensures (get f key) maximum

module _ (py : Python) (f : Fields) (key : String) where
  required_uuid-Ensures :
      Ensures (λ s. (get f key ≡ str s) × (py.is_uuid s ≡ true)) (required_uuid py f key)
  unfolding required_uuid
  required_uuid-Ensures = ground (arith, required_string-Ensures f key 36)

  required_identifier-Ensures :
      Ensures
        (λ s. (get f key ≡ str s) × (py.re_fullmatch identifier s ≡ true))
        (required_identifier py f key)
  unfolding required_identifier
  required_identifier-Ensures = ground (arith, required_string-Ensures f key 64)

  required_timestamp-Ensures :
      Ensures (λ s. (get f key ≡ str s) × (is_aware py s ≡ true)) (required_timestamp py f key)
  unfolding required_timestamp
  required_timestamp-Ensures = ground (arith, required_string-Ensures f key 35)

pub required_positive_int-Ensures :
    (f : Fields) (key : String)
    → Ensures (λ n. (get f key ≡ int (pos n)) × (1 ≤ n)) (required_positive_int f key)
unfolding required_positive_int
required_positive_int-Ensures f key = ground arith

-- The fields of an accepted event, read from the payload that it is made from.
pub record Describes (py : Python) (value : Value) (f : Fields) (e : ValidatedEvent) : Type 0 where
  pub mapping : as_mapping value ≡ some f
  pub schema_version : e.schema_version ≡ 1
  pub event_type : get f "event_type" ≡ str e.event_type
  pub known_type : contains e.event_type event_types ≡ true
  pub exact_keys : has_exact_keys f (expected_fields e.event_type) ≡ true
  pub event_id : (get f "event_id" ≡ str e.event_id) × (py.is_uuid e.event_id ≡ true)
  pub runner_id : (get f "runner_id" ≡ str e.runner_id) × (py.is_uuid e.runner_id ≡ true)
  pub producer_id :
      (get f "producer_id" ≡ str e.producer_id) × (py.re_fullmatch identifier e.producer_id ≡ true)
  pub producer_epoch :
      (get f "producer_epoch" ≡ str e.producer_epoch)
      × (py.re_fullmatch identifier e.producer_epoch ≡ true)
  pub producer_sequence :
      (get f "producer_sequence" ≡ int (pos e.producer_sequence)) × (1 ≤ e.producer_sequence)
  pub occurred_at : (get f "occurred_at" ≡ str e.occurred_at) × (is_aware py e.occurred_at ≡ true)
  pub payload : e.payload ≡ freeze value

-- An accepted event describes its payload: the payload is a mapping with exactly the keys of the
-- event's type, which is one of the seven; its identifiers, number and time stand under their keys,
-- are well formed, and the event carries them and the frozen payload.
pub validate_event-Describes :
    (py : Python) (value : Value) (e : ValidatedEvent)
    → validate_event py value ≡ ok e
    → (f : Fields) × Describes py value f e
validate_event-Describes py value e h =
    let s : Steps py value e = validate_event-Steps py value e h in
    (
      s.f,
      record {
        mapping = s.mapping;
        schema_version = s.schema_version;
        event_type = (Ensures-at _ _ (required_string-Ensures s.f "event_type" 64) s.event_type).0;
        known_type = s.known_type;
        exact_keys = s.exact_keys;
        event_id = Ensures-at _ _ (required_uuid-Ensures py s.f "event_id") s.event_id;
        runner_id = Ensures-at _ _ (required_uuid-Ensures py s.f "runner_id") s.runner_id;
        producer_id =
            Ensures-at _ _ (required_identifier-Ensures py s.f "producer_id") s.producer_id;
        producer_epoch =
            Ensures-at _ _ (required_identifier-Ensures py s.f "producer_epoch") s.producer_epoch;
        producer_sequence =
            Ensures-at _ _ (required_positive_int-Ensures s.f "producer_sequence")
              s.producer_sequence;
        occurred_at =
            Ensures-at _ _ (required_timestamp-Ensures py s.f "occurred_at") s.occurred_at;
        payload = s.payload;
      },
    )
