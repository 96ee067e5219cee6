-- ===== src/Store/Revalidation.antt =====
-- `Store.ingest` validates the event that it is given once more, from its frozen payload.
use runner_observability.Base.{◌≡◌, ap, ◌∙◌, ok}
use runner_observability.Value.{Value, IsJson, thaw, freeze, json_payload}
use runner_observability.Value.Laws.{thaw-freeze, json_payload-eq-thaw}
use runner_observability.Python.{Python}
use runner_observability.Contracts.Event.{ValidatedEvent, validate_event}
use runner_observability.Contracts.Steps.{Steps, validate_event-Steps}
use runner_observability.Store.State.{validated_event}

-- An event that was validated from JSON is validated again to the same event, and the payload that
-- the outbox stores and sends for it is the JSON that it was made from.
pub validated_event-validate_event :
    (py : Python) (value : Value) (e : ValidatedEvent)
    → IsJson value
    → validate_event py value ≡ ok e
    → (validated_event py e ≡ ok e) × (json_payload e.payload ≡ value)
unfolding validated_event
validated_event-validate_event py value e json h =
    let s : Steps py value e = validate_event-Steps py value e h in
    (
      ap (validate_event py) (ap thaw s.payload ∙ thaw-freeze value json) ∙ h,
      ap json_payload s.payload ∙ (json_payload-eq-thaw (freeze value) ∙ thaw-freeze value json),
    )
