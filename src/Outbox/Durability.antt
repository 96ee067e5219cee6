-- ===== src/Outbox/Durability.antt =====
-- What an enqueue has written is read back, and so a repeated enqueue finds it.
use runner_observability.Base.{
  String, ◌≡◌, refl, ap, ◌∙◌, true, false, Option, none, some, ok, arith, string_eq, eq_refl,
}
use runner_observability.Base.Table.{select}
use runner_observability.Value.{
  Value, IsJson, get, keys, has_exact_keys, dict, freeze, field, end, str,
}
use runner_observability.Value.Sorted.{sort_keys, insert_key, sort_keys-IsJson}
use runner_observability.Python.{Python}
use runner_observability.Contracts.Event.{ValidatedEvent, validate_event}
use runner_observability.Contracts.SortedEvent.{IsOrderFree, validate_event-sort_keys}
use runner_observability.Store.Revalidation.{validated_event-validate_event}
use runner_observability.Outbox.State.{
  Outbox, Faults, Envelope, envelope_value, encode_envelope, queued_timestamp, read_event,
  read_envelope,
}
use runner_observability.Outbox.Enqueue.{existing_event, enqueue_validated, enqueue}

module _ (py : Python) (value : Value) (e : ValidatedEvent) where
  -- an event in its normal form is read as itself from the file with its id
  read_event-eq-some :
      IsJson value
      → validate_event py value ≡ ok e
      → py.equals value value ≡ true
      → read_event py e.event_id value ≡ some value
  unfolding read_event
  read_event-eq-some json valid equal =
      let payload = (validated_event-validate_event py value e json valid).1 in
      ground (arith, valid, eq_refl e.event_id, payload, equal)

-- `json.loads` reads the text of an envelope as its JSON with the keys of every mapping in order.
abbrev pub IsReadBack : Python → Envelope → Type 0
IsReadBack py envelope =
    py.loads (encode_envelope py envelope) ≡ some (sort_keys (envelope_value envelope))

abbrev pub queued_envelope : String → Value → Envelope
queued_envelope queued_at event = record { queued_at = queued_at; event = event; reason = none }

sorted_envelope :
    (queued_at : String) (value : Value)
    → sort_keys (envelope_value (queued_envelope queued_at value))
      ≡ dict (field "event" (sort_keys value) (field "queued_at" (str queued_at) end))
unfolding sort_keys insert_key
sorted_envelope queued_at value = refl

module _ (py : Python) (value : Value) (e : ValidatedEvent) where
  -- The file that is written for a validated event at a valid time is read back: as the envelope with
  -- the same time, and with the event whose keys are in order at every depth. The order of the keys
  -- makes no difference to the length of the event's JSON text or to the stack that is needed, the
  -- event with its keys in order equals itself, and `json.loads` reads the text of the envelope as its
  -- JSON with the keys in order.
  pub read_envelope-encode_envelope :
      (queued_at : String)
      → let envelope : Envelope = queued_envelope queued_at value in
        IsJson value
        → IsOrderFree py value
        → validate_event py value ≡ ok e
        → py.equals (sort_keys value) (sort_keys value) ≡ true
        → queued_timestamp py queued_at ≡ some queued_at
        → IsReadBack py envelope
        → read_envelope py e.event_id (encode_envelope py envelope) false
          ≡ some (queued_envelope queued_at (sort_keys value))
  unfolding read_envelope get keys has_exact_keys
  read_envelope-encode_envelope queued_at json free valid equal timed loaded = ground (
    arith,
    loaded ∙ ap some (sorted_envelope queued_at value),
    timed,
    read_event-eq-some py (sort_keys value)
        (record e { schema_version = 1; payload = freeze (sort_keys value) })
        (sort_keys-IsJson value json) (validate_event-sort_keys py value free valid) equal,
  )

  -- A second enqueue of a validated event whose file stands in the outbox, as an enqueue at a valid
  -- time writes it, is a duplicate and leaves the outbox as it is. The lock is to be had, `==` tells
  -- the event with its keys in order neither from itself nor from the event, the order of the keys
  -- makes no difference to the length of the JSON text or to the stack that is needed, and
  -- `json.loads` reads the text of the envelope as its JSON with the keys in order.
  pub enqueue_duplicate :
      (now queued : String) (faults : Faults) (outbox : Outbox) (queued_at : Option String)
      → let envelope : Envelope = queued_envelope queued value in
        IsJson value
        → IsOrderFree py value
        → validate_event py value ≡ ok e
        → py.equals (sort_keys value) (sort_keys value) ≡ true
        → py.equals (sort_keys value) value ≡ true
        → queued_timestamp py queued ≡ some queued
        → IsReadBack py envelope
        → select e.event_id outbox.pending ≡ some (encode_envelope py envelope)
        → faults.lock_fails ≡ false
        → enqueue py now faults outbox value queued_at
          ≡ ok (outbox, record { event_id = e.event_id; status = "duplicate"; reason = none })
  unfolding enqueue enqueue_validated existing_event
  enqueue_duplicate now queued faults outbox queued_at json free valid equal alike timed loaded
        stands unlocked =
      let payload = (validated_event-validate_event py value e json valid).1 in
      ground (
        arith,
        unlocked,
        valid,
        stands,
        read_envelope-encode_envelope queued json free valid equal timed loaded,
        payload,
        alike,
      )
