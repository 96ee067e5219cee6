-- ===== src/Outbox/Enqueue.antt =====
-- outbox.py: `DurableOutbox.enqueue`.
use runner_observability.Base.{
  ◌+◌, String, Bool, true, false, ◌||◌, Option, none, some, Result, ok, err, string_eq, leb, ltb,
  if◌then◌else◌,
}
use Prim.Native.String.{len}
use runner_observability.Base.Table.{select, upsert}
use runner_observability.Value.{Value, dict, end, json_payload}
use runner_observability.Python.{Python, Exception, validation_error}
use runner_observability.Contracts.Event.{ValidatedEvent, validate_event}
use runner_observability.Outbox.State.{
  Outbox, Faults, Envelope, read_envelope, encode_envelope, queued_timestamp, capacity_usage,
}

pub record EnqueueResult : Type 0 where
  pub event_id : String
  pub status : String
  pub reason : Option String

abbrev pub rejected : String → String → EnqueueResult
rejected event_id reason = record { event_id = event_id; status = "rejected"; reason = some reason }

module _ (py : Python) where
  abbrev event_of : Option Envelope → Value
  event_of none = dict end
  event_of (some envelope) = envelope.event

  -- `_existing_event`: the event of the first of the two files that is there
  unfoldable pub existing_event : Outbox → String → Option Value
  unfolding read_envelope
  existing_event outbox event_id = elim (select event_id outbox.pending) [
    | some text ↦ some (event_of (read_envelope py event_id text false))
    | none ↦ elim (select event_id outbox.dead_letter) [
      | some text ↦ some (event_of (read_envelope py event_id text true))
      | none ↦ none
    ]
  ]

  -- the timestamp that is given, or that of the clock
  abbrev pub timestamp : String → Option String → Option String
  timestamp now none = some now
  timestamp now (some value) = queued_timestamp py value

  abbrev pub is_full : Faults → Outbox → String → Bool
  is_full faults outbox encoded =
      leb outbox.limits.max_events (capacity_usage faults outbox).0
      || ltb outbox.limits.max_bytes ((capacity_usage faults outbox).1 + len encoded)

  -- the write of a new file: a temporary file that is renamed
  unfoldable pub write_pending : Faults → Outbox → String → String → Outbox × EnqueueResult
  write_pending faults outbox event_id encoded =
      if faults.write_fails event_id
      then (outbox, rejected event_id "outbox_storage_unavailable")
      else (
        record outbox { pending = upsert event_id encoded outbox.pending },
        record { event_id = event_id; status = "queued"; reason = none },
      )

  -- the part of `_enqueue_locked` for an event that is in no file
  unfoldable pub enqueue_new :
      String → Faults → Outbox → String → Value → Option String → Outbox × EnqueueResult
  unfolding write_pending
  enqueue_new now faults outbox event_id event queued_at = elim (timestamp now queued_at) [
    | none ↦ (outbox, rejected event_id "outbox_invalid_timestamp")
    | some queued ↦
        let encoded =
          encode_envelope py (record { queued_at = queued; event = event; reason = none }) in
        if faults.stat_fails
        then (outbox, rejected event_id "outbox_storage_unavailable")
        else if is_full faults outbox encoded
        then (outbox, rejected event_id "outbox_capacity_exceeded")
        else write_pending faults outbox event_id encoded
  ]

  -- `_enqueue_locked`, with an event that has been validated
  unfoldable pub enqueue_validated :
      String → Faults → Outbox → ValidatedEvent → Option String → Outbox × EnqueueResult
  enqueue_validated now faults outbox validated queued_at =
      let event_payload = json_payload validated.payload in
      let event_id = validated.event_id in
      elim (existing_event outbox event_id) [
        | none ↦ enqueue_new now faults outbox event_id event_payload queued_at
        | some existing ↦
            if py.equals existing event_payload
            then (outbox, record { event_id = event_id; status = "duplicate"; reason = none })
            else (
              outbox,
              record {
                event_id = event_id;
                status = "conflict";
                reason = some "outbox_event_conflict";
              },
            )
      ]

  abbrev pub enqueue_result :
      String
      → Faults
      → Outbox
      → Option String
      → Result Exception ValidatedEvent
      → Result Exception (Outbox × EnqueueResult)
  enqueue_result now faults outbox queued_at (ok validated) =
      ok (enqueue_validated now faults outbox validated queued_at)
  enqueue_result now faults outbox queued_at (err (validation_error reason)) =
      ok (outbox, rejected "" reason)
  enqueue_result now faults outbox queued_at (err e) = err e

  -- `now` is the clock's timestamp. Only a ValidationError is caught.
  unfoldable pub enqueue :
      String → Faults → Outbox → Value → Option String → Result Exception (Outbox × EnqueueResult)
  enqueue now faults outbox event queued_at =
      if faults.lock_fails
      then ok (outbox, rejected "" "outbox_storage_unavailable")
      else enqueue_result now faults outbox queued_at (validate_event py event)
