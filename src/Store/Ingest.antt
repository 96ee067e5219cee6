-- ===== src/Store/Ingest.antt =====
-- store.py: `Store.ingest`. An exception leaves the transaction rolled back, so it carries no state.
use runner_observability.Base.{
  ℕ, String, Bool, true, false, ◌&&◌, Option, none, some, List, [], ◌∷◌, ◌++◌, Result, ok, ◌>>=◌,
  string_eq, ◌==◌, if◌then◌else◌,
}
use runner_observability.Value.{thaw}
use runner_observability.Python.{Python, Exception}
use runner_observability.Contracts.Event.{ValidatedEvent}
use runner_observability.Database.{Database, EventRow}
use runner_observability.Health.{Incident, open_incident}
use runner_observability.Projection.{apply_event}
use runner_observability.Store.State.{
  Store, find_event, set_applied, next_row_id, producer_watermark, validated_event,
}
use runner_observability.Store.Time.{ReceivedAt, normalise_received_at}

pub record IngestResult : Type 0 where
  pub event_id : String
  pub accepted : Bool
  pub duplicate : Bool
  pub projection_applied : Bool
  pub producer_watermark : Option ℕ

module _ (py : Python) where
  unfoldable pub event_row : List EventRow → ValidatedEvent → String → EventRow
  event_row rows event received_at = record {
    event_row_id = next_row_id rows;
    event_id = event.event_id;
    event_type = event.event_type;
    runner_id = event.runner_id;
    producer_id = event.producer_id;
    producer_epoch = event.producer_epoch;
    producer_sequence = event.producer_sequence;
    occurred_at = event.occurred_at;
    received_at = received_at;
    payload_json = py.dumps (thaw event.payload);
    projection_applied = false;
  }

  -- INSERT INTO events
  unfoldable pub append_event : Database → ValidatedEvent → String → Database
  unfolding event_row
  append_event db event received_at = record db {
    events = db.events ++ event_row db.events event received_at ∷ [];
  }

  -- The incident of an explicit shutdown, and the notifications to send.
  unfoldable pub open_shutdown :
      Database → ValidatedEvent → String → Bool → Database × List Incident
  open_shutdown db event received_at applied =
      if applied && event.event_type == "runner.offline"
      then (let (db', opened) =
            open_incident db "runner" event.runner_id "explicit_shutdown" received_at in
          (db', elim opened [ none ↦ [] | some incident ↦ incident ∷ [] ]))
      else (db, [])

  -- The part of the transaction for an event that is not in the log yet.
  unfoldable pub ingest_new :
      Store → ValidatedEvent → String → Result Exception (Store × IngestResult × List Incident)
  ingest_new store event received_at = do
    (db₁, applied) ←
        apply_event py (append_event store.db event received_at) event received_at true true
    let db₂ = record db₁ { events = set_applied event.event_id applied db₁.events }
    let (db₃, notifications) = open_shutdown db₂ event received_at applied
    ok (
      record store { db = db₃ },
      record {
        event_id = event.event_id;
        accepted = true;
        duplicate = false;
        projection_applied = applied;
        producer_watermark = producer_watermark db₃ event;
      },
      notifications,
    )

  -- The new state, the result, and the incidents that are notified.
  unfoldable pub ingest :
      Store → ValidatedEvent → ReceivedAt → Result Exception (Store × IngestResult × List Incident)
  ingest store event received_at = do
    validated ← validated_event py event
    monitor_received_at ← normalise_received_at py received_at
    elim (find_event validated.event_id store.db.events) [
      | some row ↦ ok (
        store,
        record {
          event_id = validated.event_id;
          accepted = true;
          duplicate = true;
          projection_applied = row.projection_applied;
          producer_watermark = producer_watermark store.db validated;
        },
        [],
      )
      | none ↦ ingest_new store validated monitor_received_at
    ]
