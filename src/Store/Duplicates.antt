-- ===== src/Store/Duplicates.antt =====
-- An event that is sent again: the log, and what the second answer says.
use runner_observability.Base.{
  String, ◌≡◌, refl, Bool, true, Option, none, some, List, [], ◌∷◌, ◌++◌, Result, ok, arith,
  string_eq, ◌==◌, eq_refl, if◌then◌else◌, >>=-eq-ok, ok-injective, subst,
}
use runner_observability.Python.{Python, Exception}
use runner_observability.Contracts.Event.{ValidatedEvent}
use runner_observability.Database.{Database, EventRow}
use runner_observability.Health.{Incident, open_incident}
use runner_observability.Projection.{apply_event}
use runner_observability.Projection.Log.{log-apply_event}
use runner_observability.Store.State.{
  Store, find_event, set_applied, producer_watermark, validated_event,
}
use runner_observability.Store.Time.{ReceivedAt, normalise_received_at}
use runner_observability.Store.Ingest.{
  IngestResult, event_row, append_event, open_shutdown, ingest_new, ingest,
}

find_event-append :
    (id : String) (rows : List EventRow) (row : EventRow)
    → find_event id rows ≡ none
    → find_event id (rows ++ row ∷ []) ≡ (if row.event_id == id then some row else none)
unfolding find_event
find_event-append id [] row h = refl
find_event-append id (r ∷ rows) row h = ground (arith, find_event-append id rows row)

find_event-set_applied :
    (id : String) (applied : Bool) (rows : List EventRow) (row : EventRow)
    → find_event id rows ≡ some row
    → find_event id (set_applied id applied rows)
      ≡ some (record row { projection_applied = applied })
unfolding find_event set_applied
find_event-set_applied id applied [] row h = cc
find_event-set_applied id applied (r ∷ rows) row h =
    ground (arith, find_event-set_applied id applied rows row)

module _ (py : Python) (db : Database) (event : ValidatedEvent) (received_at : String)
    (applied : Bool) where
  events-open_shutdown : (open_shutdown py db event received_at applied).0.events ≡ db.events
  unfolding open_shutdown open_incident
  events-open_shutdown = ground arith

  watermarks-open_shutdown :
      (open_shutdown py db event received_at applied).0.producer_watermarks ≡ db.producer_watermarks
  unfolding open_shutdown open_incident
  watermarks-open_shutdown = ground arith

-- What the log says of an event once it has been ingested.
record Logged (store : Store) (event : ValidatedEvent) (r : IngestResult) : Type 0 where
  row : EventRow
  found : find_event event.event_id store.db.events ≡ some row
  applied : row.projection_applied ≡ r.projection_applied
  watermark : producer_watermark store.db event ≡ r.producer_watermark
  id : event.event_id ≡ r.event_id

module _ (py : Python) (store : Store) (event : ValidatedEvent) (received_at : String) where
  -- the database after the transaction, from the result of `apply_event`
  abbrev applied_db : Database → Bool → Database
  applied_db db applied = record db { events = set_applied event.event_id applied db.events }

  find_event-applied_db :
      (db : Database) (applied : Bool)
      → find_event event.event_id store.db.events ≡ none
      → db.events ≡ (append_event py store.db event received_at).events
      → find_event event.event_id
          (open_shutdown py (applied_db db applied) event received_at applied).0.events
        ≡ some (record (event_row py store.db.events event received_at) {
          projection_applied = applied;
        })
  unfolding append_event
  find_event-applied_db db applied new log =
      rw (events-open_shutdown py (applied_db db applied) event received_at applied) (
        find_event-set_applied event.event_id applied db.events
          (event_row py store.db.events event received_at)
          (rw (
            log,
            find_event-append event.event_id store.db.events
                (event_row py store.db.events event received_at) new,
            eq_refl,
          )))

  ingest_new-Logged :
      {store' : Store} {r : IngestResult} {sent : List Incident}
      → find_event event.event_id store.db.events ≡ none
      → ingest_new py store event received_at ≡ ok (store', r, sent)
      → Logged store' event r
  unfolding ingest_new
  ingest_new-Logged new h =
      let ((db, applied), stepped, made) =
        >>=-eq-ok
          (apply_event py (append_event py store.db event received_at) event received_at true true)
          _ h in
      subst (λ (t : Store × IngestResult × List Incident). Logged t.0 event t.1) (ok-injective made)
        (record {
          row = record (event_row py store.db.events event received_at) {
            projection_applied = applied;
          };
          found =
              find_event-applied_db db applied new
                (log-apply_event py _ event received_at true true stepped).0;
          applied = refl;
          watermark = refl;
          id = refl;
        })

-- the answer to an event that is in the log
abbrev pub duplicate_of : IngestResult → IngestResult
duplicate_of r = record {
  event_id = r.event_id;
  accepted = true;
  duplicate = true;
  projection_applied = r.projection_applied;
  producer_watermark = r.producer_watermark;
}

module _ (py : Python) (event v : ValidatedEvent) where
  ingest_again :
      (store : Store) (r : IngestResult) (at : ReceivedAt) {received : String}
      → Logged store v r
      → validated_event py event ≡ ok v
      → normalise_received_at py at ≡ ok received
      → ingest py store event at ≡ ok (store, duplicate_of r, [])
  unfolding ingest
  ingest_again store r at l valid timed =
      rw (valid, timed, l.found) (cc (l.applied, l.watermark, l.id))

  -- the two ways in which `ingest` goes on with a validated event
  ingest_found-Logged :
      (store : Store) (received : String) (found : Option EventRow) {store' : Store}
      {r : IngestResult} {sent : List Incident}
      → find_event v.event_id store.db.events ≡ found
      → ◌≡◌ {A = Result Exception (Store × IngestResult × List Incident)}
          (elim found [
            | some row ↦ ok (
              store,
              record {
                event_id = v.event_id;
                accepted = true;
                duplicate = true;
                projection_applied = row.projection_applied;
                producer_watermark = producer_watermark store.db v;
              },
              [],
            )
            | none ↦ ingest_new py store v received
          ])
          (ok (store', r, sent))
      → Logged store' v r
  ingest_found-Logged store received none new h = ingest_new-Logged py store v received new h
  ingest_found-Logged store received (some row) old h =
      subst (λ (t : Store × IngestResult × List Incident). Logged t.0 v t.1) (ok-injective h)
        (record { row = row; found = old; applied = refl; watermark = refl; id = refl })

-- An event that has been ingested can be sent again at any time that can be normalised: the store
-- stays as it is, nothing is notified, and the answer is that of the first time, marked as a
-- duplicate.
pub ingest-ingest :
    (py : Python) (store : Store) (event : ValidatedEvent) (first again : ReceivedAt)
    {store' : Store} {r : IngestResult} {sent : List Incident} {received : String}
    → ingest py store event first ≡ ok (store', r, sent)
    → normalise_received_at py again ≡ ok received
    → ingest py store' event again ≡ ok (store', duplicate_of r, [])
unfolding ingest
ingest-ingest py store event first again {store'} {r} h timed =
    let (v, valid, h1) = >>=-eq-ok (validated_event py event) _ h in
    let (at, normal, h2) = >>=-eq-ok (normalise_received_at py first) _ h1 in
    ingest_again py event v store' r again
      (ingest_found-Logged py event v store at (find_event v.event_id store.db.events) refl h2)
      valid timed
