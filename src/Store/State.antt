-- ===== src/Store/State.antt =====
-- store.py: the state of a `Store`, its set of degraded reasons, and what its methods share.
use runner_observability.Base.{
  ℕ, suc, String, Bool, true, false, not, Option, none, some, List, [], ◌∷◌, ltb, string_eq, ◌==◌,
  if◌then◌else◌, contains, keep,
}
use runner_observability.Base.Table.{select}
use runner_observability.Value.{thaw}
use runner_observability.Python.{Python, Exception}
use runner_observability.Contracts.Event.{ValidatedEvent, validate_event}
use runner_observability.Database.{Database, EventRow}
use runner_observability.Database.Keys.{watermark_key_eq}
use runner_observability.Projection.{watermark_key}
use runner_observability.Base.{Result}

pub record Store : Type 0 where
  pub db : Database
  pub degraded_reasons : List String

-- set.add, set.discard
unfoldable pub add_reason : String → List String → List String
add_reason reason reasons = if contains reason reasons then reasons else reason ∷ reasons

unfoldable pub discard_reason : String → List String → List String
discard_reason reason reasons = keep (λ r. not (r == reason)) reasons

unfoldable pub degraded : Store → Bool
degraded store = elim store.degraded_reasons [ [] ↦ false | r ∷ rs ↦ true ]

-- SELECT … FROM events WHERE event_id = ?
unfoldable pub find_event : String → List EventRow → Option EventRow
find_event event_id [] = none
find_event event_id (row ∷ rows) =
    if row.event_id == event_id then some row else find_event event_id rows

-- UPDATE events SET projection_applied = ? WHERE event_id = ?
unfoldable pub set_applied : String → Bool → List EventRow → List EventRow
set_applied event_id applied [] = []
set_applied event_id applied (row ∷ rows) =
    (if row.event_id == event_id then record row { projection_applied = applied } else row)
    ∷ set_applied event_id applied rows

-- The row id that SQLite gives to an INTEGER PRIMARY KEY: one more than the largest.
unfoldable pub next_row_id : List EventRow → ℕ
next_row_id [] = 1
next_row_id (row ∷ rows) =
    let rest = next_row_id rows in if ltb row.event_row_id rest then rest else suc row.event_row_id

-- `_history_is_complete`
unfoldable pub history_is_complete : Database → Bool
history_is_complete db = elim (select "projection_history_complete" db.monitor_meta) [
  | none ↦ true
  | some value ↦ value == "1"
]

-- `_producer_watermark`
unfoldable pub producer_watermark : Database → ValidatedEvent → Option ℕ
producer_watermark db event = select (watermark_key event) db.producer_watermarks

-- `_validated_event`: the event is validated again from its payload.
unfoldable pub validated_event : Python → ValidatedEvent → Result Exception ValidatedEvent
validated_event py event = validate_event py (thaw event.payload)
