-- ===== src/Health.antt =====
-- src/runner_observability/health.py: incidents that open and close.
pub mod Incidents
use runner_observability.Base.{
  String, Bool, true, false, ◌&&◌, Option, none, some, Result, ok, err, string_eq, ◌==◌,
  if◌then◌else◌,
}
use runner_observability.Base.Table.{select, upsert, update_where}
use runner_observability.Database.{Database, IncidentRow}
use runner_observability.Database.Keys.{IncidentKey, incident_key_eq}
use runner_observability.Python.{Exception}

-- The row that `open_incident` returns.
pub record Incident : Type 0 where
  pub key : IncidentKey
  pub row : IncidentRow

abbrev pub opened_row : String → IncidentRow
opened_row now = record { active = true; opened_at = now; closed_at = none; last_changed_at = now }

abbrev is_active : Option IncidentRow → Bool
is_active none = false
is_active (some row) = row.active

-- An incident is returned only when it opens. The INSERT of a new row and the UPDATE of a closed one
-- set the same columns.
unfoldable pub open_incident :
    Database → String → String → String → String → Database × Option Incident
open_incident db resource_kind resource_id condition now =
    let key : IncidentKey = record {
      resource_kind = resource_kind;
      resource_id = resource_id;
      condition = condition;
    } in
    if is_active (select key db.incidents) then (db, none) else (
      record db { incidents = upsert key (opened_row now) db.incidents },
      some (record { key = key; row = opened_row now }),
    )

abbrev pub is_open_on : String → String → IncidentKey → IncidentRow → Bool
is_open_on resource_kind resource_id key row =
    key.resource_kind == resource_kind && key.resource_id == resource_id && row.active

abbrev pub closed_row : String → IncidentRow → IncidentRow
closed_row now row = record row { active = false; closed_at = some now; last_changed_at = now }

unfoldable pub recover_resource : Database → String → String → String → Database
recover_resource db resource_kind resource_id now = record db {
  incidents = update_where (is_open_on resource_kind resource_id) (closed_row now) db.incidents;
}

-- A notifier is any function of an incident that may raise; what it raises is dropped.
unfoldable pub notify_safely :
    Option (Incident → Result Exception (Unit {0})) → Incident → Result Exception (Unit {0})
notify_safely none incident = ok tt
notify_safely (some notifier) incident = elim (notifier incident) [ ok _ ↦ ok tt | err _ ↦ ok tt ]
