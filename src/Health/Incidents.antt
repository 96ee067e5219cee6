-- ===== src/Health/Incidents.antt =====
-- An incident is notified once until its resource recovers.
use runner_observability.Base.{String, ◌≡◌, none, some, arith, string_eq, eq_refl}
use runner_observability.Base.Table.{select-upsert, select-update_where}
use runner_observability.Database.{Database}
use runner_observability.Database.Keys.{IncidentKey, incident_key_eq}
use runner_observability.Health.{
  opened_row, closed_row, is_open_on, open_incident, recover_resource,
}

-- A condition that holds on opens no second incident: whatever the table, the same incident that is
-- opened again at any time changes nothing and is not notified.
pub open_incident-open_incident :
    (db : Database) (kind id condition now later : String)
    → let (db', _) = open_incident db kind id condition now in
      open_incident db' kind id condition later ≡ (db', none)
unfolding open_incident
open_incident-open_incident db kind id condition now later =
    let key : IncidentKey = record {
      resource_kind = kind;
      resource_id = id;
      condition = condition;
    } in
    ground (
      arith,
      select-upsert key key (opened_row now) db.incidents,
      eq_refl kind,
      eq_refl id,
      eq_refl condition,
    )

-- After a recovery of its resource, every condition opens its incident anew and is notified.
pub open_incident-recover_resource :
    (db : Database) (kind id condition now later : String)
    → (open_incident (recover_resource db kind id now) kind id condition later).1
      ≡ some (record {
        key = record { resource_kind = kind; resource_id = id; condition = condition };
        row = opened_row later;
      })
unfolding open_incident recover_resource
open_incident-recover_resource db kind id condition now later =
    let key : IncidentKey = record {
      resource_kind = kind;
      resource_id = id;
      condition = condition;
    } in
    ground (
      arith,
      select-update_where (is_open_on kind id) (closed_row now) key db.incidents,
      eq_refl kind,
      eq_refl id,
    )
