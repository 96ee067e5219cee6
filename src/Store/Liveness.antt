-- ===== src/Store/Liveness.antt =====
-- store.py: `Store.refresh_liveness`.
use runner_observability.Base.{
  ℕ, String, ◌&&◌, Option, none, some, List, [], ◌∷◌, ◌++◌, Result, ok, err, ◌>>=◌, ltb, string_eq,
  ◌==◌, if◌then◌else◌,
}
use runner_observability.Base.Table.{Table, update}
use runner_observability.Python.{Python, Exception, attribute_error}
use runner_observability.Database.{Database, RunnerRow, JobRow}
use runner_observability.Database.Keys.{JobKey, job_key_eq}
use runner_observability.Health.{Incident, open_incident}
use runner_observability.Projection.{job_resource_id}
use runner_observability.Store.State.{Store}
use runner_observability.Store.Time.{
  ReceivedAt, normalise_received_at, parse_received_at, subtract, liveness_timeout,
}

-- UPDATE … SET liveness = 'offline', offline_reason = ?
abbrev pub offline_runner : Option String → RunnerRow → RunnerRow
offline_runner reason row = record row { liveness = "offline"; offline_reason = reason }

abbrev pub offline_job : Option String → JobRow → JobRow
offline_job reason row = record row { liveness = "offline"; offline_reason = reason }

unfoldable pub set_runner_offline : Database → String → Option String → Database
set_runner_offline db runner_id reason = record db {
  runner_state = update runner_id (offline_runner reason) db.runner_state;
}

unfoldable pub set_job_offline : Database → JobKey → Option String → Database
set_job_offline db key reason = record db {
  job_state = update key (offline_job reason) db.job_state;
}

-- notifications.append(created), where an incident was opened
abbrev pub notify : Database × Option Incident → List Incident → Database × List Incident
notify (db, none) sent = (db, sent)
notify (db, some incident) sent = (db, sent ++ incident ∷ [])

module _ (py : Python) where
  -- the runners that are online and were last heard of before the cutoff
  unfoldable pub stale_runners : ℕ → Table String RunnerRow → Result Exception (List String)
  stale_runners cutoff [] = ok []
  stale_runners cutoff ((runner_id, row) ∷ rest) =
      let others = stale_runners cutoff rest in
      if row.liveness == "online"
      then (do
        received ← parse_received_at py row.last_received_at
        ids ← others
        ok (if ltb received cutoff then runner_id ∷ ids else ids))
      else others

  abbrev parse_heartbeat : Option String → Result Exception ℕ
  parse_heartbeat none = err attribute_error
  parse_heartbeat (some s) = parse_received_at py s

  unfoldable pub stale_jobs : ℕ → Table JobKey JobRow → Result Exception (List JobKey)
  stale_jobs cutoff [] = ok []
  stale_jobs cutoff ((key, row) ∷ rest) =
      let others = stale_jobs cutoff rest in
      if row.state == "running" && row.liveness == "online"
      then (do
        received ← parse_heartbeat row.last_heartbeat_at
        keys ← others
        ok (if ltb received cutoff then key ∷ keys else keys))
      else others

  unfoldable pub mark_runners :
      String → List String → Database × List Incident → Database × List Incident
  unfolding set_runner_offline open_incident
  mark_runners now [] (db, sent) = (db, sent)
  mark_runners now (runner_id ∷ rest) (db, sent) = mark_runners now rest (
      notify
        (open_incident (set_runner_offline db runner_id (some "heartbeat_timeout")) "runner"
          runner_id "heartbeat_timeout" now)
        sent)

  unfoldable pub mark_jobs :
      String → List JobKey → Database × List Incident → Database × List Incident
  unfolding set_job_offline open_incident job_resource_id
  mark_jobs now [] (db, sent) = (db, sent)
  mark_jobs now (key ∷ rest) (db, sent) = mark_jobs now rest (
      notify
        (open_incident (set_job_offline db key (some "heartbeat_timeout")) "job"
          (job_resource_id py key) "heartbeat_timeout" now)
        sent)

  unfoldable pub refresh_liveness : Store → ReceivedAt → Result Exception (Store × List Incident)
  refresh_liveness store now = do
    current ← normalise_received_at py now
    instant ← parse_received_at py current
    cutoff ← subtract instant liveness_timeout
    runners ← stale_runners cutoff store.db.runner_state
    let (db₁, sent₁) = mark_runners current runners (store.db, [])
    jobs ← stale_jobs cutoff db₁.job_state
    let (db₂, sent₂) = mark_jobs current jobs (db₁, sent₁)
    ok (record store { db = db₂ }, sent₂)
