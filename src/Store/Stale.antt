-- ===== src/Store/Stale.antt =====
-- `Store.refresh_liveness` marks every stale runner.
use runner_observability.Base.{
  ℕ, String, ◌≡◌, refl, ◌<◌, ◌∙◌, ap, true, Option, some, List, [], ◌∷◌, Result, ok, err, ◌>>=◌,
  arith, string_eq, ◌==◌, eq_iff, if◌then◌else◌, >>=-eq-ok, ok-injective, contains, lt→ltb, ltb,
  subst,
}
use runner_observability.Base.Table.{Table, select, select-update}
use mathlib.Core.Option
use runner_observability.Python.{Python, Exception}
use runner_observability.Database.{Database, RunnerRow}
use runner_observability.Database.Keys.{JobKey}
use runner_observability.Health.{Incident, open_incident}
use runner_observability.Store.State.{Store}
use runner_observability.Store.Time.{
  ReceivedAt, normalise_received_at, parse_received_at, subtract, liveness_timeout,
}
use runner_observability.Store.Liveness.{
  offline_runner, set_runner_offline, set_job_offline, notify, stale_runners, stale_jobs,
  mark_runners, mark_jobs, refresh_liveness,
}

abbrev timed_out : RunnerRow → RunnerRow
timed_out = offline_runner (some "heartbeat_timeout")

runner_state-notify_open :
    (db : Database) (kind id condition now : String) (sent : List Incident)
    → (notify (open_incident db kind id condition now) sent).0.runner_state ≡ db.runner_state
unfolding open_incident
runner_state-notify_open db kind id condition now sent = ground arith

module _ (py : Python) where
  runner_state-mark_jobs :
      (now : String) (keys : List JobKey) (db : Database) (sent : List Incident)
      → (mark_jobs py now keys (db, sent)).0.runner_state ≡ db.runner_state
  unfolding mark_jobs set_job_offline
  runner_state-mark_jobs now [] db sent = refl
  runner_state-mark_jobs now (key ∷ keys) db sent =
      runner_state-mark_jobs now keys _ _ ∙ runner_state-notify_open _ _ _ _ now sent

  -- the rows of the runners after the marks, read at one runner
  select-mark_runners :
      (now : String) (ids : List String) (db : Database) (sent : List Incident) (id : String)
      → select id (mark_runners py now ids (db, sent)).0.runner_state ≡ (
          if contains id ids
          then Option.map timed_out (select id db.runner_state)
          else select id db.runner_state)
  unfolding mark_runners set_runner_offline
  select-mark_runners now [] db sent id = refl
  select-mark_runners now (first ∷ ids) db sent id =
      let marked = set_runner_offline db first (some "heartbeat_timeout") in
      select-mark_runners now ids _ _ id
      ∙ ground (
        arith,
        runner_state-notify_open marked "runner" first "heartbeat_timeout" now sent,
        select-update first id timed_out db.runner_state,
        eq_iff first id,
        eq_iff id first,
      )

  -- a row of the search, from what the search of the other rows gives
  contains-stale_row :
      (cutoff : ℕ) (first id : String) (head row : RunnerRow)
      (others : Result Exception (List String)) {ids : List String} {received : ℕ}
      {below : Option RunnerRow}
      → (if head.liveness == "online"
          then (do
            at ← parse_received_at py head.last_received_at
            rest ← others
            ok (if ltb at cutoff then first ∷ rest else rest))
          else others)
        ≡ ok ids
      → (if first == id then some head else below) ≡ some row
      → row.liveness ≡ "online"
      → parse_received_at py row.last_received_at ≡ ok received
      → received < cutoff
      → ((rest : List String) → others ≡ ok rest → below ≡ some row → contains id rest ≡ true)
      → contains id ids ≡ true
  contains-stale_row cutoff first id head row (err e) h at_id online parsed old inner =
      ground (arith, eq_iff row.liveness "online", eq_iff first id)
  contains-stale_row cutoff first id head row (ok rest) h at_id online parsed old inner =
      let inside = inner rest refl in
      ground (
        arith,
        eq_iff row.liveness "online",
        eq_iff first id,
        eq_iff id first,
        lt→ltb _ _ old,
        inside,
      )

  stale_runners-contains :
      (cutoff : ℕ) (t : Table String RunnerRow) {ids : List String} (id : String) (row : RunnerRow)
      {received : ℕ}
      → stale_runners py cutoff t ≡ ok ids
      → select id t ≡ some row
      → row.liveness ≡ "online"
      → parse_received_at py row.last_received_at ≡ ok received
      → received < cutoff
      → contains id ids ≡ true
  unfolding stale_runners select
  stale_runners-contains cutoff [] id row h at_id online parsed old = cc
  stale_runners-contains cutoff ((first, head) ∷ t) id row h at_id online parsed old =
      contains-stale_row cutoff first id head row (stale_runners py cutoff t) h at_id online parsed
        old
        (λ rest found below. stale_runners-contains cutoff t id row found below online parsed old)

  -- A refresh marks every stale runner: one that is online, and was last heard of before the time that
  -- lies the timeout before the monitor's clock, is offline after it for a missed heartbeat, and the
  -- rest of its row stays.
  pub refresh_liveness-timed_out :
      (store : Store) (now : ReceivedAt) {store' : Store} {sent : List Incident} {current : String}
      {instant cutoff received : ℕ} (id : String) (row : RunnerRow)
      → refresh_liveness py store now ≡ ok (store', sent)
      → normalise_received_at py now ≡ ok current
      → parse_received_at py current ≡ ok instant
      → subtract instant liveness_timeout ≡ ok cutoff
      → select id store.db.runner_state ≡ some row
      → row.liveness ≡ "online"
      → parse_received_at py row.last_received_at ≡ ok received
      → received < cutoff
      → select id store'.db.runner_state
        ≡ some (record row { liveness = "offline"; offline_reason = some "heartbeat_timeout" })
  unfolding refresh_liveness
  refresh_liveness-timed_out store now {current = current} {cutoff = cutoff} id row h normal clock
        earlier at_id online parsed old =
      let h0 = (rw (normal, clock, earlier) at h) in
      let (ids, found, h1) = >>=-eq-ok (stale_runners py cutoff store.db.runner_state) _ h0 in
      let (jobs, listed, h2) = >>=-eq-ok (stale_jobs py cutoff _) _ h1 in
      let inside =
        stale_runners-contains cutoff store.db.runner_state id row found at_id online parsed old in
      let (marked, opened) = mark_runners py current ids (store.db, []) in
      subst (λ r. select id r.0.db.runner_state ≡ some (timed_out row)) (ok-injective h2)
        (ap (select id) (runner_state-mark_jobs current jobs marked opened)
          ∙ (select-mark_runners current ids store.db [] id ∙ ground (arith, inside, at_id)))
