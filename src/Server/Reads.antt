-- ===== src/Server/Reads.antt =====
-- What a GET changes: never the log of events.
use runner_observability.Base.{
  ◌⊎◌, inl, inr, ℕ, String, ◌≡◌, refl, ◌∙◌, subst, Option, none, some, List, [], ◌∷◌, Result, ok,
  err, arith, string_eq, ◌==◌, eq_iff, if_holds, >>=-eq-ok, ok-injective,
}
use runner_observability.Base.Table.{Table}
use runner_observability.Python.{Python, Exception}
use runner_observability.Database.{Database, EventRow}
use runner_observability.Database.Keys.{JobKey, WatermarkKey}
use runner_observability.Health.{Incident, open_incident}
use runner_observability.Store.State.{Store}
use runner_observability.Store.Time.{
  ReceivedAt, normalise_received_at, parse_received_at, subtract, liveness_timeout,
}
use runner_observability.Store.Liveness.{
  notify, set_runner_offline, set_job_offline, stale_runners, stale_jobs, mark_runners, mark_jobs,
  refresh_liveness,
}
use runner_observability.Dashboard.Reading.{Display}
use runner_observability.Dashboard.Snapshot.{
  Snapshot, read_snapshot, after_refresh, dashboard_snapshot,
}
use runner_observability.Server.Request.{Request, Target, Response}
use runner_observability.Server.Post.{Handled}
use runner_observability.Server.Get.{dashboard_answer, get_target, do_get}

-- What the program has been sent: the log, the watermarks, and whether the log is complete.
abbrev Kept : Type 0
Kept = List EventRow × Table WatermarkKey ℕ × Table String String

abbrev pub kept : Database → Kept
kept db = (db.events, db.producer_watermarks, db.monitor_meta)

kept-notify_open :
    (db : Database) (kind id condition now : String) (sent : List Incident)
    → kept (notify (open_incident db kind id condition now) sent).0 ≡ kept db
unfolding open_incident
kept-notify_open db kind id condition now sent = ground arith

module _ (py : Python) where
  kept-mark_runners :
      (now : String) (ids : List String) (db : Database) (sent : List Incident)
      → kept (mark_runners py now ids (db, sent)).0 ≡ kept db
  unfolding mark_runners set_runner_offline
  kept-mark_runners now [] db sent = refl
  kept-mark_runners now (id ∷ ids) db sent =
      kept-mark_runners now ids _ _ ∙ kept-notify_open _ _ _ _ now sent

  kept-mark_jobs :
      (now : String) (keys : List JobKey) (db : Database) (sent : List Incident)
      → kept (mark_jobs py now keys (db, sent)).0 ≡ kept db
  unfolding mark_jobs set_job_offline
  kept-mark_jobs now [] db sent = refl
  kept-mark_jobs now (key ∷ keys) db sent =
      kept-mark_jobs now keys _ _ ∙ kept-notify_open _ _ _ _ now sent

  kept-refresh_liveness :
      (store : Store) (now : ReceivedAt) {store' : Store} {sent : List Incident}
      → refresh_liveness py store now ≡ ok (store', sent)
      → kept store'.db ≡ kept store.db
  unfolding refresh_liveness
  kept-refresh_liveness store now h =
      let (current, _, h1) = >>=-eq-ok (normalise_received_at py now) _ h in
      let (instant, _, h2) = >>=-eq-ok (parse_received_at py current) _ h1 in
      let (cutoff, _, h3) = >>=-eq-ok (subtract instant liveness_timeout) _ h2 in
      let (ids, _, h4) = >>=-eq-ok (stale_runners py cutoff store.db.runner_state) _ h3 in
      let (jobs, _, h5) = >>=-eq-ok (stale_jobs py cutoff _) _ h4 in
      let (marked, opened) = mark_runners py current ids (store.db, []) in
      subst (λ (r : Store × List Incident). kept r.0.db ≡ kept store.db) (ok-injective h5)
        (kept-mark_jobs current jobs marked opened ∙ kept-mark_runners current ids store.db [])

-- What a GET leaves: the log, and everything, or it asks for the dashboard.
pub record IsRead (request : Request) (store : Store) (handled : Handled) : Type 0 where
  pub log : kept handled.0.db ≡ kept store.db
  pub other :
      ((target : Target) × (request.target ≡ some target) × (target.path ≡ "/api/dashboard"))
      ⊎ (handled.0 ≡ store) × (handled.1 ≡ [])

module _ (py : Python) (display : Display) (parse_qs : String → Option (Table String (List String)))
    (store : Store) (request : Request) (now : ReceivedAt) where
  same_store : (outcome : Result Exception Response) → IsRead request store (store, [], outcome)
  same_store outcome = record { log = refl; other = inr (refl, refl) }

  kept-after_refresh :
      (r : Result Exception (Store × List Incident))
      → refresh_liveness py store now ≡ r
      → kept (dashboard_answer (after_refresh py display store now r)).0.db ≡ kept store.db
  kept-after_refresh (err e) h = refl
  kept-after_refresh (ok (refreshed, sent)) h = answered (read_snapshot py display refreshed now)
    where
      answered :
          (s : Result Exception Snapshot)
          → kept (dashboard_answer (refreshed, sent, s)).0.db ≡ kept store.db
      answered (ok snapshot) = kept-refresh_liveness py store now h
      answered (err e) = kept-refresh_liveness py store now h

  dashboard-IsRead :
      (target : Target)
      → request.target ≡ some target
      → target.path ≡ "/api/dashboard"
      → IsRead request store (dashboard_answer (dashboard_snapshot py display store now))
  unfolding dashboard_snapshot
  dashboard-IsRead target split path = record {
    log = kept-after_refresh (refresh_liveness py store now) refl;
    other = inl (target, split, path);
  }

  get_target-IsRead :
      (target : Option Target)
      → request.target ≡ target
      → IsRead request store (get_target py display parse_qs store target now)
  get_target-IsRead none split = same_store _
  get_target-IsRead (some target) split =
      if_holds (IsRead request store) (target.path == "/") _ _ (λ _. same_store _)
        λ _.
          if_holds (IsRead request store) (target.path == "/app.css") _ _ (λ _. same_store _)
            λ _.
              if_holds (IsRead request store) (target.path == "/app.js") _ _ (λ _. same_store _)
                λ _.
                  if_holds (IsRead request store) (target.path == "/api/health") _ _
                    (λ _. same_store _)
                    λ _.
                      if_holds (IsRead request store) (target.path == "/api/history") _ _
                        (λ _. same_store _)
                        λ _.
                          if_holds (IsRead request store) (target.path == "/api/dashboard") _ _
                            (λ here.
                              dashboard-IsRead target split
                                ((eq_iff target.path "/api/dashboard").0 here))
                            (λ _. same_store _)

  -- No GET request changes the log of events, the watermarks of the producers, or the flag that the
  -- log is complete, whatever it answers or raises; and one that is not for the dashboard leaves the
  -- whole store as it is and notifies nothing.
  pub do_get-IsRead : IsRead request store (do_get py display parse_qs store request now)
  unfolding do_get
  do_get-IsRead = get_target-IsRead request.target refl
