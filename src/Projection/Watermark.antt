-- ===== src/Projection/Watermark.antt =====
-- The watermark of a producer's epoch: which events are applied, and that it never falls.
use runner_observability.Base.{
  ℕ, String, ◌≤◌, ◌<◌, ◌≡◌, refl, Bool, true, false, ◌&&◌, Option, some, ok, arith, ◌==◌, string_eq,
  if◌then◌else◌, Bool-cases, inl, inr,
}
use runner_observability.Base.Table.{Table, select, upsert, select-upsert}
use runner_observability.Python.{Python}
use runner_observability.Contracts.Event.{ValidatedEvent}
use runner_observability.Contracts.Job.{Job}
use runner_observability.Database.{Database}
use runner_observability.Database.Keys.{WatermarkKey, watermark_key_eq}
use runner_observability.Projection.{
  watermark_key, runner_accepts, apply_heartbeat, apply_offline, apply_job, apply_event,
}
use runner_observability.Projection.Outcome.{
  Outcome, late, inert, refused, job_applied, heartbeat_applied, offline_applied,
  apply_event_outcome,
}

module _ (py : Python) (db : Database) (event : ValidatedEvent) (received_at : String) where
  -- An event that is not applied leaves the whole database as it was.
  pub apply_event_rejected :
      (manage_incidents manage_watermarks : Bool) {db' : Database}
      → apply_event py db event received_at manage_incidents manage_watermarks ≡ ok (db', false)
      → db' ≡ db
  unfolding apply_event
  apply_event_rejected mi mw h = ground arith

  abbrev watermarks : Bool → Table WatermarkKey ℕ
  watermarks manage =
      if manage
      then upsert (watermark_key event) event.producer_sequence db.producer_watermarks
      else db.producer_watermarks

  watermarks-apply_heartbeat :
      (job : Option Job) (mi mw : Bool)
      → (apply_heartbeat py db event job received_at mi mw).producer_watermarks ≡ watermarks mw
  unfolding apply_heartbeat
  watermarks-apply_heartbeat job mi mw = ground arith

  watermarks-apply_offline :
      (job : Option Job) (mw : Bool)
      → (apply_offline py db event job received_at mw).producer_watermarks ≡ watermarks mw
  unfolding apply_offline
  watermarks-apply_offline job mw = ground arith

  watermarks-apply_job :
      (job : Job) (mi mw : Bool)
      → (apply_job py db event job received_at mi mw).producer_watermarks ≡ watermarks mw
  unfolding apply_job
  watermarks-apply_job job mi mw = ground arith

  after : Bool → Bool → Table WatermarkKey ℕ
  after mw applied = if applied then watermarks mw else db.producer_watermarks

  outcome-watermarks :
      (mi mw : Bool) {db' : Database} {applied : Bool}
      → Outcome py db event received_at mi mw db' applied
      → db'.producer_watermarks ≡ after mw applied
  unfolding after
  outcome-watermarks mi mw (late _ a e) = rw (a, e)
  outcome-watermarks mi mw (inert _ a e) = rw (a, e)
  outcome-watermarks mi mw (refused _ _ _ _ a e) = rw (a, e)
  outcome-watermarks mi mw (job_applied j _ _ _ _ _ a e) = rw (a, e) (watermarks-apply_job j mi mw)
  outcome-watermarks mi mw (heartbeat_applied j _ _ _ _ a e) =
      rw (a, e) (watermarks-apply_heartbeat j mi mw)
  outcome-watermarks mi mw (offline_applied j _ _ _ _ a e) =
      rw (a, e) (watermarks-apply_offline j mw)

  -- An applied event sets the watermark of its producer's epoch to its number, if watermarks are
  -- managed; every other watermark stays, and all of them if the event is not applied.
  pub apply_event_watermarks :
      (mi mw : Bool) {db' : Database} {applied : Bool}
      → apply_event py db event received_at mi mw ≡ ok (db', applied)
      → (key : WatermarkKey)
      → select key db'.producer_watermarks ≡ (
          if applied && (mw && watermark_key event == key)
          then some event.producer_sequence
          else select key db.producer_watermarks)
  unfolding after
  apply_event_watermarks mi mw {applied = applied} h key =
      rw (outcome-watermarks mi mw (apply_event_outcome py db event received_at mi mw h))
        (selected applied mw)
    where
      selected :
          (applied mw : Bool)
          → select key (after mw applied) ≡ (
              if applied && (mw && watermark_key event == key)
              then some event.producer_sequence
              else select key db.producer_watermarks)
      selected true true = select-upsert (watermark_key event) key event.producer_sequence _
      selected true false = refl
      selected false mw = refl

  -- an applied event is newer than the watermark
  outcome-newer :
      (mi : Bool) {db' : Database}
      → Outcome py db event received_at mi true db' true
      → runner_accepts db event ≡ true
  outcome-newer mi (late _ a _) = cc
  outcome-newer mi (inert _ a _) = cc
  outcome-newer mi (refused _ _ _ _ a _) = cc
  outcome-newer mi (job_applied _ _ _ _ _ pass _ _) = ground arith
  outcome-newer mi (heartbeat_applied _ _ _ _ pass _ _) = ground arith
  outcome-newer mi (offline_applied _ _ _ _ pass _ _) = ground arith

  accepts-lt :
      {n : ℕ}
      → runner_accepts db event ≡ true
      → select (watermark_key event) db.producer_watermarks ≡ some n
      → n < event.producer_sequence
  unfolding runner_accepts
  accepts-lt h e = ground arith

  -- With watermarks managed, no event lowers one: a watermark that is there stays, at its number or a
  -- higher one.
  pub apply_event_monotone :
      (mi : Bool) {db' : Database} {applied : Bool}
      → apply_event py db event received_at mi true ≡ ok (db', applied)
      → (key : WatermarkKey) (n : ℕ) → select key db.producer_watermarks ≡ some n
      → (m : ℕ) × (select key db'.producer_watermarks ≡ some m) × (n ≤ m)
  apply_event_monotone mi {applied = false} h key n old =
      (n, rw (apply_event_watermarks mi true h key) old, omega arith)
  apply_event_monotone mi {applied = true} h key n old =
      elim (Bool-cases (watermark_key event == key)) [
        | inl same ↦
            let e : watermark_key event ≡ key = (watermark_key_eq.agree_iff _ key).0 same in
            let newer =
              accepts-lt {n = n}
                (outcome-newer mi (apply_event_outcome py db event received_at mi true h))
                (rw e old) in
            (event.producer_sequence, rw (apply_event_watermarks mi true h key, same), omega arith)
        | inr other ↦ (n, rw (apply_event_watermarks mi true h key, other) old, omega arith)
      ]
