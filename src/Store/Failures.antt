-- ===== src/Store/Failures.antt =====
-- When a replay or a cleanup goes wrong the readable state stays, and the store says so.
use runner_observability.Base.{
  ℕ, String, ◌<◌, ◌≡◌, refl, true, false, List, [], ◌∷◌, Result, ok, err, inl, inr, Bool-cases,
  Bool, arith, string_eq, >>=-eq-ok, ok-injective, length, ap,
}
use runner_observability.Base.Table.{select-upsert}
use runner_observability.Python.{Python, Exception}
use runner_observability.Database.{Database}
use runner_observability.Store.State.{Store, add_reason, degraded, history_is_complete}
use runner_observability.Store.Time.{
  ReceivedAt, normalise_received_at, parse_received_at, subtract, retention,
}
use runner_observability.Store.Transaction.{transaction, transaction-rolled_back}
use runner_observability.Store.Replay.{rebuild, finish_replay, replay}
use runner_observability.Store.Prune.{CleanupFaults, prune_history}
use runner_observability.Store.Expired.{without_rows, finish_cleanup-cases}

degraded-add :
    (reason : String) (reasons : List String) (db : Database)
    → degraded (record { db = db; degraded_reasons = add_reason reason reasons }) ≡ true
unfolding degraded add_reason
degraded-add reason [] db = refl
degraded-add reason (r ∷ rs) db = ground arith

-- A replay that reports failure leaves every table as it was and the store degraded.
pub replay_failed :
    (py : Python) (store : Store) {store' : Store}
    → replay py store ≡ ok (store', false)
    → (store'.db ≡ store.db) × (degraded store' ≡ true)
unfolding replay
replay_failed py store h = elim (Bool-cases (history_is_complete store.db)) [
  | inl complete ↦
      of_outcome (transaction (rebuild py) store.db).0 (transaction (rebuild py) store.db).1 refl
        (rw complete at h)
  | inr incomplete ↦
      ground (
        arith,
        incomplete,
        degraded-add "replay_incomplete_history" store.degraded_reasons store.db,
      )
]
  where
    of_outcome :
        {store' : Store} (db : Database) (result : Result Exception (Unit {0}))
        → transaction (rebuild py) store.db ≡ (db, result)
        → finish_replay py store (db, result) ≡ ok (store', false)
        → (store'.db ≡ store.db) × (degraded store' ≡ true)
    of_outcome db (ok t) same g =
        let different = ap (λ (x : Store × Bool). x.1) (ok-injective g) in cc
    of_outcome db (err e) same g =
        let (back, _) = transaction-rolled_back (rebuild py) store.db same in
        ground (arith, back, degraded-add "replay_failed" store.degraded_reasons db)

incomplete-without_rows :
    (ids : List ℕ) (db : Database)
    → 0 < length ids
    → history_is_complete (without_rows ids db) ≡ false
unfolding without_rows history_is_complete
incomplete-without_rows [] db h = absurd (omega arith)
incomplete-without_rows (i ∷ ids) db h = rw (
  history_is_complete,
  select-upsert "projection_history_complete" "projection_history_complete" "0" db.monitor_meta,
)

replay_incomplete :
    (py : Python) (store : Store)
    → history_is_complete store.db ≡ false
    → replay py store
      ≡ ok (
        record store {
          degraded_reasons = add_reason "replay_incomplete_history" store.degraded_reasons;
        },
        false,
      )
unfolding replay
replay_incomplete py store h = rw h

-- Once a cleanup has deleted a row, a replay refuses: it changes no table, it reports failure, and
-- the incomplete history is among the reasons.
pub prune_then_replay :
    (py : Python) (faults : CleanupFaults) (store : Store) (now : ReceivedAt) {store' : Store}
    {n : ℕ}
    → prune_history py faults store now ≡ ok (store', n)
    → 0 < n
    → replay py store'
      ≡ ok (
        record store' {
          degraded_reasons = add_reason "replay_incomplete_history" store'.degraded_reasons;
        },
        false,
      )
unfolding prune_history
prune_then_replay py faults store now {store'} h p =
    let (current, _, h1) = >>=-eq-ok (normalise_received_at py now) _ h in
    let (instant, _, h2) = >>=-eq-ok (parse_received_at py current) _ h1 in
    let (cutoff, _, h3) = >>=-eq-ok (subtract instant retention) _ h2 in
    elim (finish_cleanup-cases py faults cutoff store h3) [
      | inl (ids, _, cleaned, counted) ↦
          replay_incomplete py store'
            (rw cleaned (incomplete-without_rows ids store.db (omega arith)))
      | inr failed ↦ absurd (omega (arith, failed.nothing_deleted))
    ]
