-- ===== src/Store/Prune.antt =====
-- store.py: `Store.prune_history`.
use runner_observability.Base.{
  ℕ, suc, not, Bool, true, false, List, [], ◌∷◌, Result, ok, err, ◌>>=◌, ltb, string_eq, number_eq,
  contains, keep, length, if◌then◌else◌,
}
use runner_observability.Base.Table.{upsert}
use runner_observability.Python.{Python, Exception, database_error}
use runner_observability.Database.{Database, EventRow}
use runner_observability.Store.State.{Store, add_reason, discard_reason}
use runner_observability.Store.Transaction.{Outcome, transaction}
use runner_observability.Store.Time.{
  ReceivedAt, normalise_received_at, parse_received_at, subtract, retention,
}

-- DELETE FROM events WHERE event_row_id IN (…)
unfoldable pub delete_rows : List ℕ → List EventRow → List EventRow
delete_rows ids rows = keep (λ row. not (contains row.event_row_id ids)) rows

-- Whether the statements of the cleanup raise a sqlite3.DatabaseError.
pub record CleanupFaults : Type 0 where
  pub select_fails : Bool
  pub delete_fails : Bool
  pub insert_fails : Bool

-- The DELETE and the mark that the history has a gap, if any row has expired.
unfoldable pub delete_expired : CleanupFaults → List ℕ → Database → Outcome ℕ
unfolding delete_rows
delete_expired faults [] db = (db, ok 0)
delete_expired faults (id ∷ ids) db =
    let deleted = record db { events = delete_rows (id ∷ ids) db.events } in
    if faults.delete_fails
    then (db, err database_error)
    else if faults.insert_fails
    then (deleted, err database_error)
    else (
      record deleted { monitor_meta = upsert "projection_history_complete" "0" db.monitor_meta },
      ok (suc (length ids)),
    )

abbrev pub is_database_error : Exception → Bool
is_database_error database_error = true
is_database_error _ = false

module _ (py : Python) where
  unfoldable pub expired_rows : ℕ → List EventRow → Result Exception (List ℕ)
  expired_rows cutoff [] = ok []
  expired_rows cutoff (row ∷ rest) =
      let others = expired_rows cutoff rest in
      do
        received ← parse_received_at py row.received_at
        ids ← others
        ok (if ltb received cutoff then row.event_row_id ∷ ids else ids)

  abbrev pub after_select : CleanupFaults → Database → Result Exception (List ℕ) → Outcome ℕ
  after_select faults db (err e) = (db, err e)
  after_select faults db (ok expired) = delete_expired faults expired db

  -- the statements of the transaction of `prune_history`
  unfoldable pub delete_before : CleanupFaults → ℕ → Database → Outcome ℕ
  unfolding expired_rows delete_expired
  delete_before faults cutoff db =
      if faults.select_fails
      then (db, err database_error)
      else after_select faults db (expired_rows cutoff db.events)

  -- a sqlite3.DatabaseError is noted, any other exception escapes
  abbrev pub finish_cleanup : Store → Outcome ℕ → Result Exception (Store × ℕ)
  finish_cleanup store (db, ok n) = ok (
    record { db = db; degraded_reasons = discard_reason "cleanup_failed" store.degraded_reasons },
    n,
  )
  finish_cleanup store (db, err e) =
      if is_database_error e
      then ok (
        record { db = db; degraded_reasons = add_reason "cleanup_failed" store.degraded_reasons },
        0,
      )
      else err e

  -- The new state, and the number of rows deleted.
  unfoldable pub prune_history : CleanupFaults → Store → ReceivedAt → Result Exception (Store × ℕ)
  unfolding delete_before
  prune_history faults store now = do
    current ← normalise_received_at py now
    instant ← parse_received_at py current
    cutoff ← subtract instant retention
    finish_cleanup store (transaction (delete_before faults cutoff) store.db)
