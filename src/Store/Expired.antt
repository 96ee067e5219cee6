-- ===== src/Store/Expired.antt =====
-- The transaction of `Store.prune_history`: what it leaves when it ends well, and when it does not.
use runner_observability.Base.{
  ℕ, String, ◌≡◌, refl, sym, ap, ◌∙◌, true, false, ◌||◌, ◌⊎◌, inl, inr, List, [], ◌∷◌, Result, ok,
  err, ◌>>=◌, arith, length, contains, string_eq, if_holds, ok-injective, Bool-cases, eq_refl,
}
use runner_observability.Base.Table.{upsert}
use runner_observability.Python.{Python, Exception, database_error}
use runner_observability.Database.{Database, EventRow}
use runner_observability.Store.State.{Store, add_reason}
use runner_observability.Store.Time.{parse_received_at}
use runner_observability.Store.Transaction.{Outcome, transaction}
use runner_observability.Store.Prune.{
  CleanupFaults, is_database_error, delete_rows, delete_expired, expired_rows, after_select,
  delete_before, finish_cleanup,
}

-- The tables after the two statements.
unfoldable pub without_rows : List ℕ → Database → Database
without_rows [] db = db
without_rows (id ∷ ids) db = record db {
  events = delete_rows (id ∷ ids) db.events;
  monitor_meta = upsert "projection_history_complete" "0" db.monitor_meta;
}

-- A cleanup in which a statement has failed.
pub record IsFailedCleanup (faults : CleanupFaults) (store store' : Store) (n : ℕ) : Type 0 where
  pub fault : (faults.select_fails || faults.delete_fails || faults.insert_fails) ≡ true
  pub nothing_deleted : n ≡ 0
  pub same_tables : store'.db ≡ store.db
  pub noted : contains "cleanup_failed" store'.degraded_reasons ≡ true

contains-add_reason :
    (reason : String) (reasons : List String) → contains reason (add_reason reason reasons) ≡ true
unfolding add_reason
contains-add_reason reason reasons = elim (Bool-cases (contains reason reasons)) [
  | inl there ↦ rw there there
  | inr absent ↦ rw absent (ground (arith, eq_refl reason))
]

-- A result that is no DatabaseError.
abbrev IsPlain {ℓ} : {A : Type ℓ} → Result Exception A → Type 0
IsPlain (ok a) = Unit
IsPlain (err e) = is_database_error e ≡ false

IsPlain-bind {ℓ κ} :
    {A : Type ℓ} {B : Type κ} (m : Result Exception A) (f : A → Result Exception B)
    → IsPlain m
    → ((a : A) → IsPlain (f a))
    → IsPlain (m >>= f)
IsPlain-bind (ok a) f h g = g a
IsPlain-bind (err e) f h g = h

module _ (py : Python) where
  parse_received_at-IsPlain : (s : String) → IsPlain (parse_received_at py s)
  unfolding parse_received_at
  parse_received_at-IsPlain s = of_result (parse_received_at py s) refl
    where
      of_result : (r : Result Exception ℕ) → parse_received_at py s ≡ r → IsPlain r
      of_result (ok at) h = tt
      of_result (err e) h = ground arith

  module _ (cutoff : ℕ) where
    expired_rows-IsPlain : (rows : List EventRow) → IsPlain (expired_rows py cutoff rows)
    unfolding expired_rows
    expired_rows-IsPlain [] = tt
    expired_rows-IsPlain (row ∷ rows) =
        IsPlain-bind (parse_received_at py row.received_at) _
          (parse_received_at-IsPlain row.received_at)
          λ received.
            IsPlain-bind (expired_rows py cutoff rows) _ (expired_rows-IsPlain rows) λ ids. tt

module _ (faults : CleanupFaults) where
  -- the statements end well, or one of them fails
  delete_expired-cases :
      (ids : List ℕ) (db : Database)
      → (delete_expired faults ids db ≡ (without_rows ids db, ok (length ids)))
        ⊎ ((db' : Database) × (delete_expired faults ids db ≡ (db', err database_error))
            × ((faults.select_fails || faults.delete_fails || faults.insert_fails) ≡ true))
  unfolding delete_expired without_rows
  delete_expired-cases [] db = inl refl
  delete_expired-cases (id ∷ ids) db = elim (Bool-cases faults.delete_fails) [
    | inl fails ↦ inr (db, rw fails refl, ground (arith, fails))
    | inr works ↦ elim (Bool-cases faults.insert_fails) [
      | inl fails ↦ inr (
        record db { events = delete_rows (id ∷ ids) db.events },
        rw (works, fails) refl,
        ground (arith, fails),
      )
      | inr ends ↦ inl (rw (works, ends) refl)
    ]
  ]

-- The transaction ends with the expired rows deleted, or a statement fails, or a time that is read
-- raises another exception.
pub data CleanupRun (py : Python) (faults : CleanupFaults) (cutoff : ℕ) (db : Database)
    : Outcome ℕ → Type 0 where
  cleaned :
      (ids : List ℕ)
      → expired_rows py cutoff db.events ≡ ok ids
      → CleanupRun py faults cutoff db (without_rows ids db, ok (length ids))
  failed :
      (db' : Database)
      → (faults.select_fails || faults.delete_fails || faults.insert_fails) ≡ true
      → CleanupRun py faults cutoff db (db', err database_error)
  unread :
      (db' : Database) (e : Exception)
      → is_database_error e ≡ false
      → CleanupRun py faults cutoff db (db', err e)

pub CleanupRun-delete_before :
    (py : Python) (faults : CleanupFaults) (cutoff : ℕ) (db : Database)
    → CleanupRun py faults cutoff db (delete_before py faults cutoff db)
unfolding delete_before
CleanupRun-delete_before py faults cutoff db =
    if_holds (CleanupRun py faults cutoff db) faults.select_fails _ _
      (λ fails. failed db (ground (arith, fails)))
      (λ _.
        of_rows (expired_rows py cutoff db.events) (expired_rows-IsPlain py cutoff db.events) refl)
  where
    of_rows :
        (r : Result Exception (List ℕ))
        → IsPlain r
        → expired_rows py cutoff db.events ≡ r
        → CleanupRun py faults cutoff db (after_select py faults db r)
    of_rows (err e) plain read = unread db e plain
    of_rows (ok ids) plain read = elim (delete_expired-cases faults ids db) [
      | inl ends ↦ rw ends (cleaned ids read)
      | inr (db', fails, fault) ↦ rw fails (failed db' fault)
    ]

-- What `prune_history` returns after its transaction.
pub finish_cleanup-cases :
    (py : Python) (faults : CleanupFaults) (cutoff : ℕ) (store : Store) {store' : Store} {n : ℕ}
    → finish_cleanup py store (transaction (delete_before py faults cutoff) store.db)
      ≡ ok (store', n)
    → ((ids : List ℕ) × (expired_rows py cutoff store.db.events ≡ ok ids)
        × (store'.db ≡ without_rows ids store.db)
        × (n ≡ length ids))
      ⊎ IsFailedCleanup faults store store' n
unfolding transaction
finish_cleanup-cases py faults cutoff store h =
    of_run (CleanupRun-delete_before py faults cutoff store.db) h
  where
    of_run :
        {store' : Store} {n : ℕ} {r : Outcome ℕ}
        → CleanupRun py faults cutoff store.db r
        → finish_cleanup py store (transaction (λ _. r) store.db) ≡ ok (store', n)
        → ((ids : List ℕ) × (expired_rows py cutoff store.db.events ≡ ok ids)
            × (store'.db ≡ without_rows ids store.db)
            × (n ≡ length ids))
          ⊎ IsFailedCleanup faults store store' n
    of_run (cleaned ids read) g = inl (
      ids,
      read,
      ap (λ (x : Store × ℕ). x.0.db) (sym (ok-injective g)),
      ap (λ (x : Store × ℕ). x.1) (sym (ok-injective g)),
    )
    of_run (failed db' fault) g = inr (record {
      fault = fault;
      nothing_deleted = ap (λ (x : Store × ℕ). x.1) (sym (ok-injective g));
      same_tables = ap (λ (x : Store × ℕ). x.0.db) (sym (ok-injective g));
      noted =
          ap (λ (x : Store × ℕ). contains "cleanup_failed" x.0.degraded_reasons)
            (sym (ok-injective g))
          ∙ contains-add_reason "cleanup_failed" store.degraded_reasons;
    })
    of_run (unread db' e plain) g = let refused = (rw plain at g) in cc
