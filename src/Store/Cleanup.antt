-- ===== src/Store/Cleanup.antt =====
-- What `Store.prune_history` leaves.
use runner_observability.Base.{
  ℕ, String, ◌≡◌, refl, ◌≤◌, sym, ◌∙◌, ap, true, false, List, [], ◌∷◌, ok, ◌⊎◌, string_eq, arith,
  number_eq, if◌then◌else◌, >>=-eq-ok, ok-injective, contains, All, Bool-cases, inl, inr, ltb,
  ltb→le, subst,
}
use runner_observability.Python.{Python}
use runner_observability.Database.{Database, EventRow}
use runner_observability.Store.State.{Store}
use runner_observability.Store.Time.{
  ReceivedAt, normalise_received_at, parse_received_at, subtract, retention,
}
use runner_observability.Store.Prune.{CleanupFaults, delete_rows, expired_rows, prune_history}
use runner_observability.Store.Expired.{without_rows, IsFailedCleanup, finish_cleanup-cases}

-- a row that was received at the cutoff or later, as far as its time can be read
abbrev pub IsFresh : Python → ℕ → EventRow → Type 0
IsFresh py cutoff row = (at : ℕ) → parse_received_at py row.received_at ≡ ok at → cutoff ≤ at

abbrev IsCovered : Python → ℕ → List ℕ → EventRow → Type 0
IsCovered py cutoff ids row = contains row.event_row_id ids ≡ false → IsFresh py cutoff row

module _ (py : Python) (cutoff : ℕ) where
  row-IsCovered :
      (row : EventRow) (rest ids : List ℕ) {received : ℕ}
      → parse_received_at py row.received_at ≡ ok received
      → ((k : ℕ)
          → contains k (if ltb received cutoff then row.event_row_id ∷ rest else rest) ≡ true
          → contains k ids ≡ true)
      → IsCovered py cutoff ids row
  row-IsCovered row rest ids {received} parsed within absent at same =
      elim (Bool-cases (ltb received cutoff)) [
        | inl old ↦
            let listed = within row.event_row_id (ground arith) in
            absurd (ground (arith, listed, absent))
        | inr young ↦ omega (arith, ltb→le _ _ young, ok-injective (sym parsed ∙ same))
      ]

  expired_rows-IsCovered :
      (rows : List EventRow) (ids : List ℕ) {expired : List ℕ}
      → expired_rows py cutoff rows ≡ ok expired
      → ((k : ℕ) → contains k expired ≡ true → contains k ids ≡ true)
      → All (IsCovered py cutoff ids) rows
  unfolding expired_rows
  expired_rows-IsCovered [] ids h within = tt
  expired_rows-IsCovered (row ∷ rows) ids h within =
      let (received, parsed, h1) = >>=-eq-ok (parse_received_at py row.received_at) _ h in
      let (rest, found, h2) = >>=-eq-ok (expired_rows py cutoff rows) _ h1 in
      let same = ok-injective h2 in
      (
        row-IsCovered row rest ids parsed (λ k c. within k (ap (contains k) (sym same) ∙ c)),
        expired_rows-IsCovered rows ids found
            (λ k c. within k (ap (contains k) (sym same) ∙ ground (arith, c))),
      )

  delete_rows-IsFresh :
      (ids : List ℕ) (rows : List EventRow)
      → All (IsCovered py cutoff ids) rows
      → All (IsFresh py cutoff) (delete_rows ids rows)
  unfolding delete_rows
  delete_rows-IsFresh ids [] covered = tt
  delete_rows-IsFresh ids (row ∷ rows) (fresh, covered) =
      elim (Bool-cases (contains row.event_row_id ids)) [
        | inl gone ↦ rw gone (delete_rows-IsFresh ids rows covered)
        | inr kept ↦ rw kept (fresh kept, delete_rows-IsFresh ids rows covered)
      ]

  delete_rows_none : (rows : List EventRow) → delete_rows [] rows ≡ rows
  unfolding delete_rows
  delete_rows_none [] = refl
  delete_rows_none (row ∷ rows) = ap (λ rest. row ∷ rest) (delete_rows_none rows)

  without_rows-IsFresh :
      (ids : List ℕ) (db : Database)
      → All (IsCovered py cutoff ids) db.events
      → All (IsFresh py cutoff) (without_rows ids db).events
  unfolding without_rows
  without_rows-IsFresh [] db covered =
      subst (All (IsFresh py cutoff)) (delete_rows_none db.events)
        (delete_rows-IsFresh [] db.events covered)
  without_rows-IsFresh (id ∷ ids) db covered = delete_rows-IsFresh (id ∷ ids) db.events covered

-- The tables that a cleanup does not touch.
pub record SameProjections (db db' : Database) : Type 0 where
  pub runners : db'.runner_state ≡ db.runner_state
  pub jobs : db'.job_state ≡ db.job_state
  pub incidents : db'.incidents ≡ db.incidents
  pub watermarks : db'.producer_watermarks ≡ db.producer_watermarks

without_rows-SameProjections :
    (ids : List ℕ) (db : Database) → SameProjections db (without_rows ids db)
unfolding without_rows
without_rows-SameProjections [] db = record {
  runners = refl;
  jobs = refl;
  incidents = refl;
  watermarks = refl;
}
without_rows-SameProjections (id ∷ ids) db = record {
  runners = refl;
  jobs = refl;
  incidents = refl;
  watermarks = refl;
}

-- A cleanup leaves no event that was received before the cutoff, the retention before the clock, and
-- it leaves every projection, incident and watermark as it was. Or a statement of it has failed: then
-- it has deleted nothing, every table is as it was, and "cleanup_failed" is among the reasons for
-- which the store is degraded.
pub prune_history-IsFresh :
    (py : Python) (faults : CleanupFaults) (store : Store) (now : ReceivedAt) {store' : Store}
    {n : ℕ} {current : String} {instant cutoff : ℕ}
    → prune_history py faults store now ≡ ok (store', n)
    → normalise_received_at py now ≡ ok current
    → parse_received_at py current ≡ ok instant
    → subtract instant retention ≡ ok cutoff
    → All (IsFresh py cutoff) store'.db.events × SameProjections store.db store'.db
      ⊎ IsFailedCleanup faults store store' n
unfolding prune_history
prune_history-IsFresh py faults store now {cutoff = cutoff} h normal clock earlier =
    elim (finish_cleanup-cases py faults cutoff store (rw (normal, clock, earlier) at h)) [
      | inl (ids, found, cleaned, _) ↦ inl (
          subst (λ db. All (IsFresh py cutoff) db.events × SameProjections store.db db)
            (sym cleaned)
            (
              without_rows-IsFresh py cutoff ids store.db
                  (expired_rows-IsCovered py cutoff store.db.events ids found (λ k c. c)),
              without_rows-SameProjections ids store.db,
            ))
      | inr failed ↦ inr failed
    ]
