-- ===== src/Outbox/Capacity.antt =====
-- The bounds of an outbox, and what an enqueue that does not queue leaves as it was.
use runner_observability.Base.{
  suc, ◌+◌, ◌≤◌, String, ◌≡◌, refl, ◌⊎◌, inl, inr, ◌||◌, Bool, true, false, Option, none, [], ◌∷◌,
  Result, ok, err, arith, string_eq, leb, ltb, leb→lt, ltb→le, if◌then◌else◌, ok-injective, subst,
  Bool-cases, Option-cases,
}
use Prim.Native.String.{len}
use runner_observability.Base.Table.{Table, upsert}
use runner_observability.Value.{Value, json_payload}
use runner_observability.Python.{
  Python, Exception, validation_error, value_error, type_error, key_error, attribute_error,
  overflow_error, os_error, recursion_error, database_error,
}
use runner_observability.Contracts.Event.{ValidatedEvent, validate_event}
use runner_observability.Outbox.State.{
  Outbox, Faults, encode_envelope, count_files, count_bytes, used_files, used_bytes, capacity_usage,
  listed, json_files,
}
use runner_observability.Outbox.Enqueue.{
  EnqueueResult, rejected, timestamp, existing_event, write_pending, enqueue_new, enqueue_validated,
  enqueue_result, enqueue,
}

-- The outbox holds no more files and no more bytes than its limits allow.
pub record IsWithin (outbox : Outbox) : Type 0 where
  pub files : used_files outbox ≤ outbox.limits.max_events
  pub bytes : used_bytes outbox ≤ outbox.limits.max_bytes

count_files-upsert :
    (k v : String) (t : Table String String) → count_files (upsert k v t) ≤ suc (count_files t)
unfolding count_files upsert
count_files-upsert k v [] = omega arith
count_files-upsert k v ((j, w) ∷ t) = ground (arith, count_files-upsert k v t)

count_bytes-upsert :
    (k v : String) (t : Table String String) → count_bytes (upsert k v t) ≤ count_bytes t + len v
unfolding count_bytes upsert
count_bytes-upsert k v [] = omega arith
count_bytes-upsert k v ((j, w) ∷ t) = ground (arith, count_bytes-upsert k v t)

-- What an enqueue does to the outbox, by its status.
abbrev pub Enqueued : Outbox → Outbox × EnqueueResult → Type 0
Enqueued outbox (outbox', r) = (outbox' ≡ outbox) ⊎ ((r.status ≡ "queued") × IsWithin outbox')

capacity_usage-used :
    (faults : Faults) (outbox : Outbox)
    → faults.pending_list_fails ≡ false
    → faults.dead_letter_list_fails ≡ false
    → capacity_usage faults outbox ≡ (used_files outbox, used_bytes outbox)
unfolding capacity_usage listed json_files
capacity_usage-used faults outbox pending dead_letter = rw (pending, dead_letter) refl

module _ (py : Python) (now : String) (faults : Faults) (outbox : Outbox)
    (pending_listed : faults.pending_list_fails ≡ false)
    (dead_letter_listed : faults.dead_letter_list_fails ≡ false) where
  write_pending-IsWithin :
      (id encoded : String)
      → leb outbox.limits.max_events (used_files outbox) ≡ false
      → ltb outbox.limits.max_bytes (used_bytes outbox + len encoded) ≡ false
      → Enqueued outbox (write_pending py faults outbox id encoded)
  unfolding write_pending used_files used_bytes
  write_pending-IsWithin id encoded files bytes = elim (Bool-cases (faults.write_fails id)) [
    | inl fails ↦ inl (rw fails)
    | inr fine ↦ inr (
        rw fine (
          refl,
          record {
            files = omega (arith, leb→lt _ _ files, count_files-upsert id encoded outbox.pending);
            bytes = omega (arith, ltb→le _ _ bytes, count_bytes-upsert id encoded outbox.pending);
          },
        ))
  ]

  enqueue_new-IsWithin :
      (id : String) (event : Value) (queued_at : Option String)
      → Enqueued outbox (enqueue_new py now faults outbox id event queued_at)
  unfolding enqueue_new
  enqueue_new-IsWithin id event queued_at = elim (Option-cases (timestamp py now queued_at)) [
    | inl bad ↦ rw (bad, enqueue_new) (inl refl)
    | inr (queued, good) ↦
        rw (good, enqueue_new, capacity_usage-used faults outbox pending_listed dead_letter_listed)
          (checked
            (encode_envelope py (record { queued_at = queued; event = event; reason = none }))
            faults.stat_fails (leb outbox.limits.max_events (used_files outbox)) refl _ refl)
  ]
    where
      checked :
          (encoded : String) (no_stat files : Bool)
          → leb outbox.limits.max_events (used_files outbox) ≡ files
          → (bytes : Bool) → ltb outbox.limits.max_bytes (used_bytes outbox + len encoded) ≡ bytes
          → Enqueued outbox (
              if no_stat
              then (outbox, rejected id "outbox_storage_unavailable")
              else if files || bytes
              then (outbox, rejected id "outbox_capacity_exceeded")
              else write_pending py faults outbox id encoded)
      checked encoded true files f bytes b = inl refl
      checked encoded false true f bytes b = inl refl
      checked encoded false false f true b = inl refl
      checked encoded false false f false b = write_pending-IsWithin id encoded f b

  enqueue_validated-IsWithin :
      (event : ValidatedEvent) (queued_at : Option String)
      → Enqueued outbox (enqueue_validated py now faults outbox event queued_at)
  unfolding enqueue_validated
  enqueue_validated-IsWithin event queued_at =
      elim (Option-cases (existing_event py outbox event.event_id)) [
        | inl new ↦
            rw (new, enqueue_validated)
              (enqueue_new-IsWithin event.event_id (json_payload event.payload) queued_at)
        | inr (existing, old) ↦
            rw (old, enqueue_validated)
              (elim (Bool-cases (py.equals existing (json_payload event.payload))) [
                | inl same ↦ rw same (inl refl)
                | inr other ↦ rw other (inl refl)
              ])
      ]

  enqueue_result-IsWithin :
      (queued_at : Option String) (v : Result Exception ValidatedEvent) {t : Outbox × EnqueueResult}
      → enqueue_result py now faults outbox queued_at v ≡ ok t
      → Enqueued outbox t
  enqueue_result-IsWithin queued_at (ok event) h =
      subst (Enqueued outbox) (ok-injective h) (enqueue_validated-IsWithin event queued_at)
  enqueue_result-IsWithin queued_at (err (validation_error reason)) h =
      subst (Enqueued outbox) (ok-injective h) (inl refl)
  enqueue_result-IsWithin queued_at (err value_error) h = cc
  enqueue_result-IsWithin queued_at (err type_error) h = cc
  enqueue_result-IsWithin queued_at (err key_error) h = cc
  enqueue_result-IsWithin queued_at (err attribute_error) h = cc
  enqueue_result-IsWithin queued_at (err overflow_error) h = cc
  enqueue_result-IsWithin queued_at (err os_error) h = cc
  enqueue_result-IsWithin queued_at (err recursion_error) h = cc
  enqueue_result-IsWithin queued_at (err database_error) h = cc

  under_lock-IsWithin :
      (locked : Bool) (queued_at : Option String) (v : Result Exception ValidatedEvent)
      {t : Outbox × EnqueueResult}
      → (if locked
          then ok (outbox, rejected "" "outbox_storage_unavailable")
          else enqueue_result py now faults outbox queued_at v)
        ≡ ok t
      → Enqueued outbox t
  under_lock-IsWithin true queued_at v h = subst (Enqueued outbox) (ok-injective h) (inl refl)
  under_lock-IsWithin false queued_at v h = enqueue_result-IsWithin queued_at v h

  -- An enqueue during which both directories of the outbox can be listed, whatever the event, the
  -- clock and the other faults of the file system, leaves the outbox as it was, or it reports that the
  -- event is queued and the outbox is within its limits.
  pub enqueue-IsWithin :
      (event : Value) (queued_at : Option String) {outbox' : Outbox} {r : EnqueueResult}
      → enqueue py now faults outbox event queued_at ≡ ok (outbox', r)
      → (outbox' ≡ outbox) ⊎ ((r.status ≡ "queued") × IsWithin outbox')
  unfolding enqueue
  enqueue-IsWithin event queued_at h =
      under_lock-IsWithin faults.lock_fails queued_at (validate_event py event) h
