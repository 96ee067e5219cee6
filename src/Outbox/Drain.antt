-- ===== src/Outbox/Drain.antt =====
-- outbox.py: `pending_events`, `_move_to_dead_letter` and `DurableOutbox.drain`. The delivery and the
-- clock are parameters: what the delivery of the n-th entry does, and the time before and after it.
use runner_observability.Base.{
  ℕ, suc, ◌+◌, String, Bool, true, false, ◌&&◌, ◌||◌, Option, none, some, List, [], ◌∷◌, string_eq,
  ◌==◌, leb, contains, length, if◌then◌else◌,
}
use Prim.Native.Nat.{Ordering}
use Prim.Native.String.{compare}
use runner_observability.Base.Table.{Table, select, upsert}
use runner_observability.Value.{Value, str, as_mapping, get}
use runner_observability.Python.{Python}
use runner_observability.Outbox.State.{
  Outbox, Faults, Unlink, removed, missing, failed, Envelope, transient_reasons,
  safe_delivery_reason, remove, read_envelope, encode_envelope, json_files,
}
use runner_observability.Agent.Delivery.{DeliveryResult}

pub record DrainResult : Type 0 where
  pub delivered : ℕ
  pub retained : ℕ
  pub dead_lettered : ℕ
  pub corrupt : ℕ

-- What surrounds a drain: the n-th delivery returns a result or raises.
pub record World : Type 0 where
  pub started_at : ℕ
  pub before : ℕ → ℕ
  pub after : ℕ → ℕ
  pub deliver : ℕ → Value → Option DeliveryResult

-- A pending file with its envelope.
pub record Entry : Type 0 where
  pub stem : String
  pub envelope : Envelope

abbrev event_id_of : Value → String
event_id_of event = elim (as_mapping event) [
  | none ↦ ""
  | some f ↦ elim (get f "event_id") [ str s ↦ s | _ ↦ "" ]
]

-- the order of the sort key (queued_at, event_id)
abbrev comes_before : Entry → Entry → Bool
comes_before a b = elim (compare a.envelope.queued_at b.envelope.queued_at) [
  | Ordering.lt ↦ true
  | Ordering.gt ↦ false
  | Ordering.eq ↦ elim (compare (event_id_of a.envelope.event) (event_id_of b.envelope.event)) [
    | Ordering.gt ↦ false
    | _ ↦ true
  ]
]

unfoldable pub insert_entry : Entry → List Entry → List Entry
insert_entry e [] = e ∷ []
insert_entry e (x ∷ xs) =
    let rest = insert_entry e xs in if comes_before e x then e ∷ x ∷ xs else x ∷ rest

unfoldable pub sort_entries : List Entry → List Entry
unfolding insert_entry
sort_entries [] = []
sort_entries (x ∷ xs) = insert_entry x (sort_entries xs)

module _ (py : Python) where
  -- the stems of the dead letters that can be read
  unfoldable pub dead_letter_ids : Table String String → List String
  unfolding read_envelope
  dead_letter_ids [] = []
  dead_letter_ids ((stem, text) ∷ files) =
      let rest = dead_letter_ids files in
      elim (read_envelope py stem text true) [ none ↦ rest | some _ ↦ stem ∷ rest ]

  -- The loop of `pending_events`: the files that stay, the valid entries, and the corrupt files.
  unfoldable pub scan_pending :
      Faults → List String → Table String String → Table String String × List Entry × ℕ
  unfolding read_envelope
  scan_pending faults dead [] = ([], [], 0)
  scan_pending faults dead ((stem, text) ∷ files) =
      let (kept, valid, corrupt) = scan_pending faults dead files in
      if contains stem dead
      then elim (faults.unlink stem) [
        | removed ↦ (kept, valid, corrupt)
        | missing ↦ (kept, valid, corrupt)
        | failed ↦ ((stem, text) ∷ kept, valid, corrupt)
      ]
      else elim (read_envelope py stem text false) [
        | none ↦ ((stem, text) ∷ kept, valid, corrupt + 1)
        | some envelope ↦
            ((stem, text) ∷ kept, record { stem = stem; envelope = envelope } ∷ valid, corrupt)
      ]

  -- The outbox without the pending files that are dead letters too, the valid entries in the order
  -- of the queue, and the number of corrupt files. Files that are not listed stay.
  unfoldable pub pending_events : Faults → Outbox → Outbox × List Entry × ℕ
  unfolding json_files dead_letter_ids scan_pending sort_entries
  pending_events faults outbox =
      let dead = dead_letter_ids (json_files faults.dead_letter_list_fails outbox.dead_letter) in
      let (kept, valid, corrupt) =
        scan_pending faults dead (json_files faults.pending_list_fails outbox.pending) in
      (
        record outbox { pending = if faults.pending_list_fails then outbox.pending else kept },
        sort_entries valid,
        corrupt,
      )

  abbrev unlink_pending : Outbox → String → Unlink → Outbox × Bool
  unlink_pending outbox stem removed =
      (record outbox { pending = remove stem outbox.pending }, true)
  unlink_pending outbox stem missing =
      (record outbox { pending = remove stem outbox.pending }, true)
  unlink_pending outbox stem failed = (outbox, false)

  abbrev same_dead_letter : Entry → String → Option Envelope → Bool
  same_dead_letter entry reason none = false
  same_dead_letter entry reason (some existing) =
      py.equals existing.event entry.envelope.event
      && elim existing.reason [ none ↦ false | some r ↦ r == reason ]

  -- `_move_to_dead_letter`: a file is written under the event's id, and then the pending file goes.
  unfoldable pub move_to_dead_letter : Faults → Outbox → Entry → String → Outbox × Bool
  unfolding read_envelope remove
  move_to_dead_letter faults outbox entry reason =
      let event_id = event_id_of entry.envelope.event in
      elim (select event_id outbox.dead_letter) [
        | some text ↦
            if same_dead_letter entry reason (read_envelope py event_id text true)
            then unlink_pending outbox entry.stem (faults.unlink entry.stem)
            else (outbox, false)
        | none ↦
            if faults.write_fails event_id
            then (outbox, false)
            else unlink_pending
                (record outbox {
                  dead_letter =
                      upsert event_id
                        (encode_envelope py (record entry.envelope { reason = some reason }))
                        outbox.dead_letter;
                })
                entry.stem (faults.unlink entry.stem)
      ]

  abbrev pub retain : DrainResult → DrainResult
  retain r = record r { retained = r.retained + 1 }

  -- the removal of an entry that has been delivered; one that is missing is not counted
  unfoldable pub remove_delivered : Outbox → String → Unlink → DrainResult → Outbox × DrainResult
  unfolding remove
  remove_delivered outbox stem removed r = (
    record outbox { pending = remove stem outbox.pending },
    record r { delivered = r.delivered + 1 },
  )
  remove_delivered outbox stem missing r =
      (record outbox { pending = remove stem outbox.pending }, r)
  remove_delivered outbox stem failed r = (outbox, retain r)

  abbrev pub count_move : Outbox × Bool → DrainResult → Outbox × DrainResult
  count_move (outbox, true) r = (outbox, record r { dead_lettered = r.dead_lettered + 1 })
  count_move (outbox, false) r = (outbox, retain r)

  -- an entry after its delivery has returned within the time
  unfoldable pub settle :
      Faults → Outbox → Entry → DeliveryResult → DrainResult → Outbox × DrainResult
  unfolding remove_delivered move_to_dead_letter safe_delivery_reason
  settle faults outbox entry result r =
      if result.delivered
      then remove_delivered outbox entry.stem (faults.unlink entry.stem) r
      else if contains (safe_delivery_reason result.reason) transient_reasons
      then (outbox, retain r)
      else count_move (move_to_dead_letter faults outbox entry (safe_delivery_reason result.reason))
          r

  abbrev pub timed_out : World → Outbox → ℕ → Bool
  timed_out world outbox now = leb (world.started_at + outbox.limits.max_drain_seconds) now

  -- what a round does with what the delivery returned, none where it raised
  abbrev pub after_delivery :
      Faults → Outbox → Entry → DrainResult → Bool → Option DeliveryResult → Outbox × DrainResult
  after_delivery faults outbox entry r late none = (outbox, retain r)
  after_delivery faults outbox entry r late (some result) =
      if late then (outbox, retain r) else settle faults outbox entry result r

  -- one round of the loop that is not cut short
  unfoldable pub drain_entry :
      Faults → World → ℕ → Outbox → Entry → DrainResult → Outbox × DrainResult
  unfolding settle
  drain_entry faults world index outbox entry r =
      after_delivery faults outbox entry r (timed_out world outbox (world.after index))
        (world.deliver index entry.envelope.event)

  -- The loop over the entries from number `index` on; what is left when it breaks is retained.
  unfoldable pub drain_loop :
      Faults → World → ℕ → Outbox → List Entry → DrainResult → Outbox × DrainResult
  drain_loop faults world index outbox [] r = (outbox, r)
  drain_loop faults world index outbox (entry ∷ rest) r =
      let step = drain_entry faults world index outbox entry r in
      let next = drain_loop faults world (suc index) step.0 rest step.1 in
      if leb outbox.limits.max_drain_events index || timed_out world outbox (world.before index)
      then (outbox, record r { retained = r.retained + length (entry ∷ rest) })
      else next

  unfoldable pub drain : Faults → World → Outbox → Outbox × DrainResult
  unfolding pending_events drain_loop drain_entry
  drain faults world outbox =
      if faults.lock_fails
      then (outbox, record { delivered = 0; retained = 0; dead_lettered = 0; corrupt = 0 })
      else (let (cleaned, pending, corrupt) = pending_events faults outbox in
          drain_loop faults world 0 cleaned pending
            (record { delivered = 0; retained = 0; dead_lettered = 0; corrupt = corrupt }))
