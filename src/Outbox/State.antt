-- ===== src/Outbox/State.antt =====
-- outbox.py: the directories of an outbox, its limits, and how a file is read. A directory is a table
-- of the texts of its `*.json` files by their stems; temporary files are never seen under that name.
-- The faults of the file system are a parameter of each operation.
use runner_observability.Base.{
  ℕ, suc, ◌+◌, ◌*◌, String, Bool, true, false, ◌&&◌, Option, none, some, List, [], ◌∷◌, ◌++◌, ok,
  err, string_eq, ◌==◌, contains, if◌then◌else◌,
}
use Prim.Native.String.{len}
use runner_observability.Base.Table.{Table}
use runner_observability.Value.{
  Value, Fields, str, dict, end, field, as_mapping, get, has_exact_keys, json_payload,
}
use runner_observability.Python.{Python}
use runner_observability.Contracts.Event.{validate_event}

pub record OutboxLimits : Type 0 where
  pub max_events : ℕ
  pub max_bytes : ℕ
  pub max_drain_events : ℕ
  pub max_drain_seconds : ℕ

-- The default limits; the time in microseconds.
abbrev pub default_limits : OutboxLimits
default_limits = record {
  max_events = 1000;
  max_bytes = 32 * 1024 * 1024;
  max_drain_events = 100;
  max_drain_seconds = 5000000;
}

pub record Outbox : Type 0 where
  pub pending : Table String String
  pub dead_letter : Table String String
  pub limits : OutboxLimits

-- `unlink` removes the file, finds it missing, or raises another OSError.
pub data Unlink : Type 0 where
  removed missing failed : Unlink

-- What the file system does during one operation: whether the lock is to be had, whether the listing
-- of a directory raises an OSError, whether the size of a listed file does, whether a new file can be
-- written, and how a removal ends.
pub record Faults : Type 0 where
  pub lock_fails : Bool
  pub pending_list_fails : Bool
  pub dead_letter_list_fails : Bool
  pub stat_fails : Bool
  pub write_fails : String → Bool
  pub unlink : String → Unlink

-- `_json_files`: no files at all if the listing fails
unfoldable pub json_files : Bool → Table String String → Table String String
json_files list_fails files = if list_fails then [] else files

-- A file's content that has been checked: `reason` is there in a dead letter.
pub record Envelope : Type 0 where
  pub queued_at : String
  pub event : Value
  pub reason : Option String

abbrev pub transient_reasons : List String
transient_reasons = "temporary_network_failure" ∷ "temporary_http_failure" ∷ []

abbrev pub known_delivery_reasons : List String
known_delivery_reasons =
    transient_reasons ++ "rejected_http_response" ∷ "transport_failure" ∷ "delivery_failed" ∷ []

unfoldable pub safe_delivery_reason : Option String → String
safe_delivery_reason none = "delivery_failed"
safe_delivery_reason (some reason) =
    if contains reason known_delivery_reasons then reason else "delivery_failed"

-- path.unlink() on a directory
unfoldable pub remove : String → Table String String → Table String String
remove stem [] = []
remove stem ((name, text) ∷ files) =
    let rest = remove stem files in if name == stem then rest else (name, text) ∷ rest

-- an envelope as the JSON that is written
abbrev pub envelope_value : Envelope → Value
envelope_value envelope = dict (
    field "queued_at" (str envelope.queued_at) (
      field "event" envelope.event (elim envelope.reason [
        | none ↦ end
        | some reason ↦ field "dead_letter_reason" (str reason) end
      ])))

module _ (py : Python) where
  abbrev is_aware_time : String → Bool
  is_aware_time s = elim (py.fromisoformat s) [ none ↦ false | some m ↦ m.aware ]

  -- `_queued_timestamp` of a given text
  unfoldable pub queued_timestamp : String → Option String
  queued_timestamp value =
      if value == "" then none else if is_aware_time value then some value else none

  abbrev envelope_keys : Bool → List String
  envelope_keys allow_dead_letter =
      if allow_dead_letter
      then "queued_at" ∷ "event" ∷ "dead_letter_reason" ∷ []
      else "queued_at" ∷ "event" ∷ []

  abbrev known_reason : Value → Option String
  known_reason (str reason) = if contains reason known_delivery_reasons then some reason else none
  known_reason _ = none

  abbrev is_timestamp : String → Bool
  is_timestamp s = elim (queued_timestamp s) [ none ↦ false | some _ ↦ true ]

  -- the checks on the event of an envelope, which must be in its normal form
  unfoldable pub read_event : String → Value → Option Value
  read_event stem event = elim (validate_event py event) [
    | err e ↦ none
    | ok validated ↦
        let normalized = json_payload validated.payload in
        if stem == validated.event_id && py.equals normalized event then some normalized else none
  ]

  -- the reason of a dead letter, or none that is asked for; `none` refuses the file
  abbrev read_reason : Bool → Fields → Option (Option String)
  read_reason allow_dead_letter raw =
      if allow_dead_letter
      then elim (known_reason (get raw "dead_letter_reason")) [
        | none ↦ none
        | some r ↦ some (some r)
      ]
      else some none

  abbrev read_fields : String → Bool → Fields → Option Envelope
  read_fields stem allow_dead_letter raw = elim (get raw "queued_at") [
    | str queued_at ↦
        if has_exact_keys raw (envelope_keys allow_dead_letter) && is_timestamp queued_at
        then elim (read_event stem (get raw "event")) [
          | none ↦ none
          | some event ↦ elim (read_reason allow_dead_letter raw) [
            | none ↦ none
            | some reason ↦ some (record { queued_at = queued_at; event = event; reason = reason })
          ]
        ]
        else none
    | _ ↦ none
  ]

  -- `_read_envelope`, which catches what it meets, but for the RecursionError of a file that is nested
  -- too deeply; that case is left out.
  unfoldable pub read_envelope : String → String → Bool → Option Envelope
  unfolding read_event queued_timestamp
  read_envelope stem text allow_dead_letter = elim (py.loads text) [
    | none ↦ none
    | some value ↦ elim (as_mapping value) [
      | none ↦ none
      | some raw ↦ read_fields stem allow_dead_letter raw
    ]
  ]

  -- the text of a file with an envelope
  unfoldable pub encode_envelope : Envelope → String
  encode_envelope envelope = py.encode (envelope_value envelope)

-- the number of files and their size
unfoldable pub count_files : Table String String → ℕ
count_files [] = 0
count_files (_ ∷ files) = suc (count_files files)

unfoldable pub count_bytes : Table String String → ℕ
count_bytes [] = 0
count_bytes ((name, text) ∷ files) = len text + count_bytes files

unfoldable pub used_files : Outbox → ℕ
unfolding count_files
used_files outbox = count_files outbox.pending + count_files outbox.dead_letter

unfoldable pub used_bytes : Outbox → ℕ
unfolding count_bytes
used_bytes outbox = count_bytes outbox.pending + count_bytes outbox.dead_letter

-- the outbox as far as its directories can be listed
unfoldable pub listed : Faults → Outbox → Outbox
unfolding json_files
listed faults outbox = record outbox {
  pending = json_files faults.pending_list_fails outbox.pending;
  dead_letter = json_files faults.dead_letter_list_fails outbox.dead_letter;
}

-- `_capacity_usage`: the number of the files that are listed, and their size.
unfoldable pub capacity_usage : Faults → Outbox → ℕ × ℕ
unfolding listed used_files used_bytes
capacity_usage faults outbox =
    (used_files (listed faults outbox), used_bytes (listed faults outbox))
