-- ===== src/Heartbeat/State.antt =====
-- heartbeat.py: `HeartbeatState`, the producer's identity and the next sequence number, in a file.
use runner_observability.Base.{
  ℕ, ◌+◌, String, Bool, false, not, ◌&&◌, ◌||◌, Option, none, some, Result, ok, err, ◌>>=◌, pos,
  string_eq, ◌==◌, leb, contains, if◌then◌else◌,
}
use runner_observability.Value.{
  Value, Fields, null, int, str, dict, field, end, as_mapping, get, keys,
}
use runner_observability.Contracts.Fields.{identifier}
use runner_observability.Python.{Python, Exception, os_error}

pub record HeartbeatState : Type 0 where
  pub runner_id : String
  pub producer_id : String
  pub producer_epoch : String
  pub next_sequence : ℕ

-- The state file: not there, or with its text (`none` if it cannot be read).
pub data StateFile : Type 0 where
  absent : StateFile
  content : Option String → StateFile

-- How `_save` goes: as it should, or with an OSError, either of the `mkdir` of the directory, or of the
-- temporary file that is written there and renamed, or both of that file and of its removal.
pub data SaveFault : Type 0 where
  no_fault mkdir_fails write_fails removal_fails : SaveFault

-- A HeartbeatStateError with its reason, or another exception.
pub data StateError : Type 0 where
  heartbeat_state_error : String → StateError
  raised : Exception → StateError

-- what `_save` dumps
abbrev pub state_mapping : HeartbeatState → Value
state_mapping state = dict (
    field "runner_id" (str state.runner_id) (
      field "producer_id" (str state.producer_id) (
        field "producer_epoch" (str state.producer_epoch)
          (field "next_sequence" (int (pos state.next_sequence)) end))))

-- a key that is there with another value than the configured one
abbrev is_other : Fields → String → String → Bool
is_other raw key expected =
    contains key (keys raw) && not (elim (get raw key) [ str s ↦ s == expected | _ ↦ false ])

-- a positive number that is no bool
abbrev positive : Value → Option ℕ
positive (int (pos n)) = if leb 1 n then some n else none
positive _ = none

module _ (py : Python) where
  -- `_save`: the file is replaced, or the error leaves the old one.
  unfoldable pub save : SaveFault → HeartbeatState → Result StateError StateFile
  save no_fault state = ok (content (some (py.dump_sorted (state_mapping state))))
  save mkdir_fails state = err (raised os_error)
  save removal_fails state = err (raised os_error)
  save write_fails state = err (heartbeat_state_error "state_file_unwritable")

  -- `str(raw.get("producer_epoch", ""))` where that is a text; of another value it is `shown`
  abbrev epoch_text : (Value → String) → Fields → String
  epoch_text shown raw =
      if contains "producer_epoch" (keys raw)
      then elim (get raw "producer_epoch") [ str s ↦ s | null ↦ shown null | v ↦ shown v ]
      else ""

  -- The epoch and the number of a state file that are good, or none.
  unfoldable pub stored_state : (Value → String) → Fields → Option (String × ℕ)
  stored_state shown raw =
      if py.re_fullmatch identifier (epoch_text shown raw)
      then elim (positive (get raw "next_sequence")) [
        | none ↦ none
        | some n ↦ some (epoch_text shown raw, n)
      ]
      else none

  abbrev fresh : String → String → String → HeartbeatState
  fresh runner_id producer_id epoch = record {
    runner_id = runner_id;
    producer_id = producer_id;
    producer_epoch = epoch;
    next_sequence = 1;
  }

  abbrev start_new : SaveFault → HeartbeatState → Result StateError (StateFile × HeartbeatState)
  start_new fault state = do file ← save fault state; ok (file, state)

  abbrev load_fields :
      (Value → String)
      → SaveFault
      → StateFile
      → String
      → String
      → String
      → Fields
      → Result StateError (StateFile × HeartbeatState)
  load_fields shown fault file runner_id producer_id epoch raw =
      if is_other raw "runner_id" runner_id || is_other raw "producer_id" producer_id
      then err (heartbeat_state_error "state_identity_mismatch")
      else elim (stored_state shown raw) [
        | none ↦ start_new fault (fresh runner_id producer_id epoch)
        | some (stored_epoch, n) ↦ ok (
          file,
          record {
            runner_id = runner_id;
            producer_id = producer_id;
            producer_epoch = stored_epoch;
            next_sequence = n;
          },
        )
      ]

  -- what `json.loads` reads, where it is a mapping
  abbrev mapping_of : Option String → Option Fields
  mapping_of none = none
  mapping_of (some text) = elim (py.loads text) [ none ↦ none | some v ↦ as_mapping v ]

  -- `HeartbeatState.load`: `epoch` is what the epoch factory gives, `shown` is `str` on values that
  -- are no texts. The result is the file after the call with the state.
  unfoldable pub load :
      (Value → String)
      → SaveFault
      → StateFile
      → String
      → String
      → String
      → Result StateError (StateFile × HeartbeatState)
  unfolding save stored_state
  load shown fault absent runner_id producer_id epoch =
      start_new fault (fresh runner_id producer_id epoch)
  load shown fault (content v) runner_id producer_id epoch = elim (mapping_of v) [
    | none ↦ start_new fault (fresh runner_id producer_id epoch)
    | some raw ↦ load_fields shown fault (content v) runner_id producer_id epoch raw
  ]

  -- `HeartbeatState.reserve`: the file after the call, the next state and the reserved number.
  unfoldable pub reserve :
      SaveFault → HeartbeatState → Result StateError (StateFile × HeartbeatState × ℕ)
  unfolding save
  reserve fault state =
      let next_state = record state { next_sequence = state.next_sequence + 1 } in
      do file ← save fault next_state; ok (file, next_state, state.next_sequence)
