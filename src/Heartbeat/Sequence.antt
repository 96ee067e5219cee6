-- ===== src/Heartbeat/Sequence.antt =====
-- The sequence numbers of the heartbeats, and the state file that keeps them over a restart.
use runner_observability.Base.{
  ℕ, ◌+◌, ◌≤◌, String, ◌≡◌, refl, true, none, some, Result, ok, err, arith, string_eq, leb, eq_refl,
  ◌⊎◌, inl, inr,
}
use runner_observability.Value.{Value, get, keys}
use runner_observability.Value.Sorted.{sort_keys, insert_key}
use runner_observability.Python.{Python, Exception, os_error}
use runner_observability.Contracts.Fields.{identifier}
use runner_observability.Heartbeat.State.{
  HeartbeatState, StateFile, SaveFault, no_fault, mkdir_fails, write_fails, removal_fails, content,
  state_mapping, save, stored_state, load, reserve,
}
use runner_observability.Agent.Delivery.{DeliveryResult, failed_delivery}
use runner_observability.Heartbeat.Loop.{
  HeartbeatLoop, Beat, heartbeat_event, flush_outbox, current_state, record_status, emit_once,
}

leb-positive : (n : ℕ) → 1 ≤ n → leb 1 n ≡ true
leb-positive n h = ground arith

-- `json.loads` reads the text of a saved state as its JSON with the keys in order.
abbrev pub IsReadBack : Python → HeartbeatState → Type 0
IsReadBack py state =
    py.loads (py.dump_sorted (state_mapping state)) ≡ some (sort_keys (state_mapping state))

abbrev pub saved : Python → HeartbeatState → StateFile
saved py state = content (some (py.dump_sorted (state_mapping state)))

-- The file of a state is read as that state.
load-saved :
    (py : Python) (shown : Value → String) (fault : SaveFault) (state : HeartbeatState)
    (new_epoch : String)
    → IsReadBack py state
    → py.re_fullmatch identifier state.producer_epoch ≡ true
    → leb 1 state.next_sequence ≡ true
    → load py shown fault (saved py state) state.runner_id state.producer_id new_epoch
      ≡ ok (saved py state, state)
unfolding load stored_state get keys sort_keys insert_key
load-saved py shown fault state new_epoch read good positive =
    rw (load, read, eq_refl state.runner_id, eq_refl state.producer_id, good, positive) refl

abbrev pub after : HeartbeatState → HeartbeatState
after state = record state { next_sequence = state.next_sequence + 1 }

-- The file that a successful `reserve` leaves has the next number for the same producer and epoch: a
-- restart that reads it goes on with exactly that state, and the reserved number is the one before.
-- The epoch is an identifier, the configured identities are those of the state, and `json.loads` reads
-- the text that is saved as its JSON with the keys in order.
pub load-reserve :
    (py : Python) (shown : Value → String) (fault : SaveFault) (state : HeartbeatState)
    (new_epoch : String) {file : StateFile} {next_state : HeartbeatState} {sequence : ℕ}
    → py.re_fullmatch identifier state.producer_epoch ≡ true
    → IsReadBack py (after state)
    → reserve py fault state ≡ ok (file, next_state, sequence)
    → (load py shown fault file state.runner_id state.producer_id new_epoch ≡ ok (file, next_state))
      × (sequence ≡ state.next_sequence)
      × (next_state.next_sequence ≡ sequence + 1)
unfolding reserve save
load-reserve py shown no_fault state new_epoch good read h =
    let positive : leb 1 (state.next_sequence + 1) ≡ true = ground arith in
    ground (arith, load-saved py shown no_fault (after state) new_epoch read good positive)
load-reserve py shown mkdir_fails state new_epoch good read h = cc
load-reserve py shown removal_fails state new_epoch good read h = cc
load-reserve py shown write_fails state new_epoch good read h = cc

-- What one heartbeat does to the numbers of a loop where the state file is saved, and where it is not.
pub record Sent (py : Python) (beat : Beat) (loop loop' : HeartbeatLoop) (state : HeartbeatState)
    (result : Result Exception DeliveryResult) : Type 0 where
  pub held : loop'.state ≡ some (after state)
  pub file : loop'.state_file ≡ saved py (after state)
  pub config : loop'.config ≡ loop.config
  pub event :
      result
      ≡ ok (
          beat.deliver
            (heartbeat_event loop.config state state.next_sequence beat.event_id beat.occurred_at))

pub record Unsent (loop loop' : HeartbeatLoop) (state : HeartbeatState)
    (result outcome : Result Exception DeliveryResult) : Type 0 where
  pub held : loop'.state ≡ some state
  pub file : loop'.state_file ≡ loop.state_file
  pub config : loop'.config ≡ loop.config
  pub event : result ≡ outcome

-- One heartbeat, by how the state file is saved.
abbrev pub IsEmitted :
    Python
    → Beat
    → HeartbeatLoop
    → HeartbeatState
    → HeartbeatLoop × Result Exception DeliveryResult
    → Type 0
IsEmitted py beat loop state (loop', result) =
    ((beat.state_fault ≡ no_fault) × Sent py beat loop loop' state result)
    ⊎ ((beat.state_fault ≡ write_fails)
        × Unsent loop loop' state result (ok (failed_delivery 0 "state_file_unwritable" none)))
    ⊎ ((beat.state_fault ≡ mkdir_fails) ⊎ (beat.state_fault ≡ removal_fails))
      × Unsent loop loop' state result (err os_error)

SaveFault-cases :
    (fault : SaveFault)
    → (fault ≡ no_fault) ⊎ (fault ≡ write_fails) ⊎ (fault ≡ mkdir_fails) ⊎ (fault ≡ removal_fails)
SaveFault-cases no_fault = inl refl
SaveFault-cases write_fails = inr (inl refl)
SaveFault-cases mkdir_fails = inr (inr (inl refl))
SaveFault-cases removal_fails = inr (inr (inr refl))

-- A heartbeat of a running loop, whose token is there, delivers the event with the number of the
-- loop's state, and the state file and the loop go on to the next number. Or the state file cannot be
-- saved, and the file, the loop's state and its number stay: the result is then a failure without an
-- attempt, or, where the directory cannot be made or a temporary file not be removed, an OSError that
-- escapes.
pub emit_once-numbers :
    (py : Python) (beat : Beat) (loop : HeartbeatLoop) {state : HeartbeatState} {token : String}
    → beat.token ≡ ok token
    → loop.state ≡ some state
    → IsEmitted py beat loop state (emit_once py beat loop)
unfolding emit_once flush_outbox current_state reserve save record_status heartbeat_event
emit_once-numbers py beat loop known running = elim (SaveFault-cases beat.state_fault) [
  | inl fine ↦ ground (arith)
  | inr (inl fails) ↦ ground (arith)
  | inr (inr (inl fails)) ↦ ground (arith)
  | inr (inr (inr fails)) ↦ ground (arith)
]

-- After a restart, a loop that has no state yet reads the file of its configured producer, whose
-- epoch is an identifier and whose number is positive, and which `json.loads` reads as its JSON with
-- the keys in order. Its first heartbeat, whose token is there, goes on with exactly the number of
-- that file: it delivers the event with that number, and the file and the loop go on to the next one.
-- Or the state file cannot be saved: the file stays, the loop has the file's state, and the result is
-- a failure without an attempt or, where the directory cannot be made or a temporary file not be
-- removed, an OSError that escapes.
pub emit_once-restart :
    (py : Python) (beat : Beat) (loop : HeartbeatLoop) (state : HeartbeatState) {token : String}
    → beat.token ≡ ok token
    → loop.state ≡ none
    → loop.state_file ≡ saved py state
    → loop.config.runner_id ≡ state.runner_id
    → loop.config.producer_id ≡ state.producer_id
    → py.re_fullmatch identifier state.producer_epoch ≡ true
    → 1 ≤ state.next_sequence
    → IsReadBack py state
    → IsEmitted py beat loop state (emit_once py beat loop)
unfolding emit_once flush_outbox current_state reserve save record_status heartbeat_event
emit_once-restart py beat loop state known stopped file runner producer good positive read =
    let loaded =
      load-saved py beat.shown beat.state_fault state beat.new_epoch read good
        (leb-positive state.next_sequence positive) in
    elim (SaveFault-cases beat.state_fault) [
      | inl fine ↦ ground (arith, loaded)
      | inr (inl fails) ↦ ground (arith, loaded)
      | inr (inr (inl fails)) ↦ ground (arith, loaded)
      | inr (inr (inr fails)) ↦ ground (arith, loaded)
    ]
