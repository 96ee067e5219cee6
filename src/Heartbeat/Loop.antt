-- ===== src/Heartbeat/Loop.antt =====
-- heartbeat.py: one heartbeat of a `HeartbeatLoop`, from the token to the status file.
use runner_observability.Base.{
  ℕ, ◌/◌, String, Bool, ◌||◌, Option, none, some, List, [], ◌∷◌, pos, Result, ok, err, string_eq,
  ltb, contains, if◌then◌else◌,
}
use runner_observability.Value.{Value, dict, field, end, int, str}
use runner_observability.Python.{Python, Exception}
use runner_observability.Agent.Delivery.{DeliveryResult, failed_delivery}
use runner_observability.Outbox.State.{Outbox, Faults}
use runner_observability.Outbox.Drain.{World, drain}
use runner_observability.Heartbeat.Config.{HeartbeatConfig}
use runner_observability.Heartbeat.State.{
  HeartbeatState, StateFile, SaveFault, StateError, heartbeat_state_error, raised, load, reserve,
}

-- `_http_status_class`: the first digit of a status, which the source shows with `xx` after it
unfoldable pub http_status_class : Option ℕ → Option ℕ
http_status_class none = none
http_status_class (some status) =
    if ltb status 100 || ltb 599 status then none else some (status / 100)

abbrev pub safe_failure_reasons : List String
safe_failure_reasons =
    "auth_credential_file_missing" ∷ "auth_credential_invalid" ∷ "state_identity_mismatch"
    ∷ "state_file_unwritable" ∷ "temporary_network_failure" ∷ "transport_failure"
    ∷ "temporary_http_failure" ∷ "rejected_http_response" ∷ "delivery_failed" ∷ []

unfoldable pub safe_failure_reason : Option String → String
safe_failure_reason none = "delivery_failed"
safe_failure_reason (some reason) =
    if contains reason safe_failure_reasons then reason else "delivery_failed"

-- The status file.
pub record Status : Type 0 where
  pub service_name : String
  pub runner_id : String
  pub last_attempt_at : String
  pub last_success_at : Option String
  pub last_result : String
  pub last_attempt_count : ℕ
  pub last_http_status_class : Option ℕ
  pub last_failure_reason : Option String

pub record HeartbeatLoop : Type 0 where
  pub config : HeartbeatConfig
  pub state : Option HeartbeatState
  pub state_file : StateFile
  pub status_file : Option Status
  pub last_success_at : Option String
  pub outbox : Option Outbox

-- What one heartbeat meets: the clock, the token file, how the state file is saved, whether the
-- status file cannot be written, fresh UUIDs,
-- the delivery, and what the outbox meets.
pub record Beat : Type 0 where
  pub attempt_at : String
  pub token : Result String String
  pub state_fault : SaveFault
  pub status_unwritable : Bool
  pub new_epoch : String
  pub event_id : String
  pub occurred_at : String
  pub shown : Value → String
  pub deliver : Value → DeliveryResult
  pub faults : Faults
  pub world : World

-- `_heartbeat_event`
unfoldable pub heartbeat_event : HeartbeatConfig → HeartbeatState → ℕ → String → String → Value
heartbeat_event config state sequence event_id occurred_at = dict (
    field "schema_version" (int (pos 1)) (
      field "event_type" (str "runner.heartbeat") (
        field "event_id" (str event_id) (
          field "runner_id" (str config.runner_id) (
            field "producer_id" (str config.producer_id) (
              field "producer_epoch" (str state.producer_epoch) (
                field "producer_sequence" (int (pos sequence))
                  (field "occurred_at" (str occurred_at) end))))))))

abbrev new_success : HeartbeatLoop → DeliveryResult → String → Option String
new_success loop result attempt_at =
    if result.delivered then some attempt_at else loop.last_success_at

abbrev status_of : HeartbeatLoop → DeliveryResult → String → Status
status_of loop result attempt_at = record {
  service_name = loop.config.service_name;
  runner_id = loop.config.runner_id;
  last_attempt_at = attempt_at;
  last_success_at = new_success loop result attempt_at;
  last_result = if result.delivered then "success" else "failure";
  last_attempt_count = result.attempts;
  last_http_status_class = http_status_class result.http_status;
  last_failure_reason = if result.delivered then none else some (safe_failure_reason result.reason);
}

-- `_record_status`: a status file that cannot be written is left alone.
unfoldable pub record_status : Bool → HeartbeatLoop → DeliveryResult → String → HeartbeatLoop
unfolding http_status_class safe_failure_reason
record_status unwritable loop result attempt_at = record loop {
  last_success_at = new_success loop result attempt_at;
  status_file = if unwritable then loop.status_file else some (status_of loop result attempt_at);
}

-- the way out of `emit_once` on a failure before the delivery
abbrev fail_early : Beat → HeartbeatLoop → String → HeartbeatLoop × Result Exception DeliveryResult
fail_early beat loop reason =
    let result = failed_delivery 0 reason none in
    (record_status beat.status_unwritable loop result beat.attempt_at, ok result)

-- a HeartbeatStateError is caught, any other exception escapes
abbrev fail_state :
    Beat → HeartbeatLoop → StateError → HeartbeatLoop × Result Exception DeliveryResult
fail_state beat loop (heartbeat_state_error reason) = fail_early beat loop reason
fail_state beat loop (raised e) = (loop, err e)

module _ (py : Python) where
  -- `_flush_outbox`: it catches whatever the drain raises, and there may be no outbox.
  unfoldable pub flush_outbox : Beat → HeartbeatLoop → HeartbeatLoop
  unfolding drain
  flush_outbox beat loop = elim loop.outbox [
    | none ↦ loop
    | some outbox ↦ record loop { outbox = some (drain py beat.faults beat.world outbox).0 }
  ]

  -- the state of the loop, or that of the file, with the file after the call
  unfoldable pub current_state :
      Beat → HeartbeatLoop → Result StateError (StateFile × HeartbeatState)
  unfolding load
  current_state beat loop = elim loop.state [
    | some state ↦ ok (loop.state_file, state)
    | none ↦
        load py beat.shown beat.state_fault loop.state_file loop.config.runner_id
          loop.config.producer_id beat.new_epoch
  ]

  abbrev send :
      Beat → HeartbeatLoop → HeartbeatState → ℕ → HeartbeatLoop × Result Exception DeliveryResult
  send beat loop state sequence =
      let result =
        beat.deliver (heartbeat_event loop.config state sequence beat.event_id beat.occurred_at) in
      (record_status beat.status_unwritable loop result beat.attempt_at, ok result)

  abbrev emit_reserved :
      Beat
      → HeartbeatLoop
      → Result StateError (StateFile × HeartbeatState × ℕ)
      → HeartbeatLoop × Result Exception DeliveryResult
  emit_reserved beat loop (err e) = fail_state beat loop e
  emit_reserved beat loop (ok (file, state, sequence)) =
      send beat (record loop { state = some state; state_file = file }) state sequence

  abbrev emit_from :
      Beat
      → HeartbeatLoop
      → Result StateError (StateFile × HeartbeatState)
      → HeartbeatLoop × Result Exception DeliveryResult
  emit_from beat loop (err e) = fail_state beat loop e
  emit_from beat loop (ok (file, state)) =
      emit_reserved beat (record loop { state = some state; state_file = file })
        (reserve py beat.state_fault state)

  abbrev emit_with_token :
      Beat → HeartbeatLoop → Result String String → HeartbeatLoop × Result Exception DeliveryResult
  emit_with_token beat loop (err reason) = fail_early beat loop reason
  emit_with_token beat loop (ok token) =
      let flushed = flush_outbox beat loop in emit_from beat flushed (current_state beat flushed)

  -- The loop after one heartbeat, and the result of its delivery or what is raised.
  unfoldable pub emit_once : Beat → HeartbeatLoop → HeartbeatLoop × Result Exception DeliveryResult
  unfolding flush_outbox current_state reserve record_status
  emit_once beat loop = emit_with_token beat loop beat.token
