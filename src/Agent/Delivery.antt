-- ===== src/Agent/Delivery.antt =====
-- agent.py: `deliver_event`, one delivery with bounded retries. Times are in microseconds. The
-- transport and the clock are parameters: what the n-th call of the transport does, and what the
-- clock shows before and after it.
use runner_observability.Base.{
  ℕ, zero, suc, ◌+◌, String, Bool, true, false, ◌&&◌, ◌||◌, Option, none, some, Result, ok, err,
  leb, ltb, nat_eq, if◌then◌else◌,
}
use Prim.Native.Nat.{min}
use runner_observability.Value.{Value}
use runner_observability.Python.{Python, Exception, validation_error}
use runner_observability.Contracts.Event.{ValidatedEvent, validate_event}

abbrev pub max_retries : ℕ
max_retries = 2

abbrev pub max_delivery_time : ℕ
max_delivery_time = 5000000

pub record DeliveryResult : Type 0 where
  pub delivered : Bool
  pub attempts : ℕ
  pub reason : Option String
  pub http_status : Option ℕ

-- A call of the transport returns a status, raises an OSError (a TimeoutError and a URLError are
-- such), or raises another exception.
pub data Answer : Type 0 where
  status : ℕ → Answer
  network_error : Answer
  other_error : Answer

pub record Network : Type 0 where
  pub started_at : ℕ
  pub before : ℕ → ℕ
  pub after : ℕ → ℕ
  pub answer : ℕ → Answer

abbrev pub is_success : ℕ → Bool
is_success s = leb 200 s && ltb s 300

abbrev pub is_temporary : ℕ → Bool
is_temporary s = nat_eq s 429 || leb 500 s && ltb s 600

abbrev pub failed_delivery : ℕ → String → Option ℕ → DeliveryResult
failed_delivery attempts reason http_status = record {
  delivered = false;
  attempts = attempts;
  reason = some reason;
  http_status = http_status;
}

-- How a round of the loop ends: with a result, or with the reason and the status to go on with.
pub data Round : Type 0 where
  done : DeliveryResult → Round
  again : String → Option ℕ → Round

-- The part of a round after the call, at which `attempts` have been made.
unfoldable pub after_call : ℕ → Option ℕ → Answer → Round
after_call attempts http_status network_error = again "temporary_network_failure" http_status
after_call attempts http_status other_error =
    done (failed_delivery attempts "transport_failure" http_status)
after_call attempts http_status (status s) =
    if is_success s
    then done
        (record { delivered = true; attempts = attempts; reason = none; http_status = some s })
    else if is_temporary s
    then again "temporary_http_failure" (some s)
    else done (failed_delivery attempts "rejected_http_response" (some s))

-- Whether the budget is used up at a time of the clock.
abbrev pub is_over : Network → ℕ → ℕ → Bool
is_over net budget now = leb (net.started_at + budget) now

-- The loop on fuel; `none` means that the fuel ran out. `attempts` calls have been made so far.
unfoldable pub attempt_loop : ℕ → Network → ℕ → ℕ → String → Option ℕ → Option DeliveryResult
unfolding after_call
attempt_loop zero net budget attempts reason http_status = none
attempt_loop (suc fuel) net budget attempts reason http_status =
    if ltb 0 attempts && is_over net budget (net.before attempts)
    then some (failed_delivery attempts reason http_status)
    else elim (after_call (suc attempts) http_status (net.answer attempts)) [
      | done result ↦ some result
      | again reason' http_status' ↦
          let rest = attempt_loop fuel net budget (suc attempts) reason' http_status' in
          if ltb max_retries (suc attempts) || is_over net budget (net.after attempts)
          then some (failed_delivery (suc attempts) reason' http_status')
          else rest
    ]

-- A round for every call that may be made.
abbrev pub enough_rounds : ℕ
enough_rounds = max_retries + 1

-- `deliver_event` after the validation.
unfoldable pub deliver_validated : Network → ℕ → Option DeliveryResult
unfolding attempt_loop
deliver_validated net max_duration =
    let budget = min max_delivery_time max_duration in
    if nat_eq budget 0
    then some (failed_delivery 0 "temporary_network_failure" none)
    else attempt_loop enough_rounds net budget 0 "temporary_network_failure" none

abbrev deliver_result :
    Network → ℕ → Result Exception ValidatedEvent → Result Exception (Option DeliveryResult)
deliver_result net max_duration (ok validated) = ok (deliver_validated net max_duration)
deliver_result net max_duration (err (validation_error reason)) =
    ok (some (failed_delivery 0 reason none))
deliver_result net max_duration (err e) = err e

-- Only a ValidationError of the validation is caught.
unfoldable pub deliver_event :
    Python → Network → Value → ℕ → Result Exception (Option DeliveryResult)
deliver_event py net event max_duration = deliver_result net max_duration (validate_event py event)
