-- ===== src/Service/Child.antt =====
-- service.py: `MonitorChildSupervisor`, `SvcDoRun`, and the exit codes of `run_service` and `main`.
-- The process is a parameter: what its calls answer.
use runner_observability.Base.{
  ℕ, zero, suc, ◌+◌, String, Bool, true, false, Option, none, some, List, [], ◌∷◌, ℤ, pos, negsuc,
  Result, ok, err, nat_eq, if◌then◌else◌,
}
use runner_observability.Service.Config.{ServiceConfig}

-- The n-th call of `poll`, the test of the stop event in the n-th round, and whether terminating and
-- killing the process end it within the timeout; otherwise they raise an OSError or a timeout.
pub record ChildProcess : Type 0 where
  pub poll : ℕ → Option ℤ
  pub stop_is_set : ℕ → Bool
  pub terminates : Bool
  pub kills : Bool

pub data ChildCall : Type 0 where
  terminate kill : ChildCall

-- the first test of `stop`
abbrev stop_running : ChildProcess → Option ℤ → List ChildCall
stop_running child (some code) = []
stop_running child none = if child.terminates then terminate ∷ [] else terminate ∷ kill ∷ []

-- The calls that `stop` makes; its own call of `poll` is the n-th. A kill that fails is ignored.
unfoldable pub stop : ChildProcess → ℕ → List ChildCall
stop child n = stop_running child (child.poll n)

abbrev code_or_zero : Option ℤ → ℤ
code_or_zero none = pos 0
code_or_zero (some code) = code

-- what `run` returns after a stop in the given round, and the calls of the stop
abbrev pub stopped : ChildProcess → ℕ → ℤ × List ChildCall
stopped child round = (code_or_zero (child.poll (round + 2)), stop child (round + 1))

abbrev pub run_round :
    ChildProcess → ℕ → Option ℤ → Option (ℤ × List ChildCall) → Option (ℤ × List ChildCall)
run_round child round (some code) rest = some (code, [])
run_round child round none rest =
    if child.stop_is_set round then some (stopped child round) else rest

-- The loop of `run` with a bound on its rounds: the return code and the calls that stop the child.
unfoldable pub run : ℕ → ChildProcess → ℕ → Option (ℤ × List ChildCall)
unfolding stop
run zero child round = none
run (suc fuel) child round = run_round child round (child.poll round) (run fuel child (round + 1))

-- `SvcDoRun`: the reason that is logged. `none` is an OSError of `run`.
unfoldable pub svc_do_run : Option ℤ → Option String
svc_do_run none = some "service_child_start_failed"
svc_do_run (some (pos n)) = if nat_eq n 0 then none else some "service_child_failed"
svc_do_run (some (negsuc n)) = some "service_child_failed"

abbrev exit_code : Result String ServiceConfig → Bool → String × ℕ
exit_code (err reason) has_api = (reason, 2)
exit_code (ok config) true = ("", 0)
exit_code (ok config) false = ("windows_service_unavailable", 2)

-- `main run`: the reason that is printed, if any, and the exit code, from the configuration that is
-- read and whether the API of Windows services is there
unfoldable pub main : Result String ServiceConfig → Bool → String × ℕ
main config has_api = exit_code config has_api
