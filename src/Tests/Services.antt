-- ===== src/Tests/Services.antt =====
-- The service of the monitor: a configuration, and a child that has to be stopped.
use runner_observability.Base.{
  ℕ, String, ◌≡◌, ◌≤◌, refl, inr, Bool, true, none, some, List, ℤ, pos, ok, nat_eq, string_eq, ◌==◌,
  not,
}
use runner_observability.Value.{Value, dict, str, int, field, end, keys, get}
use runner_observability.Service.Config.{ServiceConfig, from_mapping, to_mapping}
use runner_observability.Service.Settings.{IsServiceConfig, from_mapping-IsServiceConfig}
use runner_observability.Service.Child.{ChildProcess, ChildCall, run}
use runner_observability.Service.Ends.{EndsAt, run_ends}

abbrev is_visible : String → Bool
is_visible s = not (s == "")

abbrev value : Value
value = dict (field "token_file" (str "token.txt") (field "port" (int (pos 443)) end))

abbrev config : ServiceConfig
config = record {
  service_name = "RunnerObservabilityMonitor";
  python_executable = "python.exe";
  database = "runner-observability.sqlite";
  token_file = "token.txt";
  host = "0.0.0.0";
  port = 443;
  tls_cert = none;
  tls_key = none;
  release_root = none;
}

accepted : from_mapping is_visible "python.exe" value ≡ ok config
unfolding from_mapping keys get
accepted = refl

from_mapping-IsServiceConfig_example :
    IsServiceConfig is_visible "python.exe" config
    × (from_mapping is_visible "python.exe" (to_mapping config) ≡ ok config)
from_mapping-IsServiceConfig_example =
    from_mapping-IsServiceConfig is_visible "python.exe" value accepted

-- it runs on until it is killed
abbrev child : ChildProcess
child = record {
  poll = λ n. none;
  stop_is_set = λ n. nat_eq n 2;
  terminates = not true;
  kills = true;
}

run_ends_example :
    (outcome : ℤ × List ChildCall) × (run 3 child 0 ≡ some outcome)
    × (k : ℕ) × (k ≤ 2)
    × EndsAt child 0 k outcome
run_ends_example = run_ends child 2 (inr refl)
