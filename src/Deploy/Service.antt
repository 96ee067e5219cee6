-- ===== src/Deploy/Service.antt =====
-- deploy.py: `WindowsScServiceLifecycle`, on the answers of the command runner.
use runner_observability.Base.{
  String, Bool, true, false, not, ◌&&◌, Option, none, some, string_eq, ◌==◌, if◌then◌else◌,
}

-- The result of a command: whether its return code is 0, and which of the words that are looked for
-- its output has.
pub record Completed : Type 0 where
  pub success : Bool
  pub has_running : Bool
  pub has_stopped : Bool

-- A runner of commands by the action; `none` means that it raises.
pub record CommandRunner : Type 0 where
  pub run : String → Option Completed

abbrev status_word : Completed → String
status_word result =
    if not result.success && not result.has_stopped
    then "unknown"
    else if result.has_running
    then "running"
    else if result.has_stopped
    then "stopped"
    else "unknown"

unfoldable pub status : CommandRunner → String
status runner = elim (runner.run "query") [ none ↦ "unknown" | some result ↦ status_word result ]

unfoldable pub invoke : CommandRunner → String → Bool
invoke runner action = elim (runner.run action) [ none ↦ false | some result ↦ result.success ]

unfoldable pub stop : CommandRunner → Bool
unfolding status invoke
stop runner = if status runner == "stopped" then true else invoke runner "stop"

unfoldable pub start : CommandRunner → Bool
unfolding status invoke
start runner = if status runner == "running" then true else invoke runner "start"
