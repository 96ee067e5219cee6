-- ===== src/Deploy/Command.antt =====
-- deploy.py: `main` with its commands, on arguments that argparse has read: what is printed, and the
-- exit code.
use runner_observability.Base.{
  ℕ, String, Bool, true, false, Option, none, some, List, [], ◌∷◌, ◌++◌, map, Result, ok, err,
  string_eq, ◌==◌, if◌then◌else◌,
}
use Prim.Native.String.{◌++◌ as append}
use runner_observability.Python.{Python}
use runner_observability.Deploy.Layout.{
  Raised, invalid_revision, file_not_found, os_error, other_error,
}
use runner_observability.Deploy.Preflight.{CheckResult, Machine, preflight_passed, run_preflight}
use runner_observability.Deploy.Release.{DeployResult, Host, Attempt, deploy_release}

abbrev show_bool : Bool → String
show_bool true = "True"
show_bool false = "False"

abbrev check_line : CheckResult → String
check_line check = append "  - " (
    append check.name (
      append (if check.passed then ": PASS" else ": FAIL")
        (if check.reason == "" then "" else append " reason=" check.reason)))

unfoldable pub print_preflight : List CheckResult → List String
unfolding preflight_passed
print_preflight checks =
    append "preflight passed=" (show_bool (preflight_passed checks)) ∷ map check_line checks

-- `_probe_from_result`: a probe that answers what the operator has said
unfoldable pub probe_from_result : Option String → Option (Option Bool)
probe_from_result none = none
probe_from_result (some value) =
    if value == "pass"
    then some (some true)
    else if value == "fail"
    then some (some false)
    else none

-- The command `preflight`: whatever the checks raise is caught.
unfoldable pub preflight_command : Machine → List String × ℕ
unfolding run_preflight print_preflight
preflight_command machine = elim (run_preflight machine) [
  | err e ↦ ("preflight passed=False reason=unexpected_deploy_error" ∷ [], 1)
  | ok checks ↦ (print_preflight checks, if preflight_passed checks then 0 else 1)
]

abbrev caught_reason : Raised → String
caught_reason invalid_revision = "invalid_revision_identifier"
caught_reason file_not_found = "source_unavailable"
caught_reason os_error = "install_root_unwritable"
caught_reason other_error = "unexpected_deploy_error"

abbrev shown_revision : Raised → String → String
shown_revision invalid_revision revision = "INVALID"
shown_revision _ revision = revision

abbrev deploy_line : String → String → Bool → Bool → String → String
deploy_line command revision success rolled_back reason = append "deploy command=" (
    append command (
      append " revision=" (
        append revision (
          append " success=" (
            append (show_bool success) (
              append " rolled_back="
                (append (show_bool rolled_back) (append " reason=" reason))))))))

-- what is printed last, and the exit code
abbrev pub finish : String → String → Result Raised DeployResult → String × ℕ
finish command revision (err e) =
    (deploy_line command (shown_revision e revision) false false (caught_reason e), 1)
finish command revision (ok r) = (
  deploy_line command r.revision r.success r.rolled_back
      (if r.failure_reason == "" then "none" else r.failure_reason),
  if r.success then 0 else 1,
)

-- The commands `install` and `update`; the smoke test is the only check after the activation. What
-- the preflight raises is not caught here.
unfoldable pub deploy_command :
    Python
    → (String → String)
    → String
    → Attempt
    → Machine
    → Option Bool
    → Host
    → String
    → Result Raised (Host × List String × ℕ)
unfolding run_preflight print_preflight deploy_release
deploy_command py strip command attempt machine smoke host revision = elim (run_preflight machine) [
  | err e ↦ err e
  | ok checks ↦
      let checked = record attempt { checks = ("smoke_test", smoke) ∷ [] } in
      let (host', result) = deploy_release py strip checked checks host revision in
      let (line, code) = finish command revision result in
      ok (host', print_preflight checks ++ line ∷ [], code)
]
