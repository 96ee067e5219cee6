-- ===== src/Deploy/Release.antt =====
-- deploy.py: `deploy_release` and `_rollback_after_failure`. Every call returns the host as the call
-- leaves it, also where an exception leaves the function.
use runner_observability.Base.{
  String, Bool, true, false, not, Option, none, some, List, [], ◌∷◌, ◌++◌, Result, ok, err,
  if◌then◌else◌,
}
use Prim.Native.String.{◌++◌ as append}
use runner_observability.Python.{Python}
use runner_observability.Deploy.Layout.{
  ReleaseLayout, Raised, invalid_revision, file_not_found, os_error, other_error, StageFaults,
  validate_revision, current_revision, release_exists, stage_release, activate, deactivate,
}
use runner_observability.Deploy.Preflight.{CheckResult, preflight_passed, failure_reasons, holds}

pub record DeployResult : Type 0 where
  pub revision : String
  pub success : Bool
  pub rolled_back : Bool
  pub restored_revision : Option String
  pub failure_reason : String

pub data ServiceCall : Type 0 where
  stop_call start_call : ServiceCall

-- The install root, and the calls of the service so far.
pub record Host : Type 0 where
  pub layout : ReleaseLayout
  pub calls : List ServiceCall

-- What a deployment meets: the content of the source directory, the faults of its steps, the checks
-- after the activation by their names, and the answers of the service, if one is configured; `none`
-- is an exception of a check or of the service.
pub record Attempt : Type 0 where
  pub source : Option String
  pub staging : StageFaults
  pub activation : Option Raised
  pub restoration : Option Raised
  pub deactivation : Option Raised
  pub checks : List (String × Option Bool)
  pub has_service : Bool
  pub stop_answer : Option Bool
  pub start_answer : Option Bool

abbrev pub call : ServiceCall → Host → Host
call c host = record host { calls = host.calls ++ c ∷ [] }

abbrev pub with_layout : Host → ReleaseLayout → Host
with_layout host layout = record host { layout = layout }

abbrev pub failed : String → Bool → Option String → String → DeployResult
failed revision rolled_back restored reason = record {
  revision = revision;
  success = false;
  rolled_back = rolled_back;
  restored_revision = restored;
  failure_reason = reason;
}

-- the reason that `deploy_release` gives for what staging and activating raise
abbrev pub deployment_reason : Raised → String
deployment_reason file_not_found = "source_unavailable"
deployment_reason os_error = "install_root_unwritable"
deployment_reason invalid_revision = "deployment_failed"
deployment_reason other_error = "deployment_failed"

-- the name and the failure of the first check that does not pass
unfoldable pub first_failed : List (String × Option Bool) → Option String
first_failed [] = none
first_failed ((name, answer) ∷ checks) =
    let rest = first_failed checks in if holds answer then rest else some (append name "_failed")

-- an operation on the layout, and then more on the host
abbrev pub then_run {ℓ} :
    {A : Type ℓ}
    → Host
    → ReleaseLayout × Result Raised (Unit {0})
    → (Host → Host × Result Raised A)
    → Host × Result Raised A
then_run host (layout, err e) next = (with_layout host layout, err e)
then_run host (layout, ok _) next = next (with_layout host layout)

module _ (py : Python) (strip : String → String) (attempt : Attempt) where
  -- the service is started again as well as it can be, if it was stopped
  abbrev pub restart : Host → Host
  restart host = if attempt.has_service then call start_call host else host

  abbrev roll_back_to :
      Host → String → String → String → Result Raised Bool → Host × Result Raised DeployResult
  roll_back_to host revision previous reason (err e) = (host, err e)
  roll_back_to host revision previous reason (ok false) =
      then_run host (deactivate py strip attempt.deactivation host.layout)
        (λ h. (h, ok (failed revision true none "rollback_target_missing")))
  roll_back_to host revision previous reason (ok true) =
      then_run host (activate py strip attempt.restoration host.layout previous)
        (λ h. (restart h, ok (failed revision true (some previous) reason)))

  -- `_rollback_after_failure`. It is reached with a stopped service, if there is one.
  unfoldable pub rollback_after_failure :
      Host → String → Option String → String → Host × Result Raised DeployResult
  unfolding activate deactivate release_exists
  rollback_after_failure host revision none reason =
      then_run host (deactivate py strip attempt.deactivation host.layout)
        (λ h. (h, ok (failed revision true none reason)))
  rollback_after_failure host revision (some previous) reason =
      roll_back_to host revision previous reason (release_exists py strip host.layout previous)

  abbrev restore_if :
      Host → String → String → String → Result Raised Bool → Host × Result Raised DeployResult
  restore_if host revision previous reason (err e) = (host, err e)
  restore_if host revision previous reason (ok false) =
      (restart host, ok (failed revision true (some previous) reason))
  restore_if host revision previous reason (ok true) =
      then_run host (activate py strip attempt.restoration host.layout previous)
        (λ h. (restart h, ok (failed revision true (some previous) reason)))

  -- the part under `if deployment_failure_reason`
  unfoldable pub abandon :
      Host → String → Option String → String → Host × Result Raised DeployResult
  unfolding activate deactivate release_exists
  abandon host revision none reason =
      then_run host (deactivate py strip attempt.deactivation host.layout)
        (λ h. (restart h, ok (failed revision false none reason)))
  abandon host revision (some previous) reason =
      restore_if host revision previous reason (release_exists py strip host.layout previous)

  -- the start of the service, and the result of a success
  abbrev pub start_service :
      Host → String → Option String → Bool → Host × Result Raised DeployResult
  start_service host revision previous true = (
    restart host,
    ok (record {
      revision = revision;
      success = true;
      rolled_back = false;
      restored_revision = none;
      failure_reason = "";
    }),
  )
  start_service host revision previous false =
      rollback_after_failure (restart host) revision previous "service_start_failed"

  abbrev pub service_starts : Bool
  service_starts = if attempt.has_service then holds attempt.start_answer else true

  abbrev pub after_checks :
      Host → String → Option String → Option String → Host × Result Raised DeployResult
  after_checks host revision previous (some reason) =
      rollback_after_failure host revision previous reason
  after_checks host revision previous none = start_service host revision previous service_starts

  -- the checks after the activation, in order, up to the first that fails
  unfoldable pub verify : Host → String → Option String → Host × Result Raised DeployResult
  unfolding rollback_after_failure first_failed
  verify host revision previous = after_checks host revision previous (first_failed attempt.checks)

  abbrev pub after_activation :
      Host
      → String
      → Option String
      → ReleaseLayout × Result Raised (Unit {0})
      → Host × Result Raised DeployResult
  after_activation host revision previous (layout, err e) =
      abandon (with_layout host layout) revision previous (deployment_reason e)
  after_activation host revision previous (layout, ok _) =
      verify (with_layout host layout) revision previous

  abbrev pub after_staging :
      Host
      → String
      → Option String
      → ReleaseLayout × Result Raised (Unit {0})
      → Host × Result Raised DeployResult
  after_staging host revision previous (layout, err e) =
      abandon (with_layout host layout) revision previous (deployment_reason e)
  after_staging host revision previous (layout, ok _) =
      after_activation (with_layout host layout) revision previous
        (activate py strip attempt.activation layout revision)

  -- staging, activation and the checks, with the service stopped
  unfoldable pub install : Host → String → Option String → Host × Result Raised DeployResult
  unfolding stage_release activate abandon verify
  install host revision previous =
      after_staging host revision previous
        (stage_release py strip attempt.staging host.layout revision attempt.source)

  abbrev pub stop_service : Host → String → Option String → Host × Result Raised DeployResult
  stop_service host revision previous =
      if not attempt.has_service
      then install host revision previous
      else if holds attempt.stop_answer
      then install (call stop_call host) revision previous
      else (call stop_call host, ok (failed revision false previous "service_stop_failed"))

  abbrev pub first_reason : List String → String
  first_reason [] = "preflight_failed"
  first_reason (reason ∷ _) = reason

  -- the preflight gate
  abbrev pub deploy_over :
      List CheckResult → Host → String → Option String → Host × Result Raised DeployResult
  deploy_over preflight host revision previous =
      if not (preflight_passed preflight)
      then (host, ok (failed revision false previous (first_reason (failure_reasons preflight))))
      else stop_service host revision previous

  abbrev pub deploy_validated :
      List CheckResult → Host → Result Raised String → Host × Result Raised DeployResult
  deploy_validated preflight host (err e) = (host, err e)
  deploy_validated preflight host (ok revision) =
      deploy_over preflight host revision (current_revision py strip host.layout)

  unfoldable pub deploy_release :
      List CheckResult → Host → String → Host × Result Raised DeployResult
  unfolding validate_revision install preflight_passed failure_reasons current_revision
  deploy_release preflight host revision =
      deploy_validated preflight host (validate_revision py strip revision)
