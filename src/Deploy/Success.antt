-- ===== src/Deploy/Success.antt =====
-- What a deployment that succeeds has done, and what happens to a release that is deployed again.
use runner_observability.Base.{
  All, &&-eq-true, [], ◌∷◌, String, ◌≡◌, ◌≢◌, refl, sym, ap, ◌∙◌, subst, Bool, true, false, not,
  Option, none, some, Result, ok, err, arith, string_eq, if◌then◌else◌, Bool-cases, inl, inr, ◌⊎◌,
  ◌&&◌, List,
}
use runner_observability.Base.Table.{select}
use runner_observability.Python.{Python}
use runner_observability.Deploy.Layout.{
  ReleaseLayout, Raised, invalid_revision, revision_pattern, has_two_dots, validate_revision,
  current_revision, release_exists, stage_release, activate, deactivate,
}
use runner_observability.Deploy.Staging.{
  pointer-activate, select-stage_release, stage_release-source,
}
use runner_observability.Deploy.Preflight.{CheckResult, preflight_passed, failure_reasons, holds}
use runner_observability.Deploy.Release.{
  DeployResult, Host, Attempt, with_layout, failed, restart, rollback_after_failure, abandon,
  verify, install, deploy_validated, deploy_over, deploy_release, first_failed, start_service,
  service_starts, after_activation, after_staging, after_checks, stop_service, first_reason, call,
  stop_call, start_call, deployment_reason,
}

-- What has happened where a deployment of `revision` on `layout` has succeeded with `layout'`.
pub record IsDeployed (attempt : Attempt) (preflight : List CheckResult) (revision : String)
    (layout layout' : ReleaseLayout) : Type 0 where
  pub gate : All (λ (c : CheckResult). c.passed ≡ true) preflight
  pub checked : All (λ (c : String × Option Bool). holds c.1 ≡ true) attempt.checks
  pub pointer : layout'.current_pointer ≡ some revision
  pub release : select revision layout'.releases ≡ attempt.source
  pub staged : attempt.source ≢ none
  pub others :
      (other : String)
      → revision ≢ other
      → select other layout'.releases ≡ select other layout.releases

preflight_passed-All :
    (checks : List CheckResult)
    → preflight_passed checks ≡ true
    → All (λ (c : CheckResult). c.passed ≡ true) checks
unfolding preflight_passed
preflight_passed-All [] h = tt
preflight_passed-All (c ∷ checks) h =
    let (first, rest) = &&-eq-true c.passed (preflight_passed checks) h in
    (first, preflight_passed-All checks rest)

first_failed-All :
    (checks : List (String × Option Bool))
    → first_failed checks ≡ none
    → All (λ (c : String × Option Bool). holds c.1 ≡ true) checks
unfolding first_failed
first_failed-All [] h = tt
first_failed-All ((name, answer) ∷ checks) h = elim (Bool-cases (holds answer)) [
  | inl good ↦ (good, first_failed-All checks (rw good at h))
  | inr bad ↦ absurd (ground (arith, bad))
]

-- A result that is no success.
abbrev IsNoSuccess : Host × Result Raised DeployResult → Type 0
IsNoSuccess (host, err e) = Unit
IsNoSuccess (host, ok r) = r.success ≡ false

module _ (py : Python) (strip : String → String) (attempt : Attempt) where
  rollback-IsNoSuccess :
      (host : Host) (revision : String) (previous : Option String) (reason : String)
      → IsNoSuccess (rollback_after_failure py strip attempt host revision previous reason)
  unfolding rollback_after_failure release_exists activate deactivate
  rollback-IsNoSuccess host revision none reason = ground arith
  rollback-IsNoSuccess host revision (some previous) reason = ground arith

  abandon-IsNoSuccess :
      (host : Host) (revision : String) (previous : Option String) (reason : String)
      → IsNoSuccess (abandon py strip attempt host revision previous reason)
  unfolding abandon release_exists activate deactivate
  abandon-IsNoSuccess host revision none reason = ground arith
  abandon-IsNoSuccess host revision (some previous) reason = ground arith

-- What holds of the host wherever a result is a success.
abbrev OnSuccess : (Host → Type 0) → Host × Result Raised DeployResult → Type 0
OnSuccess P (host, err e) = Unit
OnSuccess P (host, ok r) = r.success ≡ true → P host

OnSuccess-IsNoSuccess :
    (P : Host → Type 0) (r : Host × Result Raised DeployResult) → IsNoSuccess r → OnSuccess P r
OnSuccess-IsNoSuccess P (host, err e) h = tt
OnSuccess-IsNoSuccess P (host, ok r) h = λ done. cc

module _ (py : Python) (strip : String → String) (attempt : Attempt) (preflight : List CheckResult)
    (gate : preflight_passed preflight ≡ true) (before : ReleaseLayout) (revision : String) where
  abbrev Deployed : Host → Type 0
  Deployed host = IsDeployed attempt preflight revision before host.layout

  rollback-OnSuccess :
      (host : Host) (previous : Option String) (reason : String)
      → OnSuccess Deployed (rollback_after_failure py strip attempt host revision previous reason)
  rollback-OnSuccess host previous reason =
      OnSuccess-IsNoSuccess Deployed
        (rollback_after_failure py strip attempt host revision previous reason)
        (rollback-IsNoSuccess py strip attempt host revision previous reason)

  abandon-OnSuccess :
      (host : Host) (previous : Option String) (reason : String)
      → OnSuccess Deployed (abandon py strip attempt host revision previous reason)
  abandon-OnSuccess host previous reason =
      OnSuccess-IsNoSuccess Deployed (abandon py strip attempt host revision previous reason)
        (abandon-IsNoSuccess py strip attempt host revision previous reason)

  start_service-Deployed :
      (host : Host) (previous : Option String) (starts : Bool)
      → Deployed host
      → OnSuccess Deployed (start_service py strip attempt host revision previous starts)
  start_service-Deployed host previous true d =
      λ h. subst (IsDeployed attempt preflight revision before) (sym (same attempt.has_service)) d
    where
      same : (b : Bool) → (if b then call start_call host else host).layout ≡ host.layout
      same true = refl
      same false = refl
  start_service-Deployed host previous false d =
      rollback-OnSuccess (restart py strip attempt host) previous "service_start_failed"

  after_checks-Deployed :
      (host : Host) (previous found : Option String)
      → (found ≡ none → Deployed host)
      → OnSuccess Deployed (after_checks py strip attempt host revision previous found)
  after_checks-Deployed host previous (some reason) d = rollback-OnSuccess host previous reason
  after_checks-Deployed host previous none d =
      start_service-Deployed host previous (service_starts py strip attempt) (d refl)

  after_activation-Deployed :
      (host : Host) (previous : Option String) (r : ReleaseLayout × Result Raised (Unit {0}))
      → ((layout : ReleaseLayout) (u : Unit {0})
          → r ≡ (layout, ok u)
          → first_failed attempt.checks ≡ none
          → IsDeployed attempt preflight revision before layout)
      → OnSuccess Deployed (after_activation py strip attempt host revision previous r)
  unfolding verify
  after_activation-Deployed host previous (layout, err e) d =
      abandon-OnSuccess (with_layout host layout) previous (deployment_reason e)
  after_activation-Deployed host previous (layout, ok u) d =
      after_checks-Deployed (with_layout host layout) previous (first_failed attempt.checks)
        (d layout u refl)

  after_staging-Deployed :
      (host : Host) (previous : Option String) (r : ReleaseLayout × Result Raised (Unit {0}))
      → ((layout : ReleaseLayout) (u : Unit {0})
          → r ≡ (layout, ok u)
          → (select revision layout.releases ≡ attempt.source)
            × (attempt.source ≢ none)
            × ((other : String)
                → revision ≢ other
                → select other layout.releases ≡ select other before.releases))
      → OnSuccess Deployed (after_staging py strip attempt host revision previous r)
  after_staging-Deployed host previous (layout, err e) d =
      abandon-OnSuccess (with_layout host layout) previous (deployment_reason e)
  after_staging-Deployed host previous (layout, ok u) d =
      let (release, staged, others) = d layout u refl in
      after_activation-Deployed (with_layout host layout) previous
        (activate py strip attempt.activation layout revision)
        (λ layout' v activated checked.
          let (pointer, same) =
            pointer-activate py strip attempt.activation layout revision activated in
          record {
            gate = preflight_passed-All preflight gate;
            checked = first_failed-All attempt.checks checked;
            pointer = pointer;
            release = ap (select revision) same ∙ release;
            staged = staged;
            others = λ other h. ap (select other) same ∙ others other h;
          })

  install-Deployed :
      (host : Host) (previous : Option String)
      → host.layout ≡ before
      → OnSuccess Deployed (install py strip attempt host revision previous)
  unfolding install
  install-Deployed host previous same =
      after_staging-Deployed host previous
        (stage_release py strip attempt.staging host.layout revision attempt.source)
        (λ layout u done.
          let (release, staged) =
            stage_release-source py strip attempt.staging host.layout revision attempt.source
              done in
          (
            release,
            staged,
            λ other h.
                ap (λ (r : ReleaseLayout × Result Raised (Unit {0})). select other r.0.releases)
                  (sym done)
                ∙ (select-stage_release py strip attempt.staging host.layout revision other
                      attempt.source h
                    ∙ ap (λ (l : ReleaseLayout). select other l.releases) same),
          ))

stop_service-Deployed :
    (py : Python) (strip : String → String) (attempt : Attempt) (preflight : List CheckResult)
    (host : Host) (revision : String) (previous : Option String) (serves stops : Bool)
    → preflight_passed preflight ≡ true
    → OnSuccess
        (λ h. IsDeployed attempt preflight revision host.layout h.layout)
        (if not serves
          then install py strip attempt host revision previous
          else if stops
          then install py strip attempt (call stop_call host) revision previous
          else (call stop_call host, ok (failed revision false previous "service_stop_failed")))
stop_service-Deployed py strip attempt preflight host revision previous false stops gate =
    install-Deployed py strip attempt preflight gate host.layout revision host previous refl
stop_service-Deployed py strip attempt preflight host revision previous true true gate =
    install-Deployed py strip attempt preflight gate host.layout revision (call stop_call host)
      previous refl
stop_service-Deployed py strip attempt preflight host revision previous true false gate = λ h. cc

deploy_over-Deployed :
    (py : Python) (strip : String → String) (attempt : Attempt) (preflight : List CheckResult)
    (host : Host) (revision : String) (previous : Option String)
    → OnSuccess
        (λ h. IsDeployed attempt preflight revision host.layout h.layout)
        (deploy_over py strip attempt preflight host revision previous)
deploy_over-Deployed py strip attempt preflight host revision previous =
    gated (preflight_passed preflight) refl
  where
    gated :
        (passed : Bool)
        → preflight_passed preflight ≡ passed
        → OnSuccess
            (λ h. IsDeployed attempt preflight revision host.layout h.layout)
            (if not passed
              then (
                host,
                ok (
                    failed revision false previous
                      (first_reason py strip attempt (failure_reasons preflight))),
              )
              else stop_service py strip attempt host revision previous)
    gated false gate = λ h. cc
    gated true gate =
        stop_service-Deployed py strip attempt preflight host revision previous attempt.has_service
          (holds attempt.stop_answer) gate

deploy_validated-Deployed :
    (py : Python) (strip : String → String) (attempt : Attempt) (preflight : List CheckResult)
    (host : Host) (revision : String) (name : Result Raised String)
    → (name ≡ ok revision) ⊎ ((e : Raised) × (name ≡ err e))
    → OnSuccess
        (λ h. IsDeployed attempt preflight revision host.layout h.layout)
        (deploy_validated py strip attempt preflight host name)
deploy_validated-Deployed py strip attempt preflight host revision name (inl same) =
    subst
      (λ n.
        OnSuccess (λ h. IsDeployed attempt preflight revision host.layout h.layout)
          (deploy_validated py strip attempt preflight host n))
      (sym same)
      (deploy_over-Deployed py strip attempt preflight host revision
        (current_revision py strip host.layout))
deploy_validated-Deployed py strip attempt preflight host revision name (inr (e, same)) =
    subst
      (λ n.
        OnSuccess (λ h. IsDeployed attempt preflight revision host.layout h.layout)
          (deploy_validated py strip attempt preflight host n))
      (sym same) tt

validate_revision-cases :
    (py : Python) (strip : String → String) (revision : String)
    → (validate_revision py strip revision ≡ ok revision)
      ⊎ ((e : Raised) × (validate_revision py strip revision ≡ err e))
unfolding validate_revision
validate_revision-cases py strip revision =
    elim (Bool-cases
      (py.re_search revision_pattern revision && not (has_two_dots false revision))) [
        | inl good ↦ inl (rw good)
        | inr bad ↦ inr (invalid_revision, rw bad)
      ]

-- A deployment that succeeds has passed the preflight and every check after the activation; the
-- pointer names the new revision, whose release holds the source, which was there; and every other
-- release is as it was.
pub deploy_release-IsDeployed :
    (py : Python) (strip : String → String) (attempt : Attempt) (preflight : List CheckResult)
    (host : Host) (revision : String) {host' : Host} {r : DeployResult}
    → deploy_release py strip attempt preflight host revision ≡ (host', ok r)
    → r.success ≡ true
    → IsDeployed attempt preflight revision host.layout host'.layout
unfolding deploy_release
deploy_release-IsDeployed py strip attempt preflight host revision h done =
    let all_cases =
      deploy_validated-Deployed py strip attempt preflight host revision
        (validate_revision py strip revision) (validate_revision-cases py strip revision) in
    subst (OnSuccess (λ h. IsDeployed attempt preflight revision host.layout h.layout)) h all_cases
      done
