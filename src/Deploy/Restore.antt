-- ===== src/Deploy/Restore.antt =====
-- What a deployment that fails leaves: the release that was active before it.
use runner_observability.Base.{
  ◌⊎◌, inl, inr, subst, String, ◌≡◌, ◌≢◌, refl, sym, ap, ◌∙◌, Bool, true, false, not, Option, none,
  some, Result, ok, err, arith, string_eq, ◌==◌, eq_iff, if◌then◌else◌, List,
}
use runner_observability.Base.Table.{select}
use runner_observability.Python.{Python}
use runner_observability.Deploy.Layout.{
  ReleaseLayout, Raised, validate_revision, current_revision, release_exists, stage_release,
  activate,
}
use runner_observability.Deploy.Staging.{releases-activate, select-stage_release}
use runner_observability.Deploy.Preflight.{CheckResult, preflight_passed, failure_reasons, holds}
use runner_observability.Deploy.Release.{
  DeployResult, Host, Attempt, with_layout, failed, restart, rollback_after_failure, abandon,
  verify, install, deploy_validated, deploy_over, deploy_release, first_failed, start_service,
  service_starts, after_activation, after_staging, after_checks, stop_service, deployment_reason,
  call, stop_call, first_reason,
}

-- The release of `revision` is there with its content and is the active one.
pub record IsActive (py : Python) (strip : String → String) (revision content : String)
    (layout : ReleaseLayout) : Type 0 where
  pub active : current_revision py strip layout ≡ some revision
  pub staged : select revision layout.releases ≡ some content

-- What a call that may fail has to leave: it succeeds, or the release `previous` is active with its
-- content, and the result says so; nothing is raised.
abbrev pub Restores :
    Python → (String → String) → String → String → Host × Result Raised DeployResult → Type 0
Restores py strip previous content (host, err e) = ⊥
Restores py strip previous content (host, ok r) =
    (r.success ≡ true)
    ⊎ IsActive py strip previous content host.layout × (r.restored_revision ≡ some previous)

module _ (py : Python) (strip : String → String) (attempt : Attempt) (previous content : String)
    (valid : validate_revision py strip previous ≡ ok previous)
    (stripped : strip previous ≡ previous) (named : previous ≢ "")
    (restorable : attempt.restoration ≡ none) where
  current-pointed :
      (layout : ReleaseLayout)
      → current_revision py strip (record layout { current_pointer = some previous })
        ≡ some previous
  unfolding current_revision
  current-pointed layout = ground (arith, stripped, eq_iff previous "")

  activate-previous :
      (layout : ReleaseLayout)
      → select previous layout.releases ≡ some content
      → activate py strip attempt.restoration layout previous
        ≡ (record layout { current_pointer = some previous }, ok tt)
  unfolding activate release_exists
  activate-previous layout there = ground (arith, valid, there, restorable)

  rollback-Restores :
      (host : Host) (revision reason : String)
      → select previous host.layout.releases ≡ some content
      → Restores py strip previous content
          (rollback_after_failure py strip attempt host revision (some previous) reason)
  unfolding rollback_after_failure release_exists
  rollback-Restores host revision reason there =
      ground (arith, valid, there, activate-previous host.layout there, current-pointed host.layout)

  -- the previous release is there, and the pointer names it or the new one
  abandon-Restores :
      (host : Host) (revision reason : String)
      → select previous host.layout.releases ≡ some content
      → Restores py strip previous content
          (abandon py strip attempt host revision (some previous) reason)
  unfolding abandon release_exists
  abandon-Restores host revision reason there =
      ground (arith, valid, there, activate-previous host.layout there, current-pointed host.layout)

  layout-restart : (host : Host) → (restart py strip attempt host).layout ≡ host.layout
  layout-restart host = ground arith

  start_service-Restores :
      (host : Host) (revision : String) (starts : Bool)
      → select previous host.layout.releases ≡ some content
      → Restores py strip previous content
          (start_service py strip attempt host revision (some previous) starts)
  start_service-Restores host revision true there = inl refl
  start_service-Restores host revision false there =
      rollback-Restores (restart py strip attempt host) revision "service_start_failed"
        (ap (λ (l : ReleaseLayout). select previous l.releases) (layout-restart host) ∙ there)

  after_checks-Restores :
      (host : Host) (revision : String) (found : Option String)
      → select previous host.layout.releases ≡ some content
      → Restores py strip previous content
          (after_checks py strip attempt host revision (some previous) found)
  after_checks-Restores host revision (some reason) there =
      rollback-Restores host revision reason there
  after_checks-Restores host revision none there =
      start_service-Restores host revision (service_starts py strip attempt) there

  after_activation-Restores :
      (host : Host) (revision : String) (r : ReleaseLayout × Result Raised (Unit {0}))
      → select previous r.0.releases ≡ some content
      → Restores py strip previous content
          (after_activation py strip attempt host revision (some previous) r)
  unfolding verify
  after_activation-Restores host revision (layout, err e) there =
      abandon-Restores (with_layout host layout) revision (deployment_reason e) there
  after_activation-Restores host revision (layout, ok _) there =
      after_checks-Restores (with_layout host layout) revision (first_failed attempt.checks) there

  after_staging-Restores :
      (host : Host) (revision : String) (r : ReleaseLayout × Result Raised (Unit {0}))
      → select previous r.0.releases ≡ some content
      → Restores py strip previous content
          (after_staging py strip attempt host revision (some previous) r)
  after_staging-Restores host revision (layout, err e) there =
      abandon-Restores (with_layout host layout) revision (deployment_reason e) there
  after_staging-Restores host revision (layout, ok _) there =
      after_activation-Restores (with_layout host layout) revision
        (activate py strip attempt.activation layout revision)
        (ap (select previous) (releases-activate py strip attempt.activation layout revision)
          ∙ there)

  install-Restores :
      (host : Host) (revision : String)
      → revision ≢ previous
      → select previous host.layout.releases ≡ some content
      → Restores py strip previous content (install py strip attempt host revision (some previous))
  unfolding install
  install-Restores host revision other there =
      after_staging-Restores host revision
        (stage_release py strip attempt.staging host.layout revision attempt.source)
        (select-stage_release py strip attempt.staging host.layout revision previous attempt.source
            other
          ∙ there)

stripped_name :
    (strip : String → String) (text : String) {name : String}
    → ((s : String) → strip (strip s) ≡ strip s)
    → (if strip text == "" then none else some (strip text)) ≡ some name
    → (strip name ≡ name) × (name ≢ "")
stripped_name strip text idempotent h = ground (arith, idempotent text, eq_iff (strip text) "")

pointed_name :
    (py : Python) (strip : String → String) (layout : ReleaseLayout) {name : String}
    → ((s : String) → strip (strip s) ≡ strip s)
    → current_revision py strip layout ≡ some name
    → (strip name ≡ name) × (name ≢ "")
unfolding current_revision
pointed_name py strip layout {name} idempotent h = pointed layout.current_pointer h
  where
    pointed :
        (pointer : Option String)
        → elim pointer [
          | none ↦ none
          | some text ↦ if strip text == "" then none else some (strip text)
        ]
          ≡ some name
        → (strip name ≡ name) × (name ≢ "")
    pointed none h = cc
    pointed (some text) h = stripped_name strip text idempotent h

-- A deployment that fails at any step, whatever it raises or answers, from the preflight to the start
-- of the service, leaves the release that was active before it active and its content as it was, and
-- the result names that release; no exception leaves it. The new revision is another one than the
-- active one, both are valid, the release of the active one is there, stripping a text twice is
-- stripping it once, and the pointer can be set back.
pub deploy_release-Restores :
    (py : Python) (strip : String → String) (attempt : Attempt) (preflight : List CheckResult)
    (host : Host) (revision previous content : String)
    → ((s : String) → strip (strip s) ≡ strip s)
    → validate_revision py strip revision ≡ ok revision
    → validate_revision py strip previous ≡ ok previous
    → revision ≢ previous
    → current_revision py strip host.layout ≡ some previous
    → select previous host.layout.releases ≡ some content
    → attempt.restoration ≡ none
    → Restores py strip previous content (deploy_release py strip attempt preflight host revision)
unfolding deploy_release
deploy_release-Restores py strip attempt preflight host revision previous content idempotent new old
      other active there restorable =
    let (stripped, named) = pointed_name py strip host.layout idempotent active in
    let installs : (h : Host)
        → h.layout ≡ host.layout
        → Restores py strip previous content (install py strip attempt h revision (some previous)) =
      λ h same.
        install-Restores py strip attempt previous content old stripped named restorable h revision
          other (ap (λ (l : ReleaseLayout). select previous l.releases) same ∙ there) in
    let kept : IsActive py strip previous content host.layout = record {
      active = active;
      staged = there;
    } in
    subst
      (λ r. Restores py strip previous content (deploy_validated py strip attempt preflight host r))
      (sym new)
      (subst
        (λ p.
          Restores py strip previous content
            (deploy_over py strip attempt preflight host revision p))
        (sym active)
        (if_passed (preflight_passed preflight) kept (installs host refl)
          (installs (call stop_call host) refl)))
  where
    if_served :
        (serves : Bool) (stops : Bool)
        → IsActive py strip previous content host.layout
        → Restores py strip previous content
            (install py strip attempt host revision (some previous))
        → Restores py strip previous content
            (install py strip attempt (call stop_call host) revision (some previous))
        → Restores py strip previous content (
            if not serves
            then install py strip attempt host revision (some previous)
            else if stops
            then install py strip attempt (call stop_call host) revision (some previous)
            else (
              call stop_call host,
              ok (failed revision false (some previous) "service_stop_failed"),
            ))
    if_served false stops kept bare served = bare
    if_served true true kept bare served = served
    if_served true false kept bare served = inr (kept, refl)

    if_passed :
        (passed : Bool)
        → IsActive py strip previous content host.layout
        → Restores py strip previous content
            (install py strip attempt host revision (some previous))
        → Restores py strip previous content
            (install py strip attempt (call stop_call host) revision (some previous))
        → Restores py strip previous content (
            if not passed
            then (
              host,
              ok (
                  failed revision false
                    (some previous)
                    (first_reason py strip attempt (failure_reasons preflight))),
            )
            else stop_service py strip attempt host revision (some previous))
    if_passed false kept bare served = inr (kept, refl)
    if_passed true kept bare served =
        if_served attempt.has_service (holds attempt.stop_answer) kept bare served
