-- ===== src/Deploy/Redeploy.antt =====
-- A release that is deployed again under the revision that is active.
use runner_observability.Base.{
  String, ◌≡◌, true, false, none, some, List, ok, arith, string_eq, eq_refl,
}
use runner_observability.Base.Table.{Table, select, upsert, select-upsert}
use runner_observability.Python.{Python}
use runner_observability.Deploy.Layout.{
  ReleaseLayout, validate_revision, current_revision, release_exists, stage_release, activate,
}
use runner_observability.Deploy.Preflight.{CheckResult, preflight_passed}
use runner_observability.Deploy.Release.{
  Host, Attempt, failed, rollback_after_failure, verify, install, deploy_release, first_failed,
}

select_upserted : (k v : String) (t : Table String String) → select k (upsert k v t) ≡ some v
select_upserted k v t = ground (arith, select-upsert k k v t, eq_refl k)

module _ (py : Python) (strip : String → String) (layout : ReleaseLayout) (revision : String) where
  stage_release_clean :
      (old new : String)
      → validate_revision py strip revision ≡ ok revision
      → select revision layout.releases ≡ some old
      → stage_release py strip
          (record { copy = none; removal = none; rename = none })
          layout
          revision
          (some new)
        ≡ (record layout { releases = upsert revision new layout.releases }, ok tt)
  unfolding stage_release
  stage_release_clean old new valid there = ground (arith, valid, there)

  release_exists_clean :
      (content : String)
      → validate_revision py strip revision ≡ ok revision
      → select revision layout.releases ≡ some content
      → release_exists py strip layout revision ≡ ok true
  unfolding release_exists
  release_exists_clean content valid there = ground (arith, valid, there)

  activate_clean :
      (content : String)
      → validate_revision py strip revision ≡ ok revision
      → select revision layout.releases ≡ some content
      → activate py strip none layout revision
        ≡ (record layout { current_pointer = some revision }, ok tt)
  unfolding activate release_exists
  activate_clean content valid there = ground (arith, valid, there)

-- Where the active revision is deployed again and the check after the activation fails, the rollback
-- reports that this revision is restored, and its directory holds the new content that has failed,
-- not the content that was active. The revision is valid, no step of the file system fails, and there
-- is no service.
pub redeploy_not_restored :
    (py : Python) (strip : String → String) (attempt : Attempt) (preflight : List CheckResult)
    (host : Host) (revision old new reason : String)
    → validate_revision py strip revision ≡ ok revision
    → current_revision py strip host.layout ≡ some revision
    → select revision host.layout.releases ≡ some old
    → preflight_passed preflight ≡ true
    → attempt.has_service ≡ false
    → attempt.source ≡ some new
    → attempt.staging ≡ record { copy = none; removal = none; rename = none }
    → attempt.activation ≡ none
    → attempt.restoration ≡ none
    → first_failed attempt.checks ≡ some reason
    → let (host', r) = deploy_release py strip attempt preflight host revision in
      (r ≡ ok (failed revision true (some revision) reason))
      × (select revision host'.layout.releases ≡ some new)
unfolding deploy_release install verify rollback_after_failure
redeploy_not_restored py strip attempt preflight host revision old new reason valid active there
      gate bare source staging activation restoration found =
    let written = record host.layout { releases = upsert revision new host.layout.releases } in
    ground (
      arith,
      stage_release_clean py strip host.layout revision old new valid there,
      activate_clean py strip written revision new valid
          (select_upserted revision new host.layout.releases),
      release_exists_clean py strip written revision new valid
          (select_upserted revision new host.layout.releases),
      select_upserted revision new host.layout.releases,
    )
