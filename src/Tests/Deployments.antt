-- ===== src/Tests/Deployments.antt =====
-- Deployments on a small host.
use runner_observability.Base.{
  ℕ, String, ◌≡◌, ◌≢◌, ◌↔◌, ◌≤◌, refl, Bool, true, false, Option, none, some, [], ◌∷◌, ok, arith,
  string_eq, nat_eq, eq_iff, if◌then◌else◌,
}
use runner_observability.Base.Table.{select, upsert}
use runner_observability.Python.{Python}
use runner_observability.Deploy.Layout.{StageFaults, validate_revision, current_revision}
use runner_observability.Deploy.Preflight.{preflight_passed, check_host_reachable, holds}
use runner_observability.Deploy.Release.{
  DeployResult, Host, Attempt, start_call, stop_call, failed, deploy_release, first_failed,
}
use runner_observability.Deploy.Restore.{deploy_release-Restores, Restores}
use runner_observability.Deploy.Success.{IsDeployed, deploy_release-IsDeployed}
use runner_observability.Deploy.Redeploy.{redeploy_not_restored}
use runner_observability.Deploy.Probes.{check_host_reachable-Answers}
use runner_observability.Tests.Fixtures.{py}

abbrev finding : Python
finding = record py { re_search = λ p s. true }

abbrev strip : String → String
strip s = s

abbrev no_faults : StageFaults
no_faults = record { copy = none; removal = none; rename = none }

abbrev host : Host
host = record {
  layout = record { releases = ("v1", "first") ∷ []; current_pointer = some "v1" };
  calls = [];
}

-- the smoke test raises
abbrev failing : Attempt
failing = record {
  source = some "second";
  staging = no_faults;
  activation = none;
  restoration = none;
  deactivation = none;
  checks = ("smoke_test", none) ∷ [];
  has_service = true;
  stop_answer = some true;
  start_answer = some true;
}

abbrev passing : Attempt
passing = record failing { checks = ("smoke_test", some true) ∷ [] }

abbrev v2_host : Host
v2_host = record {
  layout = record {
    releases = ("v1", "first") ∷ ("v2", "second") ∷ [];
    current_pointer = some "v2";
  };
  calls = stop_call ∷ start_call ∷ [];
}

abbrev succeeded : DeployResult
succeeded = record {
  revision = "v2";
  success = true;
  rolled_back = false;
  restored_revision = none;
  failure_reason = "";
}

deploys : deploy_release finding strip passing [] host "v2" ≡ (v2_host, ok succeeded)
unfolding select deploy_release upsert
deploys = refl

valid_v1 : validate_revision finding strip "v1" ≡ ok "v1"
unfolding select validate_revision
valid_v1 = refl

valid_v2 : validate_revision finding strip "v2" ≡ ok "v2"
unfolding select validate_revision
valid_v2 = refl

active_v1 : current_revision finding strip host.layout ≡ some "v1"
unfolding select current_revision
active_v1 = refl

there_v1 : select "v1" host.layout.releases ≡ some "first"
unfolding select
there_v1 = refl

other : ◌≢◌ {A = String} "v2" "v1"
other = ground (arith, eq_iff "v2" "v1")

deploy_release-Restores_example :
    Restores finding strip "v1" "first" (deploy_release finding strip failing [] host "v2")
deploy_release-Restores_example =
    deploy_release-Restores finding strip failing [] host "v2" "v1" "first" (λ s. refl) valid_v2
      valid_v1 other active_v1 there_v1 refl

deploy_release-IsDeployed_example : IsDeployed passing [] "v2" host.layout v2_host.layout
deploy_release-IsDeployed_example =
    deploy_release-IsDeployed finding strip passing [] host "v2" deploys refl

abbrev bare : Attempt
bare = record failing { has_service = false }

fails_smoke : first_failed bare.checks ≡ some "smoke_test_failed"
unfolding select first_failed
fails_smoke = refl

passes : preflight_passed [] ≡ true
unfolding select preflight_passed
passes = refl

redeploy_not_restored_example :
    (let (host', r) = deploy_release finding strip bare [] host "v1" in
      (r ≡ ok (failed "v1" true (some "v1") "smoke_test_failed"))
      × (select "v1" host'.layout.releases ≡ some "second"))
redeploy_not_restored_example =
    redeploy_not_restored finding strip bare [] host "v1" "first" "second" "smoke_test_failed"
      valid_v1 active_v1 there_v1 passes refl refl refl refl refl fails_smoke

abbrev second : ℕ → Option Bool
second k = if nat_eq k 2 then some true else none

check_host_reachable-Answers_example :
    ((check_host_reachable none 3).passed ≡ false)
    × ((check_host_reachable (some second) 3).passed ≡ true
        ↔ ((k : ℕ) × (1 ≤ k) × (k ≤ 3) × (holds (second k) ≡ true)))
check_host_reachable-Answers_example = check_host_reachable-Answers 3 second
