-- ===== src/Deploy/Preflight.antt =====
-- deploy.py: the checks before a deployment. What they find on the machine is a parameter.
use runner_observability.Base.{
  ℕ, zero, suc, ◌+◌, String, Bool, true, false, not, ◌&&◌, ◌||◌, Option, none, some, List, [], ◌∷◌,
  Result, ok, err, ◌>>=◌, ltb, leb, nat_eq, all, if◌then◌else◌,
}
use runner_observability.Deploy.Layout.{Raised, os_error}

pub record CheckResult : Type 0 where
  pub name : String
  pub passed : Bool
  pub reason : String

abbrev verdict : String → String → Bool → CheckResult
verdict name reason passed = record {
  name = name;
  passed = passed;
  reason = if passed then "" else reason;
}

-- (major, minor) >= (major, minor)
unfoldable pub check_python_version : ℕ × ℕ → ℕ × ℕ → CheckResult
check_python_version (major, minor) (least_major, least_minor) =
    verdict "python_version" "unsupported_python_version"
      (ltb least_major major || nat_eq major least_major && leb least_minor minor)

-- A configured path: no file, or a file with its size; `none` is an OSError of `stat`.
pub data FileFact : Type 0 where
  no_file : FileFact
  file : Option ℕ → FileFact

-- path.is_file() and path.stat().st_size > 0
abbrev is_filled : FileFact → Result Raised Bool
is_filled no_file = ok false
is_filled (file none) = err os_error
is_filled (file (some size)) = ok (ltb 0 size)

abbrev missing_certificate : CheckResult
missing_certificate = verdict "tls_certificate" "tls_certificate_file_missing" false

-- The certificate, if configured; and whether the pair loads, if a key is configured.
unfoldable pub check_tls_certificate_file :
    Option FileFact → Option Bool → Result Raised CheckResult
check_tls_certificate_file none key = ok missing_certificate
check_tls_certificate_file (some certificate) key = do
  present ← is_filled certificate
  ok (
      if not present then missing_certificate else elim key [
        | none ↦ verdict "tls_certificate" "" true
        | some loads ↦ verdict "tls_certificate" "tls_certificate_invalid" loads
      ])

unfoldable pub check_auth_credential_file : Option FileFact → Result Raised CheckResult
check_auth_credential_file none =
    ok (verdict "auth_credential" "auth_credential_file_missing" false)
check_auth_credential_file (some token) = do
  present ← is_filled token
  ok (verdict "auth_credential" "auth_credential_file_missing" present)

-- An answer of a probe or a check: `none` means that it raises.
abbrev pub holds : Option Bool → Bool
holds none = false
holds (some b) = b

unfoldable pub check_firewall_port : Option (Option Bool) → CheckResult
check_firewall_port none = verdict "firewall" "firewall_check_not_configured" false
check_firewall_port (some probe) = verdict "firewall" "firewall_port_blocked" (holds probe)

-- The loop over the attempts: `left` of them, the next one numbered `attempt`.
unfoldable pub probe_host : ℕ → ℕ → (ℕ → Option Bool) → CheckResult
probe_host zero attempt probe = verdict "host_reachable" "monitor_host_unreachable" false
probe_host (suc left) attempt probe =
    let rest = probe_host left (attempt + 1) probe in
    if holds (probe attempt) then verdict "host_reachable" "" true else rest

-- The probe by the number of the attempt, from 1.
unfoldable pub check_host_reachable : Option (ℕ → Option Bool) → ℕ → CheckResult
unfolding probe_host
check_host_reachable none max_attempts =
    verdict "host_reachable" "host_reachability_check_not_configured" false
check_host_reachable (some probe) max_attempts = probe_host max_attempts 1 probe

-- What the preflight is configured with, and what the machine shows.
pub record Machine : Type 0 where
  pub python_version : ℕ × ℕ
  pub minimum_python_version : ℕ × ℕ
  pub tls_certificate : Option FileFact
  pub tls_key_loads : Option Bool
  pub auth_token : Option FileFact
  pub firewall_probe : Option (Option Bool)
  pub host_reachable_probe : Option (ℕ → Option Bool)
  pub max_host_attempts : ℕ

unfoldable pub run_preflight : Machine → Result Raised (List CheckResult)
unfolding check_tls_certificate_file check_auth_credential_file
run_preflight m = do
  certificate ← check_tls_certificate_file m.tls_certificate m.tls_key_loads
  credential ← check_auth_credential_file m.auth_token
  ok (
      check_python_version m.python_version m.minimum_python_version
      ∷ certificate
      ∷ credential
      ∷ check_firewall_port m.firewall_probe
      ∷ check_host_reachable m.host_reachable_probe m.max_host_attempts
      ∷ [])

-- The properties `passed` and `failure_reasons` of a PreflightReport.
unfoldable pub preflight_passed : List CheckResult → Bool
preflight_passed checks = all (λ check. check.passed) checks

unfoldable pub failure_reasons : List CheckResult → List String
failure_reasons [] = []
failure_reasons (check ∷ checks) =
    let rest = failure_reasons checks in if check.passed then rest else check.reason ∷ rest
