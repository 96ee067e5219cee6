-- ===== src/Deploy/Probes.antt =====
-- The probes of the monitor host: a bounded number of attempts, and the first success decides.
use runner_observability.Base.{
  ℕ, zero, suc, ◌+◌, ◌≤◌, ◌<◌, ◌≡◌, refl, ◌↔◌, Bool, true, false, Option, none, some, arith,
  Bool-cases, inl, inr,
}
use runner_observability.Deploy.Preflight.{holds, probe_host, check_host_reachable}

-- the first number of an attempt that answers, and its bounds
abbrev Answers : ℕ → ℕ → (ℕ → Option Bool) → Type 0
Answers left attempt probe =
    (k : ℕ) × (attempt ≤ k) × (k < attempt + left) × (holds (probe k) ≡ true)

probe_host-Answers :
    (left attempt : ℕ) (probe : ℕ → Option Bool)
    → (probe_host left attempt probe).passed ≡ true
    → Answers left attempt probe
unfolding probe_host
probe_host-Answers zero attempt probe h = cc
probe_host-Answers (suc left) attempt probe h = elim (Bool-cases (holds (probe attempt))) [
  | inl found ↦ (attempt, omega arith, omega arith, found)
  | inr lost ↦
      let (k, lo, hi, found) = probe_host-Answers left (attempt + 1) probe (rw lost at h) in
      (k, omega arith, omega arith, found)
]

Answers-probe_host :
    (left attempt k : ℕ) (probe : ℕ → Option Bool)
    → attempt ≤ k
    → k < attempt + left
    → holds (probe k) ≡ true
    → (probe_host left attempt probe).passed ≡ true
unfolding probe_host
Answers-probe_host zero attempt k probe lo hi found = absurd (omega arith)
Answers-probe_host (suc left) attempt k probe lo hi found =
    elim (Bool-cases (holds (probe attempt))) [
      | inl early ↦ rw early
      | inr lost ↦ rw lost (
          Answers-probe_host left (attempt + 1) k probe (ground (arith, lost, found)) (omega arith)
            found)
    ]

-- The host counts as reachable exactly if one of the first `max_attempts` probes answers yes, where a
-- probe that raises has not answered; without a probe it never does.
pub check_host_reachable-Answers :
    (max_attempts : ℕ) (probe : ℕ → Option Bool)
    → ((check_host_reachable none max_attempts).passed ≡ false)
      × ((check_host_reachable (some probe) max_attempts).passed ≡ true
          ↔ ((k : ℕ) × (1 ≤ k) × (k ≤ max_attempts) × (holds (probe k) ≡ true)))
unfolding check_host_reachable
check_host_reachable-Answers max_attempts probe = (
  refl,
  (
    λ h.
        let (k, lo, hi, found) = probe_host-Answers max_attempts 1 probe h in
        (k, lo, omega arith, found),
    λ h. Answers-probe_host max_attempts 1 h.0 probe h.1 (omega (arith, h.2)) h.3,
  ),
)
