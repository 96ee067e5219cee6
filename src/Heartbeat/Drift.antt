-- ===== src/Heartbeat/Drift.antt =====
-- The due times of the heartbeats: the loop that catches up ends, and keeps the rhythm.
use runner_observability.Base.{
  ℕ, zero, suc, ◌+◌, ◌*◌, ◌≤◌, ◌<◌, ◌≡◌, refl, ◌⊎◌, inl, inr, arith, leb, leb→le, leb→lt,
  Bool-cases, ◌∙◌,
}
use runner_observability.Heartbeat.Schedule.{catch_up, next_due_after}

-- A due time that is reached from `due` by whole intervals, and is the first one after `now`.
pub record IsNextDue (interval now due next : ℕ) : Type 0 where
  pub future : now < next
  pub rhythm : (k : ℕ) × (next ≡ due + k * interval)
  pub soonest : (next ≡ due) ⊎ (next ≤ now + interval)

step_rhythm : (k due interval : ℕ) → due + interval + k * interval ≡ due + suc k * interval
step_rhythm k due interval = omega arith

catch_up-IsNextDue :
    (fuel interval now due : ℕ)
    → 1 ≤ interval
    → now < due + fuel
    → IsNextDue interval now due (catch_up fuel interval now due)
unfolding catch_up
catch_up-IsNextDue zero interval now due positive enough = record {
  future = omega arith;
  rhythm = (0, omega arith);
  soonest = inl refl;
}
catch_up-IsNextDue (suc fuel) interval now due positive enough = elim (Bool-cases (leb due now)) [
  | inl late ↦
      let rest = catch_up-IsNextDue fuel interval now (due + interval) positive (omega arith) in
      let (k, reached) = rest.rhythm in
      rw late (record {
        future = rest.future;
        rhythm = (suc k, reached ∙ step_rhythm k due interval);
        soonest = inr (elim rest.soonest [
          | inl same ↦ omega (arith, same, leb→le _ _ late)
          | inr close ↦ close
        ]);
      })
  | inr early ↦
      rw early (record { future = leb→lt _ _ early; rhythm = (0, omega arith); soonest = inl refl })
]

-- Whenever a heartbeat ends, the loop that moves the due time on terminates: its steps suffice, and
-- the next due time lies after the clock, a whole number of intervals, one at least, after the old
-- one, and it is one interval after the old one or at most one interval after the clock. The interval
-- is at least 1.
pub next_due_after-IsNextDue :
    (interval now due : ℕ)
    → 1 ≤ interval
    → IsNextDue interval now (due + interval) (next_due_after interval now due)
unfolding next_due_after
next_due_after-IsNextDue interval now due positive =
    catch_up-IsNextDue (now + 1) interval now (due + interval) positive (omega arith)
