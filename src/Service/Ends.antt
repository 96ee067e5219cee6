-- ===== src/Service/Ends.antt =====
-- How the supervision of the child ends.
use runner_observability.Base.{
  ℕ, zero, suc, ◌+◌, ◌≤◌, ◌<◌, ◌≡◌, refl, ◌⊎◌, inl, inr, true, false, Option, none, some, List, [],
  ℤ, arith, Bool-cases, if_holds, ap, ◌∙◌, nat_eq,
}
use runner_observability.Service.Child.{ChildProcess, ChildCall, stopped, run_round, run}

-- The child has exited, or the stop event is set.
abbrev pub Halts : ChildProcess → ℕ → Type 0
Halts child round = ((code : ℤ) × (child.poll round ≡ some code)) ⊎ (child.stop_is_set round ≡ true)

-- The outcome of round `k`, before which the child was running and the stop event was not set.
pub record EndsAt (child : ChildProcess) (start k : ℕ) (outcome : ℤ × List ChildCall) : Type 0 where
  pub running : (j : ℕ) → start ≤ j → j < k → (child.poll j ≡ none) × (child.stop_is_set j ≡ false)
  pub ended :
      (child.poll k ≡ some outcome.0) × (outcome.1 ≡ [])
      ⊎ (child.poll k ≡ none) × (child.stop_is_set k ≡ true) × (outcome ≡ stopped child k)

abbrev Ends : ChildProcess → ℕ → ℕ → Option (ℤ × List ChildCall) → Type 0
Ends child start last result =
    (outcome : ℤ × List ChildCall) × (result ≡ some outcome)
    × (k : ℕ) × (start ≤ k)
    × (k ≤ last)
    × EndsAt child start k outcome

nothing_before :
    (child : ChildProcess) (start j : ℕ)
    → start ≤ j
    → j < start
    → (child.poll j ≡ none) × (child.stop_is_set j ≡ false)
nothing_before child start j lo hi = absurd (omega arith)

later_round :
    (child : ChildProcess) (start last : ℕ) (result : Option (ℤ × List ChildCall))
    → child.poll start ≡ none
    → child.stop_is_set start ≡ false
    → Ends child (start + 1) last result
    → Ends child start last result
later_round child start last result alive free (outcome, same, k, lo, hi, e) = (
  outcome,
  same,
  k,
  omega arith,
  hi,
  record {
    running = λ j at before. elim (Bool-cases (nat_eq j start)) [
      | inl here ↦
          let first : j ≡ start = ground arith in
          (ap child.poll first ∙ alive, ap child.stop_is_set first ∙ free)
      | inr past ↦ e.running j (ground arith) before
    ];
    ended = e.ended;
  },
)

-- a round that ends, or the rounds after it
run_round-Ends :
    (child : ChildProcess) (start last : ℕ) (polled : Option ℤ) (rest : Option (ℤ × List ChildCall))
    → child.poll start ≡ polled
    → start ≤ last
    → (polled ≡ none → child.stop_is_set start ≡ false → Ends child (start + 1) last rest)
    → Ends child start last (run_round child start polled rest)
run_round-Ends child start last (some code) rest p le next = (
  (code, []),
  refl,
  start,
  omega arith,
  le,
  record { running = nothing_before child start; ended = inl (p, refl) },
)
run_round-Ends child start last none rest p le next =
    if_holds (Ends child start last) (child.stop_is_set start) _ _
      (λ set. (
        stopped child start,
        refl,
        start,
        omega arith,
        le,
        record { running = nothing_before child start; ended = inr (p, set, refl) },
      ))
      (λ free. later_round child start last rest p free (next refl free))

not_halting :
    (child : ChildProcess) (start last : ℕ)
    → child.poll start ≡ none
    → child.stop_is_set start ≡ false
    → start + 0 ≡ last
    → Halts child last
    → ⊥
not_halting child start last alive free same (inl (code, dead)) =
    let e : start ≡ last = omega (arith, same) in
    let d : child.poll start ≡ some code = ap child.poll e ∙ dead in ground (arith, alive, d)
not_halting child start last alive free same (inr set) =
    let e : start ≡ last = omega (arith, same) in
    let d : child.stop_is_set start ≡ true = ap child.stop_is_set e ∙ set in ground (arith, free, d)

run-Ends :
    (n : ℕ) (child : ChildProcess) (start last : ℕ)
    → start + n ≡ last
    → Halts child last
    → Ends child start last (run (suc n) child start)
unfolding run
run-Ends zero child start last same halts =
    run_round-Ends child start last (child.poll start) none refl (omega (arith, same))
      λ alive free. absurd (not_halting child start last alive free same halts)
run-Ends (suc n) child start last same halts =
    run_round-Ends child start last (child.poll start) (run (suc n) child (start + 1)) refl
      (omega (arith, same)) λ _ _. run-Ends n child (start + 1) last (omega (arith, same)) halts

-- If the child exits or the stop event is set by round `n`, the loop returns within n + 1 rounds, with
-- the outcome of the first such round: where the child has exited, its return code, and it is neither
-- terminated nor killed; otherwise the outcome of a stop.
pub run_ends :
    (child : ChildProcess) (n : ℕ)
    → Halts child n
    → (outcome : ℤ × List ChildCall) × (run (suc n) child 0 ≡ some outcome)
      × (k : ℕ) × (k ≤ n)
      × EndsAt child 0 k outcome
run_ends child n halts =
    let (outcome, same, k, lo, hi, e) = run-Ends n child 0 n (omega arith) halts in
    (outcome, same, k, hi, e)
