-- ===== src/Agent/Bounds.antt =====
-- The delivery of one event always ends, after three calls of the transport at most.
use runner_observability.Base.{
  ℕ, zero, suc, ◌+◌, ◌≤◌, ◌<◌, String, ◌≡◌, refl, inl, inr, Bool, true, false, Option, none, some,
  arith, ltb, nat_eq, if◌then◌else◌, Bool-cases, subst, ◌&&◌, ◌||◌,
}
use native.Mathlib.Decide.{ℕ_discrete}
use Prim.Native.Nat.{min}
use runner_observability.Agent.Delivery.{
  DeliveryResult, Network, Answer, status, network_error, other_error, Round, done, again,
  after_call, attempt_loop, deliver_validated, is_success, is_temporary, is_over, max_retries,
  max_delivery_time, enough_rounds, failed_delivery,
}

-- The answers that are tried again.
abbrev pub IsRetryable : Answer → Type 0
IsRetryable (status s) = is_temporary s ≡ true
IsRetryable network_error = Unit
IsRetryable other_error = ⊥

-- A delivery that made `n` calls: each but the last was answered by a failure that is tried again,
-- and it counts as delivered only if the last was answered by a 2xx status.
pub record IsOutcome (net : Network) (from : ℕ) (r : DeliveryResult) : Type 0 where
  pub bound : r.attempts ≤ 3
  pub start : from ≤ r.attempts
  pub retried : (k : ℕ) → from ≤ k → suc k < r.attempts → IsRetryable (net.answer k)
  pub delivered :
      r.delivered ≡ true
      → (k : ℕ) × (s : ℕ) × (suc k ≡ r.attempts) × (net.answer k ≡ status s) × (is_success s ≡ true)

-- what a round that is not the last one was answered
after_call-again :
    (n : ℕ) (h : Option ℕ) (a : Answer) {reason : String} {h' : Option ℕ}
    → after_call n h a ≡ again reason h'
    → IsRetryable a
unfolding after_call
after_call-again n h (status s) e = ground arith
after_call-again n h network_error e = tt
after_call-again n h other_error e = cc

module _ (net : Network) where
  -- a delivery that gives up after `n` calls, of which only the last lies after `from`
  gave_up :
      (from n : ℕ) (reason : String) (hs : Option ℕ)
      → from ≤ n
      → n ≤ suc from
      → n ≤ 3
      → IsOutcome net from (failed_delivery n reason hs)
  gave_up from n reason hs lo hi le = record {
    bound = le;
    start = lo;
    retried = λ k p q. absurd (omega arith);
    delivered = λ h. cc;
  }

  succeeded :
      (from s : ℕ)
      → from ≤ 2
      → net.answer from ≡ status s
      → is_success s ≡ true
      → IsOutcome net from
          (record { delivered = true; attempts = suc from; reason = none; http_status = some s })
  succeeded from s le e good = record {
    bound = omega arith;
    start = omega arith;
    retried = λ k p q. absurd (omega arith);
    delivered = λ h. (from, s, refl, e, good);
  }

  -- one more call before, which was tried again
  one_more :
      (from : ℕ) (r : DeliveryResult)
      → IsRetryable (net.answer from)
      → IsOutcome net (suc from) r
      → IsOutcome net from r
  one_more from r retry o = record {
    bound = o.bound;
    start = omega (arith, o.start);
    retried = λ k p q. elim (ℕ_discrete from k) [
      | yes same ↦ subst (λ i. IsRetryable (net.answer i)) same retry
      | no other ↦ o.retried k (omega arith) q
    ];
    delivered = o.delivered;
  }

  -- The loop from a number of calls on ends with an outcome.
  abbrev Ends : ℕ → Option DeliveryResult → Type 0
  Ends from o = (r : DeliveryResult) × (o ≡ some r) × IsOutcome net from r

  again-Ends :
      (from : ℕ) (b : Bool) (reason : String) (hs : Option ℕ) (rest : Option DeliveryResult)
      → from ≤ 2
      → IsRetryable (net.answer from)
      → (b ≡ false → Ends (suc from) rest)
      → Ends from (if b then some (failed_delivery (suc from) reason hs) else rest)
  again-Ends from true reason hs rest le retry next = (
    failed_delivery (suc from) reason hs,
    refl,
    gave_up from (suc from) reason hs (omega arith) (omega arith) (omega arith),
  )
  again-Ends from false reason hs rest le retry next =
      let (r, e, o) = next refl in (r, e, one_more from r retry o)

  module _ (budget : ℕ) where
    -- what the loop does with a round
    abbrev continue_round : ℕ → ℕ → Round → Option DeliveryResult
    continue_round fuel from round = elim round [
      | done result ↦ some result
      | again reason' hs' ↦
          let rest = attempt_loop fuel net budget (suc from) reason' hs' in
          if ltb max_retries (suc from) || is_over net budget (net.after from)
          then some (failed_delivery (suc from) reason' hs')
          else rest
    ]

    call-Ends :
        (fuel from : ℕ) (hs : Option ℕ) (a : Answer)
        → from ≤ 2
        → net.answer from ≡ a
        → ((reason : String) (hs' : Option ℕ)
            → suc from ≤ 2
            → Ends (suc from) (attempt_loop fuel net budget (suc from) reason hs'))
        → Ends from (continue_round fuel from (after_call (suc from) hs a))
    unfolding after_call
    call-Ends fuel from hs network_error le e next =
        again-Ends from _ "temporary_network_failure" hs _ le (rw e tt)
          (λ f. next "temporary_network_failure" hs (ground arith))
    call-Ends fuel from hs other_error le e next = (
      failed_delivery (suc from) "transport_failure" hs,
      refl,
      gave_up from (suc from) "transport_failure" hs (omega arith) (omega arith) (omega arith),
    )
    call-Ends fuel from hs (status s) le e next = elim (Bool-cases (is_success s)) [
      | inl good ↦ rw (good) ((_, refl, succeeded from s le e good))
      | inr bad ↦ elim (Bool-cases (is_temporary s)) [
        | inl temporary ↦
            rw (bad, temporary)
              (again-Ends from _ "temporary_http_failure" (some s) _ le (rw e temporary)
                (λ f. next "temporary_http_failure" (some s) (ground arith)))
        | inr final ↦
            rw (bad, final)
              (
                failed_delivery (suc from) "rejected_http_response" (some s),
                refl,
                gave_up from (suc from) "rejected_http_response" (some s) (omega arith)
                    (omega arith) (omega arith),
              )
      ]
    ]

    before_call :
        (from : ℕ) (reason : String) (hs : Option ℕ) (o : Option DeliveryResult) (b : Bool)
        → from ≤ 2
        → Ends from o
        → Ends from (if b then some (failed_delivery from reason hs) else o)
    before_call from reason hs o true le called = (
      failed_delivery from reason hs,
      refl,
      gave_up from from reason hs (omega arith) (omega arith) (omega arith),
    )
    before_call from reason hs o false le called = called

    -- a loop that still has a round for each call that is left
    loop-Ends :
        (fuel from : ℕ) (reason : String) (hs : Option ℕ)
        → from ≤ 2
        → fuel + from ≡ 3
        → Ends from (attempt_loop fuel net budget from reason hs)
    unfolding attempt_loop
    loop-Ends zero from reason hs le e = absurd (omega arith)
    loop-Ends (suc fuel) from reason hs le e =
        before_call from reason hs
          (continue_round fuel from (after_call (suc from) hs (net.answer from)))
          (ltb 0 from && is_over net budget (net.before from)) le
          (call-Ends fuel from hs (net.answer from) le refl
            (λ reason' hs' le'. loop-Ends fuel (suc from) reason' hs' le' (omega arith)))

-- Whatever the transport answers and the clock shows, the rounds suffice and the delivery ends: after
-- three calls at most, each but the last answered by a failure that is tried again, and delivered
-- only if the last answer is a 2xx status.
pub deliver_validated_ends :
    (net : Network) (max_duration : ℕ)
    → (r : DeliveryResult) × (deliver_validated net max_duration ≡ some r) × IsOutcome net 0 r
unfolding deliver_validated
deliver_validated_ends net max_duration = budgeted (nat_eq (min max_delivery_time max_duration) 0)
  where
    budgeted :
        (b : Bool)
        → Ends net 0 (
            if b
            then some (failed_delivery 0 "temporary_network_failure" none)
            else attempt_loop enough_rounds net
                (min max_delivery_time max_duration)
                0
                "temporary_network_failure"
                none)
    budgeted true = (
      failed_delivery 0 "temporary_network_failure" none,
      refl,
      gave_up net 0 0 "temporary_network_failure" none (omega arith) (omega arith) (omega arith),
    )
    budgeted false =
        loop-Ends net (min max_delivery_time max_duration) enough_rounds 0
          "temporary_network_failure" none (omega arith) (omega arith)
