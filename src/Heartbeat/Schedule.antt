-- ===== src/Heartbeat/Schedule.antt =====
-- heartbeat.py: `_wait_for_network` and `run`, the drift-free schedule, with times in microseconds. What
-- the stop event and the network do is a list of rounds; where it ends the model ends, with `none`.
use runner_observability.Base.{
  ℕ, zero, suc, ◌+◌, ◌*◌, Bool, true, false, not, ◌&&◌, Option, none, some, List, [], ◌∷◌, leb, ltb,
  if◌then◌else◌, Result, ok, err,
}
use runner_observability.Python.{Python, Exception}
use runner_observability.Heartbeat.Loop.{HeartbeatLoop, Beat, emit_once}

-- One round of `_wait_for_network`.
pub record Poll : Type 0 where
  pub stopped : Bool
  pub reachable : Bool
  pub stopped_in_wait : Bool

unfoldable pub wait_for_network : List Poll → Option Bool
wait_for_network [] = none
wait_for_network (poll ∷ polls) =
    let rest = wait_for_network polls in
    if poll.stopped
    then some false
    else if poll.reachable
    then some true
    else if poll.stopped_in_wait
    then some false
    else rest

-- while next_due <= now: next_due += interval
unfoldable pub catch_up : ℕ → ℕ → ℕ → ℕ → ℕ
catch_up zero interval now due = due
catch_up (suc fuel) interval now due =
    let later = catch_up fuel interval now (due + interval) in if leb due now then later else due

-- The next due time after a heartbeat that was due at `due` and ended at `now`.
unfoldable pub next_due_after : ℕ → ℕ → ℕ → ℕ
unfolding catch_up
next_due_after interval now due = catch_up (now + 1) interval now (due + interval)

-- One turn of the loop of `run`, after the first heartbeat: the stop event at its three tests, the
-- polls of the network, the heartbeat, and the clock after it.
pub record Turn : Type 0 where
  pub stopped : Bool
  pub stopped_in_delay : Bool
  pub stopped_after_delay : Bool
  pub clock : ℕ
  pub polls : List Poll
  pub beat : Beat
  pub now : ℕ

-- What is left of `run`: it has returned or raised, or it goes on with a due time.
pub data Progress : Type 0 where
  returned : HeartbeatLoop → Progress
  escaped : HeartbeatLoop → Exception → Progress
  waiting : HeartbeatLoop → Option ℕ → Progress

module _ (py : Python) where
  abbrev beat_turn : Turn → HeartbeatLoop → ℕ → Progress
  beat_turn turn loop due =
      let (loop', result) = emit_once py turn.beat loop in
      elim result [
        | err e ↦ escaped loop' e
        | ok delivered ↦
            waiting loop'
              (some (next_due_after (loop.config.interval_seconds * 1000000) turn.now due))
      ]

  abbrev if_network : Option Bool → Turn → HeartbeatLoop → ℕ → Option Progress
  if_network none turn loop due = none
  if_network (some false) turn loop due = some (returned loop)
  if_network (some true) turn loop due = some (beat_turn turn loop due)

  -- the delay until the heartbeat is due, and the tests of the stop event around it
  abbrev is_stopped_before : Turn → ℕ → Bool
  is_stopped_before turn due =
      if ltb turn.clock due && turn.stopped_in_delay then true else turn.stopped_after_delay

  -- A turn before the first heartbeat, which waits for the network first and is due at once; and one
  -- after it, which waits for the due time and then for the network.
  unfoldable pub run_turn : Turn → HeartbeatLoop → Option ℕ → Option Progress
  unfolding wait_for_network next_due_after emit_once
  run_turn turn loop next_due = if turn.stopped then some (returned loop) else elim next_due [
    | none ↦ elim (wait_for_network turn.polls) [
      | none ↦ none
      | some found ↦
          if not found
          then some (returned loop)
          else if turn.stopped_after_delay
          then some (returned loop)
          else some (beat_turn turn loop turn.clock)
    ]
    | some due ↦
        if is_stopped_before turn due
        then some (returned loop)
        else if_network (wait_for_network turn.polls) turn loop due
  ]

  -- `run` over the turns that the environment gives, with what it returns or the exception that ends it.
  unfoldable pub run :
      List Turn → HeartbeatLoop → Option ℕ → Option (HeartbeatLoop × Result Exception ℕ)
  unfolding run_turn
  run [] loop next_due = none
  run (turn ∷ turns) loop next_due = elim (run_turn turn loop next_due) [
    | none ↦ none
    | some (returned loop') ↦ some (loop', ok 0)
    | some (escaped loop' e) ↦ some (loop', err e)
    | some (waiting loop' due) ↦ run turns loop' due
  ]
