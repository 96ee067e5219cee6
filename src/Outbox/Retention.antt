-- ===== src/Outbox/Retention.antt =====
-- The counts of a drain: no entry of the queue goes unaccounted for.
use runner_observability.Base.{ℕ, ◌+◌, String, string_eq, ◌≢◌}
use runner_observability.Python.{Python}
use runner_observability.Outbox.State.{Outbox, Faults, missing}
use runner_observability.Outbox.Drain.{DrainResult}

-- the entries that a result accounts for
abbrev pub counted : DrainResult → ℕ
counted r = r.delivered + r.retained + r.dead_lettered

-- A file that is found missing on its removal is not counted; no other one is missed.
abbrev pub NeverMissing : Faults → Type 0
NeverMissing faults = (stem : String) → faults.unlink stem ≢ missing
