-- ===== src/Store/Time.antt =====
-- store.py: timestamps of the monitor, and the times that lie a given span before one.
use runner_observability.Base.{ℕ, ◌-◌, ◌*◌, String, none, some, Result, ok, err, ltb, if◌then◌else◌}
use runner_observability.Python.{Python, Moment, Exception, value_error, type_error, overflow_error}

-- An argument `datetime | str`, or anything else.
pub data ReceivedAt : Type 0 where
  moment : Moment → ReceivedAt
  text : String → ReceivedAt
  other : ReceivedAt

abbrev pub microseconds : ℕ → ℕ
microseconds seconds = seconds * 1000000

abbrev pub liveness_timeout_seconds : ℕ
liveness_timeout_seconds = 10 * 60

abbrev pub retention_days : ℕ
retention_days = 7

abbrev days : ℕ → ℕ
days n = microseconds (n * 86400)

abbrev pub retention : ℕ
retention = days retention_days

abbrev pub liveness_timeout : ℕ
liveness_timeout = microseconds liveness_timeout_seconds

module _ (py : Python) where
  abbrev canonical : Moment → Result Exception String
  canonical m = if m.aware then ok (py.isoformat m.instant) else err value_error

  -- `_normalise_received_at`
  unfoldable pub normalise_received_at : ReceivedAt → Result Exception String
  normalise_received_at (moment m) = canonical m
  normalise_received_at (text s) = elim (py.fromisoformat s) [
    | none ↦ err value_error
    | some m ↦ canonical m
  ]
  normalise_received_at other = err type_error

  -- `_parse_received_at`, as it is compared with other times; a time with no zone cannot be
  unfoldable pub parse_received_at : String → Result Exception ℕ
  parse_received_at s = elim (py.fromisoformat s) [
    | none ↦ err value_error
    | some m ↦ if m.aware then ok m.instant else err type_error
  ]

-- datetime - timedelta
unfoldable pub subtract : ℕ → ℕ → Result Exception ℕ
subtract instant span = if ltb instant span then err overflow_error else ok (instant - span)
