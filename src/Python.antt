-- ===== src/Python.antt =====
-- What the program takes from Python's standard library: regular expressions, UUIDs, dates, URLs
-- and JSON. None of it is under the repository, so it is a parameter of the model.
use runner_observability.Base.{ℕ, String, Bool, Option, List, ℤ}
use runner_observability.Value.{Value}

-- re.compile(source, re.IGNORECASE) or re.compile(source)
pub record Pattern : Type 0 where
  pub source : String
  pub ignore_case : Bool

-- A `datetime`: whether it has a time zone, and then its distance from the year 1 in microseconds.
pub record Moment : Type 0 where
  pub aware : Bool
  pub instant : ℕ

-- The parts of a parsed URL that the program reads.
pub record Url : Type 0 where
  pub scheme : String
  pub hostname : Option String
  pub username : Option String
  pub password : Option String
  pub path : String
  pub query : String
  pub fragment : String

pub record Python : Type 0 where
  pub re_search : Pattern → String → Bool
  pub re_fullmatch : Pattern → String → Bool
  -- whether `UUID(value)` returns
  pub is_uuid : String → Bool
  -- `datetime.fromisoformat(value.replace("Z", "+00:00"))`; `none` is a ValueError
  pub fromisoformat : String → Option Moment
  -- `urlparse(value)` with its attributes; `none` is a ValueError
  pub urlparse : String → Option Url
  -- the length in bytes of `json.dumps(value, …, allow_nan=False)`; `none` is a TypeError or a
  -- ValueError
  pub dumps_size : Value → Option ℕ
  -- whether `json.dumps(value)` raises a RecursionError
  pub dumps_too_deep : Value → Bool
  -- the calls of the search for forbidden content that the stack has room for inside each other, and
  -- whether the copy that `_freeze` makes needs more room than there is; one more call raises a
  -- RecursionError. The stack is taken to be as deep wherever an event is validated.
  pub search_depth : ℕ
  pub freeze_too_deep : Value → Bool
  -- `json.dumps(value, …)` of a value from `json.loads`, and `json.loads(text)`; `none` is a
  -- JSONDecodeError
  pub dumps : Value → String
  pub loads : String → Option Value
  -- `json.dumps(value, sort_keys=True, …) + "\n"`, the text of an outbox file
  pub encode : Value → String
  -- `json.dump(value, …, sort_keys=True)` and a line break, the text of a state file
  pub dump_sorted : Value → String
  -- `a == b`
  pub equals : Value → Value → Bool
  -- `str(n)` and `int(text)`; `none` is a ValueError
  pub show_int : ℕ → String
  pub read_int : String → Option ℤ
  -- `text.split(":")`
  pub split_colons : String → List String
  -- `datetime.astimezone(timezone.utc).isoformat().replace("+00:00", "Z")` of an instant
  pub isoformat : ℕ → String

-- The exceptions that leave a function.
pub data Exception : Type 0 where
  validation_error : String → Exception
  value_error type_error key_error attribute_error overflow_error os_error recursion_error
        database_error :
      Exception
