-- ===== src/Heartbeat/Config.antt =====
-- heartbeat.py: `HeartbeatConfig`, its validation and its mappings.
use runner_observability.Base.{
  ℕ, String, Bool, true, false, not, ◌&&◌, ◌||◌, Option, none, some, List, [], ◌∷◌, pos, negsuc,
  Result, ok, err, ◌>>=◌, ◌>>◌, guard, string_eq, ◌==◌, leb, contains, all, if◌then◌else◌,
}
use runner_observability.Value.{
  Value, Fields, null, bool, int, str, end, field, dict, get, keys, as_mapping,
}
use runner_observability.Contracts.Fields.{identifier}
use runner_observability.Python.{Python}

-- The parts of `urlsplit(endpoint)` that are read; `username` and `password` are whether they are
-- there and not empty.
pub record SplitUrl : Type 0 where
  pub scheme : String
  pub has_hostname : Bool
  pub has_username : Bool
  pub has_password : Bool

-- What the validation takes from the standard library besides `Python`.
pub record ConfigLibrary : Type 0 where
  -- `urlsplit` and the attribute `port`; `none` is a ValueError
  pub urlsplit : String → Option SplitUrl
  -- value.strip() is not empty
  pub is_visible : String → Bool
  -- sys.executable
  pub executable : String

-- A HeartbeatConfigError has a reason.
pub record HeartbeatConfig : Type 0 where
  pub endpoint : String
  pub token_file : String
  pub runner_id : String
  pub state_file : String
  pub producer_id : String
  pub service_name : String
  pub python_executable : String
  pub interval_seconds : ℕ
  pub network_poll_seconds : ℕ
  pub allow_insecure_http : Bool
  pub outbox_dir : Option String

abbrev pub config_fields : List String
config_fields =
    "endpoint" ∷ "token_file" ∷ "runner_id" ∷ "state_file" ∷ "producer_id" ∷ "service_name"
    ∷ "python_executable" ∷ "interval_seconds" ∷ "network_poll_seconds" ∷ "allow_insecure_http"
    ∷ "outbox_dir" ∷ []

abbrev pub required_fields : List String
required_fields = "endpoint" ∷ "token_file" ∷ "runner_id" ∷ "state_file" ∷ []

abbrev pub invalid_configuration : String
invalid_configuration = "invalid_heartbeat_configuration"

-- values.update(raw) on the defaults: a key of `raw` hides the default
abbrev pub or_default : Fields → String → Value → Value
or_default raw key default = if contains key (keys raw) then get raw key else default

module _ (py : Python) (lib : ConfigLibrary) where
  -- isinstance(value, str) and value.strip()
  unfoldable pub visible_text : Value → Result String String
  visible_text (str s) = if lib.is_visible s then ok s else err invalid_configuration
  visible_text _ = err invalid_configuration

  unfoldable pub optional_text : Value → Result String (Option String)
  optional_text null = ok none
  optional_text (str s) = if lib.is_visible s then ok (some s) else err invalid_configuration
  optional_text _ = err invalid_configuration

  unfoldable pub check_endpoint : String → Bool → Result String (Unit {0})
  check_endpoint endpoint allow_insecure_http = elim (lib.urlsplit endpoint) [
    | none ↦ err "invalid_endpoint"
    | some parsed ↦ (do
      guard
          ((parsed.scheme == "http" || parsed.scheme == "https")
            && parsed.has_hostname
            && not (parsed.has_username || parsed.has_password))
          "invalid_endpoint"
      guard (not (parsed.scheme == "http" && not allow_insecure_http)) "insecure_endpoint")
  ]

  -- isinstance(value, int), no bool, and 1 <= value <= maximum
  unfoldable pub int_within : ℕ → Value → Result String ℕ
  int_within maximum (int (pos n)) =
      if leb 1 n && leb n maximum then ok n else err invalid_configuration
  int_within maximum _ = err invalid_configuration

  unfoldable pub bool_value : Value → Result String Bool
  bool_value (bool b) = ok b
  bool_value _ = err invalid_configuration

  -- the truth of a value, as `not self.allow_insecure_http` reads it before its type is checked
  abbrev pub is_truthy : Value → Bool
  is_truthy (bool b) = b
  is_truthy null = false
  is_truthy (str s) = not (s == "")
  is_truthy (int (pos n)) = leb 1 n
  is_truthy (int (negsuc n)) = true
  is_truthy _ = true

  -- `cls(**values)` with `__post_init__`, on the values of the mapping
  unfoldable pub make_config : Fields → Result String HeartbeatConfig
  make_config raw = do
    endpoint ← visible_text (get raw "endpoint")
    token_file ← visible_text (get raw "token_file")
    runner_id ← visible_text (get raw "runner_id")
    state_file ← visible_text (get raw "state_file")
    producer_id ← visible_text (or_default raw "producer_id" (str "runner-heartbeat"))
    service_name ← visible_text (or_default raw "service_name" (str "RunnerObservabilityHeartbeat"))
    python_executable ← visible_text (or_default raw "python_executable" (str lib.executable))
    outbox_dir ← optional_text (or_default raw "outbox_dir" null)
    check_endpoint endpoint (is_truthy (or_default raw "allow_insecure_http" (bool false)))
    guard (py.is_uuid runner_id) "invalid_runner_id"
    guard (py.re_fullmatch identifier producer_id && py.re_fullmatch identifier service_name)
        invalid_configuration
    interval_seconds ← int_within 86400 (or_default raw "interval_seconds" (int (pos 60)))
    network_poll_seconds ← int_within 300 (or_default raw "network_poll_seconds" (int (pos 5)))
    allow_insecure_http ← bool_value (or_default raw "allow_insecure_http" (bool false))
    ok (record {
      endpoint = endpoint;
      token_file = token_file;
      runner_id = runner_id;
      state_file = state_file;
      producer_id = producer_id;
      service_name = service_name;
      python_executable = python_executable;
      interval_seconds = interval_seconds;
      network_poll_seconds = network_poll_seconds;
      allow_insecure_http = allow_insecure_http;
      outbox_dir = outbox_dir;
    })

  -- The check of the required fields comes first in the source; it raises what `make_config` raises.
  unfoldable pub from_mapping : Value → Result String HeartbeatConfig
  unfolding make_config
  from_mapping value = elim (as_mapping value) [
    | none ↦ err invalid_configuration
    | some raw ↦
        if all (λ k. contains k config_fields) (keys raw)
        then make_config raw
        else err invalid_configuration
  ]

abbrev outbox_field : Option String → Fields
outbox_field none = end
outbox_field (some dir) = field "outbox_dir" (str dir) end

unfoldable pub to_mapping : HeartbeatConfig → Value
to_mapping c = dict (
    field "endpoint" (str c.endpoint) (
      field "token_file" (str c.token_file) (
        field "runner_id" (str c.runner_id) (
          field "state_file" (str c.state_file) (
            field "producer_id" (str c.producer_id) (
              field "service_name" (str c.service_name) (
                field "python_executable" (str c.python_executable) (
                  field "interval_seconds" (int (pos c.interval_seconds)) (
                    field "network_poll_seconds" (int (pos c.network_poll_seconds)) (
                      field "allow_insecure_http" (bool c.allow_insecure_http)
                        (outbox_field c.outbox_dir)))))))))))
