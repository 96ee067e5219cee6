-- ===== src/Service/Config.antt =====
-- service.py: `ServiceConfig`, its validation, its mapping, and the commands that are built from it.
use runner_observability.Base.{
  ℕ, String, Bool, true, false, not, ◌&&◌, Option, none, some, List, [], ◌∷◌, ◌++◌, pos, Result, ok,
  err, ◌>>=◌, ◌>>◌, guard, string_eq, leb, contains, all, if◌then◌else◌,
}
use runner_observability.Value.{
  Value, Fields, null, int, str, end, field, dict, get, keys, as_mapping,
}
use runner_observability.Python.{Python}

-- A ServiceConfigError has a reason.
pub record ServiceConfig : Type 0 where
  pub service_name : String
  pub python_executable : String
  pub database : String
  pub token_file : String
  pub host : String
  pub port : ℕ
  pub tls_cert : Option String
  pub tls_key : Option String
  pub release_root : Option String

abbrev pub config_fields : List String
config_fields =
    "service_name" ∷ "python_executable" ∷ "database" ∷ "token_file" ∷ "host" ∷ "port" ∷ "tls_cert"
    ∷ "tls_key" ∷ "release_root" ∷ []

abbrev pub invalid_configuration : String
invalid_configuration = "invalid_service_configuration"

-- values.update(raw) on the defaults: a key of `raw` hides the default
abbrev pub or_default : Fields → String → Value → Value
or_default raw key default = if contains key (keys raw) then get raw key else default

abbrev is_none : Option String → Bool
is_none none = true
is_none (some _) = false

-- (tls_cert is None) == (tls_key is None)
abbrev pub is_pair : Option String → Option String → Bool
is_pair certificate key = if is_none certificate then is_none key else not (is_none key)

-- The parts of the standard library that are used: whether `value.strip()` is not empty, and
-- `sys.executable`.
module _ (is_visible : String → Bool) (executable : String) where
  unfoldable pub visible_text : Value → Result String String
  visible_text (str s) = if is_visible s then ok s else err invalid_configuration
  visible_text _ = err invalid_configuration

  unfoldable pub optional_text : Value → Result String (Option String)
  optional_text null = ok none
  optional_text (str s) = if is_visible s then ok (some s) else err invalid_configuration
  optional_text _ = err invalid_configuration

  unfoldable pub port_number : Value → Result String ℕ
  port_number (int (pos n)) = if leb 1 n && leb n 65535 then ok n else err invalid_configuration
  port_number _ = err invalid_configuration

  -- the values, checked in the order of the source
  unfoldable pub make_config : Fields → Result String ServiceConfig
  unfolding visible_text optional_text port_number
  make_config raw = do
    service_name ← visible_text (or_default raw "service_name" (str "RunnerObservabilityMonitor"))
    python_executable ← visible_text (or_default raw "python_executable" (str executable))
    database ← visible_text (or_default raw "database" (str "runner-observability.sqlite"))
    token_file ← visible_text (or_default raw "token_file" (str ""))
    host ← visible_text (or_default raw "host" (str "0.0.0.0"))
    port ← port_number (or_default raw "port" (int (pos 8765)))
    tls_cert ← optional_text (or_default raw "tls_cert" null)
    tls_key ← optional_text (or_default raw "tls_key" null)
    release_root ← optional_text (or_default raw "release_root" null)
    guard (is_pair tls_cert tls_key) "tls_partial_configuration"
    ok (record {
      service_name = service_name;
      python_executable = python_executable;
      database = database;
      token_file = token_file;
      host = host;
      port = port;
      tls_cert = tls_cert;
      tls_key = tls_key;
      release_root = release_root;
    })

  abbrev pub make_known : Fields → Bool → Result String ServiceConfig
  make_known raw false = err invalid_configuration
  make_known raw true = make_config raw

  unfoldable pub from_mapping : Value → Result String ServiceConfig
  unfolding make_config
  from_mapping value = elim (as_mapping value) [
    | none ↦ err invalid_configuration
    | some raw ↦ make_known raw (all (λ k. contains k config_fields) (keys raw))
  ]

  -- `from_json`, on what the file gives: `none` where it cannot be read or is no JSON
  unfoldable pub from_json : Option Value → Result String ServiceConfig
  unfolding from_mapping
  from_json none = err invalid_configuration
  from_json (some value) = from_mapping value

abbrev pub text_or_null : Option String → Value
text_or_null none = null
text_or_null (some s) = str s

unfoldable pub to_mapping : ServiceConfig → Value
to_mapping c = dict (
    field "service_name" (str c.service_name) (
      field "python_executable" (str c.python_executable) (
        field "database" (str c.database) (
          field "token_file" (str c.token_file) (
            field "host" (str c.host) (
              field "port" (int (pos c.port)) (
                field "tls_cert" (text_or_null c.tls_cert) (
                  field "tls_key" (text_or_null c.tls_key)
                    (field "release_root" (text_or_null c.release_root) end)))))))))

abbrev tls_arguments : Option String → Option String → List String
tls_arguments (some certificate) (some key) = "--tls-cert" ∷ certificate ∷ "--tls-key" ∷ key ∷ []
tls_arguments _ _ = []

unfoldable pub build_monitor_command : Python → ServiceConfig → List String
build_monitor_command py config =
    (config.python_executable
      ∷ "-m"
      ∷ "runner_observability"
      ∷ "serve"
      ∷ "--token-file"
      ∷ config.token_file
      ∷ "--database"
      ∷ config.database
      ∷ "--host"
      ∷ config.host
      ∷ "--port"
      ∷ py.show_int config.port
      ∷ [])
    ++ tls_arguments config.tls_cert config.tls_key

-- `list2cmdline` is `subprocess.list2cmdline`.
unfoldable pub build_service_bin_path : (List String → String) → String → String → String
build_service_bin_path list2cmdline config_path python_executable = list2cmdline (
    python_executable ∷ "-m" ∷ "runner_observability.service" ∷ "run" ∷ "--config" ∷ config_path
    ∷ [])
