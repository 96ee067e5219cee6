-- ===== src/Service/Settings.antt =====
-- What an accepted configuration of the service is, and that it is read back from its mapping.
use runner_observability.Base.{
  ℕ, String, ◌≡◌, Bool, true, false, pos, ◌&&◌, Option, none, some, ok, arith, string_eq, >>=-eq-ok,
  guard, guard-eq-ok, ok-injective, subst, leb, inl, inr, Bool-cases,
}
use runner_observability.Value.{Value, Fields, null, dict, proxy, str, int, get, keys}
use runner_observability.Service.Config.{
  ServiceConfig, is_pair, visible_text, optional_text, port_number, make_config, make_known,
  from_mapping, to_mapping, text_or_null, or_default,
}

module _ (is_visible : String → Bool) (executable : String) where
  abbrev pub IsVisibleOption : Option String → Type 0
  IsVisibleOption none = Unit
  IsVisibleOption (some s) = is_visible s ≡ true

  -- A configuration in the form that `from_mapping` asks for.
  pub record IsServiceConfig (c : ServiceConfig) : Type 0 where
    pub service_name : is_visible c.service_name ≡ true
    pub python_executable : is_visible c.python_executable ≡ true
    pub database : is_visible c.database ≡ true
    pub token_file : is_visible c.token_file ≡ true
    pub host : is_visible c.host ≡ true
    pub port : (leb 1 c.port && leb c.port 65535) ≡ true
    pub tls_cert : IsVisibleOption c.tls_cert
    pub tls_key : IsVisibleOption c.tls_key
    pub release_root : IsVisibleOption c.release_root
    pub tls_pair : is_pair c.tls_cert c.tls_key ≡ true

  visible_text-visible :
      (v : Value) {s : String} → visible_text is_visible executable v ≡ ok s → is_visible s ≡ true
  unfolding visible_text
  visible_text-visible v h = ground arith

  optional_text-visible :
      (v : Value) {o : Option String}
      → optional_text is_visible executable v ≡ ok o
      → IsVisibleOption o
  unfolding optional_text
  optional_text-visible null h = subst IsVisibleOption (ok-injective h) tt
  optional_text-visible (str s) h = elim (Bool-cases (is_visible s)) [
    | inl seen ↦ subst IsVisibleOption (ok-injective (rw seen at h)) seen
    | inr blank ↦ absurd (ground (arith))
  ]
  optional_text-visible _ h = cc

  port_number-leb :
      (v : Value) {n : ℕ}
      → port_number is_visible executable v ≡ ok n
      → (leb 1 n && leb n 65535) ≡ true
  unfolding port_number
  port_number-leb v h = ground arith

  make_config-IsServiceConfig :
      (raw : Fields) {c : ServiceConfig}
      → make_config is_visible executable raw ≡ ok c
      → IsServiceConfig c
  unfolding make_config
  make_config-IsServiceConfig raw h =
      let (name, name_ok, h1) =
        >>=-eq-ok
          (visible_text is_visible executable
            (or_default raw "service_name" (str "RunnerObservabilityMonitor")))
          _ h in
      let (python, python_ok, h2) =
        >>=-eq-ok
          (visible_text is_visible executable (or_default raw "python_executable" (str executable)))
          _ h1 in
      let (database, database_ok, h3) =
        >>=-eq-ok
          (visible_text is_visible executable
            (or_default raw "database" (str "runner-observability.sqlite")))
          _ h2 in
      let (token, token_ok, h4) =
        >>=-eq-ok (visible_text is_visible executable (or_default raw "token_file" (str ""))) _
          h3 in
      let (host, host_ok, h5) =
        >>=-eq-ok (visible_text is_visible executable (or_default raw "host" (str "0.0.0.0"))) _
          h4 in
      let (port, port_ok, h6) =
        >>=-eq-ok (port_number is_visible executable (or_default raw "port" (int (pos 8765)))) _
          h5 in
      let (certificate, certificate_ok, h7) =
        >>=-eq-ok (optional_text is_visible executable (or_default raw "tls_cert" null)) _ h6 in
      let (key, key_ok, h8) =
        >>=-eq-ok (optional_text is_visible executable (or_default raw "tls_key" null)) _ h7 in
      let (root, root_ok, h9) =
        >>=-eq-ok (optional_text is_visible executable (or_default raw "release_root" null)) _ h8 in
      let (t, paired, h10) = >>=-eq-ok (guard _ "tls_partial_configuration") _ h9 in
      subst IsServiceConfig (ok-injective h10) (record {
        service_name =
            visible_text-visible (or_default raw "service_name" (str "RunnerObservabilityMonitor"))
              name_ok;
        python_executable =
            visible_text-visible (or_default raw "python_executable" (str executable)) python_ok;
        database =
            visible_text-visible (or_default raw "database" (str "runner-observability.sqlite"))
              database_ok;
        token_file = visible_text-visible (or_default raw "token_file" (str "")) token_ok;
        host = visible_text-visible (or_default raw "host" (str "0.0.0.0")) host_ok;
        port = port_number-leb (or_default raw "port" (int (pos 8765))) port_ok;
        tls_cert = optional_text-visible (or_default raw "tls_cert" null) certificate_ok;
        tls_key = optional_text-visible (or_default raw "tls_key" null) key_ok;
        release_root = optional_text-visible (or_default raw "release_root" null) root_ok;
        tls_pair = guard-eq-ok _ _ paired;
      })

  make_known-IsServiceConfig :
      (raw : Fields) (known : Bool) {c : ServiceConfig}
      → make_known is_visible executable raw known ≡ ok c
      → IsServiceConfig c
  make_known-IsServiceConfig raw true h = make_config-IsServiceConfig raw h
  make_known-IsServiceConfig raw false h = cc

  accepted-IsServiceConfig :
      (value : Value) {c : ServiceConfig}
      → from_mapping is_visible executable value ≡ ok c
      → IsServiceConfig c
  unfolding from_mapping
  accepted-IsServiceConfig (dict raw) h = make_known-IsServiceConfig raw _ h
  accepted-IsServiceConfig (proxy raw) h = make_known-IsServiceConfig raw _ h
  accepted-IsServiceConfig _ h = cc

  optional_text-text_or_null :
      (o : Option String)
      → IsVisibleOption o
      → optional_text is_visible executable (text_or_null o) ≡ ok o
  unfolding optional_text
  optional_text-text_or_null none h = ground arith
  optional_text-text_or_null (some s) h = ground (arith, h)

  to_mapping-accepted :
      (c : ServiceConfig)
      → IsServiceConfig c
      → from_mapping is_visible executable (to_mapping c) ≡ ok c
  unfolding from_mapping make_config to_mapping visible_text port_number get keys
  to_mapping-accepted c s = ground (
    arith,
    s.service_name,
    s.python_executable,
    s.database,
    s.token_file,
    s.host,
    s.port,
    s.tls_pair,
    optional_text-text_or_null c.tls_cert s.tls_cert,
    optional_text-text_or_null c.tls_key s.tls_key,
    optional_text-text_or_null c.release_root s.release_root,
  )

  -- A configuration of the service that is accepted has visible texts, a port from 1 to 65535, and a
  -- TLS certificate exactly if it has a key; and it is accepted again, as the same one, from the
  -- mapping that is written for it.
  pub from_mapping-IsServiceConfig :
      (value : Value) {c : ServiceConfig}
      → from_mapping is_visible executable value ≡ ok c
      → IsServiceConfig c × (from_mapping is_visible executable (to_mapping c) ≡ ok c)
  from_mapping-IsServiceConfig value {c} h =
      let good = accepted-IsServiceConfig value h in (good, to_mapping-accepted c good)
