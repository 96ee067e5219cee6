-- ===== src/Heartbeat/Settings.antt =====
-- What an accepted configuration is, and that it is read back from its mapping.
use runner_observability.Base.{
  ℕ, String, ◌≡◌, Bool, true, false, ◌&&◌, Option, none, some, ok, err, arith, string_eq,
  if◌then◌else◌, Ensures, Ensures->>=, Ensures-at, guard, guard-eq-ok, ok-injective, subst, leb,
  inl, inr, Bool-cases,
}
use runner_observability.Value.{Value, Fields, null, dict, proxy, str, get, keys}
use runner_observability.Python.{Python}
use runner_observability.Contracts.Fields.{identifier}
use runner_observability.Heartbeat.Config.{
  ConfigLibrary, HeartbeatConfig, invalid_configuration, visible_text, optional_text,
  check_endpoint, int_within, bool_value, is_truthy, make_config, from_mapping, to_mapping,
}

abbrev pub IsVisibleOption : ConfigLibrary → Option String → Type 0
IsVisibleOption lib none = Unit
IsVisibleOption lib (some s) = lib.is_visible s ≡ true

-- A configuration in the form that `__post_init__` asks for.
pub record IsSettings (py : Python) (lib : ConfigLibrary) (c : HeartbeatConfig) : Type 0 where
  pub endpoint : lib.is_visible c.endpoint ≡ true
  pub token_file : lib.is_visible c.token_file ≡ true
  pub runner_id : lib.is_visible c.runner_id ≡ true
  pub state_file : lib.is_visible c.state_file ≡ true
  pub producer_id : lib.is_visible c.producer_id ≡ true
  pub service_name : lib.is_visible c.service_name ≡ true
  pub python_executable : lib.is_visible c.python_executable ≡ true
  pub outbox_dir : IsVisibleOption lib c.outbox_dir
  pub address : check_endpoint py lib c.endpoint c.allow_insecure_http ≡ ok tt
  pub uuid : py.is_uuid c.runner_id ≡ true
  pub identifiers :
      (py.re_fullmatch identifier c.producer_id && py.re_fullmatch identifier c.service_name) ≡ true
  pub interval : (leb 1 c.interval_seconds && leb c.interval_seconds 86400) ≡ true
  pub poll : (leb 1 c.network_poll_seconds && leb c.network_poll_seconds 300) ≡ true

module _ (py : Python) (lib : ConfigLibrary) where
  visible_text-visible :
      (v : Value) {s : String} → visible_text py lib v ≡ ok s → lib.is_visible s ≡ true
  unfolding visible_text
  visible_text-visible v h = ground arith

  optional_text-visible :
      (v : Value) {o : Option String} → optional_text py lib v ≡ ok o → IsVisibleOption lib o
  unfolding optional_text
  optional_text-visible null h = subst (IsVisibleOption lib) (ok-injective h) tt
  optional_text-visible (str s) h = elim (Bool-cases (lib.is_visible s)) [
    | inl seen ↦ subst (IsVisibleOption lib) (ok-injective (rw seen at h)) seen
    | inr blank ↦ absurd (ground (arith))
  ]
  optional_text-visible _ h = cc

  int_within-leb :
      (maximum : ℕ) (v : Value) {n : ℕ}
      → int_within py lib maximum v ≡ ok n
      → (leb 1 n && leb n maximum) ≡ true
  unfolding int_within
  int_within-leb maximum v h = ground arith

  bool_value-eq-ok : (v : Value) {b : Bool} → bool_value py lib v ≡ ok b → is_truthy py lib v ≡ b
  unfolding bool_value
  bool_value-eq-ok v h = ground arith

  make_config-Ensures : (raw : Fields) → Ensures (IsSettings py lib) (make_config py lib raw)
  unfolding make_config
  make_config-Ensures raw =
      Ensures->>= (IsSettings py lib) _ (visible_text py lib (get raw "endpoint"))
        λ endpoint endpoint_ok.
          Ensures->>= (IsSettings py lib) _ (visible_text py lib (get raw "token_file"))
            λ token token_ok.
              Ensures->>= (IsSettings py lib) _ (visible_text py lib (get raw "runner_id"))
                λ runner runner_ok.
                  Ensures->>= (IsSettings py lib) _ (visible_text py lib (get raw "state_file"))
                    λ state state_ok.
                      Ensures->>= (IsSettings py lib) _ (visible_text py lib _)
                        λ producer producer_ok.
                          Ensures->>= (IsSettings py lib) _ (visible_text py lib _)
                            λ service service_ok.
                              Ensures->>= (IsSettings py lib) _ (visible_text py lib _)
                                λ executable executable_ok.
                                  Ensures->>= (IsSettings py lib) _ (optional_text py lib _)
                                    λ outbox outbox_ok.
                                      Ensures->>= (IsSettings py lib) _
                                        (check_endpoint py lib endpoint _)
                                        λ t1 address_ok.
                                          Ensures->>= (IsSettings py lib) _
                                            (guard (py.is_uuid runner) "invalid_runner_id")
                                            λ t2 uuid_ok.
                                              Ensures->>= (IsSettings py lib) _
                                                (guard _ invalid_configuration)
                                                λ t3 named.
                                                  Ensures->>= (IsSettings py lib) _
                                                    (int_within py lib 86400 _)
                                                    λ interval interval_ok.
                                                      Ensures->>= (IsSettings py lib) _
                                                        (int_within py lib 300 _)
                                                        λ poll poll_ok.
                                                          Ensures->>= (IsSettings py lib)
                                                            (λ insecure. ok (record {
                                                            endpoint = endpoint;
                                                            token_file = token;
                                                            runner_id = runner;
                                                            state_file = state;
                                                            producer_id = producer;
                                                            service_name = service;
                                                            python_executable = executable;
                                                            interval_seconds = interval;
                                                            network_poll_seconds = poll;
                                                            allow_insecure_http = insecure;
                                                            outbox_dir = outbox;
                                                            }))
                                                            (bool_value py lib _)
                                                            λ insecure insecure_ok. record {
                                                            endpoint =
                                                            visible_text-visible _ endpoint_ok;
                                                            token_file =
                                                            visible_text-visible _ token_ok;
                                                            runner_id =
                                                            visible_text-visible _ runner_ok;
                                                            state_file =
                                                            visible_text-visible _ state_ok;
                                                            producer_id =
                                                            visible_text-visible _ producer_ok;
                                                            service_name =
                                                            visible_text-visible _ service_ok;
                                                            python_executable =
                                                            visible_text-visible _ executable_ok;
                                                            outbox_dir =
                                                            optional_text-visible _ outbox_ok;
                                                            address =
                                                            subst
                                                            (λ b.
                                                            check_endpoint py lib endpoint b
                                                            ≡ ok tt)
                                                            (bool_value-eq-ok _ insecure_ok)
                                                            address_ok;
                                                            uuid = guard-eq-ok _ _ uuid_ok;
                                                            identifiers = guard-eq-ok _ _ named;
                                                            interval =
                                                            int_within-leb 86400 _ interval_ok;
                                                            poll = int_within-leb 300 _ poll_ok;
                                                            }

  make_config-keys :
      (raw : Fields) (b : Bool) {c : HeartbeatConfig}
      → (if b then make_config py lib raw else err invalid_configuration) ≡ ok c
      → make_config py lib raw ≡ ok c
  make_config-keys raw true h = h
  make_config-keys raw false h = cc

  -- A configuration that is accepted has visible texts, an allowed endpoint, a UUID for the runner,
  -- identifiers for the producer and the service, and periods within their bounds.
  pub from_mapping-IsSettings :
      (value : Value) {c : HeartbeatConfig} → from_mapping py lib value ≡ ok c → IsSettings py lib c
  unfolding from_mapping
  from_mapping-IsSettings (dict raw) h =
      Ensures-at _ _ (make_config-Ensures raw) (make_config-keys raw _ h)
  from_mapping-IsSettings (proxy raw) h =
      Ensures-at _ _ (make_config-Ensures raw) (make_config-keys raw _ h)
  from_mapping-IsSettings _ h = cc

  to_mapping-accepted :
      (c : HeartbeatConfig) → IsSettings py lib c → from_mapping py lib (to_mapping c) ≡ ok c
  unfolding from_mapping make_config to_mapping visible_text optional_text int_within bool_value get
      keys
  to_mapping-accepted c s = ground (
    arith, s.endpoint, s.token_file, s.runner_id, s.state_file, s.producer_id, s.service_name,
    s.python_executable, s.outbox_dir, s.address, s.uuid, s.identifiers, s.interval, s.poll,
  )

  -- A configuration that is accepted is accepted again, as the same one, from the mapping that is
  -- written for it.
  pub from_mapping-to_mapping :
      (value : Value) {c : HeartbeatConfig}
      → from_mapping py lib value ≡ ok c
      → from_mapping py lib (to_mapping c) ≡ ok c
  from_mapping-to_mapping value h = to_mapping-accepted _ (from_mapping-IsSettings value h)
