-- ===== src/Contracts/Content.antt =====
-- contracts.py: the checks of a whole payload, its size and its content.
use runner_observability.Base.{
  ℕ, zero, suc, not, ◌||◌, none, some, Result, ok, err, ◌>>=◌, ◌>>◌, guard, leb,
}
use runner_observability.Value.{
  Value, Items, Fields, null, bool, int, float, str, list, tuple, dict, proxy, nil, cons, end,
  field,
}
use runner_observability.Python.{Python, Exception, validation_error, recursion_error}
use runner_observability.Contracts.Fields.{
  max_payload_bytes, forbidden_field_fragment, secret_value, absolute_path, invalid,
}

module _ (py : Python) where
  unfoldable pub validate_payload_size : Value → Result Exception (Unit {0})
  validate_payload_size payload = do
    guard (not (py.dumps_too_deep payload)) recursion_error
    encoded ← elim (py.dumps_size payload) [ none ↦ err invalid | some size ↦ ok size ]
    guard (leb encoded max_payload_bytes) (validation_error "payload_too_large")

  -- A mapping's keys and items, an array's items, and a text are searched. The number is the room on
  -- the stack for calls inside each other.
  unfoldable mutual
    pub validate_no_forbidden_content : ℕ → Value → Result Exception (Unit {0})
    validate_no_forbidden_content zero value = err recursion_error
    validate_no_forbidden_content (suc d) (dict f) = validate_fields d f
    validate_no_forbidden_content (suc d) (proxy f) = validate_fields d f
    validate_no_forbidden_content (suc d) (list l) = validate_items d l
    validate_no_forbidden_content (suc d) (tuple l) = validate_items d l
    validate_no_forbidden_content (suc d) (str value) =
        guard (not (py.re_search secret_value value || py.re_search absolute_path value)) invalid
    validate_no_forbidden_content (suc d) null = ok tt
    validate_no_forbidden_content (suc d) (bool b) = ok tt
    validate_no_forbidden_content (suc d) (int i) = ok tt
    validate_no_forbidden_content (suc d) (float b) = ok tt

    pub validate_items : ℕ → Items → Result Exception (Unit {0})
    validate_items d nil = ok tt
    validate_items d (cons item l) = validate_no_forbidden_content d item >> validate_items d l

    pub validate_fields : ℕ → Fields → Result Exception (Unit {0})
    validate_fields d end = ok tt
    validate_fields d (field key item f) =
        guard (not (py.re_search forbidden_field_fragment key)) invalid
        >> (validate_no_forbidden_content d item >> validate_fields d f)
