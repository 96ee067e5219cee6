-- ===== src/Contracts/Raises.antt =====
-- The errors of `validate_event`: a `ValidationError` with one of three reasons, the `ValueError` of a
-- URL that `urlparse` cannot read, or a `RecursionError`.
use runner_observability.Base.{
  ℕ, zero, suc, not, String, ◌≡◌, refl, ◌⊎◌, inl, inr, Bool, true, false, none, some, List, [], ◌∷◌,
  Result, ok, err, ◌>>=◌, guard, leb, Option-cases, subst, err-injective, if◌then◌else◌, pos,
}
use runner_observability.Value.{
  Value, Items, Fields, null, bool, int, float, str, list, tuple, dict, proxy, nil, cons, end,
  field, get,
}
use runner_observability.Python.{
  Python, Url, Exception, validation_error, value_error, recursion_error,
}
use runner_observability.Contracts.Fields.{
  max_payload_bytes, string_in_range, int_at_least, invalid, validate_exact_keys, required_string,
  required_positive_int, required_uuid, required_identifier, required_stage_id, required_timestamp,
  required_run_url,
}
use runner_observability.Contracts.Content.{
  validate_payload_size, validate_no_forbidden_content, validate_items, validate_fields,
}
use runner_observability.Contracts.Event.{
  required_mapping, validate_envelope_fields, required_nonnegative_ints, validate_progress,
  validate_fallback, validate_job, validate_job_details, validate_job_event, validate_event,
  ValidatedEvent,
}

abbrev pub IsRejection : Python → Exception → Type 0
IsRejection py (validation_error reason) =
    (reason ≡ "invalid_event") ⊎ (reason ≡ "unsupported_schema") ⊎ (reason ≡ "payload_too_large")
IsRejection py value_error = (url : String) × (py.urlparse url ≡ none)
IsRejection py recursion_error = Unit
IsRejection py _ = ⊥

data Rejects {ℓ} (py : Python) (A : Type ℓ) : Result Exception A → Type ℓ where
  returns : (a : A) → Rejects py A (ok a)
  raises : (e : Exception) → IsRejection py e → Rejects py A (err e)

module _ {ℓ} (py : Python) {A : Type ℓ} where
  Rejects-if :
      (b : Bool) {m n : Result Exception A}
      → Rejects py A m
      → Rejects py A n
      → Rejects py A (if b then m else n)
  Rejects-if true km kn = km
  Rejects-if false km kn = kn

  Rejects-invalid : Rejects py A (err invalid)
  Rejects-invalid = raises invalid (inl refl)

  Rejects-at :
      {r : Result Exception A} {e : Exception} → Rejects py A r → r ≡ err e → IsRejection py e
  Rejects-at (returns a) h = cc
  Rejects-at (raises e k) h = subst (IsRejection py) (err-injective h) k

module _ {ℓ κ} (py : Python) {A : Type ℓ} {B : Type κ} where
  Rejects-bind :
      {m : Result Exception A} {f : A → Result Exception B}
      → Rejects py A m
      → ((a : A) → Rejects py B (f a))
      → Rejects py B (m >>= f)
  Rejects-bind (returns a) kf = kf a
  Rejects-bind (raises e k) kf = raises e k

Rejects-guard : (py : Python) (b : Bool) → Rejects py (Unit {0}) (guard b invalid)
Rejects-guard py true = returns tt
Rejects-guard py false = Rejects-invalid py

module _ (py : Python) where
  Rejects-string : (v : Value) (n : ℕ) → Rejects py String (string_in_range v n)
  unfolding string_in_range
  Rejects-string (str s) n = Rejects-if py _ (Rejects-invalid py) (returns s)
  Rejects-string _ n = Rejects-invalid py

  Rejects-int : (n : ℕ) (v : Value) → Rejects py ℕ (int_at_least n v)
  unfolding int_at_least
  Rejects-int n (int (pos k)) = Rejects-if py _ (Rejects-invalid py) (returns k)
  Rejects-int n _ = Rejects-invalid py

  required_string-Rejects :
      (f : Fields) (k : String) (n : ℕ) → Rejects py String (required_string f k n)
  unfolding required_string
  required_string-Rejects f k n = Rejects-string (get f k) n

  ruleset fields_rules =
      (required_string-Rejects, Rejects-bind, Rejects-guard, Rejects-if, Rejects-invalid, returns)

  required_uuid-Rejects : (f : Fields) (k : String) → Rejects py String (required_uuid py f k)
  unfolding required_uuid
  required_uuid-Rejects f k = search (fields_rules)

  required_identifier-Rejects :
      (f : Fields) (k : String) → Rejects py String (required_identifier py f k)
  unfolding required_identifier
  required_identifier-Rejects f k = search fields_rules

  required_stage_id-Rejects :
      (f : Fields) (k : String) → Rejects py String (required_stage_id py f k)
  unfolding required_stage_id
  required_stage_id-Rejects f k = search fields_rules

  required_timestamp-Rejects :
      (f : Fields) (k : String) → Rejects py String (required_timestamp py f k)
  unfolding required_timestamp
  required_timestamp-Rejects f k = search fields_rules

  parsed-Rejects :
      (url : String)
      → Rejects py Url (elim (py.urlparse url) [ none ↦ err value_error | some u ↦ ok u ])
  parsed-Rejects url = elim (Option-cases (py.urlparse url)) [
    | inl bad ↦ rw bad (raises value_error (url, bad))
    | inr (u, good) ↦ rw good (returns u)
  ]

  required_run_url-Rejects : (f : Fields) (k : String) → Rejects py String (required_run_url py f k)
  unfolding required_run_url
  required_run_url-Rejects f k = Rejects-bind py (required_string-Rejects f k 256) λ url.
      Rejects-bind py (parsed-Rejects url)
        λ parsed. Rejects-bind py (Rejects-guard py _) λ _. returns url

  required_positive_int-Rejects :
      (f : Fields) (k : String) → Rejects py ℕ (required_positive_int f k)
  unfolding required_positive_int
  required_positive_int-Rejects f k = Rejects-int 1 (get f k)

  required_nonnegative_ints-Rejects :
      (f : Fields) (ks : List String) → Rejects py (Unit {0}) (required_nonnegative_ints f ks)
  unfolding required_nonnegative_ints
  required_nonnegative_ints-Rejects f [] = returns tt
  required_nonnegative_ints-Rejects f (k ∷ ks) =
      Rejects-bind py (Rejects-int 0 (get f k)) (λ _. required_nonnegative_ints-Rejects f ks)

  validate_exact_keys-Rejects :
      (f : Fields) (ks : List String) → Rejects py (Unit {0}) (validate_exact_keys f ks)
  unfolding validate_exact_keys
  validate_exact_keys-Rejects f ks = Rejects-guard py _

  required_mapping-Rejects : (v : Value) → Rejects py Fields (required_mapping v)
  required_mapping-Rejects (dict f) = returns f
  required_mapping-Rejects (proxy f) = returns f
  required_mapping-Rejects _ = Rejects-invalid py

  ruleset event_rules = (
    fields_rules, required_uuid-Rejects, required_identifier-Rejects, required_stage_id-Rejects,
    required_timestamp-Rejects, required_run_url-Rejects, required_positive_int-Rejects,
    required_nonnegative_ints-Rejects, validate_exact_keys-Rejects, required_mapping-Rejects,
  )

  validate_progress-Rejects : (v : Value) → Rejects py (Unit {0}) (validate_progress py v)
  unfolding validate_progress
  validate_progress-Rejects v = search event_rules depth 30

  validate_fallback-Rejects : (v : Value) → Rejects py (Unit {0}) (validate_fallback py v)
  unfolding validate_fallback
  validate_fallback-Rejects v = search event_rules depth 30

  validate_job-Rejects : (f : Fields) → Rejects py (Unit {0}) (validate_job py f)
  unfolding validate_job
  validate_job-Rejects f = search event_rules depth 30

  validate_job_details-Rejects :
      (f : Fields) (kind : String) → Rejects py (Unit {0}) (validate_job_details py f kind)
  unfolding validate_job_details
  validate_job_details-Rejects f kind =
      search (event_rules, validate_progress-Rejects, validate_fallback-Rejects) depth 30

  validate_job_event-Rejects :
      (f : Fields) (kind : String) → Rejects py (Unit {0}) (validate_job_event py f kind)
  unfolding validate_job_event
  validate_job_event-Rejects f kind =
      search (event_rules, validate_job-Rejects, validate_job_details-Rejects) depth 30

  Rejects-deep : Rejects py (Unit {0}) (err recursion_error)
  Rejects-deep = raises recursion_error tt

  Rejects-room : (b : Bool) → Rejects py (Unit {0}) (guard b recursion_error)
  Rejects-room true = returns tt
  Rejects-room false = Rejects-deep

  encoded-Rejects :
      (v : Value) → Rejects py ℕ (elim (py.dumps_size v) [ none ↦ err invalid | some n ↦ ok n ])
  encoded-Rejects v = elim (Option-cases (py.dumps_size v)) [
    | inl bad ↦ rw bad (Rejects-invalid py)
    | inr (n, sized) ↦ rw sized (returns n)
  ]

  Rejects-size : (b : Bool) → Rejects py (Unit {0}) (guard b (validation_error "payload_too_large"))
  Rejects-size true = returns tt
  Rejects-size false = raises (validation_error "payload_too_large") (inr (inr refl))

  validate_payload_size-Rejects : (v : Value) → Rejects py (Unit {0}) (validate_payload_size py v)
  unfolding validate_payload_size
  validate_payload_size-Rejects v =
      Rejects-bind py (Rejects-room (not (py.dumps_too_deep v)))
        λ _. Rejects-bind py (encoded-Rejects v) λ n. Rejects-size (leb n max_payload_bytes)

  mutual
    unfolding validate_no_forbidden_content

    content-Rejects :
        (d : ℕ) (v : Value) → Rejects py (Unit {0}) (validate_no_forbidden_content py d v)
    content-Rejects zero v = Rejects-deep
    content-Rejects (suc d) (dict f) = fields-Rejects d f
    content-Rejects (suc d) (proxy f) = fields-Rejects d f
    content-Rejects (suc d) (list l) = items-Rejects d l
    content-Rejects (suc d) (tuple l) = items-Rejects d l
    content-Rejects (suc d) (str s) = Rejects-guard py _
    content-Rejects (suc d) null = returns tt
    content-Rejects (suc d) (bool b) = returns tt
    content-Rejects (suc d) (int i) = returns tt
    content-Rejects (suc d) (float b) = returns tt

    items-Rejects : (d : ℕ) (l : Items) → Rejects py (Unit {0}) (validate_items py d l)
    items-Rejects d nil = returns tt
    items-Rejects d (cons v l) = Rejects-bind py (content-Rejects d v) (λ _. items-Rejects d l)

    fields-Rejects : (d : ℕ) (f : Fields) → Rejects py (Unit {0}) (validate_fields py d f)
    fields-Rejects d end = returns tt
    fields-Rejects d (field k v f) =
        Rejects-bind py (Rejects-guard py _)
          (λ _. Rejects-bind py (content-Rejects d v) (λ _. fields-Rejects d f))

  schema-Rejects :
      (b : Bool) → Rejects py (Unit {0}) (guard b (validation_error "unsupported_schema"))
  schema-Rejects true = returns tt
  schema-Rejects false = raises (validation_error "unsupported_schema") (inr (inl refl))

  event-Rejects : (v : Value) → Rejects py ValidatedEvent (validate_event py v)
  unfolding validate_event validate_envelope_fields
  event-Rejects v =
      search
        (
          event_rules, validate_payload_size-Rejects, content-Rejects, schema-Rejects, Rejects-room,
          validate_job_event-Rejects,
        )
        depth 40

-- Whatever the payload, `validate_event` accepts, raises a ValidationError with one of its three
-- reasons, raises the ValueError of a URL that `urlparse` cannot read, or raises a RecursionError. It
-- raises no other exception.
pub validate_event-IsRejection :
    (py : Python) (v : Value) (e : Exception) → validate_event py v ≡ err e → IsRejection py e
validate_event-IsRejection py v e h = Rejects-at py (event-Rejects py v) h
