-- ===== src/Contracts/SortedEvent.antt =====
-- An event that validates does so with its keys in order too.
use runner_observability.Base.{
  ℕ, zero, suc, String, ◌≡◌, refl, ap, ◌∙◌, not, some, Option, Result, ok, guard, >>=-eq-ok,
  if◌then◌else◌,
}
use Prim.Native.Nat.{Ordering}
use Prim.Native.String.{compare}
use runner_observability.Value.{
  Value, Items, Fields, null, bool, int, float, str, list, tuple, dict, proxy, nil, cons, end,
  field, as_mapping, freeze,
}
use runner_observability.Value.Sorted.{insert_key, sort_keys, sort_fields, sort_items}
use runner_observability.Value.SortedFields.{has_exact_keys-sort_fields}
use runner_observability.Python.{Python, Exception, validation_error, recursion_error}
use runner_observability.Contracts.Fields.{
  invalid, forbidden_field_fragment, common_fields, validate_exact_keys,
}
use runner_observability.Contracts.Content.{
  validate_payload_size, validate_no_forbidden_content, validate_items, validate_fields,
}
use runner_observability.Contracts.Event.{
  ValidatedEvent, required_mapping, expected_fields, is_runner_event, validate_envelope_fields,
  validate_job_event, validate_event,
}
use runner_observability.Contracts.Steps.{schema_guard, validate_event-Steps}
use runner_observability.Contracts.Sorted.{
  is_schema_version-sorted, required_string-sorted, required_positive_int-sorted,
  validate_exact_keys-sorted, required_uuid-sorted, required_identifier-sorted,
  required_timestamp-sorted, validate_job_event-sorted,
}

module _ (py : Python) where
  abbrev name_check : String → Result Exception (Unit {0})
  name_check key = guard (not (py.re_search forbidden_field_fragment key)) invalid

  validate_fields-insert_key :
      (d : ℕ) (k : String) (v : Value) (f : Fields)
      → name_check k ≡ ok tt
      → validate_no_forbidden_content py d v ≡ ok tt
      → validate_fields py d f ≡ ok tt
      → validate_fields py d (insert_key k v f) ≡ ok tt
  unfolding insert_key validate_no_forbidden_content
  validate_fields-insert_key d k v end named clean rest = rw (named, clean) refl
  validate_fields-insert_key d k v (field l w f) named clean rest =
      let (t, first, h1) = >>=-eq-ok (name_check l) _ rest in
      let (u, second, others) = >>=-eq-ok (validate_no_forbidden_content py d w) _ h1 in
      placed (compare k l) first second (validate_fields-insert_key d k v f named clean others)
    where
      placed :
          (o : Ordering)
          → name_check l ≡ ok tt
          → validate_no_forbidden_content py d w ≡ ok tt
          → validate_fields py d (insert_key k v f) ≡ ok tt
          → validate_fields py d
              (elim o [ Ordering.gt ↦ field l w (insert_key k v f) | _ ↦ field k v (field l w f) ])
            ≡ ok tt
      placed Ordering.lt a b c = rw (named, clean) rest
      placed Ordering.eq a b c = rw (named, clean) rest
      placed Ordering.gt a b c = rw (a, b) c

  mutual
    unfolding validate_no_forbidden_content sort_keys

    content-sorted :
        (d : ℕ) (v : Value)
        → validate_no_forbidden_content py d v ≡ ok tt
        → validate_no_forbidden_content py d (sort_keys v) ≡ ok tt
    content-sorted zero v h = cc
    content-sorted (suc d) (dict f) h = fields-sorted d f h
    content-sorted (suc d) (proxy f) h = fields-sorted d f h
    content-sorted (suc d) (list l) h = items-sorted d l h
    content-sorted (suc d) (tuple l) h = items-sorted d l h
    content-sorted (suc d) (str s) h = h
    content-sorted (suc d) null h = h
    content-sorted (suc d) (bool b) h = h
    content-sorted (suc d) (int i) h = h
    content-sorted (suc d) (float b) h = h

    items-sorted :
        (d : ℕ) (l : Items)
        → validate_items py d l ≡ ok tt
        → validate_items py d (sort_items l) ≡ ok tt
    items-sorted d nil h = h
    items-sorted d (cons v l) h =
        let (t, first, rest) = >>=-eq-ok (validate_no_forbidden_content py d v) _ h in
        rw (content-sorted d v first) (items-sorted d l rest)

    fields-sorted :
        (d : ℕ) (f : Fields)
        → validate_fields py d f ≡ ok tt
        → validate_fields py d (sort_fields f) ≡ ok tt
    fields-sorted d end h = h
    fields-sorted d (field k v f) h =
        let (t, named, h1) = >>=-eq-ok (name_check k) _ h in
        let (u, first, rest) = >>=-eq-ok (validate_no_forbidden_content py d v) _ h1 in
        validate_fields-insert_key d k (sort_keys v) (sort_fields f) named
          (content-sorted d v first) (fields-sorted d f rest)

-- The order of the keys makes no difference to the length of the JSON text or to the stack that is
-- needed.
pub record IsOrderFree (py : Python) (value : Value) : Type 0 where
  pub size : py.dumps_size (sort_keys value) ≡ py.dumps_size value
  pub dumps : py.dumps_too_deep (sort_keys value) ≡ py.dumps_too_deep value
  pub copy : py.freeze_too_deep (sort_keys value) ≡ py.freeze_too_deep value

size-sorted :
    (py : Python) (value : Value)
    → IsOrderFree py value
    → validate_payload_size py (sort_keys value) ≡ validate_payload_size py value
unfolding validate_payload_size
size-sorted py value free = rw (free.dumps, free.size) refl

some-injective : {a b : Fields} → ◌≡◌ {A = Option Fields} (some a) (some b) → a ≡ b
some-injective h = cc

mapping-sorted :
    (v : Value) {f : Fields}
    → as_mapping v ≡ some f
    → required_mapping (sort_keys v) ≡ ok (sort_fields f)
unfolding sort_keys
mapping-sorted (dict f) h = ap (λ r. ok (sort_fields r)) (some-injective h)
mapping-sorted (proxy f) h = ap (λ r. ok (sort_fields r)) (some-injective h)
mapping-sorted (str s) h = cc
mapping-sorted (list l) h = cc
mapping-sorted (tuple l) h = cc
mapping-sorted null h = cc
mapping-sorted (bool b) h = cc
mapping-sorted (int i) h = cc
mapping-sorted (float b) h = cc

schema-sorted : (f : Fields) → schema_guard (sort_fields f) ≡ schema_guard f
schema-sorted f =
    ap (λ b. guard b (validation_error "unsupported_schema"))
      (is_schema_version-sorted f "schema_version")

details-sorted :
    (py : Python) (f : Fields) (kind : String)
    → (if is_runner_event py kind
        then validate_exact_keys (sort_fields f) common_fields
        else validate_job_event py (sort_fields f) kind)
      ≡ (if is_runner_event py kind
          then validate_exact_keys f common_fields
          else validate_job_event py f kind)
details-sorted py f kind =
    cc (validate_exact_keys-sorted f common_fields, validate_job_event-sorted py f kind)

copy-sorted :
    (py : Python) (value : Value)
    → IsOrderFree py value
    → guard (not (py.freeze_too_deep (sort_keys value))) recursion_error
      ≡ guard (not (py.freeze_too_deep value)) recursion_error
copy-sorted py value free = rw free.copy refl

-- An event that validates does so with its keys in order at every depth, and it has the same fields
-- but for the payload, which has the keys in order.
pub validate_event-sort_keys :
    (py : Python) (value : Value) {e : ValidatedEvent}
    → IsOrderFree py value
    → validate_event py value ≡ ok e
    → validate_event py (sort_keys value)
      ≡ ok (record e { schema_version = 1; payload = freeze (sort_keys value) })
unfolding validate_event validate_envelope_fields validate_exact_keys
validate_event-sort_keys py value {e} free h =
    let s = validate_event-Steps py value e h in
    rw
      (
        size-sorted py value free ∙ s.sized,
        mapping-sorted value s.mapping,
        content-sorted py py.search_depth value s.clean,
        schema-sorted s.f ∙ s.supported,
        required_string-sorted s.f "event_type" 64 ∙ s.event_type,
        s.known_type,
        has_exact_keys-sort_fields s.f (expected_fields e.event_type) ∙ s.exact_keys,
        required_uuid-sorted s.f py "event_id" ∙ s.event_id,
        required_uuid-sorted s.f py "runner_id" ∙ s.runner_id,
        required_identifier-sorted s.f py "producer_id" ∙ s.producer_id,
        required_identifier-sorted s.f py "producer_epoch" ∙ s.producer_epoch,
        required_positive_int-sorted s.f "producer_sequence" ∙ s.producer_sequence,
        required_timestamp-sorted s.f py "occurred_at" ∙ s.occurred_at,
        details-sorted py s.f e.event_type ∙ s.details,
        copy-sorted py value free ∙ s.copied,
      )
      refl
