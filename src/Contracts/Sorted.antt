-- ===== src/Contracts/Sorted.antt =====
-- The checks of an event read the same where its keys are in order.
use runner_observability.Base.{
  ℕ, String, ◌≡◌, refl, ap, ◌∙◌, List, [], ◌∷◌, Result, guard, ◌>>=◌, ◌>>◌,
}
use runner_observability.Value.{
  Value, Fields, null, bool, int, float, str, list, tuple, dict, proxy, get,
}
use runner_observability.Value.Sorted.{sort_keys, sort_fields}
use runner_observability.Value.SortedFields.{get-sort_fields, has_exact_keys-sort_fields}
use runner_observability.Python.{Python, Exception}
use runner_observability.Contracts.Fields.{
  validate_exact_keys, string_in_range, required_string, int_at_least, required_positive_int,
  required_nonnegative_int, required_uuid, required_identifier, required_stage_id,
  required_timestamp, required_run_url, invalid,
}
use runner_observability.Contracts.Event.{
  required_mapping, is_schema_version, is_bool, required_nonnegative_ints, validate_progress,
  validate_fallback, validate_job, validate_job_details, validate_job_event,
}

string_in_range-sort_keys :
    (v : Value) (n : ℕ) → string_in_range (sort_keys v) n ≡ string_in_range v n
unfolding string_in_range sort_keys
string_in_range-sort_keys (str s) n = refl
string_in_range-sort_keys (dict f) n = refl
string_in_range-sort_keys (proxy f) n = refl
string_in_range-sort_keys (list l) n = refl
string_in_range-sort_keys (tuple l) n = refl
string_in_range-sort_keys null n = refl
string_in_range-sort_keys (bool b) n = refl
string_in_range-sort_keys (int i) n = refl
string_in_range-sort_keys (float b) n = refl

int_at_least-sort_keys : (n : ℕ) (v : Value) → int_at_least n (sort_keys v) ≡ int_at_least n v
unfolding int_at_least sort_keys
int_at_least-sort_keys n (str s) = refl
int_at_least-sort_keys n (dict f) = refl
int_at_least-sort_keys n (proxy f) = refl
int_at_least-sort_keys n (list l) = refl
int_at_least-sort_keys n (tuple l) = refl
int_at_least-sort_keys n null = refl
int_at_least-sort_keys n (bool b) = refl
int_at_least-sort_keys n (int i) = refl
int_at_least-sort_keys n (float b) = refl

is_bool-sort_keys : (v : Value) → is_bool (sort_keys v) ≡ is_bool v
unfolding sort_keys
is_bool-sort_keys (str s) = refl
is_bool-sort_keys (dict f) = refl
is_bool-sort_keys (proxy f) = refl
is_bool-sort_keys (list l) = refl
is_bool-sort_keys (tuple l) = refl
is_bool-sort_keys null = refl
is_bool-sort_keys (bool b) = refl
is_bool-sort_keys (int i) = refl
is_bool-sort_keys (float b) = refl

is_schema_version-sort_keys : (v : Value) → is_schema_version (sort_keys v) ≡ is_schema_version v
unfolding sort_keys
is_schema_version-sort_keys (str s) = refl
is_schema_version-sort_keys (dict f) = refl
is_schema_version-sort_keys (proxy f) = refl
is_schema_version-sort_keys (list l) = refl
is_schema_version-sort_keys (tuple l) = refl
is_schema_version-sort_keys null = refl
is_schema_version-sort_keys (bool b) = refl
is_schema_version-sort_keys (int i) = refl
is_schema_version-sort_keys (float b) = refl

module _ (f : Fields) where
  pub is_schema_version-sorted :
      (k : String) → is_schema_version (get (sort_fields f) k) ≡ is_schema_version (get f k)
  is_schema_version-sorted k =
      ap is_schema_version (get-sort_fields k f) ∙ is_schema_version-sort_keys (get f k)

  is_bool-sorted : (k : String) → is_bool (get (sort_fields f) k) ≡ is_bool (get f k)
  is_bool-sorted k = ap is_bool (get-sort_fields k f) ∙ is_bool-sort_keys (get f k)

  pub required_string-sorted :
      (k : String) (n : ℕ) → required_string (sort_fields f) k n ≡ required_string f k n
  unfolding required_string
  required_string-sorted k n =
      ap (λ v. string_in_range v n) (get-sort_fields k f) ∙ string_in_range-sort_keys (get f k) n

  int_at_least-sorted :
      (n : ℕ) (k : String) → int_at_least n (get (sort_fields f) k) ≡ int_at_least n (get f k)
  int_at_least-sorted n k =
      ap (int_at_least n) (get-sort_fields k f) ∙ int_at_least-sort_keys n (get f k)

  pub required_positive_int-sorted :
      (k : String) → required_positive_int (sort_fields f) k ≡ required_positive_int f k
  unfolding required_positive_int
  required_positive_int-sorted k = int_at_least-sorted 1 k

  pub validate_exact_keys-sorted :
      (ks : List String) → validate_exact_keys (sort_fields f) ks ≡ validate_exact_keys f ks
  unfolding validate_exact_keys
  validate_exact_keys-sorted ks = ap (λ b. guard b invalid) (has_exact_keys-sort_fields f ks)

  required_nonnegative_ints-sorted :
      (ks : List String)
      → required_nonnegative_ints (sort_fields f) ks ≡ required_nonnegative_ints f ks
  unfolding required_nonnegative_ints required_nonnegative_int
  required_nonnegative_ints-sorted [] = refl
  required_nonnegative_ints-sorted (k ∷ ks) =
      simp (int_at_least-sorted 0 k, required_nonnegative_ints-sorted ks)

  module _ (py : Python) where
    pub required_uuid-sorted :
        (k : String) → required_uuid py (sort_fields f) k ≡ required_uuid py f k
    unfolding required_uuid
    required_uuid-sorted k = rw (required_string-sorted k 36) refl

    pub required_identifier-sorted :
        (k : String) → required_identifier py (sort_fields f) k ≡ required_identifier py f k
    unfolding required_identifier
    required_identifier-sorted k = rw (required_string-sorted k 64) refl

    required_stage_id-sorted :
        (k : String) → required_stage_id py (sort_fields f) k ≡ required_stage_id py f k
    unfolding required_stage_id
    required_stage_id-sorted k = rw (required_string-sorted k 64) refl

    pub required_timestamp-sorted :
        (k : String) → required_timestamp py (sort_fields f) k ≡ required_timestamp py f k
    unfolding required_timestamp
    required_timestamp-sorted k = rw (required_string-sorted k 35) refl

    required_run_url-sorted :
        (k : String) → required_run_url py (sort_fields f) k ≡ required_run_url py f k
    unfolding required_run_url
    required_run_url-sorted k = rw (required_string-sorted k 256) refl

    validate_job-sorted : validate_job py (sort_fields f) ≡ validate_job py f
    unfolding validate_job
    validate_job-sorted = simp (
      validate_exact_keys-sorted, required_string-sorted, required_positive_int-sorted,
      required_run_url-sorted,
    )

    progress-sorted : validate_progress py (dict (sort_fields f)) ≡ validate_progress py (dict f)
    unfolding validate_progress
    progress-sorted = simp (
      validate_exact_keys-sorted, required_string-sorted, required_stage_id-sorted,
      required_positive_int-sorted, is_bool-sorted, required_nonnegative_ints-sorted,
    )

    fallback-sorted : validate_fallback py (dict (sort_fields f)) ≡ validate_fallback py (dict f)
    unfolding validate_fallback
    fallback-sorted =
        simp
          (validate_exact_keys-sorted, required_stage_id-sorted, required_nonnegative_ints-sorted)

module _ (py : Python) where
  validate_progress-sorted :
      (v : Value) → validate_progress py (sort_keys v) ≡ validate_progress py v
  unfolding validate_progress sort_keys
  validate_progress-sorted (dict f) = progress-sorted f py
  validate_progress-sorted (proxy f) = progress-sorted f py
  validate_progress-sorted (str s) = refl
  validate_progress-sorted (list l) = refl
  validate_progress-sorted (tuple l) = refl
  validate_progress-sorted null = refl
  validate_progress-sorted (bool b) = refl
  validate_progress-sorted (int i) = refl
  validate_progress-sorted (float b) = refl

  validate_fallback-sorted :
      (v : Value) → validate_fallback py (sort_keys v) ≡ validate_fallback py v
  unfolding validate_fallback sort_keys
  validate_fallback-sorted (dict f) = fallback-sorted f py
  validate_fallback-sorted (proxy f) = fallback-sorted f py
  validate_fallback-sorted (str s) = refl
  validate_fallback-sorted (list l) = refl
  validate_fallback-sorted (tuple l) = refl
  validate_fallback-sorted null = refl
  validate_fallback-sorted (bool b) = refl
  validate_fallback-sorted (int i) = refl
  validate_fallback-sorted (float b) = refl

  validate_job_details-sorted :
      (f : Fields) (kind : String)
      → validate_job_details py (sort_fields f) kind ≡ validate_job_details py f kind
  unfolding validate_job_details
  validate_job_details-sorted f kind = simp (
    required_string-sorted f,
    get-sort_fields,
    validate_progress-sorted,
    validate_fallback-sorted,
  )

  abbrev job_checks : Fields → String → Value → Result Exception (Unit {0})
  job_checks f kind v = do
    job ← required_mapping v
    validate_job py job
    validate_job_details py f kind

  job_checks-sorted :
      (f : Fields) (kind : String) (v : Value)
      → job_checks (sort_fields f) kind (sort_keys v) ≡ job_checks f kind v
  unfolding sort_keys
  job_checks-sorted f kind (dict g) = simp (validate_job-sorted g, validate_job_details-sorted f)
  job_checks-sorted f kind (proxy g) = simp (validate_job-sorted g, validate_job_details-sorted f)
  job_checks-sorted f kind (str s) = refl
  job_checks-sorted f kind (list l) = refl
  job_checks-sorted f kind (tuple l) = refl
  job_checks-sorted f kind null = refl
  job_checks-sorted f kind (bool b) = refl
  job_checks-sorted f kind (int i) = refl
  job_checks-sorted f kind (float b) = refl

  pub validate_job_event-sorted :
      (f : Fields) (kind : String)
      → validate_job_event py (sort_fields f) kind ≡ validate_job_event py f kind
  unfolding validate_job_event
  validate_job_event-sorted f kind =
      ap (job_checks (sort_fields f) kind) (get-sort_fields "job" f)
      ∙ job_checks-sorted f kind (get f "job")
