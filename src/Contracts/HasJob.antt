-- ===== src/Contracts/HasJob.antt =====
-- Every accepted job event has a job that projection.py and store.py can read.
use runner_observability.Base.{
  ℕ, String, ◌≤◌, ◌≡◌, true, false, some, pos, ok, arith, string_eq, >>=-eq-ok, guard, guard-eq-ok,
  Ensures-at,
}
use runner_observability.Value.{
  Value, Fields, dict, proxy, str, int, as_mapping, get, freeze, freeze_fields,
}
use runner_observability.Value.Laws.{get-freeze}
use runner_observability.Python.{Python}
use runner_observability.Contracts.Fields.{
  repository as repository_pattern, job_name as job_name_pattern, job_fields, invalid,
  validate_exact_keys, required_string, required_positive_int, required_run_url,
}
use runner_observability.Contracts.Event.{
  ValidatedEvent, required_mapping, is_runner_event, validate_job, validate_job_event,
  validate_event,
}
use runner_observability.Contracts.Job.{Job, read_job, event_job}
use runner_observability.Contracts.Steps.{Steps, validate_event-Steps}
use runner_observability.Contracts.Accepts.{required_string-Ensures, required_positive_int-Ensures}

-- A job in the form that the contract asks for.
pub record IsJob (py : Python) (j : Job) : Type 0 where
  pub repository : py.re_fullmatch repository_pattern j.repository ≡ true
  pub job_name : py.re_fullmatch job_name_pattern j.job_name ≡ true
  pub workflow_run_id : 1 ≤ j.workflow_run_id
  pub run_attempt : 1 ≤ j.run_attempt
  pub job_id : 1 ≤ j.job_id

as_mapping-freeze :
    (v : Value) {f : Fields}
    → as_mapping v ≡ some f
    → as_mapping (freeze v) ≡ some (freeze_fields f)
unfolding freeze
as_mapping-freeze (dict f) h = ground arith
as_mapping-freeze (proxy f) h = ground arith
as_mapping-freeze _ h = cc

required_mapping-eq-ok :
    (v : Value) {f : Fields} → required_mapping v ≡ ok f → as_mapping v ≡ some f
required_mapping-eq-ok v h = ground arith

get-freeze_str : (f : Fields) (k s : String) → get f k ≡ str s → get (freeze_fields f) k ≡ str s
unfolding freeze
get-freeze_str f k s h = rw (get-freeze, h)

get-freeze_int :
    (f : Fields) (k : String) (n : ℕ)
    → get f k ≡ int (pos n)
    → get (freeze_fields f) k ≡ int (pos n)
unfolding freeze
get-freeze_int f k n h = rw (get-freeze, h)

read_job-eq-ok :
    (g : Fields) (j : Job)
    → get g "repository" ≡ str j.repository
    → get g "workflow_run_id" ≡ int (pos j.workflow_run_id)
    → get g "run_attempt" ≡ int (pos j.run_attempt)
    → get g "job_id" ≡ int (pos j.job_id)
    → get g "job_name" ≡ str j.job_name
    → get g "run_url" ≡ str j.run_url
    → read_job g ≡ ok j
unfolding read_job
read_job-eq-ok g j h1 h2 h3 h4 h5 h6 = ground arith

event_job-eq-ok :
    (e : ValidatedEvent) (value : Value) (f job : Fields) (j : Job)
    → e.payload ≡ freeze value
    → as_mapping value ≡ some f
    → as_mapping (get f "job") ≡ some job
    → read_job (freeze_fields job) ≡ ok j
    → event_job e ≡ ok j
unfolding event_job
event_job-eq-ok e value f job j made mapped inner read = ground (
  arith,
  as_mapping-freeze value mapped,
  as_mapping-freeze (get f "job") inner,
  get-freeze f "job",
)

module _ (py : Python) where
  validate_job-IsJob :
      (f : Fields)
      → validate_job py f ≡ ok tt
      → (j : Job) × (read_job (freeze_fields f) ≡ ok j) × IsJob py j
  unfolding validate_job read_job required_run_url
  validate_job-IsJob f h =
      let (t1, exact, h1) = >>=-eq-ok (validate_exact_keys f job_fields) _ h in
      let (name, named, h2) = >>=-eq-ok (required_string f "repository" 201) _ h1 in
      let (t2, matched, h3) =
        >>=-eq-ok (guard (py.re_fullmatch repository_pattern name) invalid) _ h2 in
      let (run, run_ok, h4) = >>=-eq-ok (required_positive_int f "workflow_run_id") _ h3 in
      let (attempt, attempt_ok, h5) = >>=-eq-ok (required_positive_int f "run_attempt") _ h4 in
      let (number, number_ok, h6) = >>=-eq-ok (required_positive_int f "job_id") _ h5 in
      let (title, titled, h7) = >>=-eq-ok (required_string f "job_name" 200) _ h6 in
      let (t3, title_matched, h8) =
        >>=-eq-ok (guard (py.re_fullmatch job_name_pattern title) invalid) _ h7 in
      let (url, url_ok, h9) = >>=-eq-ok (required_run_url py f "run_url") _ h8 in
      let (url', url_text, h10) = >>=-eq-ok (required_string f "run_url" 256) _ url_ok in
      let name_text = Ensures-at _ _ (required_string-Ensures f "repository" 201) named in
      let run_int = Ensures-at _ _ (required_positive_int-Ensures f "workflow_run_id") run_ok in
      let attempt_int = Ensures-at _ _ (required_positive_int-Ensures f "run_attempt") attempt_ok in
      let number_int = Ensures-at _ _ (required_positive_int-Ensures f "job_id") number_ok in
      let title_text = Ensures-at _ _ (required_string-Ensures f "job_name" 200) titled in
      let url_str = Ensures-at _ _ (required_string-Ensures f "run_url" 256) url_text in
      (
        record {
          repository = name;
          workflow_run_id = run;
          run_attempt = attempt;
          job_id = number;
          job_name = title;
          run_url = url';
        },
        read_job-eq-ok (freeze_fields f) _ (get-freeze_str f "repository" name name_text.0)
            (get-freeze_int f "workflow_run_id" run run_int.0)
            (get-freeze_int f "run_attempt" attempt attempt_int.0)
            (get-freeze_int f "job_id" number number_int.0)
            (get-freeze_str f "job_name" title title_text.0)
            (get-freeze_str f "run_url" url' url_str.0),
        record {
          repository = guard-eq-ok _ _ matched;
          job_name = guard-eq-ok _ _ title_matched;
          workflow_run_id = run_int.1;
          run_attempt = attempt_int.1;
          job_id = number_int.1;
        },
      )

  -- An accepted event of a job's type carries a job, well formed, that the projections can read.
  pub validate_event-has_job :
      (value : Value) (e : ValidatedEvent)
      → validate_event py value ≡ ok e
      → is_runner_event py e.event_type ≡ false
      → (j : Job) × (event_job e ≡ ok j) × IsJob py j
  unfolding validate_job_event event_job
  validate_event-has_job value e h kind =
      let s : Steps py value e = validate_event-Steps py value e h in
      let details = (rw kind at s.details) in
      let (job, mapped, h1) = >>=-eq-ok (required_mapping (get s.f "job")) _ details in
      let (t, checked, h2) = >>=-eq-ok (validate_job py job) _ h1 in
      let (j, read, good) = validate_job-IsJob job checked in
      (
        j,
        event_job-eq-ok e value s.f job j s.payload s.mapping (required_mapping-eq-ok _ mapped)
            read,
        good,
      )
