-- ===== src/Server/Accepted.antt =====
-- What a POST changes: an answer other than 202 leaves the store as it was.
use runner_observability.Base.{
  ℕ, ◌≤◌, String, ◌≡◌, refl, ap, ◌∙◌, subst, ◌⊎◌, inl, inr, true, not, Option, none, some, List, [],
  Result, ok, err, arith, ltb, ltb→le, nat_eq, nat_eq_iff, string_eq, ◌==◌, eq_iff, if_holds,
  ok-injective, eq_refl,
}
use runner_observability.Value.{Value}
use runner_observability.Python.{Python, Exception, validation_error, recursion_error}
use runner_observability.Contracts.Fields.{max_payload_bytes}
use runner_observability.Contracts.Event.{ValidatedEvent, validate_event}
use runner_observability.Health.{Incident}
use runner_observability.Store.State.{Store}
use runner_observability.Store.Time.{ReceivedAt, normalise_received_at}
use runner_observability.Store.Ingest.{IngestResult, ingest}
use runner_observability.Store.Duplicates.{duplicate_of, ingest-ingest}
use runner_observability.Server.Request.{
  BodyRead, timeout, bytes, Request, Target, ingested, Response, answer, authorized,
  read_content_length,
}
use runner_observability.Server.Post.{
  Handled, unchanged, after_ingest, after_validation, after_read, after_length, at_path, do_post,
}

-- A request that carries an event: its path, token and length are right, and its body is the JSON of
-- an event that validates.
pub record Carries (py : Python) (bearer_token : String) (request : Request)
    (event : ValidatedEvent) : Type 0 where
  pub target : Target
  pub length : ℕ
  pub payload : Value
  pub split : request.target ≡ some target
  pub path : target.path ≡ "/v1/events"
  pub token : authorized bearer_token request ≡ true
  pub declared : read_content_length py request ≡ ok length
  pub bounded : length ≤ max_payload_bytes
  pub body : request.read length ≡ bytes length (some payload)
  pub valid : validate_event py payload ≡ ok event

-- A request whose event the store has taken in.
pub record IsAccepted (py : Python) (bearer_token : String) (store : Store) (request : Request)
    (now : ReceivedAt) (store' : Store) (sent : List Incident) (outcome : Result Exception Response)
    : Type 0 where
  pub event : ValidatedEvent
  pub result : IngestResult
  pub carried : Carries py bearer_token request event
  pub taken : ingest py store event now ≡ ok (store', result, sent)
  pub answered : outcome ≡ ok (answer 202 (ingested result))

-- an answer that is an error, or none
abbrev IsError : Result Exception Response → Type 0
IsError (err e) = Unit
IsError (ok response) = 400 ≤ response.status

-- Either the store takes the event in, or nothing has happened but an error.
abbrev pub IsHandled : Python → String → Store → Request → ReceivedAt → Handled → Type 0
IsHandled py bearer_token store request now (store', sent, outcome) =
    IsAccepted py bearer_token store request now store' sent outcome
    ⊎ (store' ≡ store) × (sent ≡ []) × IsError outcome

read_content_length-error :
    (py : Python) (request : Request) {response : Response}
    → read_content_length py request ≡ err response
    → 400 ≤ response.status
unfolding read_content_length
read_content_length-error py request h = ground arith

module _ (py : Python) (bearer_token : String) (store : Store) (request : Request)
    (now : ReceivedAt) where
  abbrev Good : Handled → Type 0
  Good = IsHandled py bearer_token store request now

  refused : (response : Response) → 400 ≤ response.status → Good (unchanged store response)
  refused response h = inr (refl, refl, h)

  after_ingest-IsHandled :
      (event : ValidatedEvent) (r : Result Exception (Store × IngestResult × List Incident))
      → Carries py bearer_token request event
      → ingest py store event now ≡ r
      → Good (after_ingest store r)
  after_ingest-IsHandled event (err e) carried h = inr (refl, refl, tt)
  after_ingest-IsHandled event (ok (store', result, sent)) carried h =
      inl (record { event = event; result = result; carried = carried; taken = h; answered = refl })

  after_validation-IsHandled :
      (r : Result Exception ValidatedEvent)
      → ((event : ValidatedEvent) → r ≡ ok event → Carries py bearer_token request event)
      → Good (after_validation py bearer_token store now r)
  after_validation-IsHandled (err (validation_error reason)) carried = refused _ (ground arith)
  after_validation-IsHandled (err recursion_error) carried = refused _ (omega arith)
  after_validation-IsHandled (err _) carried = inr (refl, refl, tt)
  after_validation-IsHandled (ok event) carried =
      after_ingest-IsHandled event (ingest py store event now) (carried event refl) refl

  module _ (target : Target) (split : request.target ≡ some target)
      (path : target.path ≡ "/v1/events") (token : authorized bearer_token request ≡ true) where
    after_read-IsHandled :
        (length : ℕ) (r : BodyRead)
        → read_content_length py request ≡ ok length
        → length ≤ max_payload_bytes
        → request.read length ≡ r
        → Good (after_read py bearer_token store now length r)
    after_read-IsHandled length timeout declared bounded h = refused _ (omega arith)
    after_read-IsHandled length (bytes n none) declared bounded h =
        if_holds Good (nat_eq n length) _ _ (λ _. refused _ (omega arith))
          (λ _. refused _ (omega arith))
    after_read-IsHandled length (bytes n (some payload)) declared bounded h =
        if_holds Good (nat_eq n length) _ _
          (λ same. after_validation-IsHandled (validate_event py payload) λ event valid. record {
            target = target;
            length = length;
            payload = payload;
            split = split;
            path = path;
            token = token;
            declared = declared;
            bounded = bounded;
            body = h ∙ ap (λ m. bytes m (some payload)) ((nat_eq_iff n length).0 same);
            valid = valid;
          })
          (λ _. refused _ (omega arith))

    after_length-IsHandled :
        (r : Result Response ℕ)
        → read_content_length py request ≡ r
        → Good (after_length py bearer_token store request now r)
    after_length-IsHandled (err response) h =
        refused response (read_content_length-error py request h)
    after_length-IsHandled (ok length) h =
        if_holds Good (ltb max_payload_bytes length) _ _ (λ _. refused _ (omega arith))
          (λ small. after_read-IsHandled length (request.read length) h (ltb→le _ _ small) refl)

  at_path-IsHandled :
      (target : Option Target)
      → request.target ≡ target
      → Good (at_path py bearer_token store request now target)
  at_path-IsHandled none h = inr (refl, refl, tt)
  at_path-IsHandled (some target) h =
      if_holds Good (not (target.path == "/v1/events")) _ _ (λ _. refused _ (omega arith))
        λ here.
          if_holds Good (not (authorized bearer_token request)) _ _ (λ _. refused _ (omega arith))
            λ known.
              after_length-IsHandled target h
                (ground (arith, here, eq_iff target.path "/v1/events")) (ground (arith, known))
                (read_content_length py request) refl

  -- For every request, one of two things holds. The request has the path of the events, the token of
  -- the monitor, a declared length within the limit that its body has, and an event that validates;
  -- the store has taken this event in, at the time of the clock, and the answer is 202 with the
  -- store's result. Or the store is as it was, nothing is notified, and the answer has a status of
  -- 400 or more, or there is none.
  pub do_post-IsHandled :
      IsHandled py bearer_token store request now (do_post py bearer_token store request now)
  unfolding do_post
  do_post-IsHandled = at_path-IsHandled request.target refl

module _ (py : Python) (bearer_token : String) (request : Request) (event : ValidatedEvent) where
  -- a request that carries an event brings it to the store
  pub do_post-Carries :
      (store : Store) (now : ReceivedAt)
      → Carries py bearer_token request event
      → do_post py bearer_token store request now ≡ after_ingest store (ingest py store event now)
  unfolding do_post
  do_post-Carries store now c = ground (
    arith,
    c.split,
    c.path,
    c.token,
    c.declared,
    c.bounded,
    c.body,
    c.valid,
    eq_refl c.target.path,
  )

  do_post-ingested :
      (store : Store) (again : ReceivedAt)
      → Carries py bearer_token request event
      → {result : IngestResult} {sent : List Incident}
      → ingest py store event again ≡ ok (store, result, sent)
      → do_post py bearer_token store request again
        ≡ (store, sent, ok (answer 202 (ingested result)))
  do_post-ingested store again c h = do_post-Carries store again c ∙ ap (after_ingest store) h

-- A request that was answered with 202 can be sent again, at any time that the clock can show: the
-- store stays as the first one left it, nothing is notified, and the answer is again 202, with the
-- result of the first time marked as a duplicate.
pub do_post-do_post :
    (py : Python) (bearer_token : String) (store : Store) (request : Request)
    (first again : ReceivedAt) {store' : Store} {sent : List Incident} {response : Response}
    {received : String}
    → do_post py bearer_token store request first ≡ (store', sent, ok response)
    → response.status ≡ 202
    → normalise_received_at py again ≡ ok received
    → (result : IngestResult) × (response.reply ≡ ingested result)
      × (do_post py bearer_token store' request again
          ≡ (store', [], ok (answer 202 (ingested (duplicate_of result)))))
do_post-do_post py bearer_token store request first again h status timed =
    repeated
      (subst (IsHandled py bearer_token store request first) h
        (do_post-IsHandled py bearer_token store request first))
      status
  where
    repeated :
        {store' : Store} {sent : List Incident} {response : Response}
        → IsHandled py bearer_token store request first (store', sent, ok response)
        → response.status ≡ 202
        → (result : IngestResult) × (response.reply ≡ ingested result)
          × (do_post py bearer_token store' request again
              ≡ (store', [], ok (answer 202 (ingested (duplicate_of result)))))
    repeated (inl a) ended = (
      a.result,
      ap (λ (r : Response). r.reply) (ok-injective a.answered),
      do_post-ingested py bearer_token request a.event _ again a.carried
          (ingest-ingest py store a.event first again a.taken timed),
    )
    repeated (inr (same, quiet, bad)) ended = absurd (omega (arith, bad, ended))
