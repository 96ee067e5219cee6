-- ===== src/Tests/Requests.antt =====
-- Requests to the monitor's server.
use runner_observability.Base.{
  String, ◌≡◌, refl, true, Option, none, some, List, [], ok, ◌∙◌, ap, arith,
}
use runner_observability.Base.Table.{Table}
use runner_observability.Store.Time.{text, normalise_received_at}
use runner_observability.Store.Ingest.{IngestResult}
use runner_observability.Store.Duplicates.{duplicate_of}
use runner_observability.Dashboard.Reading.{Display}
use runner_observability.Server.Request.{
  bytes, Request, answer, ingested, authorized, read_content_length,
}
use runner_observability.Server.Post.{do_post, after_ingest}
use runner_observability.Server.Accepted.{
  IsHandled, Carries, do_post-Carries, do_post-IsHandled, do_post-do_post,
}
use runner_observability.Server.Get.{do_get}
use runner_observability.Server.Reads.{IsRead, do_get-IsRead}
use runner_observability.Tests.Fixtures.{py, heartbeat, heartbeat_event, empty_store}
use runner_observability.Tests.Stores.{heard_store, heard_result, heartbeat_ingested}
use runner_observability.Tests.Events.{heartbeat_valid}

abbrev pub display : Display
display = record { show = λ v. "7"; local_time = λ m. "08:00" }

-- a heartbeat, in a body of one byte for this library
abbrev post : Request
post = record {
  target = some (record { path = "/v1/events"; query = "" });
  authorization = some "Bearer secret";
  content_length = some "1";
  read = λ n. bytes n (some heartbeat);
}

abbrev get_dashboard : Request
get_dashboard = record post { target = some (record { path = "/api/dashboard"; query = "" }) }

abbrev no_query : String → Option (Table String (List String))
no_query s = none

token_known : authorized "secret" post ≡ true
unfolding authorized
token_known = refl

length_known : read_content_length py post ≡ ok 1
unfolding read_content_length
length_known = refl

carried : Carries py "secret" post heartbeat_event
carried = record {
  target = record { path = "/v1/events"; query = "" };
  length = 1;
  payload = heartbeat;
  split = refl;
  path = refl;
  token = token_known;
  declared = length_known;
  bounded = omega arith;
  body = refl;
  valid = heartbeat_valid;
}

posted :
    do_post py "secret" empty_store post (text "now")
    ≡ (heard_store "now", [], ok (answer 202 (ingested heard_result)))
posted =
    do_post-Carries py "secret" post heartbeat_event empty_store (text "now") carried
    ∙ ap (after_ingest empty_store) heartbeat_ingested

now_is_normal : normalise_received_at py (text "late") ≡ ok "now"
unfolding normalise_received_at
now_is_normal = refl

do_post-IsHandled_example :
    IsHandled py "secret" empty_store post
      (text "now")
      (do_post py "secret" empty_store post (text "now"))
do_post-IsHandled_example = do_post-IsHandled py "secret" empty_store post (text "now")

do_post-do_post_example :
    (result : IngestResult) × (ingested heard_result ≡ ingested result)
    × (do_post py "secret" (heard_store "now") post (text "late")
        ≡ (heard_store "now", [], ok (answer 202 (ingested (duplicate_of result)))))
do_post-do_post_example =
    do_post-do_post py "secret" empty_store post (text "now") (text "late") posted refl
      now_is_normal

do_get-IsRead_example :
    IsRead get_dashboard
      (heard_store "old")
      (do_get py display no_query (heard_store "old") get_dashboard (text "now"))
do_get-IsRead_example =
    do_get-IsRead py display no_query (heard_store "old") get_dashboard (text "now")
