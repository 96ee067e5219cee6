-- ===== src/Tests/Senders.antt =====
-- The outbox and the delivery.
use runner_observability.Contracts.Fields.{
  required_string, required_uuid, required_identifier, required_positive_int, required_timestamp,
}
use runner_observability.Contracts.Content.{validate_payload_size, validate_no_forbidden_content}
use runner_observability.Base.{
  ◌+◌, String, ◌≡◌, refl, true, false, ◌⊎◌, Option, none, some, List, [], ◌∷◌, ok, arith, string_eq,
  if◌then◌else◌, nat_eq,
}
use runner_observability.Base.Table.{select, upsert}
use runner_observability.Value.{IsJson, get, has_exact_keys, keys}
use runner_observability.Value.Sorted.{sort_keys}
use runner_observability.Python.{Python}
use runner_observability.Contracts.Event.{validate_event, validate_envelope_fields}
use runner_observability.Contracts.SortedEvent.{IsOrderFree}
use runner_observability.Outbox.Durability.{
  IsReadBack, queued_envelope, read_envelope-encode_envelope, enqueue_duplicate,
}
use runner_observability.Outbox.State.{
  envelope_value, encode_envelope, queued_timestamp, read_envelope, Outbox, Faults, removed,
  default_limits, used_files, used_bytes, capacity_usage, listed, json_files, count_files,
  count_bytes,
}
use runner_observability.Outbox.Enqueue.{
  EnqueueResult, enqueue, enqueue_validated, existing_event, enqueue_new, write_pending,
}
use runner_observability.Outbox.Drain.{World}
use runner_observability.Outbox.Capacity.{IsWithin, enqueue-IsWithin}
use runner_observability.Agent.Delivery.{
  DeliveryResult, Network, status, network_error, deliver_validated,
}
use runner_observability.Agent.Bounds.{IsOutcome, deliver_validated_ends}
use runner_observability.Heartbeat.Config.{
  ConfigLibrary, HeartbeatConfig, from_mapping, to_mapping, visible_text, optional_text,
  check_endpoint, int_within, bool_value,
}
use runner_observability.Heartbeat.Settings.{
  IsSettings, from_mapping-IsSettings, from_mapping-to_mapping,
}
use runner_observability.Heartbeat.State.{
  HeartbeatState, no_fault, content, state_mapping, save, load, reserve,
}
use runner_observability.Heartbeat.Loop.{HeartbeatLoop, Beat, emit_once}
use runner_observability.Heartbeat.Sequence.{
  IsEmitted, load-reserve, emit_once-numbers, emit_once-restart,
}
use runner_observability.Heartbeat.Schedule.{next_due_after}
use runner_observability.Heartbeat.Drift.{IsNextDue, next_due_after-IsNextDue}
use runner_observability.Tests.Fixtures.{heartbeat_event, py, heartbeat}
use runner_observability.Tests.Events.{heartbeat_valid}

abbrev no_faults : Faults
no_faults = record {
  lock_fails = false;
  pending_list_fails = false;
  dead_letter_list_fails = false;
  stat_fails = false;
  write_fails = λ stem. false;
  unlink = λ stem. removed;
}

abbrev outbox_of : List (String × String) → Outbox
outbox_of files = record { pending = files; dead_letter = []; limits = default_limits }

-- a library whose files all hold the heartbeat
abbrev queue_py : Python
queue_py = record py {
  loads = λ s. some (sort_keys (envelope_value (queued_envelope "now" heartbeat)));
}

-- a network that fails once, and then takes everything
abbrev second_time : Network
second_time = record {
  started_at = 0;
  before = λ n. n;
  after = λ n. n + 1;
  answer = λ n. if nat_eq n 0 then network_error else status 202;
}

abbrev world : World
world = record {
  started_at = 0;
  before = λ n. n;
  after = λ n. n + 1;
  deliver = λ n event. deliver_validated second_time 1000;
}

abbrev queued_result : EnqueueResult
queued_result = record { event_id = "e-1"; status = "queued"; reason = none }

heartbeat_enqueued :
    enqueue py "now" no_faults (outbox_of []) heartbeat none
    ≡ ok (outbox_of (("e-1", "{}") ∷ []), queued_result)
unfolding enqueue enqueue_validated existing_event select enqueue_new used_files used_bytes
    count_files count_bytes capacity_usage listed json_files write_pending upsert encode_envelope
heartbeat_enqueued = rw heartbeat_valid refl

enqueue-IsWithin_example :
    (outbox_of (("e-1", "{}") ∷ []) ≡ outbox_of [])
    ⊎ ((queued_result.status ≡ "queued") × IsWithin (outbox_of (("e-1", "{}") ∷ [])))
enqueue-IsWithin_example =
    enqueue-IsWithin py "now" no_faults (outbox_of []) refl refl heartbeat none heartbeat_enqueued

deliver_validated_ends_example :
    (r : DeliveryResult) × (deliver_validated second_time 5000 ≡ some r) × IsOutcome second_time 0 r
deliver_validated_ends_example = deliver_validated_ends second_time 5000

abbrev one_state : HeartbeatState
one_state = record {
  runner_id = "r-1";
  producer_id = "p-1";
  producer_epoch = "epoch-1";
  next_sequence = 7;
}

abbrev one_config : HeartbeatConfig
one_config = record {
  endpoint = "https://monitor.example";
  token_file = "token";
  runner_id = "r-1";
  state_file = "state.json";
  producer_id = "p-1";
  service_name = "heartbeat";
  python_executable = "python";
  interval_seconds = 60;
  network_poll_seconds = 5;
  allow_insecure_http = false;
  outbox_dir = none;
}

abbrev beat : Beat
beat = record {
  attempt_at = "now";
  token = ok "secret";
  state_fault = no_fault;
  status_unwritable = false;
  new_epoch = "epoch-2";
  event_id = "e-1";
  occurred_at = "now";
  shown = λ v. "";
  deliver =
      λ event. record { delivered = true; attempts = 1; reason = none; http_status = some 202 };
  faults = no_faults;
  world = world;
}

abbrev loop_with : Option HeartbeatState → HeartbeatLoop
loop_with state = record {
  config = one_config;
  state = state;
  state_file = content (some "{}");
  status_file = none;
  last_success_at = none;
  outbox = none;
}

abbrev next_state : HeartbeatState
next_state = record one_state { next_sequence = 8 }

-- a library that reads every text as the JSON of this state
abbrev state_py : HeartbeatState → Python
state_py state = record py { loads = λ s. some (sort_keys (state_mapping state)) }

next_reserved :
    reserve (state_py next_state) no_fault one_state ≡ ok (content (some "{}"), next_state, 7)
unfolding reserve save
next_reserved = refl

load-reserve_example :
    (load (state_py next_state) (λ v. "") no_fault (content (some "{}")) "r-1" "p-1" "epoch-2"
      ≡ ok (content (some "{}"), next_state))
    × (7 ≡ one_state.next_sequence)
    × (next_state.next_sequence ≡ 7 + 1)
load-reserve_example =
    load-reserve (state_py next_state) (λ v. "") no_fault one_state "epoch-2" refl refl
      next_reserved

emit_once-numbers_example :
    IsEmitted py beat
      (loop_with (some one_state))
      one_state
      (emit_once py beat (loop_with (some one_state)))
emit_once-numbers_example = emit_once-numbers py beat (loop_with (some one_state)) refl refl

emit_once-restart_example :
    IsEmitted
      (state_py one_state)
      beat
      (loop_with none)
      one_state
      (emit_once (state_py one_state) beat (loop_with none))
emit_once-restart_example =
    emit_once-restart (state_py one_state) beat (loop_with none) one_state refl refl refl refl refl
      refl (omega arith) refl

next_due_after-IsNextDue_example : IsNextDue 60 250 (100 + 60) (next_due_after 60 250 100)
next_due_after-IsNextDue_example = next_due_after-IsNextDue 60 250 100 (omega arith)

queue_heartbeat_valid : validate_event queue_py heartbeat ≡ ok heartbeat_event
unfolding validate_event validate_payload_size validate_no_forbidden_content get required_string
    validate_envelope_fields has_exact_keys required_uuid required_identifier required_positive_int
    required_timestamp
queue_heartbeat_valid = refl

heartbeat-IsOrderFree : IsOrderFree queue_py heartbeat
heartbeat-IsOrderFree = record { size = refl; dumps = refl; copy = refl }

now_timed : queued_timestamp queue_py "now" ≡ some "now"
unfolding queued_timestamp
now_timed = refl

queued_loaded : IsReadBack queue_py (queued_envelope "now" heartbeat)
unfolding encode_envelope
queued_loaded = refl

queued_stands :
    select "e-1" (outbox_of (("e-1", "{}") ∷ [])).pending
    ≡ some (encode_envelope queue_py (queued_envelope "now" heartbeat))
unfolding select encode_envelope
queued_stands = refl

heartbeat-IsJson : IsJson heartbeat
heartbeat-IsJson = ground arith

read_envelope-encode_envelope_example :
    read_envelope queue_py "e-1" (encode_envelope queue_py (queued_envelope "now" heartbeat)) false
    ≡ some (queued_envelope "now" (sort_keys heartbeat))
read_envelope-encode_envelope_example =
    read_envelope-encode_envelope queue_py heartbeat heartbeat_event "now" heartbeat-IsJson
      heartbeat-IsOrderFree queue_heartbeat_valid refl now_timed queued_loaded

enqueue_duplicate_example :
    enqueue queue_py "late" no_faults (outbox_of (("e-1", "{}") ∷ [])) heartbeat none
    ≡ ok (
      outbox_of (("e-1", "{}") ∷ []),
      record { event_id = "e-1"; status = "duplicate"; reason = none },
    )
enqueue_duplicate_example =
    enqueue_duplicate queue_py heartbeat heartbeat_event "late" "now" no_faults
      (outbox_of (("e-1", "{}") ∷ [])) none heartbeat-IsJson heartbeat-IsOrderFree
      queue_heartbeat_valid refl refl now_timed queued_loaded queued_stands refl

abbrev library : ConfigLibrary
library = record {
  urlsplit = λ s. some (record {
    scheme = "https";
    has_hostname = true;
    has_username = false;
    has_password = false;
  });
  is_visible = λ s. true;
  executable = "python";
}

one_accepted : from_mapping py library (to_mapping one_config) ≡ ok one_config
unfolding from_mapping to_mapping keys visible_text get optional_text check_endpoint int_within
    bool_value
one_accepted = refl

from_mapping-IsSettings_example : IsSettings py library one_config
from_mapping-IsSettings_example =
    from_mapping-IsSettings py library (to_mapping one_config) one_accepted

from_mapping-to_mapping_example : from_mapping py library (to_mapping one_config) ≡ ok one_config
from_mapping-to_mapping_example =
    from_mapping-to_mapping py library (to_mapping one_config) one_accepted
