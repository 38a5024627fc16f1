-- ===== src/Tests/Journal.antt =====
-- The first capture of a conversation on an empty store.
use astrbot_plugin_astrconti.Prelude.{◌≡◌, refl, some, [], ◌∷◌, ok, is_blank}
use astrbot_plugin_astrconti.Domain.Identity.{SessionKey, SessionHash, key_beq}
use astrbot_plugin_astrconti.Domain.Event.{
  EventEnvelope, user_message, user, on_llm_request, create, validate_event,
}
use astrbot_plugin_astrconti.Storage.Rows.{event, Db}
use astrbot_plugin_astrconti.Storage.Schema.{trims_empty}
use astrbot_plugin_astrconti.Storage.Jobs.Lookup.{session_key_from_storage}
use astrbot_plugin_astrconti.Storage.Journal.Tables.{
  event_row, event_check, insert_event, get_metric, put_metric, record_canonical_observation,
  find_idempotent_event, require_same_session, ensure_session,
}
use astrbot_plugin_astrconti.Storage.Journal.Capture.{
  Capture, create_event, append_event, capture_event,
}
use astrbot_plugin_astrconti.Storage.Journal.Replay.{capture_event-again}
use astrbot_plugin_astrconti.Storage.Journal.Gapless.{capture_event-IsGapless}
use astrbot_plugin_astrconti.Storage.Journal.Numbers.{IsGapless}
use astrbot_plugin_astrconti.Prelude.{none}
use astrbot_plugin_astrconti.Storage.Jobs.Lookup.{active_base}
use astrbot_plugin_astrconti.Storage.Journal.Tables.{event_from_row}
use astrbot_plugin_astrconti.Storage.Journal.View.{RequestView, events_between, read_request_view}
use astrbot_plugin_astrconti.Runtime.ReadView.{validate_delta}
use astrbot_plugin_astrconti.Runtime.ReadView.Accepted.{read_request_view-validate_delta}
use astrbot_plugin_astrconti.Tests.Jobs.{key_sample}

instance abbrev by_session : SessionHash
by_session = record { session_key_hash = λ (k : SessionKey). k.session_id }

abbrev empty_store : Db
empty_store = record {
  sessions = [];
  events = [];
  snapshots = [];
  active = [];
  jobs = [];
  metrics = [];
  backfills = [];
}

abbrev first_capture : Capture
first_capture = record {
  event_id = "e1";
  session_key = key_sample;
  event_type = user_message;
  content = "hello";
  idempotency_key = "request-1";
  token_count = 3;
  canonical = record { tokenizer_profile_id = "profile"; token_count = some 4 };
  created_at = 20;
}

abbrev first_event : EventEnvelope
first_event = record {
  event_id = "e1";
  session_key = key_sample;
  sequence = 1;
  event_type = user_message;
  role = user;
  content = "hello";
  source_hook = on_llm_request;
  idempotency_key = "request-1";
  token_count = 3;
  created_at = 20;
}

abbrev captured_store : Db
captured_store = record {
  sessions =
      record {
        session_key_hash = "digest";
        canonical_session_key = key_sample;
        next_event_sequence = 2;
        created_at = 20;
        updated_at = 20;
      }
      ∷ [];
  events = event_row "digest" first_event ∷ [];
  snapshots = [];
  active = [];
  jobs = [];
  metrics =
      record {
        artifact_kind = event;
        artifact_id = "e1";
        tokenizer_profile_id = "profile";
        token_count = 4;
        created_at = 20;
      }
      ∷ [];
  backfills = [];
}

captured : capture_event first_capture empty_store ≡ ok (first_event, captured_store)
unfolding capture_event create_event create validate_event ensure_session require_same_session
    session_key_from_storage key_beq find_idempotent_event append_event insert_event event_check
    trims_empty is_blank get_metric put_metric record_canonical_observation
captured = refl

capture_event-again_example :
    capture_event first_capture captured_store ≡ ok (first_event, captured_store)
capture_event-again_example = capture_event-again first_capture empty_store captured

capture_event-IsGapless_example : IsGapless captured_store
capture_event-IsGapless_example =
    capture_event-IsGapless first_capture empty_store captured
      (record { positive = refl; gapless = λ hash. refl })

abbrev first_view : RequestView
first_view = record {
  session_key = key_sample;
  snapshot = none;
  pointer_version = 0;
  covered_event_end = 0;
  high_water_mark = 1;
  delta = first_event ∷ [];
}

read_request_view-first : read_request_view key_sample captured_store ≡ ok first_view
unfolding read_request_view require_same_session session_key_from_storage key_beq events_between
    event_from_row validate_event active_base
read_request_view-first = refl

read_request_view-validate_delta_example :
    (first_view.session_key ≡ key_sample) × (validate_delta first_view key_sample ≡ ok tt)
read_request_view-validate_delta_example =
    read_request_view-validate_delta key_sample captured_store first_view read_request_view-first
