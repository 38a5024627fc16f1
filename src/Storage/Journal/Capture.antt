-- ===== src/Storage/Journal/Capture.antt =====
-- _capture_event, capture_user_event, capture_assistant_event, capture_tool_event and _is_exact_replay
-- (astrcontinuum/storage/repository.py). `created_at` is given in its normalised form.
use astrbot_plugin_astrconti.Prelude.{
  ℕ, ◌+◌, String, Bool, not, ◌&&◌, ◌||◌, none, some, ◌==◌, string_eq, nat_eq, ok, err, ◌>>=◌, ◌>>◌,
  raise_if,
}
use astrbot_plugin_astrconti.Domain.Identity.{SessionKey, SessionHash, session_key_eq}
use astrbot_plugin_astrconti.Domain.Event.{
  EventEnvelope, EventType, user_message, assistant_message, tool_call, tool_result, create,
  event_type_eq, event_role_eq, source_hook_eq,
}
use astrbot_plugin_astrconti.Storage.Rows.{
  SessionRow, Db, value_error, idempotency_conflict, session_identity_conflict, or_raise,
  update_where,
}
use astrbot_plugin_astrconti.Storage.Jobs.Changes.{R, session_row}
use astrbot_plugin_astrconti.Storage.Journal.Tables.{
  CanonicalMetricObservation, event_row, insert_event, record_canonical_observation, ensure_session,
  find_idempotent_event,
}

-- The arguments of the capture operations.
pub record Capture : Type 0 where
  pub event_id : String
  pub session_key : SessionKey
  pub event_type : EventType
  pub content : String
  pub idempotency_key : String
  pub token_count : ℕ
  pub canonical : CanonicalMetricObservation
  pub created_at : ℕ

-- `EventEnvelope.create` on them.
unfoldable pub create_event : Capture → ℕ → R EventEnvelope
unfolding create
create_event c sequence =
    elim (create c.event_id c.session_key sequence c.event_type c.content c.idempotency_key
      c.token_count c.created_at) [ err e ↦ err value_error | ok e ↦ ok e ]

-- `_is_exact_replay`
abbrev pub is_exact_replay : EventEnvelope → EventEnvelope → Bool
is_exact_replay existing requested =
    existing.event_id == requested.event_id
    && (existing.session_key == requested.session_key
        && (existing.event_type == requested.event_type
            && (existing.role == requested.role
                && (existing.content == requested.content
                    && (existing.source_hook == requested.source_hook
                        && (existing.idempotency_key == requested.idempotency_key
                            && (existing.token_count == requested.token_count
                                && existing.created_at == requested.created_at)))))))

-- The UPDATE that takes a sequence number.
abbrev pub is_at : String → ℕ → SessionRow → Bool
is_at hash sequence s = s.session_key_hash == hash && s.next_event_sequence == sequence

abbrev pub advanced : ℕ → SessionRow → SessionRow
advanced now s = record s { next_event_sequence = s.next_event_sequence + 1; updated_at = now }

module _ ⦃h : SessionHash⦄ where
  -- A new event: it takes the session's next sequence number.
  unfoldable pub append_event : Capture → Db → R (EventEnvelope × Db)
  append_event c db = do
    let hash = h.session_key_hash c.session_key
    s ← or_raise (session_row hash db) session_identity_conflict
    let allocated = record db {
      sessions =
          update_where (is_at hash s.next_event_sequence) (advanced c.created_at) db.sessions;
    }
    e ← create_event c s.next_event_sequence
    inserted ← insert_event (event_row hash e) allocated
    recorded ← record_canonical_observation hash e.event_id c.canonical c.created_at inserted
    ok (e, recorded)

  unfoldable pub replay_event :
      Capture → EventEnvelope → EventEnvelope → Db → R (EventEnvelope × Db)
  replay_event c existing requested db = do
    raise_if (not (is_exact_replay existing requested)) idempotency_conflict
    recorded ←
        record_canonical_observation (h.session_key_hash c.session_key) existing.event_id
          c.canonical c.created_at db
    ok (existing, recorded)

  -- `_capture_event`
  unfoldable pub capture_event : Capture → Db → R (EventEnvelope × Db)
  capture_event c db = do
    requested ← create_event c 1
    ensured ← ensure_session c.session_key c.created_at db
    existing ← find_idempotent_event c.session_key requested.source_hook c.idempotency_key ensured
    elim existing [ some e ↦ replay_event c e requested ensured | none ↦ append_event c ensured ]

  unfoldable pub capture_user_event : Capture → Db → R (EventEnvelope × Db)
  capture_user_event c = capture_event (record c { event_type = user_message })

  unfoldable pub capture_assistant_event : Capture → Db → R (EventEnvelope × Db)
  capture_assistant_event c = capture_event (record c { event_type = assistant_message })

  unfoldable pub capture_tool_event : Capture → Db → R (EventEnvelope × Db)
  capture_tool_event c db = do
    raise_if (not (c.event_type == tool_call || c.event_type == tool_result)) value_error
    capture_event c db
