-- ===== src/Storage/Journal/Tables.antt =====
-- The statements on sessions, journal_events, token_metrics and token_metric_backfill_intents:
-- _require_session_identity, _ensure_session, _find_idempotent_event, _event_from_row and
-- _record_canonical_observation (repository.py), put_in_transaction and get_in_transaction
-- (token_metrics.py). Encrypted columns are in the clear.
use astrbot_plugin_astrconti.Prelude.{
  ℕ, String, ◌≡◌, ◌↔◌, Bool, true, false, not, ◌&&◌, ◌||◌, Option, none, some, [], ◌∷◌, ◌++◌, ◌==◌,
  Eq, from_iff, arith, string_eq, nat_eq, ok, err, ◌>>=◌, ◌>>◌, raise_if, if◌then◌else◌, leb,
  is_blank, any, keep_if,
}
use astrbot_plugin_astrconti.Domain.Identity.{SessionKey, SessionHash, session_key_eq}
use astrbot_plugin_astrconti.Domain.Event.{
  EventEnvelope, SourceHook, mappings, validate_event, event_type_eq, event_role_eq, source_hook_eq,
}
use astrbot_plugin_astrconti.Storage.Rows.{
  SessionRow, EventRow, ArtifactKind, event, capsule, snapshot, MetricRow, BackfillRow, Db,
  value_error, session_identity_conflict, event_identity_conflict, invariant_error, integrity_error,
  token_metric_conflict, find, or_raise,
}
use astrbot_plugin_astrconti.Storage.Schema.{has_text}
use astrbot_plugin_astrconti.Storage.Jobs.Changes.{R, session_row}
use astrbot_plugin_astrconti.Storage.Jobs.Lookup.{session_key_from_storage}

abbrev pub kind_beq : ArtifactKind → ArtifactKind → Bool
kind_beq event event = true
kind_beq capsule capsule = true
kind_beq snapshot snapshot = true
kind_beq _ _ = false

pub kind_beq_iff : (a b : ArtifactKind) → (kind_beq a b ≡ true) ↔ (a ≡ b)
kind_beq_iff a b = ground arith

instance abbrev pub artifact_kind_eq : Eq ArtifactKind
artifact_kind_eq = from_iff kind_beq kind_beq_iff

-- The columns of a Journal event.
abbrev pub event_row : String → EventEnvelope → EventRow
event_row hash e = record {
  event_id = e.event_id;
  session_key_hash = hash;
  sequence = e.sequence;
  event_type = e.event_type;
  role = e.role;
  content = e.content;
  source_hook = e.source_hook;
  idempotency_key = e.idempotency_key;
  token_count = e.token_count;
  created_at = e.created_at;
}

abbrev pub envelope : SessionKey → EventRow → EventEnvelope
envelope key r = record {
  event_id = r.event_id;
  session_key = key;
  sequence = r.sequence;
  event_type = r.event_type;
  role = r.role;
  content = r.content;
  source_hook = r.source_hook;
  idempotency_key = r.idempotency_key;
  token_count = r.token_count;
  created_at = r.created_at;
}

-- The CHECK constraints of journal_events.
unfoldable pub event_check : EventRow → Bool
event_check r =
    has_text r.event_id
    && (leb 1 r.sequence
        && (has_text r.idempotency_key
            && (r.role == (mappings r.event_type).0 && r.source_hook == (mappings r.event_type).1)))

-- Its PRIMARY KEY and its two UNIQUE constraints.
abbrev pub event_clashes : EventRow → EventRow → Bool
event_clashes a b =
    a.event_id == b.event_id
    || ((a.session_key_hash == b.session_key_hash && a.sequence == b.sequence)
        || (a.session_key_hash == b.session_key_hash
            && (a.source_hook == b.source_hook && a.idempotency_key == b.idempotency_key)))

unfoldable pub insert_event : EventRow → Db → R Db
insert_event r db =
    if event_check r && not (any (event_clashes r) db.events)
    then ok (record db { events = db.events ++ r ∷ [] })
    else err event_identity_conflict

abbrev pub same_metric : ArtifactKind → String → String → MetricRow → Bool
same_metric kind id profile m =
    m.artifact_kind == kind && (m.artifact_id == id && m.tokenizer_profile_id == profile)

abbrev pub same_backfill : ArtifactKind → String → String → BackfillRow → Bool
same_backfill kind id profile b =
    b.artifact_kind == kind && (b.artifact_id == id && b.tokenizer_profile_id == profile)

-- `get_in_transaction`
unfoldable pub get_metric : ArtifactKind → String → String → Db → R (Option MetricRow)
get_metric kind id profile db = do
  raise_if (is_blank id || is_blank profile) value_error
  ok (find (same_metric kind id profile) db.metrics)

-- `TokenMetric.__post_init__`, then `put_in_transaction`
unfoldable pub put_metric : ArtifactKind → String → String → ℕ → ℕ → Db → R Db
put_metric kind id profile count created_at db = do
  existing ← get_metric kind id profile db
  elim existing [
    | some m ↦ (do raise_if (not (m.token_count == count)) token_metric_conflict; ok db)
    | none ↦
        if not (has_text id && has_text profile)
        then err integrity_error
        else ok (record db {
          metrics =
              db.metrics
              ++ record {
                artifact_kind = kind;
                artifact_id = id;
                tokenizer_profile_id = profile;
                token_count = count;
                created_at = created_at;
              }
                ∷ [];
        })
  ]

pub record CanonicalMetricObservation : Type 0 where
  pub tokenizer_profile_id : String
  pub token_count : Option ℕ

-- `CanonicalMetricObservation.__post_init__`
unfoldable pub make_observation : String → Option ℕ → R CanonicalMetricObservation
make_observation profile count = do
  raise_if (is_blank profile) value_error
  ok (record { tokenizer_profile_id = profile; token_count = count })

-- `_record_canonical_observation`
unfoldable pub record_canonical_observation :
    String → String → CanonicalMetricObservation → ℕ → Db → R Db
record_canonical_observation hash id canonical created_at db = elim canonical.token_count [
  | some count ↦ (do
    db' ← put_metric event id canonical.tokenizer_profile_id count created_at db
    ok (record db' {
      backfills =
          keep_if
            (λ (b : BackfillRow). not (same_backfill event id canonical.tokenizer_profile_id b))
            db'.backfills;
    }))
  | none ↦ (do
    existing ← get_metric event id canonical.tokenizer_profile_id db
    elim existing [
      | some m ↦ ok db
      | none ↦
          if any (same_backfill event id canonical.tokenizer_profile_id) db.backfills
          then ok db
          else if not (has_text id && has_text canonical.tokenizer_profile_id)
          then err integrity_error
          else ok (record db {
            backfills =
                db.backfills
                ++ record {
                  session_key_hash = hash;
                  artifact_kind = event;
                  artifact_id = id;
                  tokenizer_profile_id = canonical.tokenizer_profile_id;
                  created_at = created_at;
                }
                  ∷ [];
          })
    ])
]

module _ ⦃h : SessionHash⦄ where
  -- `_event_from_row`
  unfoldable pub event_from_row : SessionKey → EventRow → R EventEnvelope
  event_from_row key r = do
    raise_if (not (r.session_key_hash == h.session_key_hash key)) invariant_error
    elim (validate_event (envelope key r)) [ err e ↦ err invariant_error | ok e ↦ ok e ]

  -- `_find_idempotent_event`
  unfoldable pub find_idempotent_event :
      SessionKey → SourceHook → String → Db → R (Option EventEnvelope)
  find_idempotent_event key hook idempotency_key db =
      elim (find
        (λ (r : EventRow).
          r.session_key_hash == h.session_key_hash key
          && (r.source_hook == hook && r.idempotency_key == idempotency_key))
        db.events) [ none ↦ ok none | some r ↦ (do e ← event_from_row key r; ok (some e)) ]

  -- The stored key of a session row is the one asked for.
  unfoldable pub require_same_session : SessionKey → Option SessionRow → R SessionRow
  require_same_session key found = do
    s ← or_raise found session_identity_conflict
    stored ← session_key_from_storage s
    raise_if (not (stored == key)) session_identity_conflict
    ok s

  abbrev pub new_session : SessionKey → ℕ → SessionRow
  new_session key now = record {
    session_key_hash = h.session_key_hash key;
    canonical_session_key = key;
    next_event_sequence = 1;
    created_at = now;
    updated_at = now;
  }

  -- `_ensure_session`
  unfoldable pub ensure_session : SessionKey → ℕ → Db → R Db
  ensure_session key now db = elim (session_row (h.session_key_hash key) db) [
    | some s ↦ (do same ← require_same_session key (some s); ok db)
    | none ↦ (do
      let db' = record db { sessions = db.sessions ++ new_session key now ∷ [] }
      same ← require_same_session key (session_row (h.session_key_hash key) db')
      ok db')
  ]
