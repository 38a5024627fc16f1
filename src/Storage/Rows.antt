-- ===== src/Storage/Rows.antt =====
-- The tables that astrcontinuum/storage/repository.py reads and writes, as lists of rows in the
-- order of insertion, with the columns in the clear. A moment is a number in the order of its text.
use astrbot_plugin_astrconti.Prelude.{
  ℕ, suc, String, Bool, Option, none, some, List, [], ◌∷◌, string_eq, Result, ok, err,
  if◌then◌else◌,
}
use astrbot_plugin_astrconti.Domain.Identity.{SessionKey, session_key_eq}
use astrbot_plugin_astrconti.Domain.Event.{EventType, EventRole, SourceHook}

pub data JobState : Type 0 where
  pending leased compiling auditing ready_to_commit retry_wait committed superseded failed
        cancelled :
      JobState

pub record SessionRow : Type 0 where
  pub session_key_hash : String
  pub canonical_session_key : SessionKey
  pub next_event_sequence : ℕ
  pub created_at : ℕ
  pub updated_at : ℕ

pub record EventRow : Type 0 where
  pub event_id : String
  pub session_key_hash : String
  pub sequence : ℕ
  pub event_type : EventType
  pub role : EventRole
  pub content : String
  pub source_hook : SourceHook
  pub idempotency_key : String
  pub token_count : ℕ
  pub created_at : ℕ

pub data ArtifactKind : Type 0 where
  event capsule snapshot : ArtifactKind

pub record MetricRow : Type 0 where
  pub artifact_kind : ArtifactKind
  pub artifact_id : String
  pub tokenizer_profile_id : String
  pub token_count : ℕ
  pub created_at : ℕ

pub record BackfillRow : Type 0 where
  pub session_key_hash : String
  pub artifact_kind : ArtifactKind
  pub artifact_id : String
  pub tokenizer_profile_id : String
  pub created_at : ℕ

pub record SnapshotRow : Type 0 where
  pub snapshot_id : String
  pub session_key_hash : String
  pub base_snapshot_id : Option String
  pub covered_event_end : ℕ
  pub source_high_water_mark : ℕ

pub record ActiveRow : Type 0 where
  pub session_key_hash : String
  pub snapshot_id : String
  pub pointer_version : ℕ
  pub updated_at : ℕ

pub record JobRow : Type 0 where
  pub job_id : String
  pub session_key_hash : String
  pub state : JobState
  pub target_high_water_mark : ℕ
  pub intent_target_high_water_mark : ℕ
  pub base_snapshot_id : Option String
  pub base_pointer_version : ℕ
  pub candidate_snapshot_id : Option String
  pub lease_owner : Option String
  pub lease_epoch : ℕ
  pub lease_expires_at : Option ℕ
  pub attempt_count : ℕ
  pub next_retry_at : Option ℕ
  pub error_stage : Option String
  pub error_code : Option String
  pub error_message : Option String
  pub created_at : ℕ
  pub updated_at : ℕ
  pub committed_at : Option ℕ

pub record Db : Type 0 where
  pub sessions : List SessionRow
  pub events : List EventRow
  pub snapshots : List SnapshotRow
  pub active : List ActiveRow
  pub jobs : List JobRow
  pub metrics : List MetricRow
  pub backfills : List BackfillRow

-- The exceptions of repository.py by class; `integrity_error` is SQLite's own, not caught.
pub data RepositoryError : Type 0 where
  value_error session_identity_conflict idempotency_conflict event_identity_conflict
        repository_conflict invariant_error token_metric_conflict job_transition_error
        stale_lease_error integrity_error out_of_fuel :
      RepositoryError

-- `factory.transaction`: what a body that raises has written is rolled back.
abbrev pub transaction {ℓ} :
    {A : Type ℓ} → (Db → Result RepositoryError (A × Db)) → Db → Result RepositoryError A × Db
transaction body db = elim (body db) [ err e ↦ (err e, db) | ok (a, db') ↦ (ok a, db') ]

-- `SELECT * FROM t WHERE p`, of which `fetchone` reads the first row.
abbrev pub find {ℓ} : {A : Type ℓ} → (A → Bool) → List A → Option A
find p [] = none
find p (x ∷ xs) = let rest = find p xs in if p x then some x else rest

-- `UPDATE t SET f WHERE p`, and its row count.
abbrev pub update_where {ℓ} : {A : Type ℓ} → (A → Bool) → (A → A) → List A → List A
update_where p f [] = []
update_where p f (x ∷ xs) = (if p x then f x else x) ∷ update_where p f xs

abbrev pub row_count {ℓ} : {A : Type ℓ} → (A → Bool) → List A → ℕ
row_count p [] = 0
row_count p (x ∷ xs) = let rest = row_count p xs in if p x then suc rest else rest

abbrev pub or_raise {ℓ} : {A : Type ℓ} → Option A → RepositoryError → Result RepositoryError A
or_raise none e = err e
or_raise (some a) e = ok a
