-- ===== src/Storage/Jobs/Lookup.antt =====
-- Reading one job, the active base and a live lease, and the fenced UPDATE (repository.py).
use astrbot_plugin_astrconti.Prelude.{
  ℕ, String, not, ◌&&◌, Option, none, some, ◌==◌, string_eq, nat_eq, option_eq, ok, err, ◌>>=◌,
  ◌>>◌, raise_if, if◌then◌else◌,
}
use astrbot_plugin_astrconti.Domain.Identity.{SessionKey, SessionHash, session_key_eq}
use astrbot_plugin_astrconti.Storage.Rows.{
  SessionRow, SnapshotRow, ActiveRow, JobRow, Db, invariant_error, stale_lease_error, find,
  update_where, row_count, or_raise,
}
use astrbot_plugin_astrconti.Storage.Schema.{is_working}
use astrbot_plugin_astrconti.Storage.Envelope.{CompactionJobEnvelope, validate_job}
use astrbot_plugin_astrconti.Storage.Jobs.Changes.{
  R, write_jobs, session_row, job_row, expires_after, fenced,
}

-- `_active_base`: the Snapshot's id, the pointer's version, the covered end.
unfoldable pub active_base : String → Db → R (Option String × ℕ × ℕ)
active_base hash db = elim (find (λ (a : ActiveRow). a.session_key_hash == hash) db.active) [
  | none ↦ ok (none, 0, 0)
  | some a ↦ elim (find (λ (s : SnapshotRow). s.snapshot_id == a.snapshot_id) db.snapshots) [
    | none ↦ ok (none, 0, 0)
    | some s ↦
        if not (s.session_key_hash == hash)
        then err invariant_error
        else ok (some s.snapshot_id, a.pointer_version, s.covered_event_end)
  ]
]

-- `_require_live_fence`
unfoldable pub require_live_fence : String → String → ℕ → ℕ → Db → R JobRow
require_live_fence job_id owner lease_epoch now db = do
  r ← or_raise (job_row job_id db) stale_lease_error
  raise_if
      (not (
        is_working r.state
        && (r.lease_owner == some owner
            && (r.lease_epoch == lease_epoch && expires_after r.lease_expires_at now))))
      stale_lease_error
  ok r

module _ ⦃h : SessionHash⦄ where
  -- `_session_key_from_storage`
  unfoldable pub session_key_from_storage : SessionRow → R SessionKey
  session_key_from_storage s =
      if h.session_key_hash s.canonical_session_key == s.session_key_hash
      then ok s.canonical_session_key
      else err invariant_error

  -- `_job_from_row`
  unfoldable pub job_from_row : JobRow → SessionRow → R CompactionJobEnvelope
  unfolding session_key_from_storage validate_job
  job_from_row r s = do
    key ← session_key_from_storage s
    elim (validate_job r) [ err e ↦ err invariant_error | ok u ↦ ok tt ]
    raise_if (not (r.session_key_hash == h.session_key_hash key)) invariant_error
    ok (record { session_key = key; row = r })

  -- `_job_by_id`: the JOIN leaves out a job with no session.
  unfoldable pub job_by_id : String → Db → R CompactionJobEnvelope
  unfolding job_from_row
  job_by_id job_id db = do
    r ← or_raise (job_row job_id db) invariant_error
    s ← or_raise (session_row r.session_key_hash db) invariant_error
    job_from_row r s

  -- A fenced UPDATE, and the job that it leaves.
  unfoldable pub update_fenced :
      String → String → ℕ → ℕ → (JobRow → JobRow) → Db → R (CompactionJobEnvelope × Db)
  unfolding write_jobs job_by_id
  update_fenced job_id owner lease_epoch now change db = do
    db' ← write_jobs (update_where (fenced job_id owner lease_epoch now) change db.jobs) db
    raise_if (not (row_count (fenced job_id owner lease_epoch now) db.jobs == 1)) stale_lease_error
    job ← job_by_id job_id db'
    ok (job, db')
