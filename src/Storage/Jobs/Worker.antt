-- ===== src/Storage/Jobs/Worker.antt =====
-- The transactions on compaction_jobs (repository.py): those of a worker that holds a lease. `now` and the other
-- moments are given in their normalised form. The test hook `_inject` is left out.
use Prim.Native.String.{count as text_length}
use astrbot_plugin_astrconti.Prelude.{
  ℕ, String, not, ◌&&◌, ◌||◌, Option, string_eq, nat_eq, option_eq, ◌>>=◌, ◌>>◌, raise_if, ltb, leb,
  is_blank,
}
use astrbot_plugin_astrconti.Domain.Identity.{SessionHash, session_key_eq}
use astrbot_plugin_astrconti.Storage.Rows.{JobState, Db, value_error, job_transition_error}
use astrbot_plugin_astrconti.Storage.Envelope.{CompactionJobEnvelope}
use astrbot_plugin_astrconti.Storage.Jobs.Changes.{
  R, one_line, allowed, candidate_fits, transitioned, extends, renewed, Failure, may_preserve,
  retry_is_due, failed_row,
}
use astrbot_plugin_astrconti.Storage.Jobs.Lookup.{require_live_fence, update_fenced}

module _ ⦃h : SessionHash⦄ where
  unfoldable pub transition_job :
      (job_id owner : String) (lease_epoch : ℕ) (to_state : JobState) (now : ℕ)
      (candidate_snapshot_id : Option String)
      → Db
      → R (CompactionJobEnvelope × Db)
  transition_job job_id owner lease_epoch to_state now candidate db = do
    r ← require_live_fence job_id owner lease_epoch now db
    raise_if (not (allowed r.state to_state)) job_transition_error
    raise_if (not (candidate_fits to_state candidate)) job_transition_error
    update_fenced job_id owner lease_epoch now (transitioned to_state candidate now) db

  unfoldable pub renew_job_lease :
      (job_id owner : String) (lease_epoch now lease_expires_at : ℕ)
      → Db
      → R (CompactionJobEnvelope × Db)
  renew_job_lease job_id owner lease_epoch now lease_expires_at db = do
    raise_if (leb lease_expires_at now) value_error
    r ← require_live_fence job_id owner lease_epoch now db
    raise_if (not (extends r.lease_expires_at lease_expires_at)) job_transition_error
    update_fenced job_id owner lease_epoch now (renewed lease_expires_at now) db

  unfoldable pub fail_job :
      (job_id owner : String) (lease_epoch now : ℕ) → Failure → Db → R (CompactionJobEnvelope × Db)
  fail_job job_id owner lease_epoch now f db = do
    raise_if (is_blank f.error_stage || (is_blank f.error_code || is_blank f.error_message))
        value_error
    raise_if (ltb 512 (text_length f.error_message) || not (one_line f.error_message)) value_error
    raise_if (f.preserve_attempt && not (may_preserve f)) value_error
    raise_if (retry_is_due f.retry_at now) value_error
    r ← require_live_fence job_id owner lease_epoch now db
    update_fenced job_id owner lease_epoch now (failed_row f now) db
