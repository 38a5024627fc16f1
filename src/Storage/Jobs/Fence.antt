-- ===== src/Storage/Jobs/Fence.antt =====
-- What a worker's transaction does (transition_job, renew_job_lease, fail_job), and what happens to
-- a worker whose lease is gone.
use astrbot_plugin_astrconti.Prelude.{
  ℕ, ◌-◌, String, ◌≡◌, refl, true, false, Option, none, some, inl, inr, ◌==◌, string_eq,
  if◌then◌else◌, arith, Option-cases, &&-true, Result, err, leb, max,
}
use astrbot_plugin_astrconti.Domain.Identity.{SessionHash}
use astrbot_plugin_astrconti.Storage.Rows.{
  JobState, retry_wait, failed, JobRow, Db, RepositoryError, stale_lease_error, row_count,
  transaction,
}
use astrbot_plugin_astrconti.Storage.Jobs.Changes.{
  job_row, fenced, allowed, candidate_fits, transitioned, renewed, failed_row, Failure, extends,
}
use astrbot_plugin_astrconti.Storage.Jobs.Worker.{transition_job, renew_job_lease, fail_job}
use astrbot_plugin_astrconti.Storage.Jobs.Table.{has_id}
use astrbot_plugin_astrconti.Storage.Jobs.Lease.{
  transitioned-Keeps, renewed-Keeps, failed_row-Keeps,
}
use astrbot_plugin_astrconti.Storage.Jobs.Valid.{IsValid}
use astrbot_plugin_astrconti.Storage.Jobs.Rewritten.{Changes, Updates-Changes}
use astrbot_plugin_astrconti.Storage.Jobs.Live.{
  IsReported, stale_fence, transition_job-Updates, renew_job_lease-Updates, fail_job-Updates,
}

fenced-has_id :
    (id owner : String) (epoch now : ℕ) (r : JobRow)
    → fenced id owner epoch now r ≡ true
    → has_id id r ≡ true
fenced-has_id id owner epoch now r e = (&&-true (r.job_id == id) _ e).0

max_zero : (n : ℕ) → max n 0 ≡ n
max_zero n = omega arith

-- The row after a failure report.
failed_row_lem :
    (f : Failure) (now : ℕ) (r : JobRow)
    → failed_row f now r ≡ record r {
      state = elim f.retry_at [ none ↦ failed | some _ ↦ retry_wait ];
      candidate_snapshot_id = none;
      lease_owner = none;
      lease_expires_at = none;
      attempt_count = if f.preserve_attempt then r.attempt_count - 1 else r.attempt_count;
      next_retry_at = f.retry_at;
      error_stage = some f.error_stage;
      error_code = some f.error_code;
      error_message = some f.error_message;
      updated_at = now;
      committed_at = none;
    }
failed_row_lem f now r = elim (Option-cases f.retry_at) [
  | inl gone ↦ rw (gone, max_zero (r.attempt_count - 1))
  | inr (at, set) ↦ rw (set, max_zero (r.attempt_count - 1))
]

transaction-err :
    {A : Type 0} (body : Db → Result RepositoryError (A × Db)) (db : Db) {e : RepositoryError}
    → body db ≡ err e
    → transaction body db ≡ (err e, db)
transaction-err body db f = rw (f, transaction)

module _ ⦃h : SessionHash⦄ where
  -- On a valid store, the worker that holds the job's live lease moves it along an allowed
  -- transition, with a candidate where and only where it becomes ready: the job's row has the asked
  -- state, the given candidate and the moment of the update, and is otherwise as it was; it is
  -- returned, no other row and no other table changes, and the store stays valid.
  pub transition_job_lem :
      (id owner : String) (epoch : ℕ) (to_state : JobState) (now : ℕ) (candidate : Option String)
      (db : Db) {r : JobRow}
      → IsValid db
      → job_row id db ≡ some r
      → fenced id owner epoch now r ≡ true
      → allowed r.state to_state ≡ true
      → candidate_fits to_state candidate ≡ true
      → Changes id
          (record r { state = to_state; candidate_snapshot_id = candidate; updated_at = now })
          db
          (transition_job id owner epoch to_state now candidate db)
  transition_job_lem id owner epoch to_state now candidate db {r} v e live a f =
      Updates-Changes (fenced id owner epoch now) (transitioned to_state candidate now) id db
        (fenced-has_id id owner epoch now)
        (transitioned-Keeps id owner epoch now r.state to_state candidate a f) v e live refl
        (transition_job-Updates id owner epoch to_state now candidate db v e live a f)

  -- On a valid store, the worker that holds the job's live lease extends it to a later moment: the
  -- job's row has that moment as its expiry and the moment of the update, and is otherwise as it was;
  -- it is returned, no other row and no other table changes, and the store stays valid.
  pub renew_job_lease_lem :
      (id owner : String) (epoch now lease_expires_at : ℕ) (db : Db) {r : JobRow}
      → IsValid db
      → job_row id db ≡ some r
      → fenced id owner epoch now r ≡ true
      → extends r.lease_expires_at lease_expires_at ≡ true
      → Changes id
          (record r { lease_expires_at = some lease_expires_at; updated_at = now })
          db
          (renew_job_lease id owner epoch now lease_expires_at db)
  renew_job_lease_lem id owner epoch now at db {r} v e live x =
      Updates-Changes (fenced id owner epoch now) (renewed at now) id db
        (fenced-has_id id owner epoch now) (renewed-Keeps id owner epoch now at) v e live refl
        (renew_job_lease-Updates id owner epoch now at db v e live x)

  -- On a valid store, the worker that holds the job's live lease reports a well-formed failure: the
  -- job waits for the retry, or fails where none is set; its row gives up the lease and the candidate,
  -- carries the report, and counts one attempt less where the attempt is preserved; it is returned, no
  -- other row and no other table changes, and the store stays valid.
  pub fail_job_lem :
      (id owner : String) (epoch now : ℕ) (f : Failure) (db : Db) {r : JobRow}
      → IsValid db
      → job_row id db ≡ some r
      → fenced id owner epoch now r ≡ true
      → IsReported f now
      → Changes id
          (record r {
            state = elim f.retry_at [ none ↦ failed | some _ ↦ retry_wait ];
            candidate_snapshot_id = none;
            lease_owner = none;
            lease_expires_at = none;
            attempt_count = if f.preserve_attempt then r.attempt_count - 1 else r.attempt_count;
            next_retry_at = f.retry_at;
            error_stage = some f.error_stage;
            error_code = some f.error_code;
            error_message = some f.error_message;
            updated_at = now;
            committed_at = none;
          })
          db
          (fail_job id owner epoch now f db)
  fail_job_lem id owner epoch now f db {r} v e live q =
      Updates-Changes (fenced id owner epoch now) (failed_row f now) id db
        (fenced-has_id id owner epoch now)
        (failed_row-Keeps id owner epoch now f q.staged q.coded q.told) v e live
        (failed_row_lem f now r) (fail_job-Updates id owner epoch now f db v e live q)

  -- A worker whose lease no job carries is told that its lease is stale, and the store is as it was:
  -- a transition, a renewal to a later moment and a well-formed failure report all end so.
  pub stale_worker_lem :
      (id owner : String) (epoch now : ℕ) (to_state : JobState) (candidate : Option String)
      (lease_expires_at : ℕ) (f : Failure) (db : Db)
      → row_count (fenced id owner epoch now) db.jobs ≡ 0
      → leb lease_expires_at now ≡ false
      → IsReported f now
      → (transaction (transition_job id owner epoch to_state now candidate) db
          ≡ (err stale_lease_error, db))
        × (transaction (renew_job_lease id owner epoch now lease_expires_at) db
            ≡ (err stale_lease_error, db))
        × (transaction (fail_job id owner epoch now f) db ≡ (err stale_lease_error, db))
  unfolding transition_job renew_job_lease fail_job
  stale_worker_lem id owner epoch now to_state candidate at f db none_fenced later q =
      let stale = stale_fence id owner epoch now db none_fenced in
      (
        transaction-err (transition_job id owner epoch to_state now candidate) db (rw stale),
        transaction-err (renew_job_lease id owner epoch now at) db (rw (later, stale)),
        transaction-err (fail_job id owner epoch now f) db
            (rw (q.staged, q.coded, q.told, q.short, q.plain, q.preserved, q.later, stale)),
      )
