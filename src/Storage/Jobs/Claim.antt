-- ===== src/Storage/Jobs/Claim.antt =====
-- What claim_job does on a valid store (astrcontinuum/storage/repository.py).
use astrbot_plugin_astrconti.Prelude.{
  EachOf, ℕ, zero, suc, ◌+◌, ◌<◌, ◌≤◌, String, ◌≡◌, refl, sym, subst, true, false, Option, none,
  some, inl, inr, List, ◌==◌, string_eq, nat_eq, beq_refl, arith, Bool-cases, Option-cases, &&-true,
  ok, is_blank, leb, length,
}
use astrbot_plugin_astrconti.Domain.Identity.{SessionKey, SessionHash}
use astrbot_plugin_astrconti.Storage.Rows.{leased, cancelled, JobRow, Db, update_where, row_count}
use astrbot_plugin_astrconti.Storage.Schema.{base_check}
use astrbot_plugin_astrconti.Storage.Envelope.{CompactionJobEnvelope}
use astrbot_plugin_astrconti.Storage.Jobs.Changes.{
  R, write_jobs, is_eligible, first_eligible, claimed, cancelled_row,
}
use astrbot_plugin_astrconti.Storage.Jobs.Lookup.{active_base}
use astrbot_plugin_astrconti.Storage.Jobs.Queue.{claim_loop, claim_job}
use astrbot_plugin_astrconti.Storage.Jobs.Table.{has_id}
use astrbot_plugin_astrconti.Storage.Jobs.Single.{row_count_one, find-update}
use astrbot_plugin_astrconti.Storage.Jobs.Valid.{IsValid, unpack, update-IsValid, job_by_id_lem}
use astrbot_plugin_astrconti.Storage.Jobs.First.{
  IsIn, first_eligible_lem, update-by_id, row_count-update, row_count-length,
}
use astrbot_plugin_astrconti.Storage.Jobs.Rewritten.{Rewritten, update-Rewritten}
use astrbot_plugin_astrconti.Storage.Jobs.Due.{
  IsOldestDue, NotDue, first_eligible-IsOldestDue, none_eligible-NotDue,
}
use astrbot_plugin_astrconti.Storage.Jobs.Eligible.{claims, cancelled_row-Keeps, claimed-Keeps}

-- Every session has a base that a job can stand on.
pub record HasBase (hash : String) (db : Db) : Type 0 where
  pub base : Option String
  pub version : ℕ
  pub coverage : ℕ
  pub read : active_base hash db ≡ ok (base, version, coverage)
  pub fits : base_check base version ≡ true

-- The rounds of a claim: jobs whose target is covered are cancelled, oldest first; then the oldest
-- due job is leased under the next epoch, with its intent as target, and stands on the active base,
-- or none is left.
pub data Claims ⦃h : SessionHash⦄ (worker : String) (now lease : ℕ)
    : Db → R (Option CompactionJobEnvelope × Db) → Type 0 where
  idle :
      {db : Db}
      → EachOf (NotDue now) db.jobs
      → IsValid db
      → Claims worker now lease db (ok (none, db))
  taken :
      {db after : Db} {r new : JobRow} (key : SessionKey) (b : HasBase r.session_key_hash db)
      → IsOldestDue now db.jobs r
      → b.coverage < r.intent_target_high_water_mark
      → new ≡ record r {
        state = leased;
        target_high_water_mark = r.intent_target_high_water_mark;
        base_snapshot_id = b.base;
        base_pointer_version = b.version;
        candidate_snapshot_id = none;
        lease_owner = some worker;
        lease_epoch = r.lease_epoch + 1;
        lease_expires_at = some lease;
        attempt_count = r.attempt_count + 1;
        next_retry_at = none;
        error_stage = none;
        error_code = none;
        error_message = none;
        updated_at = now;
        committed_at = none;
      }
      → Rewritten r.job_id new db after
      → Claims worker now lease db (ok (some (record { session_key = key; row = new }), after))
  skipped :
      {db after : Db} {r : JobRow} {result : R (Option CompactionJobEnvelope × Db)}
      (b : HasBase r.session_key_hash db)
      → IsOldestDue now db.jobs r
      → r.intent_target_high_water_mark ≤ b.coverage
      → Rewritten r.job_id
          (record r { state = cancelled; next_retry_at = none; updated_at = now })
          db
          after
      → Claims worker now lease after result
      → Claims worker now lease db result

taken_out :
    (id : String) (now : ℕ) (r : JobRow)
    → claims id now r ≡ true
    → (is_eligible now r ≡ true) × (is_eligible now (cancelled_row now r) ≡ false)
taken_out id now r e = ((&&-true (r.job_id == id) (is_eligible now r) e).1, refl)

claims-has_id : (id : String) (now : ℕ) (r : JobRow) → claims id now r ≡ true → has_id id r ≡ true
claims-has_id id now r e = (&&-true (r.job_id == id) (is_eligible now r) e).0

HasBase-same :
    (hash : String) (db : Db) (jobs : List JobRow)
    → HasBase hash db
    → HasBase hash (record db { jobs = jobs })
unfolding active_base
HasBase-same hash db jobs b = record {
  base = b.base;
  version = b.version;
  coverage = b.coverage;
  read = b.read;
  fits = b.fits;
}

module _ ⦃h : SessionHash⦄ (worker : String) (now lease : ℕ) (named : is_blank worker ≡ false) where
  skipped_same :
      (db : Db) (r : JobRow)
      → IsValid db
      → IsIn db.jobs r
      → claims r.job_id now r ≡ true
      → update_where (has_id r.job_id) (cancelled_row now) db.jobs
        ≡ update_where (claims r.job_id now) (cancelled_row now) db.jobs
  skipped_same db r v here hit =
      update-by_id (claims r.job_id now) (cancelled_row now) r.job_id (claims-has_id r.job_id now)
        db.jobs (unpack db.jobs v.accepted).1 here hit

  skipped-Rewritten :
      (db : Db) (r : JobRow)
      → IsValid db
      → IsIn db.jobs r
      → claims r.job_id now r ≡ true
      → Rewritten r.job_id
          (record r { state = cancelled; next_retry_at = none; updated_at = now })
          db
          (record db { jobs = update_where (has_id r.job_id) (cancelled_row now) db.jobs })
  skipped-Rewritten db r v here hit =
      subst (λ z. Rewritten r.job_id (cancelled_row now r) db (record db { jobs = z }))
        (sym (skipped_same db r v here hit))
        (update-Rewritten (claims r.job_id now) (cancelled_row now) r.job_id db
          (claims-has_id r.job_id now) (cancelled_row-Keeps r.job_id now) v here hit)

  skipped_count :
      (db : Db) (r : JobRow)
      → IsValid db
      → IsIn db.jobs r
      → claims r.job_id now r ≡ true
      → row_count (claims r.job_id now) db.jobs ≡ 1
      → row_count (is_eligible now) (update_where (has_id r.job_id) (cancelled_row now) db.jobs) + 1
        ≡ row_count (is_eligible now) db.jobs
  skipped_count db r v here hit one =
      let fall =
        row_count-update (claims r.job_id now) (is_eligible now) (cancelled_row now) db.jobs
          (taken_out r.job_id now) in
      rw (skipped_same db r v here hit) (rw one at fall)

  claim_loop-Claims :
      (fuel : ℕ) (db : Db)
      → row_count (is_eligible now) db.jobs < fuel
      → IsValid db
      → ((hash : String) → HasBase hash db)
      → Claims worker now lease db (claim_loop fuel worker now lease db)
  unfolding claim_loop write_jobs
  claim_loop-Claims zero db enough v bases = absurd (omega arith)
  claim_loop-Claims (suc fuel) db enough v bases =
      elim (Option-cases (first_eligible now db.jobs)) [
        | inl gone ↦ rw (gone, claim_loop) (idle (none_eligible-NotDue now db.jobs gone) v)
        | inr (r, first) ↦
            let (_, unique) = unpack db.jobs v.accepted in
            let (due, here) = first_eligible_lem now db.jobs unique first in
            let hit : claims r.job_id now r ≡ true = rw (beq_refl r.job_id) due in
            let one =
              row_count_one (claims r.job_id now) (cancelled_row now) r.job_id
                (claims-has_id r.job_id now) db.jobs unique here hit in
            let b = bases r.session_key_hash in
            let oldest = first_eligible-IsOldestDue now db.jobs unique first in
            elim (Bool-cases (leb r.intent_target_high_water_mark b.coverage)) [
              | inl covered ↦
                  let changed = skipped-Rewritten db r v here hit in
                  let valid = changed.valid in
                  let fewer = skipped_count db r v here hit one in
                  rw (first, claim_loop, b.read, covered, valid.accepted)
                    (skipped b oldest (ground arith) changed (
                      claim_loop-Claims fuel
                        (record db {
                          jobs = update_where (has_id r.job_id) (cancelled_row now) db.jobs;
                        })
                        (omega (arith, fewer, enough)) valid
                        (λ hash. HasBase-same hash db _ (bases hash))))
              | inr uncovered ↦
                  let f = claimed b.base b.version worker lease now in
                  let k = claimed-Keeps r.job_id worker lease now b.base b.version named b.fits in
                  let valid = update-IsValid db (claims r.job_id now) f k v in
                  let (key, back) =
                    job_by_id_lem r.job_id
                      (record db { jobs = update_where (claims r.job_id now) f db.jobs }) valid
                      (find-update (claims r.job_id now) f r.job_id (claims-has_id r.job_id now)
                        db.jobs k.same_id here hit) in
                  rw (first, claim_loop, b.read, uncovered, valid.accepted, one, back)
                    (taken key b oldest (ground arith) refl (
                      update-Rewritten (claims r.job_id now) f r.job_id db
                        (claims-has_id r.job_id now) k v here hit))
            ]
      ]

  -- A claim by a named worker, with a lease that ends after now, on a valid store where every session
  -- has a base: it returns. As long as the oldest due job has a target that is covered, it cancels that
  -- job; it leases the first oldest due job that is not covered, under the next epoch, with its intent
  -- as target and the active Snapshot as base; where no job is due it returns none. Each round changes
  -- that one job and no other table, and the store it leaves is valid.
  pub claim_job-Claims :
      (db : Db)
      → leb lease now ≡ false
      → IsValid db
      → ((hash : String) → HasBase hash db)
      → Claims worker now lease db (claim_job worker now lease db)
  unfolding claim_job
  claim_job-Claims db later v bases =
      rw (named, later)
        (claim_loop-Claims (suc (length db.jobs)) db
          (omega (arith, row_count-length (is_eligible now) db.jobs)) v bases)
