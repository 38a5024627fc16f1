-- ===== src/Storage/Jobs/Turned.antt =====
-- What recover_expired_leases makes of each job (astrcontinuum/storage/repository.py).
use astrbot_plugin_astrconti.Prelude.{
  ℕ, ◌≤◌, ◌<◌, ◌≡◌, true, false, none, some, inl, inr, List, [], ◌∷◌, arith, all, Bool-cases,
  Option-cases, &&-true, Result, ok, leb,
}
use astrbot_plugin_astrconti.Domain.Identity.{SessionHash}
use astrbot_plugin_astrconti.Storage.Rows.{pending, JobRow, Db, RepositoryError, update_where}
use astrbot_plugin_astrconti.Storage.Schema.{is_working, row_check}
use astrbot_plugin_astrconti.Storage.Envelope.{CompactionJobEnvelope}
use astrbot_plugin_astrconti.Storage.Jobs.Changes.{is_expired, recovered}
use astrbot_plugin_astrconti.Storage.Jobs.Queue.{recover_expired_leases}
use astrbot_plugin_astrconti.Storage.Jobs.Checks.{row_check-Checked}
use astrbot_plugin_astrconti.Storage.Jobs.Valid.{IsValid, unpack}
use astrbot_plugin_astrconti.Storage.Jobs.Recover.{recover_expired_leases-Sweeps}

-- Job by job: an expired one is pending again, without lease, candidate or retry, and keeps its
-- epoch, its attempts and its report; one that is not worked on, or whose lease runs on, is as it was.
pub data Turned (now : ℕ) : List JobRow → List JobRow → Type 0 where
  finished : Turned now [] []
  expired :
      {r : JobRow} {at : ℕ} {rows after : List JobRow}
      → is_working r.state ≡ true
      → r.lease_expires_at ≡ some at
      → at ≤ now
      → Turned now rows after
      → Turned now (r ∷ rows) (
          record r {
            state = pending;
            candidate_snapshot_id = none;
            lease_owner = none;
            lease_expires_at = none;
            next_retry_at = none;
            updated_at = now;
            committed_at = none;
          }
          ∷ after)
  unworked :
      {r : JobRow} {rows after : List JobRow}
      → is_working r.state ≡ false
      → Turned now rows after
      → Turned now (r ∷ rows) (r ∷ after)
  running :
      {r : JobRow} {at : ℕ} {rows after : List JobRow}
      → r.lease_expires_at ≡ some at
      → now < at
      → Turned now rows after
      → Turned now (r ∷ rows) (r ∷ after)

at_of_working :
    (r : JobRow)
    → row_check r ≡ true
    → is_working r.state ≡ true
    → (at : ℕ) × (r.lease_expires_at ≡ some at)
at_of_working r c w = elim (Option-cases r.lease_expires_at) [
  | inl gone ↦ let k = (row_check-Checked r c).lease in absurd (ground (arith, rw (w, gone) at k))
  | inr found ↦ found
]

update-Turned :
    (now : ℕ) (rows : List JobRow)
    → all row_check rows ≡ true
    → Turned now rows (update_where (is_expired now) (recovered now) rows)
update-Turned now [] c = finished
update-Turned now (r ∷ rs) c =
    let (own, later) = &&-true (row_check r) (all row_check rs) c in
    let rest = update-Turned now rs later in
    elim (Bool-cases (is_working r.state)) [
      | inr idle ↦ rw idle (unworked idle rest)
      | inl work ↦
          let (at, e) = at_of_working r own work in
          elim (Bool-cases (leb at now)) [
            | inl over ↦
                let hit : is_expired now r ≡ true = rw (work, e) over in
                rw hit (expired work e (ground arith) rest)
            | inr early ↦
                let miss : is_expired now r ≡ false = rw (work, e) early in
                rw miss (running e (ground arith) rest)
          ]
    ]

module _ ⦃h : SessionHash⦄ where
  -- Recovery returned, changed the jobs as `Turned` says and no other table, and left a valid store.
  pub record Recovers (now : ℕ) (db : Db)
      (result : Result RepositoryError (List CompactionJobEnvelope × Db)) : Type 0 where
    pub recovered_jobs : List CompactionJobEnvelope
    pub after : List JobRow
    pub returns : result ≡ ok (recovered_jobs, record db { jobs = after })
    pub turned : Turned now db.jobs after
    pub valid : IsValid (record db { jobs = after })

  -- Recovery returns on a valid store: every job in a working state whose lease has expired is
  -- pending again, without lease, candidate or retry, and with its epoch, attempts and report; every
  -- other job is as it was, no other table changes, and the store stays valid.
  pub recover_expired_leases_lem :
      (now : ℕ) (db : Db) → IsValid db → Recovers now db (recover_expired_leases now db)
  recover_expired_leases_lem now db v =
      let (valid, (jobs, returned)) = recover_expired_leases-Sweeps now db v in
      record {
        recovered_jobs = jobs;
        after = update_where (is_expired now) (recovered now) db.jobs;
        returns = returned;
        turned = update-Turned now db.jobs (unpack db.jobs v.accepted).0;
        valid = valid;
      }
