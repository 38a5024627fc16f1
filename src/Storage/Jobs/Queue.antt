-- ===== src/Storage/Jobs/Queue.antt =====
-- The transactions on compaction_jobs (repository.py): intents, claims and recovery. `now` and the other
-- moments are given in their normalised form. The test hook `_inject` is left out.
use astrbot_plugin_astrconti.Prelude.{
  sort_by, keep_if, ℕ, zero, suc, ◌-◌, String, not, ◌&&◌, Option, none, some, List, [], ◌∷◌, ◌++◌,
  ◌==◌, string_eq, nat_eq, option_eq, ok, err, ◌>>=◌, ◌>>◌, raise_if, if◌then◌else◌, ltb, leb,
  is_blank, length,
}
use astrbot_plugin_astrconti.Domain.Identity.{SessionKey, SessionHash, session_key_eq}
use astrbot_plugin_astrconti.Storage.Rows.{
  JobRow, Db, value_error, session_identity_conflict, repository_conflict, invariant_error,
  integrity_error, out_of_fuel, find, update_where, row_count, or_raise,
}
use astrbot_plugin_astrconti.Storage.Envelope.{CompactionJobEnvelope}
use astrbot_plugin_astrconti.Storage.Jobs.Changes.{
  R, write_jobs, session_row, is_expired, recovered, row_le, is_eligible, cancelled_row, claimed,
  first_eligible, new_job, is_open_for, raised,
}
use astrbot_plugin_astrconti.Storage.Jobs.Lookup.{session_key_from_storage, job_by_id, active_base}

module _ ⦃h : SessionHash⦄ where
  -- The loop over the selected ids: one UPDATE for each.
  unfoldable pub recover_each : ℕ → List JobRow → List String → Db → R (List String × Db)
  unfolding write_jobs
  recover_each now [] recovered_ids db = ok (recovered_ids, db)
  recover_each now (r ∷ rest) recovered_ids db = do
    let hit = λ (x : JobRow). x.job_id == r.job_id && is_expired now x
    db' ← write_jobs (update_where hit (recovered now) db.jobs) db
    recover_each now rest
        (if row_count hit db.jobs == 1 then recovered_ids ++ r.job_id ∷ [] else recovered_ids) db'

  abbrev pub jobs_by_id : List String → Db → R (List CompactionJobEnvelope)
  jobs_by_id [] db = ok []
  jobs_by_id (id ∷ ids) db = do job ← job_by_id id db; rest ← jobs_by_id ids db; ok (job ∷ rest)

  unfoldable pub recover_expired_leases : ℕ → Db → R (List CompactionJobEnvelope × Db)
  unfolding recover_each job_by_id
  recover_expired_leases now db = do
    (ids, db') ← recover_each now (sort_by row_le (keep_if (is_expired now) db.jobs)) [] db
    recovered_jobs ← jobs_by_id ids db'
    ok (recovered_jobs, db')

  -- The body of `while True` for one selected row; the last argument goes round again.
  abbrev pub claim_row :
      String
      → ℕ
      → ℕ
      → JobRow
      → Db
      → (Db → R (Option CompactionJobEnvelope × Db))
      → R (Option CompactionJobEnvelope × Db)
  claim_row worker now lease r db again = do
    (base, version, coverage) ← active_base r.session_key_hash db
    let by_id = λ (x : JobRow). x.job_id == r.job_id
    let hit = λ (x : JobRow). x.job_id == r.job_id && is_eligible now x
    if leb r.intent_target_high_water_mark coverage
        then (do db' ← write_jobs (update_where by_id (cancelled_row now) db.jobs) db; again db')
        else (do
          db' ← write_jobs (update_where hit (claimed base version worker lease now) db.jobs) db
          if not (row_count hit db.jobs == 1)
              then again db'
              else (do job ← job_by_id r.job_id db'; ok (some job, db')))

  unfoldable pub claim_loop : ℕ → String → ℕ → ℕ → Db → R (Option CompactionJobEnvelope × Db)
  claim_loop zero worker now lease db = err out_of_fuel
  claim_loop (suc fuel) worker now lease db = elim (first_eligible now db.jobs) [
    | none ↦ ok (none, db)
    | some r ↦ claim_row worker now lease r db (claim_loop fuel worker now lease)
  ]

  -- Each round but the last cancels an eligible job, so one round more than there are jobs is
  -- enough.
  unfoldable pub claim_job : String → ℕ → ℕ → Db → R (Option CompactionJobEnvelope × Db)
  unfolding claim_loop is_blank
  claim_job worker now lease db = do
    raise_if (is_blank worker) value_error
    raise_if (leb lease now) value_error
    claim_loop (suc (length db.jobs)) worker now lease db

  abbrev pub as_conflict : R Db → R Db
  as_conflict (err integrity_error) = err repository_conflict
  as_conflict r = r

  unfoldable pub raise_compaction_intent :
      (job_id : String) (session_key : SessionKey) (target_high_water_mark now : ℕ)
      → Db
      → R (Option CompactionJobEnvelope × Db)
  unfolding session_key_from_storage active_base write_jobs job_by_id is_blank
  raise_compaction_intent job_id key target now db = do
    raise_if (is_blank job_id) value_error
    raise_if (target == 0) value_error
    let hash = h.session_key_hash key
    s ← or_raise (session_row hash db) invariant_error
    stored ← session_key_from_storage s
    raise_if (not (stored == key)) session_identity_conflict
    raise_if (ltb (s.next_event_sequence - 1) target) invariant_error
    (base, version, coverage) ← active_base hash db
    if leb target coverage then ok (none, db) else elim (find (is_open_for hash) db.jobs) [
      | some r ↦ (do
        let by_id = λ (x : JobRow). x.job_id == r.job_id
        db' ←
            if ltb r.intent_target_high_water_mark target
            then write_jobs (update_where by_id (raised target now) db.jobs) db
            else ok db
        job ← job_by_id r.job_id db'
        ok (some job, db'))
      | none ↦ (do
        db' ←
            as_conflict
              (write_jobs (db.jobs ++ new_job job_id hash target base version now ∷ []) db)
        job ← job_by_id job_id db'
        ok (some job, db'))
    ]
