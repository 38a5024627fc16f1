-- ===== src/Storage/Jobs/Moved.antt =====
-- What a transition that commits was (transition_job, astrcontinuum/storage/repository.py).
use astrbot_plugin_astrconti.Prelude.{
  ℕ, String, ◌≡◌, refl, true, Option, some, inl, inr, ◌==◌, string_eq, option_eq, nat_eq,
  Bool-cases, ok, Result-cases,
}
use astrbot_plugin_astrconti.Domain.Identity.{SessionHash}
use astrbot_plugin_astrconti.Storage.Rows.{
  JobState, pending, leased, compiling, auditing, ready_to_commit, retry_wait, committed,
  superseded, failed, cancelled, JobRow, Db, row_count, update_where,
}
use astrbot_plugin_astrconti.Storage.Schema.{accepts}
use astrbot_plugin_astrconti.Storage.Envelope.{CompactionJobEnvelope}
use astrbot_plugin_astrconti.Storage.Jobs.Changes.{
  job_row, fenced, allowed, candidate_fits, transitioned, write_jobs,
}
use astrbot_plugin_astrconti.Storage.Jobs.Lookup.{job_by_id, require_live_fence, update_fenced}
use astrbot_plugin_astrconti.Storage.Jobs.Worker.{transition_job}
use astrbot_plugin_astrconti.Storage.Jobs.Live.{live_fence}

-- The four edges that a worker may take.
pub data Edge (from_state to_state : JobState) : Type 0 where
  start : from_state ≡ leased → to_state ≡ compiling → Edge from_state to_state
  audit : from_state ≡ compiling → to_state ≡ auditing → Edge from_state to_state
  skip_audit : from_state ≡ compiling → to_state ≡ ready_to_commit → Edge from_state to_state
  accept : from_state ≡ auditing → to_state ≡ ready_to_commit → Edge from_state to_state

allowed-Edge : (s t : JobState) → allowed s t ≡ true → Edge s t
allowed-Edge pending t e = cc
allowed-Edge leased pending e = cc
allowed-Edge leased leased e = cc
allowed-Edge leased compiling e = start refl refl
allowed-Edge leased auditing e = cc
allowed-Edge leased ready_to_commit e = cc
allowed-Edge leased retry_wait e = cc
allowed-Edge leased committed e = cc
allowed-Edge leased superseded e = cc
allowed-Edge leased failed e = cc
allowed-Edge leased cancelled e = cc
allowed-Edge compiling pending e = cc
allowed-Edge compiling leased e = cc
allowed-Edge compiling compiling e = cc
allowed-Edge compiling auditing e = audit refl refl
allowed-Edge compiling ready_to_commit e = skip_audit refl refl
allowed-Edge compiling retry_wait e = cc
allowed-Edge compiling committed e = cc
allowed-Edge compiling superseded e = cc
allowed-Edge compiling failed e = cc
allowed-Edge compiling cancelled e = cc
allowed-Edge auditing pending e = cc
allowed-Edge auditing leased e = cc
allowed-Edge auditing compiling e = cc
allowed-Edge auditing auditing e = cc
allowed-Edge auditing ready_to_commit e = accept refl refl
allowed-Edge auditing retry_wait e = cc
allowed-Edge auditing committed e = cc
allowed-Edge auditing superseded e = cc
allowed-Edge auditing failed e = cc
allowed-Edge auditing cancelled e = cc
allowed-Edge ready_to_commit t e = cc
allowed-Edge retry_wait t e = cc
allowed-Edge committed t e = cc
allowed-Edge superseded t e = cc
allowed-Edge failed t e = cc
allowed-Edge cancelled t e = cc

module _ ⦃h : SessionHash⦄ where
  -- What a committed transition shows.
  pub record Moved (id owner : String) (epoch : ℕ) (to_state : JobState) (now : ℕ)
      (candidate : Option String) (db db' : Db) : Type 0 where
    pub row : JobRow
    pub found : job_row id db ≡ some row
    pub held : fenced id owner epoch now row ≡ true
    pub edge : Edge row.state to_state
    pub along : allowed row.state to_state ≡ true
    pub fits : candidate_fits to_state candidate ≡ true
    pub written :
        db'.jobs
        ≡ update_where (fenced id owner epoch now) (transitioned to_state candidate now) db.jobs

  update_fenced-writes :
      (id owner : String) (epoch now : ℕ) (f : JobRow → JobRow) (db : Db)
      {job : CompactionJobEnvelope} {db' : Db}
      → update_fenced id owner epoch now f db ≡ ok (job, db')
      → db'.jobs ≡ update_where (fenced id owner epoch now) f db.jobs
  unfolding update_fenced write_jobs
  update_fenced-writes id owner epoch now f db {job} {db'} e =
      let rows = update_where (fenced id owner epoch now) f db.jobs in
      elim (Bool-cases (accepts rows)) [
        | inr bad_case ↦ cc (rw bad_case at e)
        | inl taken ↦ elim (Bool-cases (row_count (fenced id owner epoch now) db.jobs == 1)) [
          | inr bad_case ↦ cc (rw (taken, bad_case) at e)
          | inl one ↦ elim (Result-cases (job_by_id id (record db { jobs = rows }))) [
            | inl (x, bad) ↦ cc (rw (taken, one, bad) at e)
            | inr (j, good) ↦ cc (rw (taken, one, good) at e)
          ]
        ]
      ]

  -- A transition that commits was made by the holder of a live lease, along one of the four allowed
  -- edges, with a candidate where and only where the job becomes ready, and it wrote exactly the
  -- fenced row.
  pub transition_job-Moved :
      (id owner : String) (epoch : ℕ) (to_state : JobState) (now : ℕ) (candidate : Option String)
      (db : Db) {job : CompactionJobEnvelope} {db' : Db}
      → transition_job id owner epoch to_state now candidate db ≡ ok (job, db')
      → Moved id owner epoch to_state now candidate db db'
  unfolding transition_job
  transition_job-Moved id owner epoch to_state now candidate db {job} {db'} e =
      elim (Result-cases (require_live_fence id owner epoch now db)) [
        | inl (x, stale) ↦ cc (rw stale at e)
        | inr (r, live) ↦ elim (Bool-cases (allowed r.state to_state)) [
          | inr bad_case ↦ cc (rw (live, bad_case) at e)
          | inl edge ↦ elim (Bool-cases (candidate_fits to_state candidate)) [
            | inr bad_case ↦ cc (rw (live, edge, bad_case) at e)
            | inl fits ↦
                let (found, held) = live_fence id owner epoch now db live in
                record {
                  row = r;
                  found = found;
                  held = held;
                  edge = allowed-Edge r.state to_state edge;
                  along = edge;
                  fits = fits;
                  written =
                      update_fenced-writes id owner epoch now (transitioned to_state candidate now)
                        db (rw (live, edge, fits) at e);
                }
          ]
        ]
      ]
