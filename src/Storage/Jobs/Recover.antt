-- ===== src/Storage/Jobs/Recover.antt =====
-- recover_expired_leases on a valid store (astrcontinuum/storage/repository.py).
use astrbot_plugin_astrconti.Prelude.{
  EachOf, EachOf-map, EachOf-sort_by, EachOf-keep_if, ℕ, String, ◌≡◌, refl, ◌∙◌, ap, subst, Bool,
  true, false, ◌||◌, some, inl, inr, List, [], ◌∷◌, ◌++◌, ◌==◌, string_eq, nat_eq, beq_refl,
  if◌then◌else◌, any, all, Bool-cases, &&-true, ok, sort_by, keep_if,
}
use astrbot_plugin_astrconti.Domain.Identity.{SessionHash}
use astrbot_plugin_astrconti.Storage.Rows.{pending, JobRow, Db, find, update_where, row_count}
use astrbot_plugin_astrconti.Storage.Schema.{is_working}
use astrbot_plugin_astrconti.Storage.Envelope.{CompactionJobEnvelope}
use astrbot_plugin_astrconti.Storage.Jobs.Changes.{write_jobs, row_le, is_expired, recovered}
use astrbot_plugin_astrconti.Storage.Jobs.Queue.{recover_each, jobs_by_id, recover_expired_leases}
use astrbot_plugin_astrconti.Storage.Jobs.Checks.{row_check-Checked, Checked-row_check}
use astrbot_plugin_astrconti.Storage.Jobs.Lease.{errors_of_working, open_of_working}
use astrbot_plugin_astrconti.Storage.Jobs.Table.{Keeps, has_id}
use astrbot_plugin_astrconti.Storage.Jobs.Valid.{IsValid, update-IsValid, job_by_id_lem}
use astrbot_plugin_astrconti.Storage.Jobs.Sweep.{expires_as, sweep, sweep-all}

expires_as-Keeps : (now : ℕ) (selected : JobRow) → Keeps (expires_as now selected) (recovered now)
expires_as-Keeps now selected = record {
  same_id = λ r. refl;
  same_session = λ r. refl;
  checked = λ r e c.
      let k = row_check-Checked r c in
      Checked-row_check (recovered now r) (record {
        id = k.id;
        target = k.target;
        intent = k.intent;
        base = k.base;
        lease = refl;
        candidate = refl;
        errors =
            errors_of_working r.state pending r.error_stage r.error_code r.error_message refl
              k.errors;
        retry = refl;
        commit = refl;
      });
  open_before = λ r e c o.
      let (_, due) = &&-true (r.job_id == selected.job_id) (is_expired now r) e in
      open_of_working r.state (&&-true (is_working r.state) _ due).0;
}

-- The table has a row under the id.
abbrev pub holds : List JobRow → String → Bool
holds rows id = any (has_id id) rows

holds-update :
    (id : String) (p : JobRow → Bool) (now : ℕ) (rows : List JobRow)
    → holds (update_where p (recovered now) rows) id ≡ holds rows id
holds-update id p now [] = refl
holds-update id p now (x ∷ xs) = elim (Bool-cases (p x)) [
  | inl hit ↦ rw hit (ap (λ z. has_id id x || z) (holds-update id p now xs))
  | inr miss ↦ rw miss (ap (λ z. has_id id x || z) (holds-update id p now xs))
]

all_hold-update :
    (ids : List String) (p : JobRow → Bool) (now : ℕ) (rows : List JobRow)
    → all (holds rows) ids ≡ true
    → all (holds (update_where p (recovered now) rows)) ids ≡ true
all_hold-update [] p now rows h = refl
all_hold-update (id ∷ ids) p now rows h =
    let (here, later) = &&-true (holds rows id) (all (holds rows) ids) h in
    rw (holds-update id p now rows, here) (all_hold-update ids p now rows later)

all-append_one :
    (p : String → Bool) (ids : List String) (id : String)
    → all p ids ≡ true
    → p id ≡ true
    → all p (ids ++ id ∷ []) ≡ true
all-append_one p [] id h k = rw k
all-append_one p (x ∷ xs) id h k =
    let (here, later) = &&-true (p x) (all p xs) h in rw here (all-append_one p xs id later k)

find_of_holds :
    (rows : List JobRow) (id : String)
    → holds rows id ≡ true
    → (r : JobRow) × (find (has_id id) rows ≡ some r)
find_of_holds [] id h = cc
find_of_holds (x ∷ xs) id h = elim (Bool-cases (has_id id x)) [
  | inl here ↦ (x, rw here)
  | inr there ↦ let (r, f) = find_of_holds xs id (rw there at h) in (r, rw there f)
]

own_rows : (rows : List JobRow) → EachOf (λ r. holds rows r.job_id ≡ true) rows
own_rows [] = tt
own_rows (x ∷ xs) = (
  rw (beq_refl x.job_id),
  EachOf-map (λ r. holds xs r.job_id ≡ true) (λ r. holds (x ∷ xs) r.job_id ≡ true)
      (λ r h. further r h) xs (own_rows xs),
)
  where
    further : (r : JobRow) → holds xs r.job_id ≡ true → holds (x ∷ xs) r.job_id ≡ true
    further r h = elim (Bool-cases (has_id r.job_id x)) [
      | inl here ↦ rw here
      | inr there ↦ rw there h
    ]

module _ ⦃h : SessionHash⦄ where
  -- What the loop leaves.
  record Swept (now : ℕ) (selected : List JobRow) (ids : List String) (db : Db) : Type 0 where
    recovered_ids : List String
    returns :
        recover_each now selected ids db
        ≡ ok (recovered_ids, record db { jobs = sweep now selected db.jobs })
    known : all (holds (sweep now selected db.jobs)) recovered_ids ≡ true
    valid : IsValid (record db { jobs = sweep now selected db.jobs })

  recover_each-Swept :
      (now : ℕ) (selected : List JobRow) (ids : List String) (db : Db)
      → IsValid db
      → all (holds db.jobs) ids ≡ true
      → EachOf (λ r. holds db.jobs r.job_id ≡ true) selected
      → Swept now selected ids db
  unfolding recover_each write_jobs
  recover_each-Swept now [] ids db v k e = record {
    recovered_ids = ids;
    returns = refl;
    known = k;
    valid = v;
  }
  recover_each-Swept now (r ∷ rest) ids db v k (own, e) =
      let p = expires_as now r in
      let valid = update-IsValid db p (recovered now) (expires_as-Keeps now r) v in
      let ids' = if row_count p db.jobs == 1 then ids ++ r.job_id ∷ [] else ids in
      let next =
        recover_each-Swept now rest ids'
          (record db { jobs = update_where p (recovered now) db.jobs }) valid
          (all_hold-update ids' p now db.jobs (more (row_count p db.jobs == 1)))
          (EachOf-map (λ x. holds db.jobs x.job_id ≡ true)
            (λ x. holds (update_where p (recovered now) db.jobs) x.job_id ≡ true)
            (λ x held. holds-update x.job_id p now db.jobs ∙ held) rest e) in
      record {
        recovered_ids = next.recovered_ids;
        returns = rw valid.accepted next.returns;
        known = next.known;
        valid = next.valid;
      }
    where
      more : (b : Bool) → all (holds db.jobs) (if b then ids ++ r.job_id ∷ [] else ids) ≡ true
      more true = all-append_one (holds db.jobs) ids r.job_id k own
      more false = k

  jobs_by_id-returns :
      (ids : List String) (db : Db)
      → IsValid db
      → all (holds db.jobs) ids ≡ true
      → (jobs : List CompactionJobEnvelope) × (jobs_by_id ids db ≡ ok jobs)
  jobs_by_id-returns [] db v k = ([], refl)
  jobs_by_id-returns (id ∷ ids) db v k =
      let (here, later) = &&-true (holds db.jobs id) (all (holds db.jobs) ids) k in
      let (r, found) = find_of_holds db.jobs id here in
      let (key, read) = job_by_id_lem id db v found in
      let (jobs, rest) = jobs_by_id-returns ids db v later in
      (record { session_key = key; row = r } ∷ jobs, rw (read, rest))

  -- The whole loop is one UPDATE of all expired rows.
  pub recover_expired_leases-Sweeps :
      (now : ℕ) (db : Db)
      → IsValid db
      → IsValid (record db { jobs = update_where (is_expired now) (recovered now) db.jobs })
        × ((jobs : List CompactionJobEnvelope) × (recover_expired_leases now db
              ≡ ok (
                jobs,
                record db { jobs = update_where (is_expired now) (recovered now) db.jobs },
              )))
  unfolding recover_expired_leases
  recover_expired_leases-Sweeps now db v =
      let selected = sort_by row_le (keep_if (is_expired now) db.jobs) in
      let held = own_rows db.jobs in
      let kept =
        EachOf-map (λ r. (is_expired now r ≡ true) × (holds db.jobs r.job_id ≡ true))
          (λ r. holds db.jobs r.job_id ≡ true) (λ r b. b.1) (keep_if (is_expired now) db.jobs)
          (EachOf-keep_if (λ r. holds db.jobs r.job_id ≡ true) (is_expired now) db.jobs held) in
      let swept = recover_each-Swept now selected [] db v refl (
        EachOf-sort_by (λ r. holds db.jobs r.job_id ≡ true) row_le
          (keep_if (is_expired now) db.jobs) kept) in
      let (jobs, read) =
        jobs_by_id-returns swept.recovered_ids (record db { jobs = sweep now selected db.jobs })
          swept.valid swept.known in
      subst
        (λ rows.
          IsValid (record db { jobs = rows })
          × ((jobs : List CompactionJobEnvelope) × (recover_expired_leases now db
                ≡ ok (jobs, record db { jobs = rows }))))
        (sweep-all now db.jobs) (swept.valid, (jobs, rw (swept.returns, read)))
