-- ===== src/Storage/Jobs/Rewritten.antt =====
-- What a statement on one job does to the table, seen through the primary key
-- (astrcontinuum/storage/repository.py).
use astrbot_plugin_astrconti.Prelude.{
  String, ◌≡◌, refl, subst, Bool, true, false, some, inl, inr, List, [], ◌∷◌, map, ◌==◌, string_eq,
  if◌then◌else◌, arith, Bool-cases, Result, ok,
}
use text.Mathlib.TextEquality.{eq_iff}
use astrbot_plugin_astrconti.Domain.Identity.{SessionKey, SessionHash}
use astrbot_plugin_astrconti.Storage.Rows.{JobRow, Db, RepositoryError, find, update_where}
use astrbot_plugin_astrconti.Storage.Envelope.{CompactionJobEnvelope}
use astrbot_plugin_astrconti.Storage.Jobs.Changes.{job_row}
use astrbot_plugin_astrconti.Storage.Jobs.Table.{has_id, Keeps}
use astrbot_plugin_astrconti.Storage.Jobs.Single.{find-update}
use astrbot_plugin_astrconti.Storage.Jobs.Valid.{IsValid, Updates, update-IsValid}

module _ ⦃h : SessionHash⦄ where
  -- `after` is the valid store that has `new` under its id, and is `db` elsewhere.
  pub record Rewritten (id : String) (new : JobRow) (db after : Db) : Type 0 where
    pub looked_up :
        (other : String)
        → job_row other after ≡ (if other == id then some new else job_row other db)
    pub same_ids :
        map (λ (r : JobRow). r.job_id) after.jobs ≡ map (λ (r : JobRow). r.job_id) db.jobs
    pub same_tables : after ≡ record db { jobs = after.jobs }
    pub valid : IsValid after

  -- A transaction returned the job with its new row, and rewrote that row alone.
  pub record Changes (id : String) (new : JobRow) (db : Db)
      (result : Result RepositoryError (CompactionJobEnvelope × Db)) : Type 0 where
    pub key : SessionKey
    pub after : Db
    pub returns : result ≡ ok (record { session_key = key; row = new }, after)
    pub rewritten : Rewritten id new db after

module _ (p : JobRow → Bool) (f : JobRow → JobRow) (id : String)
    (only : (s : JobRow) → p s ≡ true → has_id id s ≡ true)
    (same_id : (s : JobRow) → (f s).job_id ≡ s.job_id) where
  find-other :
      (other : String) (rows : List JobRow)
      → (other == id) ≡ false
      → find (has_id other) (update_where p f rows) ≡ find (has_id other) rows
  find-other other [] e = refl
  find-other other (x ∷ xs) e =
      let rest = find-other other xs e in
      elim (Bool-cases (p x)) [
        | inl hit ↦
            let here = only x hit in
            let away : has_id other x ≡ false =
              ground (arith, eq_iff x.job_id id, eq_iff x.job_id other, eq_iff other id) in
            rw (hit, same_id x, away) rest
        | inr miss ↦ rw (miss, rest)
      ]

  ids-update :
      (rows : List JobRow)
      → map (λ (r : JobRow). r.job_id) (update_where p f rows) ≡ map (λ (r : JobRow). r.job_id) rows
  ids-update [] = refl
  ids-update (x ∷ xs) = elim (Bool-cases (p x)) [
    | inl hit ↦ rw (hit, same_id x, ids-update xs)
    | inr miss ↦ rw (miss, ids-update xs)
  ]

module _ ⦃h : SessionHash⦄ where
  pub update-Rewritten :
      (p : JobRow → Bool) (f : JobRow → JobRow) (id : String) (db : Db) {r : JobRow}
      → ((s : JobRow) → p s ≡ true → has_id id s ≡ true)
      → Keeps p f
      → IsValid db
      → job_row id db ≡ some r
      → p r ≡ true
      → Rewritten id (f r) db (record db { jobs = update_where p f db.jobs })
  update-Rewritten p f id db {r} only k v e live = record {
    looked_up = λ other. elim (Bool-cases (other == id)) [
      | inl own ↦
          rw (own, (eq_iff other id).0 own) (find-update p f id only db.jobs k.same_id e live)
      | inr away ↦ rw away (find-other p f id only k.same_id other db.jobs away)
    ];
    same_ids = ids-update p f id only k.same_id db.jobs;
    same_tables = refl;
    valid = update-IsValid db p f k v;
  }

  -- An UPDATE that hits the row of one id, where its effect on the row is known.
  pub Updates-Changes :
      (p : JobRow → Bool) (f : JobRow → JobRow) (id : String) (db : Db) {r new : JobRow}
      {result : Result RepositoryError (CompactionJobEnvelope × Db)}
      → ((s : JobRow) → p s ≡ true → has_id id s ≡ true)
      → Keeps p f
      → IsValid db
      → job_row id db ≡ some r
      → p r ≡ true
      → f r ≡ new
      → Updates db p f r result
      → Changes id new db result
  Updates-Changes p f id db {r} {new} {result} only k v e live effect u =
      subst (λ z. Changes id z db result) effect
        (record {
          key = u.key;
          after = record db { jobs = update_where p f db.jobs };
          returns = u.returns;
          rewritten = update-Rewritten p f id db only k v e live;
        })
