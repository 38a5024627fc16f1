-- ===== src/Storage/Jobs/Valid.antt =====
-- A valid store: SQLite accepts its jobs, and each job's session is stored under its digest. A
-- fenced UPDATE that keeps the constraints succeeds on it and leaves a valid store.
use astrbot_plugin_astrconti.Prelude.{
  ℕ, String, ◌≡◌, refl, Bool, true, false, Option, none, some, inl, inr, List, [], ◌∷◌, ◌==◌,
  string_eq, all, arith, Bool-cases, Option-cases, &&-true, Result, ok,
}
use text.Mathlib.TextEquality.{eq_iff}
use astrbot_plugin_astrconti.Domain.Identity.{SessionKey, SessionHash}
use astrbot_plugin_astrconti.Storage.Rows.{SessionRow, JobRow, Db, RepositoryError, update_where}
use astrbot_plugin_astrconti.Storage.Schema.{row_check, unique_check, accepts}
use astrbot_plugin_astrconti.Storage.Envelope.{CompactionJobEnvelope}
use astrbot_plugin_astrconti.Storage.Jobs.Changes.{session_row, job_row, fenced}
use astrbot_plugin_astrconti.Storage.Jobs.Lookup.{job_from_row, job_by_id, update_fenced}
use astrbot_plugin_astrconti.Storage.Jobs.Checks.{row_check-validate_job}
use astrbot_plugin_astrconti.Storage.Jobs.Table.{
  has_id, find_holds, find_of_all, Keeps, update-accepts,
}
use astrbot_plugin_astrconti.Storage.Jobs.Single.{row_count_one, find-update}

module _ ⦃h : SessionHash⦄ where
  abbrev pub is_sound : Option SessionRow → Bool
  is_sound none = false
  is_sound (some s) = h.session_key_hash s.canonical_session_key == s.session_key_hash

  abbrev pub is_joined : Db → JobRow → Bool
  is_joined db r = is_sound (session_row r.session_key_hash db)

  pub record IsValid (db : Db) : Type 0 where
    pub accepted : accepts db.jobs ≡ true
    pub joined : all (is_joined db) db.jobs ≡ true

  pub unpack :
      (rows : List JobRow)
      → accepts rows ≡ true
      → (all row_check rows ≡ true) × (unique_check rows ≡ true)
  unfolding accepts
  unpack rows a = &&-true (all row_check rows) (unique_check rows) a

  job_from_row_lem :
      (r : JobRow) (s : SessionRow)
      → row_check r ≡ true
      → (s.session_key_hash == r.session_key_hash) ≡ true
      → (h.session_key_hash s.canonical_session_key == s.session_key_hash) ≡ true
      → job_from_row r s ≡ ok (record { session_key = s.canonical_session_key; row = r })
  unfolding job_from_row
  job_from_row_lem r s c same sound =
      let own : (r.session_key_hash == h.session_key_hash s.canonical_session_key) ≡ true = ground (
        arith,
        eq_iff s.session_key_hash r.session_key_hash,
        eq_iff (h.session_key_hash s.canonical_session_key) s.session_key_hash,
        eq_iff r.session_key_hash (h.session_key_hash s.canonical_session_key),
      ) in
      rw (sound, row_check-validate_job r c, own)

  pub job_by_id_lem :
      (id : String) (db : Db) {r : JobRow}
      → IsValid db
      → job_row id db ≡ some r
      → (key : SessionKey) × (job_by_id id db ≡ ok (record { session_key = key; row = r }))
  unfolding job_by_id
  job_by_id_lem id db {r} v e =
      let (checked, _) = unpack db.jobs v.accepted in
      let sound = find_of_all (has_id id) (is_joined db) db.jobs v.joined e in
      elim (Option-cases (session_row r.session_key_hash db)) [
        | inl gone ↦ cc (rw gone at sound)
        | inr (s, here) ↦ (
          s.canonical_session_key,
          rw (e, here)
              (job_from_row_lem r s (find_of_all (has_id id) row_check db.jobs checked e)
                (find_holds (λ (x : SessionRow). x.session_key_hash == r.session_key_hash)
                  db.sessions here)
                (rw here at sound)),
        )
      ]

  pub joined-update :
      (db : Db) (p : JobRow → Bool) (f : JobRow → JobRow) (rows : List JobRow)
      → ((r : JobRow) → (f r).session_key_hash ≡ r.session_key_hash)
      → all (is_joined db) rows ≡ true
      → all (is_joined db) (update_where p f rows) ≡ true
  joined-update db p f [] k j = refl
  joined-update db p f (r ∷ rs) k j =
      let (now, later) = &&-true (is_joined db r) (all (is_joined db) rs) j in
      let rest = joined-update db p f rs k later in
      elim (Bool-cases (p r)) [ inl hit ↦ rw (hit, k r, now) rest | inr miss ↦ rw (miss, now) rest ]

  pub update-IsValid :
      (db : Db) (p : JobRow → Bool) (f : JobRow → JobRow)
      → Keeps p f
      → IsValid db
      → IsValid (record db { jobs = update_where p f db.jobs })
  update-IsValid db p f k v = record {
    accepted = update-accepts p f k db.jobs v.accepted;
    joined = joined-update db p f db.jobs k.same_session v.joined;
  }

  fenced-has_id :
      (id owner : String) (epoch now : ℕ) (r : JobRow)
      → fenced id owner epoch now r ≡ true
      → has_id id r ≡ true
  fenced-has_id id owner epoch now r e = (&&-true (r.job_id == id) _ e).0

  -- What a fenced UPDATE returns and leaves.
  pub record Updates (db : Db) (p : JobRow → Bool) (f : JobRow → JobRow) (r : JobRow)
      (result : Result RepositoryError (CompactionJobEnvelope × Db)) : Type 0 where
    pub key : SessionKey
    pub returns :
        result
        ≡ ok
            (record { session_key = key; row = f r }, record db { jobs = update_where p f db.jobs })
    pub valid : IsValid (record db { jobs = update_where p f db.jobs })

  pub update_fenced_lem :
      (id owner : String) (epoch now : ℕ) (f : JobRow → JobRow) (db : Db) {r : JobRow}
      → Keeps (fenced id owner epoch now) f
      → IsValid db
      → job_row id db ≡ some r
      → fenced id owner epoch now r ≡ true
      → Updates db (fenced id owner epoch now) f r (update_fenced id owner epoch now f db)
  unfolding update_fenced
  update_fenced_lem id owner epoch now f db {r} k v e live =
      let p = fenced id owner epoch now in
      let only = fenced-has_id id owner epoch now in
      let db' = record db { jobs = update_where p f db.jobs } in
      let v' = update-IsValid db p f k v in
      let (_, unique) = unpack db.jobs v.accepted in
      let one = row_count_one p f id only db.jobs unique e live in
      let (key, back) =
        job_by_id_lem id db' v' (find-update p f id only db.jobs k.same_id e live) in
      record { key = key; returns = rw (v'.accepted, one, back); valid = v' }
