-- ===== src/Storage/Jobs/Intent.antt =====
-- raise_compaction_intent (astrcontinuum/storage/repository.py) on the session's open job.
use mathlib.Core.Option.{some-injective}
use astrbot_plugin_astrconti.Prelude.{
  ℕ, ◌-◌, ◌≤◌, String, ◌≡◌, refl, sym, ◌∙◌, ap, subst, Bool, true, not, Option, some, inl, inr,
  List, [], ◌∷◌, ◌++◌, ◌==◌, string_eq, nat_eq, beq_refl, eq_of_beq, all, arith, Bool-cases,
  Option-cases, &&-true, ok, err, bind-ok, bound, raise_if-ok, passed, ok-injective, EachOf,
  is_blank, ltb, leb,
}
use astrbot_plugin_astrconti.Domain.Identity.{SessionKey, SessionHash, session_key_eq}
use astrbot_plugin_astrconti.Storage.Rows.{
  JobRow, SessionRow, Db, RepositoryError, invariant_error, integrity_error, find, update_where,
  or_raise,
}
use astrbot_plugin_astrconti.Storage.Schema.{accepts}
use astrbot_plugin_astrconti.Storage.Envelope.{CompactionJobEnvelope}
use astrbot_plugin_astrconti.Storage.Jobs.Changes.{
  R, write_jobs, new_job, is_open_for, raised, session_row, job_row,
}
use astrbot_plugin_astrconti.Storage.Jobs.Lookup.{session_key_from_storage, active_base, job_by_id}
use astrbot_plugin_astrconti.Storage.Jobs.Queue.{as_conflict, raise_compaction_intent}
use astrbot_plugin_astrconti.Storage.Jobs.Table.{has_id, find_holds}
use astrbot_plugin_astrconti.Storage.Jobs.Single.{find-update}
use astrbot_plugin_astrconti.Storage.Jobs.First.{IsIn, unique_check-IsIn}
use astrbot_plugin_astrconti.Storage.Jobs.Valid.{
  is_sound, is_joined, IsValid, unpack, job_by_id_lem, joined-update,
}

pub write_jobs-ok :
    (rows : List JobRow) (db : Db) {db' : Db}
    → write_jobs rows db ≡ ok db'
    → (accepts rows ≡ true) × (record db { jobs = rows } ≡ db')
unfolding write_jobs
write_jobs-ok rows db {db'} h = elim (Bool-cases (accepts rows)) [
  | inl fine ↦ (fine, ok-injective (record db { jobs = rows }) db' (rw (write_jobs, fine) at h))
  | inr bad ↦ cc (rw (write_jobs, bad) at h)
]

EachOf-find :
    (P : JobRow → Type 0) (p : JobRow → Bool) (rows : List JobRow) {r : JobRow}
    → EachOf P rows
    → find p rows ≡ some r
    → P r
EachOf-find P p [] e h = cc
EachOf-find P p (x ∷ rows) {r} (here, e) h = elim (Bool-cases (p x)) [
  | inl hit ↦ subst P (some-injective x r (rw hit at h)) here
  | inr miss ↦ EachOf-find P p rows e (rw miss at h)
]

EachOf-last :
    (P : JobRow → Type 0) (rows : List JobRow) (r : JobRow) → EachOf P (rows ++ r ∷ []) → P r
EachOf-last P [] r (here, e) = here
EachOf-last P (x ∷ rows) r (here, e) = EachOf-last P rows r e

all_snoc :
    (p : JobRow → Bool) (rows : List JobRow) (r : JobRow)
    → all p rows ≡ true
    → p r ≡ true
    → all p (rows ++ r ∷ []) ≡ true
all_snoc p [] r h k = rw k
all_snoc p (x ∷ rows) r h k =
    let rest = all_snoc p rows r (&&-true (p x) _ h).1 k in
    let first = (&&-true (p x) _ h).0 in rw (first, rest)

module _ ⦃h : SessionHash⦄ where
  -- A job of the session, open, that reaches the target, in a valid store.
  pub record Reaches (hash : String) (target : ℕ) (job : CompactionJobEnvelope) (db : Db)
      : Type 0 where
    pub is_open : is_open_for hash job.row ≡ true
    pub enough : target ≤ job.row.intent_target_high_water_mark
    pub stored : job_row job.row.job_id db ≡ some job.row
    pub valid : IsValid db

  -- What is read back of a row that is stored.
  reads :
      (hash : String) (target : ℕ) (id : String) (db : Db) (r : JobRow)
      (job : CompactionJobEnvelope)
      → IsValid db
      → job_row id db ≡ some r
      → is_open_for hash r ≡ true
      → target ≤ r.intent_target_high_water_mark
      → job_by_id id db ≡ ok job
      → Reaches hash target job db
  reads hash target id db r job v at live n back =
      let (key, there) = job_by_id_lem id db v at in
      let same = ok-injective (record { session_key = key; row = r }) job (sym there ∙ back) in
      let own : r.job_id ≡ id = eq_of_beq r.job_id id (find_holds (has_id id) db.jobs at) in
      subst (λ z. Reaches hash target z db) same
        (record { is_open = live; enough = n; stored = ap (λ z. job_row z db) own ∙ at; valid = v })

  -- The open job's intent is raised.
  raises :
      (hash : String) (target now : ℕ) (db db' : Db) (r : JobRow) (job : CompactionJobEnvelope)
      → IsValid db
      → find (is_open_for hash) db.jobs ≡ some r
      → write_jobs (update_where (has_id r.job_id) (raised target now) db.jobs) db ≡ ok db'
      → job_by_id r.job_id db' ≡ ok job
      → Reaches hash target job db'
  raises hash target now db db' r job v open_job put back =
      let (fine, is) =
        write_jobs-ok (update_where (has_id r.job_id) (raised target now) db.jobs) db put in
      let (checked, unique) = unpack db.jobs v.accepted in
      let at : IsIn db.jobs r =
        EachOf-find (IsIn db.jobs) (is_open_for hash) db.jobs (unique_check-IsIn db.jobs unique)
          open_job in
      let valid : IsValid
          (record db { jobs = update_where (has_id r.job_id) (raised target now) db.jobs }) =
        record {
          accepted = fine;
          joined =
              joined-update db (has_id r.job_id) (raised target now) db.jobs (λ x. refl) v.joined;
        } in
      let found =
        find-update (has_id r.job_id) (raised target now) r.job_id (λ s e. e) db.jobs (λ s. refl) at
          (beq_refl r.job_id) in
      reads hash target r.job_id db' (raised target now r) job (subst IsValid is valid)
        (subst (λ (z : Db). find (has_id r.job_id) z.jobs ≡ some (raised target now r)) is found)
        (find_holds (is_open_for hash) db.jobs open_job) (omega arith) back

  -- A new job is queued.
  queues :
      (id hash : String) (target version now : ℕ) (base : Option String) (db db' : Db)
      (job : CompactionJobEnvelope)
      → IsValid db
      → is_sound (session_row hash db) ≡ true
      → write_jobs (db.jobs ++ new_job id hash target base version now ∷ []) db ≡ ok db'
      → job_by_id id db' ≡ ok job
      → Reaches hash target job db'
  queues id hash target version now base db db' job v sound put back =
      let new = new_job id hash target base version now in
      let (fine, is) = write_jobs-ok (db.jobs ++ new ∷ []) db put in
      let (checked, unique) = unpack (db.jobs ++ new ∷ []) fine in
      let at =
        EachOf-last (IsIn (db.jobs ++ new ∷ [])) db.jobs new
          (unique_check-IsIn (db.jobs ++ new ∷ []) unique) in
      let valid : IsValid (record db { jobs = db.jobs ++ new ∷ [] }) = record {
        accepted = fine;
        joined = all_snoc (is_joined db) db.jobs new v.joined sound;
      } in
      reads hash target id db' new job (subst IsValid is valid)
        (subst (λ (z : Db). find (has_id id) z.jobs ≡ some new) is at) (rw (beq_refl hash))
        (omega arith) back

  returned :
      (hash : String) (target : ℕ) (j job : CompactionJobEnvelope) (d db' : Db)
      → ◌≡◌ {A = R (Option CompactionJobEnvelope × Db)} (ok (some j, d)) (ok (some job, db'))
      → Reaches hash target j d
      → Reaches hash target job db'
  returned hash target j job d db' e r =
      let same =
        ok-injective {E = RepositoryError} {A = Option CompactionJobEnvelope × Db} (some j, d)
          (some job, db') e in
      subst (λ z. Reaches hash target z db')
        (some-injective j job (ap (λ (z : Option CompactionJobEnvelope × Db). z.0) same))
        (subst (Reaches hash target j) (ap (λ (z : Option CompactionJobEnvelope × Db). z.1) same) r)

  as_conflict-ok : (r : R Db) {d : Db} → as_conflict r ≡ ok d → r ≡ ok d
  as_conflict-ok (ok a) e = e
  as_conflict-ok (err integrity_error) e = cc
  as_conflict-ok (err _) e = cc

  sound_session :
      (hash : String) (db : Db) (s : SessionRow) {key : SessionKey}
      → or_raise (session_row hash db) invariant_error ≡ ok s
      → session_key_from_storage s ≡ ok key
      → is_sound (session_row hash db) ≡ true
  unfolding session_key_from_storage
  sound_session hash db s e k = elim (Option-cases (session_row hash db)) [
    | inl gone ↦ cc (rw gone at e)
    | inr (s', here) ↦
        let same = ok-injective s' s (rw here at e) in
        elim (Bool-cases (h.session_key_hash s.canonical_session_key == s.session_key_hash)) [
          | inl sound ↦ rw here (subst (λ z. is_sound (some z) ≡ true) (sym same) sound)
          | inr bad ↦ cc (rw (session_key_from_storage, bad) at k)
        ]
  ]

  -- An intent that is raised on a valid store and returns a job leaves a valid store: the job is the
  -- session's, is not ended, reaches the target and is stored under its id.
  pub raise_compaction_intent_lem :
      (id : String) (key : SessionKey) (target now : ℕ) (db db' : Db) (job : CompactionJobEnvelope)
      → IsValid db
      → raise_compaction_intent id key target now db ≡ ok (some job, db')
      → Reaches (h.session_key_hash key) target job db'
  unfolding raise_compaction_intent
  raise_compaction_intent_lem id key target now db db' job v f =
      elim (raise_if-ok (is_blank id) _ _ f) [
        | passed named f1 ↦ elim (raise_if-ok (target == 0) _ _ f1) [
          | passed positive f2 ↦
              elim (bind-ok (or_raise (session_row (h.session_key_hash key) db) invariant_error) _
                f2) [
                  | bound s here f3 ↦ elim (bind-ok (session_key_from_storage s) _ f3) [
                    | bound stored same f4 ↦ elim (raise_if-ok (not (stored == key)) _ _ f4) [
                      | passed own f5 ↦
                          elim (raise_if-ok (ltb (s.next_event_sequence - 1) target) _ _ f5) [
                            | passed known f6 ↦
                                elim (bind-ok (active_base (h.session_key_hash key) db) _ f6) [
                                  | bound (base, version, coverage) based f7 ↦
                                      let hash = h.session_key_hash key in
                                      elim (Bool-cases (leb target coverage)) [
                                        | inl past ↦ cc (rw past at f7)
                                        | inr ahead ↦
                                            elim (Option-cases (find (is_open_for hash) db.jobs)) [
                                              | inl none_open ↦
                                                  elim (bind-ok
                                                    (as_conflict (
                                                      write_jobs
                                                        (db.jobs
                                                          ++ new_job id hash target base version now
                                                            ∷ [])
                                                        db))
                                                    _ (rw (ahead, none_open) at f7)) [
                                                      | bound d put g1 ↦
                                                          elim (bind-ok (job_by_id id d) _ g1) [
                                                            | bound j back done ↦
                                                              returned hash target j job d db' done
                                                              (queues id hash target version now
                                                              base db d j v
                                                              (sound_session hash db s here same)
                                                              (as_conflict-ok _ put) back)
                                                          ]
                                                    ]
                                              | inr (r, open_job) ↦
                                                  elim (Bool-cases
                                                    (ltb r.intent_target_high_water_mark target)) [
                                                      | inl lower ↦
                                                          elim (bind-ok
                                                            (write_jobs
                                                            (update_where (has_id r.job_id)
                                                            (raised target now) db.jobs)
                                                            db)
                                                            _ (rw (ahead, open_job, lower) at f7)) [
                                                              | bound d put g1 ↦
                                                                elim (bind-ok (job_by_id r.job_id d)
                                                                _ g1) [
                                                                  | bound j back done ↦
                                                                    returned hash target j job d db'
                                                                    done
                                                                    (raises hash target now db d r j
                                                                    v open_job put back)
                                                                ]
                                                            ]
                                                      | inr enough ↦
                                                          elim (bind-ok (job_by_id r.job_id db) _
                                                            (rw (ahead, open_job, enough) at f7)) [
                                                              | bound j back done ↦
                                                                returned hash target j job db db'
                                                                done
                                                                (reads hash target r.job_id db r j v
                                                                (EachOf-find (IsIn db.jobs)
                                                                (is_open_for hash) db.jobs
                                                                (unique_check-IsIn db.jobs
                                                                (unpack db.jobs v.accepted).1)
                                                                open_job)
                                                                (find_holds (is_open_for hash)
                                                                db.jobs open_job)
                                                                (ground arith) back)
                                                            ]
                                                    ]
                                            ]
                                      ]
                                ]
                          ]
                    ]
                  ]
                ]
        ]
      ]
