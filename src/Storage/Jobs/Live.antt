-- ===== src/Storage/Jobs/Live.antt =====
-- The live fence of a worker, and the UPDATE that its transactions make under it (repository.py).
use Prim.Native.String.{count as text_length}
use mathlib.Core.Option.{some-injective}
use astrbot_plugin_astrconti.Prelude.{
  ◌≢◌, ℕ, String, ◌≡◌, subst, Bool, true, false, not, ◌&&◌, Option, none, some, inl, inr, List, [],
  ◌∷◌, ◌==◌, string_eq, option_eq, nat_eq, all, arith, Bool-cases, Option-cases, &&-true, Result,
  ok, err, is_blank, ltb, leb,
}
use astrbot_plugin_astrconti.Domain.Identity.{SessionHash}
use astrbot_plugin_astrconti.Storage.Rows.{
  JobState, JobRow, Db, RepositoryError, stale_lease_error, row_count, find,
}
use astrbot_plugin_astrconti.Storage.Schema.{row_check, unique_check, accepts, is_working}
use astrbot_plugin_astrconti.Storage.Jobs.Changes.{
  job_row, fenced, expires_after, allowed, candidate_fits, transitioned, renewed, failed_row,
  Failure, extends, one_line, may_preserve, retry_is_due,
}
use astrbot_plugin_astrconti.Storage.Jobs.Lookup.{require_live_fence}
use astrbot_plugin_astrconti.Storage.Jobs.Worker.{transition_job, renew_job_lease, fail_job}
use astrbot_plugin_astrconti.Storage.Jobs.Table.{has_id, find_holds, find_of_all}
use astrbot_plugin_astrconti.Storage.Jobs.Lease.{
  transitioned-Keeps, renewed-Keeps, failed_row-Keeps, working_of_fenced,
}
use astrbot_plugin_astrconti.Storage.Jobs.Valid.{IsValid, Updates, update_fenced_lem}

result_inj : {A : Type 0} (x y : A) → ◌≡◌ {A = Result RepositoryError A} (ok x) (ok y) → x ≡ y
result_inj x y e = cc

row_count_of_hit :
    (p q : JobRow → Bool) (rows : List JobRow) {x : JobRow}
    → find q rows ≡ some x
    → p x ≡ true
    → row_count p rows ≢ 0
row_count_of_hit p q [] f h = λ e. cc
row_count_of_hit p q (y ∷ ys) {x} f h = elim (Bool-cases (p y)) [
  | inl hit ↦ rw hit (λ e. cc)
  | inr miss ↦ elim (Bool-cases (q y)) [
    | inl here ↦ cc (some-injective y x (rw here at f))
    | inr there ↦ rw miss (row_count_of_hit p q ys (rw there at f) h)
  ]
]

module _ (id owner : String) (epoch now : ℕ) (db : Db) where
  -- A live fence was found at the key.
  pub live_fence :
      {r : JobRow}
      → require_live_fence id owner epoch now db ≡ ok r
      → (job_row id db ≡ some r) × (fenced id owner epoch now r ≡ true)
  unfolding require_live_fence
  live_fence {r} e = elim (Option-cases (job_row id db)) [
    | inl gone ↦ cc (rw gone at e)
    | inr (x, here) ↦
        elim (Bool-cases (
          is_working x.state
          && (x.lease_owner == some owner
              && (x.lease_epoch == epoch && expires_after x.lease_expires_at now)))) [
                | inl live ↦
                    let same : x ≡ r = result_inj x r (rw (here, live) at e) in
                    (
                      rw (← same) here,
                      subst (λ z. fenced id owner epoch now z ≡ true) same
                          (rw (find_holds (has_id id) db.jobs here)
                            (&&-true (is_working x.state) _ live).1),
                    )
                | inr dead ↦ cc (rw (here, dead) at e)
              ]
  ]

  -- Where no row carries the fence, it is stale.
  pub stale_fence :
      row_count (fenced id owner epoch now) db.jobs ≡ 0
      → require_live_fence id owner epoch now db ≡ err stale_lease_error
  unfolding require_live_fence
  stale_fence none_fenced = elim (Option-cases (job_row id db)) [
    | inl gone ↦ rw gone
    | inr (x, here) ↦
        elim (Bool-cases (
          is_working x.state
          && (x.lease_owner == some owner
              && (x.lease_epoch == epoch && expires_after x.lease_expires_at now)))) [
                | inl live ↦ absurd (
                    row_count_of_hit (fenced id owner epoch now) (has_id id) db.jobs here
                      (rw (find_holds (has_id id) db.jobs here)
                        (&&-true (is_working x.state) _ live).1)
                      none_fenced)
                | inr dead ↦ rw (here, dead)
              ]
  ]

-- The fence of a job that SQLite accepts is live as soon as its columns are.
pub live_fence_of :
    (id owner : String) (epoch now : ℕ) (db : Db) {r : JobRow}
    → accepts db.jobs ≡ true
    → job_row id db ≡ some r
    → fenced id owner epoch now r ≡ true
    → require_live_fence id owner epoch now db ≡ ok r
unfolding require_live_fence accepts
live_fence_of id owner epoch now db {r} a e live =
    let (checked, _) = &&-true (all row_check db.jobs) (unique_check db.jobs) a in
    let c = find_of_all (has_id id) row_check db.jobs checked e in
    let w = working_of_fenced id owner epoch now r live c in
    rw (e, w, (&&-true (r.job_id == id) _ live).1)

-- What `fail_job` demands of a report.
pub record IsReported (f : Failure) (now : ℕ) : Type 0 where
  pub staged : is_blank f.error_stage ≡ false
  pub coded : is_blank f.error_code ≡ false
  pub told : is_blank f.error_message ≡ false
  pub short : ltb 512 (text_length f.error_message) ≡ false
  pub plain : one_line f.error_message ≡ true
  pub preserved : (f.preserve_attempt && not (may_preserve f)) ≡ false
  pub later : retry_is_due f.retry_at now ≡ false

fenced_later :
    (o : Option ℕ) (now at : ℕ)
    → expires_after o now ≡ true
    → extends o at ≡ true
    → leb at now ≡ false
fenced_later none now at l x = cc
fenced_later (some n) now at l x = ground arith

expires_of_fenced :
    (id owner : String) (epoch now : ℕ) (r : JobRow)
    → fenced id owner epoch now r ≡ true
    → expires_after r.lease_expires_at now ≡ true
expires_of_fenced id owner epoch now r e =
    let (_, e1) = &&-true (r.job_id == id) _ e in
    let (_, e2) = &&-true (r.lease_owner == some owner) _ e1 in
    (&&-true (r.lease_epoch == epoch) _ e2).1

module _ ⦃h : SessionHash⦄ where
  pub transition_job-Updates :
      (id owner : String) (epoch : ℕ) (to_state : JobState) (now : ℕ) (candidate : Option String)
      (db : Db) {r : JobRow}
      → IsValid db
      → job_row id db ≡ some r
      → fenced id owner epoch now r ≡ true
      → allowed r.state to_state ≡ true
      → candidate_fits to_state candidate ≡ true
      → Updates db
          (fenced id owner epoch now)
          (transitioned to_state candidate now)
          r
          (transition_job id owner epoch to_state now candidate db)
  unfolding transition_job
  transition_job-Updates id owner epoch to_state now candidate db {r} v e live a f =
      rw (live_fence_of id owner epoch now db v.accepted e live, a, f)
        (update_fenced_lem id owner epoch now (transitioned to_state candidate now) db
          (transitioned-Keeps id owner epoch now r.state to_state candidate a f) v e live)

  pub renew_job_lease-Updates :
      (id owner : String) (epoch now lease_expires_at : ℕ) (db : Db) {r : JobRow}
      → IsValid db
      → job_row id db ≡ some r
      → fenced id owner epoch now r ≡ true
      → extends r.lease_expires_at lease_expires_at ≡ true
      → Updates db
          (fenced id owner epoch now)
          (renewed lease_expires_at now)
          r
          (renew_job_lease id owner epoch now lease_expires_at db)
  unfolding renew_job_lease
  renew_job_lease-Updates id owner epoch now at db {r} v e live x =
      rw
        (
          fenced_later r.lease_expires_at now at (expires_of_fenced id owner epoch now r live) x,
          live_fence_of id owner epoch now db v.accepted e live,
          x,
        )
        (update_fenced_lem id owner epoch now (renewed at now) db
          (renewed-Keeps id owner epoch now at) v e live)

  pub fail_job-Updates :
      (id owner : String) (epoch now : ℕ) (f : Failure) (db : Db) {r : JobRow}
      → IsValid db
      → job_row id db ≡ some r
      → fenced id owner epoch now r ≡ true
      → IsReported f now
      → Updates db
          (fenced id owner epoch now)
          (failed_row f now)
          r
          (fail_job id owner epoch now f db)
  unfolding fail_job
  fail_job-Updates id owner epoch now f db {r} v e live q =
      rw
        (
          q.staged,
          q.coded,
          q.told,
          q.short,
          q.plain,
          q.preserved,
          q.later,
          live_fence_of id owner epoch now db v.accepted e live,
        )
        (update_fenced_lem id owner epoch now (failed_row f now) db
          (failed_row-Keeps id owner epoch now f q.staged q.coded q.told) v e live)
