-- ===== src/Storage/Jobs/Lease.antt =====
-- The worker's transactions on a valid store: transition_job, renew_job_lease and fail_job.
use astrbot_plugin_astrconti.Prelude.{
  ℕ, String, ◌≡◌, refl, true, false, Option, none, some, ◌==◌, string_eq, option_eq, nat_eq,
  eq_of_beq, arith, &&-true, is_blank,
}
use astrbot_plugin_astrconti.Storage.Rows.{JobState, JobRow}
use astrbot_plugin_astrconti.Storage.Schema.{
  row_check, is_working, is_nonterminal, is_failure, lease_check, candidate_check, errors_check,
  is_set, trims_empty_of_not_blank, retry_check, committed_check,
}
use astrbot_plugin_astrconti.Storage.Jobs.Changes.{
  fenced, expires_after, allowed, candidate_fits, transitioned, renewed, failed_row, Failure,
  failure_state,
}
use astrbot_plugin_astrconti.Storage.Jobs.Checks.{row_check-Checked, Checked-row_check}
use astrbot_plugin_astrconti.Storage.Jobs.Table.{Keeps}

pub open_of_working : (st : JobState) → is_working st ≡ true → is_nonterminal st ≡ true
open_of_working st w = ground arith

pub errors_of_working :
    (st st' : JobState) (a b c : Option String)
    → is_failure st' ≡ false
    → errors_check st a b c ≡ true
    → errors_check st' a b c ≡ true
errors_of_working st st' none none none f e = rw f
errors_of_working st st' (some a) (some b) (some c) f e = e
errors_of_working st st' none none (some c) f e = cc
errors_of_working st st' none (some b) none f e = cc
errors_of_working st st' none (some b) (some c) f e = cc
errors_of_working st st' (some a) none none f e = cc
errors_of_working st st' (some a) none (some c) f e = cc
errors_of_working st st' (some a) (some b) none f e = cc

module _ (id owner : String) (epoch now : ℕ) where
  owner_of_fenced :
      (r : JobRow)
      → fenced id owner epoch now r ≡ true
      → (r.lease_owner ≡ some owner) × (is_set r.lease_expires_at ≡ true)
  owner_of_fenced r e =
      let (_, e1) = &&-true (r.job_id == id) _ e in
      let (own, e2) = &&-true (r.lease_owner == some owner) _ e1 in
      let (_, live) = &&-true (r.lease_epoch == epoch) _ e2 in
      (eq_of_beq r.lease_owner (some owner) own, expires_set r.lease_expires_at live)
    where
      expires_set : (o : Option ℕ) → expires_after o now ≡ true → is_set o ≡ true
      expires_set none l = cc
      expires_set (some at) l = refl

  -- A leased row is in a working state.
  pub working_of_fenced :
      (r : JobRow)
      → fenced id owner epoch now r ≡ true
      → row_check r ≡ true
      → is_working r.state ≡ true
  working_of_fenced r e c =
      let (own, _) = owner_of_fenced r e in
      let checked = row_check-Checked r c in
      held r.state r.lease_owner r.lease_epoch r.lease_expires_at own checked.lease
    where
      held :
          (st : JobState) (o : Option String) (n : ℕ) (x : Option ℕ)
          → o ≡ some owner
          → lease_check st o n x ≡ true
          → is_working st ≡ true
      held st none n x own l = cc
      held st (some w) n x own l = ground arith

  lease_of_working :
      (st st' : JobState) (o : Option String) (n : ℕ) (x : Option ℕ)
      → is_working st ≡ true
      → is_working st' ≡ true
      → lease_check st o n x ≡ true
      → lease_check st' o n x ≡ true
  lease_of_working st st' o n x w w' l = ground arith

  -- Where a worker may go next.
  working_of_allowed :
      (st st' : JobState)
      → allowed st st' ≡ true
      → (is_working st' ≡ true) × (is_failure st' ≡ false)
  working_of_allowed st st' a = ground arith

  candidate_of_fits :
      (st : JobState) (candidate : Option String)
      → is_working st ≡ true
      → candidate_fits st candidate ≡ true
      → candidate_check st candidate ≡ true
  candidate_of_fits st none w f = ground arith
  candidate_of_fits st (some s) w f = ground (arith, trims_empty_of_not_blank s)

  retry_of_working :
      (st st' : JobState) (n c : Option ℕ)
      → is_working st ≡ true
      → is_working st' ≡ true
      → retry_check st n ≡ true
      → committed_check st c ≡ true
      → (retry_check st' n ≡ true) × (committed_check st' c ≡ true)
  retry_of_working st st' n c w w' p q = ground arith

  pub transitioned-Keeps :
      (st to_state : JobState) (candidate : Option String)
      → allowed st to_state ≡ true
      → candidate_fits to_state candidate ≡ true
      → Keeps (fenced id owner epoch now) (transitioned to_state candidate now)
  transitioned-Keeps st to_state candidate a f =
      let (w', nf) = working_of_allowed st to_state a in
      record {
        same_id = λ r. refl;
        same_session = λ r. refl;
        checked = λ r e c.
            let k = row_check-Checked r c in
            let w = working_of_fenced r e c in
            let (rt, cm) =
              retry_of_working r.state to_state r.next_retry_at r.committed_at w w' k.retry
                k.commit in
            Checked-row_check (transitioned to_state candidate now r) (record {
              id = k.id;
              target = k.target;
              intent = k.intent;
              base = k.base;
              lease =
                  lease_of_working r.state to_state r.lease_owner r.lease_epoch r.lease_expires_at w
                    w' k.lease;
              candidate = candidate_of_fits to_state candidate w' f;
              errors =
                  errors_of_working r.state to_state r.error_stage r.error_code r.error_message nf
                    k.errors;
              retry = rt;
              commit = cm;
            });
        open_before = λ r e c o. open_of_working r.state (working_of_fenced r e c);
      }

  pub renewed-Keeps :
      (lease_expires_at : ℕ) → Keeps (fenced id owner epoch now) (renewed lease_expires_at now)
  renewed-Keeps at = record {
    same_id = λ r. refl;
    same_session = λ r. refl;
    checked = λ r e c.
        let k = row_check-Checked r c in
        let w = working_of_fenced r e c in
        Checked-row_check (renewed at now r) (record {
          id = k.id;
          target = k.target;
          intent = k.intent;
          base = k.base;
          lease = longer r.state r.lease_owner r.lease_epoch r.lease_expires_at w k.lease;
          candidate = k.candidate;
          errors = k.errors;
          retry = k.retry;
          commit = k.commit;
        });
    open_before = λ r e c o. o;
  }
    where
      longer :
          (st : JobState) (o : Option String) (n : ℕ) (x : Option ℕ)
          → is_working st ≡ true
          → lease_check st o n x ≡ true
          → lease_check st o n (some at) ≡ true
      longer st o n x w l = ground arith

  pub failed_row-Keeps :
      (f : Failure)
      → is_blank f.error_stage ≡ false
      → is_blank f.error_code ≡ false
      → is_blank f.error_message ≡ false
      → Keeps (fenced id owner epoch now) (failed_row f now)
  failed_row-Keeps f b1 b2 b3 = record {
    same_id = λ r. refl;
    same_session = λ r. refl;
    checked = λ r e c.
        let k = row_check-Checked r c in
        let (e1, e2, e3) = failure_checks f.retry_at in
        Checked-row_check (failed_row f now r) (record {
          id = k.id;
          target = k.target;
          intent = k.intent;
          base = k.base;
          lease = e1 r.lease_epoch;
          candidate = e2;
          errors = errors_told;
          retry = e3.0;
          commit = e3.1;
        });
    open_before = λ r e c o. open_of_working r.state (working_of_fenced r e c);
  }
    where
      errors_told :
          errors_check
            (failure_state f.retry_at)
            (some f.error_stage)
            (some f.error_code)
            (some f.error_message)
          ≡ true
      errors_told = rw (
        trims_empty_of_not_blank f.error_stage b1,
        trims_empty_of_not_blank f.error_code b2,
        trims_empty_of_not_blank f.error_message b3,
      )

      failure_checks :
          (at : Option ℕ)
          → ((n : ℕ) → lease_check (failure_state at) none n none ≡ true)
            × (candidate_check (failure_state at) none ≡ true)
            × ((retry_check (failure_state at) at ≡ true)
                × (committed_check (failure_state at) none ≡ true))
      failure_checks none = (λ n. refl, refl, (refl, refl))
      failure_checks (some at) = (λ n. refl, refl, (refl, refl))
