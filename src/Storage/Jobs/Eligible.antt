-- ===== src/Storage/Jobs/Eligible.antt =====
-- The rows that claim_job writes keep the constraints (astrcontinuum/storage/repository.py).
use astrbot_plugin_astrconti.Prelude.{
  ℕ, ◌+◌, String, ◌≡◌, refl, Bool, true, false, ◌&&◌, Option, none, some, ◌==◌, string_eq, nat_eq,
  arith, &&-true, is_blank, leb,
}
use astrbot_plugin_astrconti.Storage.Rows.{JobState, leased, cancelled, JobRow}
use astrbot_plugin_astrconti.Storage.Schema.{
  is_working, is_nonterminal, base_check, lease_check, committed_check, candidate_check,
  errors_check, trims_empty_of_not_blank,
}
use astrbot_plugin_astrconti.Storage.Jobs.Changes.{
  eligible_state, is_eligible, claimed, cancelled_row,
}
use astrbot_plugin_astrconti.Storage.Jobs.Checks.{
  row_check-Checked, Checked-row_check, intent_positive,
}
use astrbot_plugin_astrconti.Storage.Jobs.Table.{Keeps}

-- The WHERE clause of the UPDATE that claims a row.
abbrev pub claims : String → ℕ → JobRow → Bool
claims id now x = x.job_id == id && is_eligible now x

open_of_eligible :
    (now : ℕ) (st : JobState) (o : Option ℕ)
    → eligible_state now st o ≡ true
    → (is_nonterminal st ≡ true) × (is_working st ≡ false)
open_of_eligible now st o e = ground arith

errors_cleared :
    (st : JobState) (a b c : Option String)
    → errors_check st a b c ≡ true
    → errors_check cancelled a b c ≡ true
errors_cleared st none none none e = refl
errors_cleared st (some a) (some b) (some c) e = e
errors_cleared st none none (some c) e = cc
errors_cleared st none (some b) none e = cc
errors_cleared st none (some b) (some c) e = cc
errors_cleared st (some a) none none e = cc
errors_cleared st (some a) none (some c) e = cc
errors_cleared st (some a) (some b) none e = cc

lease_cleared :
    (st : JobState) (o : Option String) (n : ℕ) (x : Option ℕ)
    → is_working st ≡ false
    → lease_check st o n x ≡ true
    → lease_check cancelled o n x ≡ true
lease_cleared st o n x w l = ground arith

candidate_cleared :
    (now : ℕ) (st : JobState) (o : Option ℕ) (c : Option String) (at : Option ℕ)
    → eligible_state now st o ≡ true
    → candidate_check st c ≡ true
    → committed_check st at ≡ true
    → (candidate_check cancelled c ≡ true) × (committed_check cancelled at ≡ true)
candidate_cleared now st o c at e k m = ground arith

pub cancelled_row-Keeps : (id : String) (now : ℕ) → Keeps (claims id now) (cancelled_row now)
cancelled_row-Keeps id now = record {
  same_id = λ r. refl;
  same_session = λ r. refl;
  checked = λ r e c.
      let k = row_check-Checked r c in
      let (_, due) = &&-true (r.job_id == id) (is_eligible now r) e in
      let (_, idle) = open_of_eligible now r.state r.next_retry_at due in
      let (cd, cm) =
        candidate_cleared now r.state r.next_retry_at r.candidate_snapshot_id r.committed_at due
          k.candidate k.commit in
      Checked-row_check (cancelled_row now r) (record {
        id = k.id;
        target = k.target;
        intent = k.intent;
        base = k.base;
        lease = lease_cleared r.state r.lease_owner r.lease_epoch r.lease_expires_at idle k.lease;
        candidate = cd;
        errors = errors_cleared r.state r.error_stage r.error_code r.error_message k.errors;
        retry = refl;
        commit = cm;
      });
  open_before = λ r e c o. cc;
}

lease_of_claim :
    (worker : String) (epoch lease : ℕ)
    → is_blank worker ≡ false
    → lease_check leased (some worker) (epoch + 1) (some lease) ≡ true
lease_of_claim worker epoch lease b =
    let next : leb 1 (epoch + 1) ≡ true = ground arith in
    rw (trims_empty_of_not_blank worker b, next)

leb_refl : (n : ℕ) → leb n n ≡ true
leb_refl n = ground arith

pub claimed-Keeps :
    (id worker : String) (lease now : ℕ) (base : Option String) (version : ℕ)
    → is_blank worker ≡ false
    → base_check base version ≡ true
    → Keeps (claims id now) (claimed base version worker lease now)
claimed-Keeps id worker lease now base version b w = record {
  same_id = λ r. refl;
  same_session = λ r. refl;
  checked = λ r e c.
      let k = row_check-Checked r c in
      Checked-row_check (claimed base version worker lease now r) (record {
        id = k.id;
        target =
            intent_positive r.target_high_water_mark r.intent_target_high_water_mark k.target
              k.intent;
        intent = leb_refl r.intent_target_high_water_mark;
        base = w;
        lease = lease_of_claim worker r.lease_epoch lease b;
        candidate = refl;
        errors = refl;
        retry = refl;
        commit = refl;
      });
  open_before = λ r e c o.
      (open_of_eligible now r.state r.next_retry_at
        (&&-true (r.job_id == id) (is_eligible now r) e).1).0;
}
