-- ===== src/Storage/Jobs/Checks.antt =====
-- The schema's checks of a job against those of the envelope (domain/jobs.py), and the changed rows
-- that pass them.
use astrbot_plugin_astrconti.Prelude.{
  ℕ, String, ◌≡◌, refl, Bool, true, false, not, ◌&&◌, ◌||◌, Option, none, some, inl, inr, ◌==◌,
  string_eq, nat_eq, arith, Bool-cases, &&-true, ok, leb,
}
use text.Mathlib.TextEquality.{eq_iff}
use astrbot_plugin_astrconti.Storage.Rows.{JobState, JobRow}
use astrbot_plugin_astrconti.Storage.Schema.{
  trims_empty, has_text, null_or_text, is_set, row_check, base_check, lease_check, candidate_check,
  errors_check, retry_check, committed_check, is_failure,
}
use astrbot_plugin_astrconti.Storage.Envelope.{
  validate_job, fields_hold, report_fields_hold, base_holds, lease_holds, candidate_holds,
  retry_holds, commit_holds, empty, partly_set,
}

-- The constraints of a row, one by one.
pub record Checked (r : JobRow) : Type 0 where
  pub id : has_text r.job_id ≡ true
  pub target : leb 1 r.target_high_water_mark ≡ true
  pub intent : leb r.target_high_water_mark r.intent_target_high_water_mark ≡ true
  pub base : base_check r.base_snapshot_id r.base_pointer_version ≡ true
  pub lease : lease_check r.state r.lease_owner r.lease_epoch r.lease_expires_at ≡ true
  pub candidate : candidate_check r.state r.candidate_snapshot_id ≡ true
  pub errors : errors_check r.state r.error_stage r.error_code r.error_message ≡ true
  pub retry : retry_check r.state r.next_retry_at ≡ true
  pub commit : committed_check r.state r.committed_at ≡ true

&&-false : (a b : Bool) → a ≡ true → b ≡ true → (a && b) ≡ true
&&-false a b p q = ground arith

pub row_check-Checked : (r : JobRow) → row_check r ≡ true → Checked r
row_check-Checked r h =
    let (a, b) = &&-true _ _ h in
    let (a1, a2) = &&-true _ _ a in
    let (a3, a4) = &&-true _ _ a2 in
    let (b1, b2) = &&-true _ _ b in
    let (b3, b4) = &&-true _ _ b2 in
    let (b5, b6) = &&-true _ _ b4 in
    let (b7, b8) = &&-true _ _ b6 in
    let (b9, b10) = &&-true _ _ b8 in
    record {
      id = a1;
      target = a3;
      intent = a4;
      base = b1;
      lease = b3;
      candidate = b5;
      errors = b7;
      retry = b9;
      commit = b10;
    }

pub Checked-row_check : (r : JobRow) → Checked r → row_check r ≡ true
Checked-row_check r c =
    rw (c.id, c.target, c.intent, c.base, c.lease, c.candidate, c.errors, c.retry, c.commit)

has_text-ne : (s : String) → has_text s ≡ true → (s == "") ≡ false
unfolding trims_empty
has_text-ne s h = elim (Bool-cases (s == "")) [
  | inl same ↦ cc ((eq_iff s "").0 same, h)
  | inr other ↦ other
]

empty-no : (o : Option String) → null_or_text o ≡ true → empty o ≡ false
empty-no none h = refl
empty-no (some s) h = has_text-ne s h

base-text : (o : Option String) (v : ℕ) → base_check o v ≡ true → null_or_text o ≡ true
base-text none v h = refl
base-text (some s) v h = ground arith

lease-text :
    (st : JobState) (o : Option String) (e : ℕ) (x : Option ℕ)
    → lease_check st o e x ≡ true
    → null_or_text o ≡ true
lease-text st none e x h = refl
lease-text st (some s) e x h = ground arith

candidate-text :
    (st : JobState) (o : Option String) → candidate_check st o ≡ true → null_or_text o ≡ true
candidate-text st none h = refl
candidate-text st (some s) h = ground arith

errors-text :
    (st : JobState) (a b c : Option String)
    → errors_check st a b c ≡ true
    → (null_or_text a ≡ true) × (null_or_text b ≡ true) × (null_or_text c ≡ true)
errors-text st none none none h = (refl, refl, refl)
errors-text st (some a) (some b) (some c) h = ground arith
errors-text st none none (some c) h = cc
errors-text st none (some b) none h = cc
errors-text st none (some b) (some c) h = cc
errors-text st (some a) none none h = cc
errors-text st (some a) none (some c) h = cc
errors-text st (some a) (some b) none h = cc

pub intent_positive : (t i : ℕ) → leb 1 t ≡ true → leb t i ≡ true → leb 1 i ≡ true
intent_positive t i h k = ground arith

Checked-fields_hold : (r : JobRow) → Checked r → fields_hold r ≡ ok tt
Checked-fields_hold r c = rw (
  has_text-ne r.job_id c.id,
  empty-no r.base_snapshot_id (base-text r.base_snapshot_id r.base_pointer_version c.base),
  empty-no r.candidate_snapshot_id (candidate-text r.state r.candidate_snapshot_id c.candidate),
  empty-no r.lease_owner
      (lease-text r.state r.lease_owner r.lease_epoch r.lease_expires_at c.lease),
  c.target,
  intent_positive r.target_high_water_mark r.intent_target_high_water_mark c.target c.intent,
)

Checked-report_fields_hold : (r : JobRow) → Checked r → report_fields_hold r ≡ ok tt
Checked-report_fields_hold r c =
    let (stage, code, message) =
      errors-text r.state r.error_stage r.error_code r.error_message c.errors in
    rw (empty-no r.error_stage stage, empty-no r.error_code code, empty-no r.error_message message)

base_holds_of : (o : Option String) (v : ℕ) → base_check o v ≡ true → base_holds o v ≡ ok tt
base_holds_of none v h = rw h
base_holds_of (some s) v h = rw (&&-true (has_text s) (leb 1 v) h).1

lease_holds_of :
    (st : JobState) (o : Option String) (e : ℕ) (x : Option ℕ)
    → lease_check st o e x ≡ true
    → lease_holds st o e x ≡ ok tt
lease_holds_of st o e x h = ground arith

candidate_holds_of :
    (st : JobState) (o : Option String) → candidate_check st o ≡ true → candidate_holds st o ≡ ok tt
candidate_holds_of st o h = ground arith

retry_holds_of : (st : JobState) (o : Option ℕ) → retry_check st o ≡ true → retry_holds st o ≡ ok tt
retry_holds_of st o h = ground arith

commit_holds_of :
    (st : JobState) (o : Option ℕ) → committed_check st o ≡ true → commit_holds st o ≡ ok tt
commit_holds_of st o h = ground arith

errors-whole :
    (st : JobState) (a b c : Option String)
    → errors_check st a b c ≡ true
    → (partly_set a b c ≡ false)
      × ((is_failure st && (not (is_set a) || (not (is_set b) || not (is_set c)))) ≡ false)
errors-whole st none none none h = ground arith
errors-whole st (some a) (some b) (some c) h = ground arith
errors-whole st none none (some c) h = cc
errors-whole st none (some b) none h = cc
errors-whole st none (some b) (some c) h = cc
errors-whole st (some a) none none h = cc
errors-whole st (some a) none (some c) h = cc
errors-whole st (some a) (some b) none h = cc

-- A row whose moments have been read as aware moments, and that passes the table's CHECK constraints,
-- is a valid envelope: the constraints imply the model class's checks of its texts and numbers and all
-- of its checks on combinations of fields. They do not imply that a moment can be read, which is no
-- part of this.
pub row_check-validate_job : (r : JobRow) → row_check r ≡ true → validate_job r ≡ ok tt
unfolding validate_job
row_check-validate_job r h =
    let c = row_check-Checked r h in
    let (whole, told) = errors-whole r.state r.error_stage r.error_code r.error_message c.errors in
    rw (
      Checked-fields_hold r c,
      Checked-report_fields_hold r c,
      whole,
      base_holds_of r.base_snapshot_id r.base_pointer_version c.base,
      lease_holds_of r.state r.lease_owner r.lease_epoch r.lease_expires_at c.lease,
      candidate_holds_of r.state r.candidate_snapshot_id c.candidate,
      told,
      retry_holds_of r.state r.next_retry_at c.retry,
      commit_holds_of r.state r.committed_at c.commit,
    )
