-- ===== src/Storage/Jobs/Changes.antt =====
-- The WHERE clauses and the SET clauses of the statements on compaction_jobs (repository.py).
use Prim.Native.Nat.{Ordering}
use Prim.Native.Char.{code}
use Prim.Native.String.{compare}
use astrbot_plugin_astrconti.Prelude.{
  sort_by, keep_if, ℕ, ◌+◌, ◌-◌, String, Bool, true, false, not, ◌&&◌, ◌||◌, Option, none, some,
  List, [], ◌∷◌, ◌==◌, string_eq, nat_eq, option_eq, Result, ok, err, if◌then◌else◌, ltb, leb,
  is_blank, mem, max,
}
use astrbot_plugin_astrconti.Domain.Identity.{session_key_eq}
use astrbot_plugin_astrconti.Storage.Rows.{
  JobState, pending, leased, compiling, auditing, ready_to_commit, retry_wait, failed, cancelled,
  SessionRow, JobRow, Db, RepositoryError, integrity_error, find,
}
use astrbot_plugin_astrconti.Storage.Schema.{accepts, is_set, is_working, is_nonterminal}

abbrev pub R : Type 0 → Type 0
R A = Result RepositoryError A

-- A statement that writes the table is refused if its rows break a constraint.
unfoldable pub write_jobs : List JobRow → Db → R Db
write_jobs rows db = if accepts rows then ok (record db { jobs = rows }) else err integrity_error

-- No carriage return, line feed or null character.
unfoldable pub one_line : String → Bool
one_line String.[] = true
one_line (String.◌∷◌ c s) = not (code c == 13 || (code c == 10 || code c == 0)) && one_line s

abbrev pub text_le : String → String → Bool
text_le s t = elim (compare s t) [ Ordering.gt ↦ false | _ ↦ true ]

abbrev pub session_row : String → Db → Option SessionRow
session_row hash db = find (λ (s : SessionRow). s.session_key_hash == hash) db.sessions

abbrev pub job_row : String → Db → Option JobRow
job_row job_id db = find (λ (r : JobRow). r.job_id == job_id) db.jobs

abbrev pub expires_after : Option ℕ → ℕ → Bool
expires_after none now = false
expires_after (some at) now = ltb now at

-- The WHERE clause of a fenced UPDATE.
abbrev pub fenced : String → String → ℕ → ℕ → JobRow → Bool
fenced job_id owner lease_epoch now r =
    r.job_id == job_id
    && (r.lease_owner == some owner
        && (r.lease_epoch == lease_epoch && expires_after r.lease_expires_at now))

abbrev pub allowed : JobState → JobState → Bool
allowed leased compiling = true
allowed compiling auditing = true
allowed compiling ready_to_commit = true
allowed auditing ready_to_commit = true
allowed _ _ = false

abbrev pub is_ready : JobState → Bool
is_ready ready_to_commit = true
is_ready _ = false

abbrev pub candidate_fits : JobState → Option String → Bool
candidate_fits to_state none = not (is_ready to_state)
candidate_fits to_state (some id) = is_ready to_state && not (is_blank id)

abbrev pub transitioned : JobState → Option String → ℕ → JobRow → JobRow
transitioned to_state candidate now r = record r {
  state = to_state;
  candidate_snapshot_id = candidate;
  updated_at = now;
}

abbrev pub extends : Option ℕ → ℕ → Bool
extends none later = true
extends (some at) later = ltb at later

abbrev pub renewed : ℕ → ℕ → JobRow → JobRow
renewed lease_expires_at now r = record r {
  lease_expires_at = some lease_expires_at;
  updated_at = now;
}

-- The arguments of `fail_job` that describe the failure.
pub record Failure : Type 0 where
  pub error_stage : String
  pub error_code : String
  pub error_message : String
  pub retry_at : Option ℕ
  pub preserve_attempt : Bool

abbrev pub may_preserve : Failure → Bool
may_preserve f =
    is_set f.retry_at
    && (f.error_stage == "COMPILING"
        && mem f.error_code (
            "EXTRACTIVE_PROVIDER_UNAVAILABLE" ∷ "TOKEN_METRIC_MISSING" ∷ "TOKEN_METRIC_UNAVAILABLE"
            ∷ []))

abbrev pub failure_state : Option ℕ → JobState
failure_state none = failed
failure_state (some at) = retry_wait

abbrev pub retry_is_due : Option ℕ → ℕ → Bool
retry_is_due none now = false
retry_is_due (some at) now = leb at now

abbrev pub failed_row : Failure → ℕ → JobRow → JobRow
failed_row f now r = record r {
  state = failure_state f.retry_at;
  candidate_snapshot_id = none;
  lease_owner = none;
  lease_expires_at = none;
  attempt_count = if f.preserve_attempt then max (r.attempt_count - 1) 0 else r.attempt_count;
  next_retry_at = f.retry_at;
  error_stage = some f.error_stage;
  error_code = some f.error_code;
  error_message = some f.error_message;
  updated_at = now;
  committed_at = none;
}

abbrev pub expired_by : Option ℕ → ℕ → Bool
expired_by none now = false
expired_by (some at) now = leb at now

abbrev pub is_expired : ℕ → JobRow → Bool
is_expired now r = is_working r.state && expired_by r.lease_expires_at now

abbrev pub recovered : ℕ → JobRow → JobRow
recovered now r = record r {
  state = pending;
  candidate_snapshot_id = none;
  lease_owner = none;
  lease_expires_at = none;
  next_retry_at = none;
  updated_at = now;
  committed_at = none;
}

-- `ORDER BY created_at, job_id`
abbrev pub row_le : JobRow → JobRow → Bool
row_le a b =
    if ltb a.created_at b.created_at
    then true
    else if ltb b.created_at a.created_at
    then false
    else text_le a.job_id b.job_id

abbrev pub is_due : Option ℕ → ℕ → Bool
is_due none now = false
is_due (some at) now = leb at now

abbrev pub eligible_state : ℕ → JobState → Option ℕ → Bool
eligible_state now pending next = true
eligible_state now retry_wait next = is_due next now
eligible_state now _ next = false

abbrev pub is_eligible : ℕ → JobRow → Bool
is_eligible now r = eligible_state now r.state r.next_retry_at

abbrev pub cancelled_row : ℕ → JobRow → JobRow
cancelled_row now r = record r { state = cancelled; next_retry_at = none; updated_at = now }

abbrev pub claimed : Option String → ℕ → String → ℕ → ℕ → JobRow → JobRow
claimed base version worker lease now r = record r {
  state = leased;
  target_high_water_mark = r.intent_target_high_water_mark;
  base_snapshot_id = base;
  base_pointer_version = version;
  candidate_snapshot_id = none;
  lease_owner = some worker;
  lease_epoch = r.lease_epoch + 1;
  lease_expires_at = some lease;
  attempt_count = r.attempt_count + 1;
  next_retry_at = none;
  error_stage = none;
  error_code = none;
  error_message = none;
  updated_at = now;
  committed_at = none;
}

abbrev pub first_eligible : ℕ → List JobRow → Option JobRow
first_eligible now rows = find (λ r. true) (sort_by row_le (keep_if (is_eligible now) rows))

abbrev pub new_job : String → String → ℕ → Option String → ℕ → ℕ → JobRow
new_job job_id hash target base version now = record {
  job_id = job_id;
  session_key_hash = hash;
  state = pending;
  target_high_water_mark = target;
  intent_target_high_water_mark = target;
  base_snapshot_id = base;
  base_pointer_version = version;
  candidate_snapshot_id = none;
  lease_owner = none;
  lease_epoch = 0;
  lease_expires_at = none;
  attempt_count = 0;
  next_retry_at = none;
  error_stage = none;
  error_code = none;
  error_message = none;
  created_at = now;
  updated_at = now;
  committed_at = none;
}

abbrev pub is_open_for : String → JobRow → Bool
is_open_for hash r = r.session_key_hash == hash && is_nonterminal r.state

abbrev pub raised : ℕ → ℕ → JobRow → JobRow
raised target now r = record r { intent_target_high_water_mark = target; updated_at = now }
