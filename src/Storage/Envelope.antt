-- ===== src/Storage/Envelope.antt =====
-- astrcontinuum/domain/jobs.py: a job as the callers see it, with the checks of its construction.
-- The row stands for the envelope's fields, and the session key takes the place of its digest.
use astrbot_plugin_astrconti.Prelude.{
  ℕ, String, Bool, false, not, ◌&&◌, ◌||◌, Option, none, some, ◌==◌, string_eq, nat_eq, Result,
  ◌>>◌, raise_if, if◌then◌else◌, leb,
}
use astrbot_plugin_astrconti.Domain.Identity.{SessionKey}
use astrbot_plugin_astrconti.Storage.Rows.{JobState, JobRow}
use astrbot_plugin_astrconti.Storage.Schema.{
  is_set, is_working, has_candidate, is_retry, is_committed, is_failure,
}

pub record CompactionJobEnvelope : Type 0 where
  pub session_key : SessionKey
  pub row : JobRow
  pub open row use *

pub data EnvelopeError : Type 0 where
  empty_text not_positive partial_errors null_base_with_version base_without_version
        working_without_lease lease_outside_work candidate_missing candidate_unexpected
        errors_missing retry_missing retry_unexpected commit_missing commit_unexpected :
      EnvelopeError

abbrev pub empty : Option String → Bool
empty none = false
empty (some s) = s == ""

abbrev pub lease_is_live : Option String → ℕ → Option ℕ → Bool
lease_is_live owner epoch expires = is_set owner && (leb 1 epoch && is_set expires)

abbrev pub partly_set : Option String → Option String → Option String → Bool
partly_set a b c =
    (not (is_set a) || (not (is_set b) || not (is_set c))) && (is_set a || (is_set b || is_set c))

-- The fields up to the lease. That a moment is an AwareDatetime is not tested: a row here has moments
-- that are already read, aware ones.
abbrev pub fields_hold : JobRow → Result EnvelopeError (Unit {0})
fields_hold r = do
  raise_if
      (r.job_id == ""
        || (empty r.base_snapshot_id || (empty r.candidate_snapshot_id || empty r.lease_owner)))
      empty_text
  raise_if (not (leb 1 r.target_high_water_mark && leb 1 r.intent_target_high_water_mark))
      not_positive

-- The fields of the report.
abbrev pub report_fields_hold : JobRow → Result EnvelopeError (Unit {0})
report_fields_hold r =
    raise_if (empty r.error_stage || (empty r.error_code || empty r.error_message)) empty_text

abbrev pub base_holds : Option String → ℕ → Result EnvelopeError (Unit {0})
base_holds none version = raise_if (not (version == 0)) null_base_with_version
base_holds (some id) version = raise_if (not (leb 1 version)) base_without_version

abbrev pub lease_holds : JobState → Option String → ℕ → Option ℕ → Result EnvelopeError (Unit {0})
lease_holds state owner epoch expires =
    if is_working state
    then raise_if (not (lease_is_live owner epoch expires)) working_without_lease
    else raise_if (is_set owner || is_set expires) lease_outside_work

abbrev pub candidate_holds : JobState → Option String → Result EnvelopeError (Unit {0})
candidate_holds state candidate =
    if has_candidate state
    then raise_if (not (is_set candidate)) candidate_missing
    else raise_if (is_set candidate) candidate_unexpected

abbrev pub retry_holds : JobState → Option ℕ → Result EnvelopeError (Unit {0})
retry_holds state next =
    if is_retry state
    then raise_if (not (is_set next)) retry_missing
    else raise_if (is_set next) retry_unexpected

abbrev pub commit_holds : JobState → Option ℕ → Result EnvelopeError (Unit {0})
commit_holds state at =
    if is_committed state
    then raise_if (not (is_set at)) commit_missing
    else raise_if (is_set at) commit_unexpected

-- The field types, then `validate_conditionals`, in its order.
unfoldable pub validate_job : JobRow → Result EnvelopeError (Unit {0})
validate_job r = do
  fields_hold r
  report_fields_hold r
  raise_if (partly_set r.error_stage r.error_code r.error_message) partial_errors
  base_holds r.base_snapshot_id r.base_pointer_version
  lease_holds r.state r.lease_owner r.lease_epoch r.lease_expires_at
  candidate_holds r.state r.candidate_snapshot_id
  raise_if
      (is_failure r.state
        && (not (is_set r.error_stage)
            || (not (is_set r.error_code) || not (is_set r.error_message))))
      errors_missing
  retry_holds r.state r.next_retry_at
  commit_holds r.state r.committed_at
