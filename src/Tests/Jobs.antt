-- ===== src/Tests/Jobs.antt =====
-- A store with one conversation and one job, and the job's transactions on it.
use astrbot_plugin_astrconti.Prelude.{
  String, ◌≡◌, refl, true, none, some, [], ◌∷◌, ok, err, is_blank,
}
use astrbot_plugin_astrconti.Domain.Identity.{SessionKey, SessionHash}
use astrbot_plugin_astrconti.Storage.Rows.{
  compiling, pending, auditing, ready_to_commit, retry_wait, SessionRow, JobRow, Db,
  stale_lease_error, transaction, update_where,
}
use astrbot_plugin_astrconti.Storage.Schema.{row_check, accepts, trims_empty}
use astrbot_plugin_astrconti.Storage.Envelope.{validate_job}
use astrbot_plugin_astrconti.Storage.Jobs.Changes.{
  candidate_fits, fenced, transitioned, Failure, one_line,
}
use astrbot_plugin_astrconti.Storage.Jobs.Worker.{transition_job, renew_job_lease, fail_job}
use astrbot_plugin_astrconti.Storage.Jobs.Checks.{row_check-validate_job}
use astrbot_plugin_astrconti.Storage.Jobs.Valid.{IsValid}
use astrbot_plugin_astrconti.Storage.Jobs.Queue.{claim_job}
use astrbot_plugin_astrconti.Storage.Jobs.Lookup.{active_base}
use astrbot_plugin_astrconti.Storage.Jobs.Claim.{HasBase, Claims, claim_job-Claims}
use astrbot_plugin_astrconti.Storage.Jobs.Queue.{recover_expired_leases}
use astrbot_plugin_astrconti.Storage.Jobs.Turned.{Recovers, recover_expired_leases_lem}
use astrbot_plugin_astrconti.Storage.Jobs.Fence.{
  transition_job_lem, renew_job_lease_lem, fail_job_lem, stale_worker_lem,
}
use astrbot_plugin_astrconti.Storage.Jobs.Live.{IsReported, transition_job-Updates}
use astrbot_plugin_astrconti.Storage.Jobs.Rewritten.{Changes}
use astrbot_plugin_astrconti.Storage.Jobs.Moved.{Moved, transition_job-Moved}

instance abbrev by_session : SessionHash
by_session = record { session_key_hash = λ (k : SessionKey). k.session_id }

abbrev pub key_sample : SessionKey
key_sample = record {
  platform_instance_id = "platform";
  message_type = "FriendMessage";
  session_id = "digest";
  group_id = none;
  user_id = "user";
  conversation_id = "conversation";
  persona_id = none;
}

abbrev pub session_sample : SessionRow
session_sample = record {
  session_key_hash = "digest";
  canonical_session_key = key_sample;
  next_event_sequence = 9;
  created_at = 1;
  updated_at = 1;
}

abbrev pub compiling_job : JobRow
compiling_job = record {
  job_id = "job";
  session_key_hash = "digest";
  state = compiling;
  target_high_water_mark = 6;
  intent_target_high_water_mark = 8;
  base_snapshot_id = none;
  base_pointer_version = 0;
  candidate_snapshot_id = none;
  lease_owner = some "worker";
  lease_epoch = 2;
  lease_expires_at = some 50;
  attempt_count = 1;
  next_retry_at = none;
  error_stage = none;
  error_code = none;
  error_message = none;
  created_at = 3;
  updated_at = 4;
  committed_at = none;
}

abbrev pub store_sample : Db
store_sample = record {
  sessions = session_sample ∷ [];
  events = [];
  snapshots = [];
  active = [];
  jobs = compiling_job ∷ [];
  metrics = [];
  backfills = [];
}

store_sample-IsValid : IsValid store_sample
unfolding accepts trims_empty
store_sample-IsValid = record { accepted = refl; joined = refl }

abbrev failure_sample : Failure
failure_sample = record {
  error_stage = "COMPILING";
  error_code = "TOKEN_METRIC_MISSING";
  error_message = "no count";
  retry_at = some 70;
  preserve_attempt = true;
}

failure_sample-IsReported : IsReported failure_sample 10
unfolding is_blank one_line
failure_sample-IsReported = record {
  staged = refl;
  coded = refl;
  told = refl;
  short = refl;
  plain = refl;
  preserved = refl;
  later = refl;
}

row_check-validate_job_example : validate_job compiling_job ≡ ok tt
unfolding trims_empty
row_check-validate_job_example = row_check-validate_job compiling_job checked
  where
    checked : row_check compiling_job ≡ true
    checked = refl

transition_job_lem_example :
    Changes "job"
      (record compiling_job {
        state = ready_to_commit;
        candidate_snapshot_id = some "next";
        updated_at = 10;
      })
      store_sample
      (transition_job "job" "worker" 2 ready_to_commit 10 (some "next") store_sample)
unfolding is_blank
transition_job_lem_example =
    transition_job_lem "job" "worker" 2 ready_to_commit 10 (some "next") store_sample
      store_sample-IsValid refl refl refl named
  where
    named : candidate_fits ready_to_commit (some "next") ≡ true
    named = refl

renew_job_lease_lem_example :
    Changes "job"
      (record compiling_job { lease_expires_at = some 90; updated_at = 10 })
      store_sample
      (renew_job_lease "job" "worker" 2 10 90 store_sample)
renew_job_lease_lem_example =
    renew_job_lease_lem "job" "worker" 2 10 90 store_sample store_sample-IsValid refl refl refl

fail_job_lem_example :
    Changes "job"
      (record compiling_job {
        state = retry_wait;
        candidate_snapshot_id = none;
        lease_owner = none;
        lease_expires_at = none;
        attempt_count = 0;
        next_retry_at = some 70;
        error_stage = some "COMPILING";
        error_code = some "TOKEN_METRIC_MISSING";
        error_message = some "no count";
        updated_at = 10;
        committed_at = none;
      })
      store_sample
      (fail_job "job" "worker" 2 10 failure_sample store_sample)
fail_job_lem_example =
    fail_job_lem "job" "worker" 2 10 failure_sample store_sample store_sample-IsValid refl refl
      failure_sample-IsReported

stale_worker_lem_example :
    (transaction (transition_job "job" "worker" 1 auditing 10 none) store_sample
      ≡ (err stale_lease_error, store_sample))
    × (transaction (renew_job_lease "job" "worker" 1 10 90) store_sample
        ≡ (err stale_lease_error, store_sample))
    × (transaction (fail_job "job" "worker" 1 10 failure_sample) store_sample
        ≡ (err stale_lease_error, store_sample))
stale_worker_lem_example =
    stale_worker_lem "job" "worker" 1 10 auditing none 90 failure_sample store_sample refl refl
      failure_sample-IsReported

transition_job-Moved_example :
    Moved "job" "worker" 2 auditing 10 none store_sample (record store_sample {
      jobs =
          update_where
            (fenced "job" "worker" 2 10)
            (transitioned auditing none 10)
            (compiling_job ∷ []);
    })
transition_job-Moved_example =
    transition_job-Moved "job" "worker" 2 auditing 10 none store_sample
      (transition_job-Updates "job" "worker" 2 auditing 10 none store_sample store_sample-IsValid
        refl refl refl refl).returns

abbrev pub pending_job : JobRow
pending_job = record compiling_job { state = pending; lease_owner = none; lease_expires_at = none }

abbrev pub queue_sample : Db
queue_sample = record store_sample { jobs = pending_job ∷ [] }

queue_sample-HasBase : (hash : String) → HasBase hash queue_sample
unfolding active_base
queue_sample-HasBase hash = record {
  base = none;
  version = 0;
  coverage = 0;
  read = refl;
  fits = refl;
}

claim_job-Claims_example :
    Claims "worker" 10 60 queue_sample (claim_job "worker" 10 60 queue_sample)
unfolding accepts trims_empty is_blank
claim_job-Claims_example =
    claim_job-Claims "worker" 10 60 refl queue_sample refl
      (record { accepted = refl; joined = refl }) queue_sample-HasBase

recover_expired_leases_lem_example :
    Recovers 60 store_sample (recover_expired_leases 60 store_sample)
recover_expired_leases_lem_example = recover_expired_leases_lem 60 store_sample store_sample-IsValid
