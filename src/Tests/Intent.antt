-- ===== src/Tests/Intent.antt =====
-- An intent raised on a store whose open job has a lower one.
use astrbot_plugin_astrconti.Prelude.{◌≡◌, refl, some, [], ◌∷◌, ok, is_blank}
use astrbot_plugin_astrconti.Domain.Identity.{SessionKey, SessionHash, key_beq}
use astrbot_plugin_astrconti.Storage.Rows.{JobRow, Db}
use astrbot_plugin_astrconti.Storage.Schema.{accepts, trims_empty}
use astrbot_plugin_astrconti.Storage.Envelope.{CompactionJobEnvelope, validate_job}
use astrbot_plugin_astrconti.Storage.Jobs.Changes.{write_jobs, raised}
use astrbot_plugin_astrconti.Storage.Jobs.Lookup.{
  active_base, job_by_id, job_from_row, session_key_from_storage,
}
use astrbot_plugin_astrconti.Storage.Jobs.Queue.{raise_compaction_intent}
use astrbot_plugin_astrconti.Storage.Jobs.Valid.{IsValid}
use astrbot_plugin_astrconti.Storage.Jobs.Intent.{Reaches, raise_compaction_intent_lem}
use astrbot_plugin_astrconti.Tests.Jobs.{key_sample, compiling_job, store_sample}

instance abbrev by_session : SessionHash
by_session = record { session_key_hash = λ (k : SessionKey). k.session_id }

abbrev low_job : JobRow
low_job = record compiling_job { intent_target_high_water_mark = 6 }

abbrev before : Db
before = record store_sample { jobs = low_job ∷ [] }

abbrev after : Db
after = record store_sample { jobs = raised 8 30 low_job ∷ [] }

abbrev job : CompactionJobEnvelope
job = record { session_key = key_sample; row = raised 8 30 low_job }

before-IsValid : IsValid before
unfolding accepts trims_empty
before-IsValid = record { accepted = refl; joined = refl }

raise_compaction_intent-before :
    raise_compaction_intent "another" key_sample 8 30 before ≡ ok (some job, after)
unfolding raise_compaction_intent is_blank session_key_from_storage key_beq active_base write_jobs
    accepts trims_empty job_by_id job_from_row validate_job
raise_compaction_intent-before = refl

raise_compaction_intent_lem_example : Reaches "digest" 8 job after
raise_compaction_intent_lem_example =
    raise_compaction_intent_lem "another" key_sample 8 30 before after job before-IsValid
      raise_compaction_intent-before
