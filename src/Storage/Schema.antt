-- ===== src/Storage/Schema.antt =====
-- astrcontinuum/storage/migrations.py: what SQLite checks of a row of compaction_jobs, and its
-- unique index. `trim` removes spaces only.
use Prim.Native.Char.{code}
use astrbot_plugin_astrconti.Prelude.{
  ℕ, String, Bool, true, false, not, ◌&&◌, ◌||◌, Option, none, some, List, [], ◌∷◌, ◌==◌, string_eq,
  nat_eq, if◌then◌else◌, leb, all, any, nat_beq, ◌≡◌, arith, is_blank,
}
use astrbot_plugin_astrconti.Storage.Rows.{
  JobState, pending, leased, compiling, auditing, ready_to_commit, retry_wait, committed,
  superseded, failed, JobRow,
}

-- `length(trim(s)) = 0`
unfoldable pub trims_empty : String → Bool
trims_empty String.[] = true
trims_empty (String.◌∷◌ c s) = nat_beq (code c) 32 && trims_empty s

pub trims_empty_of_not_blank : (s : String) → is_blank s ≡ false → trims_empty s ≡ false
unfolding trims_empty is_blank
trims_empty_of_not_blank String.[] h = h
trims_empty_of_not_blank (String.◌∷◌ c s) h = ground (arith, trims_empty_of_not_blank s)

abbrev pub has_text : String → Bool
has_text s = not (trims_empty s)

abbrev pub null_or_text : Option String → Bool
null_or_text none = true
null_or_text (some s) = has_text s

abbrev pub is_set {ℓ} : {A : Type ℓ} → Option A → Bool
is_set none = false
is_set (some a) = true

abbrev pub is_working : JobState → Bool
is_working leased = true
is_working compiling = true
is_working auditing = true
is_working ready_to_commit = true
is_working _ = false

abbrev pub has_candidate : JobState → Bool
has_candidate ready_to_commit = true
has_candidate committed = true
has_candidate superseded = true
has_candidate _ = false

abbrev pub is_nonterminal : JobState → Bool
is_nonterminal pending = true
is_nonterminal retry_wait = true
is_nonterminal s = is_working s

abbrev pub is_retry : JobState → Bool
is_retry retry_wait = true
is_retry _ = false

abbrev pub is_committed : JobState → Bool
is_committed committed = true
is_committed _ = false

abbrev pub is_failure : JobState → Bool
is_failure retry_wait = true
is_failure failed = true
is_failure _ = false

abbrev pub base_check : Option String → ℕ → Bool
base_check none version = version == 0
base_check (some id) version = has_text id && leb 1 version

abbrev pub lease_check : JobState → Option String → ℕ → Option ℕ → Bool
lease_check state owner epoch expires =
    if is_working state
    then is_set owner && (null_or_text owner && (leb 1 epoch && is_set expires))
    else not (is_set owner) && not (is_set expires)

abbrev pub candidate_check : JobState → Option String → Bool
candidate_check state candidate =
    if has_candidate state
    then is_set candidate && null_or_text candidate
    else not (is_set candidate)

abbrev pub errors_check : JobState → Option String → Option String → Option String → Bool
errors_check state none none none = not (is_failure state)
errors_check state (some stage) (some code) (some message) =
    has_text stage && (has_text code && has_text message)
errors_check _ _ _ _ = false

abbrev pub retry_check : JobState → Option ℕ → Bool
retry_check state next = if is_retry state then is_set next else not (is_set next)

abbrev pub committed_check : JobState → Option ℕ → Bool
committed_check state at = if is_committed state then is_set at else not (is_set at)

-- The CHECK constraints of one row.
abbrev pub row_check : JobRow → Bool
row_check r =
    (has_text r.job_id
      && (leb 1 r.target_high_water_mark
          && leb r.target_high_water_mark r.intent_target_high_water_mark))
    && (base_check r.base_snapshot_id r.base_pointer_version
        && (lease_check r.state r.lease_owner r.lease_epoch r.lease_expires_at
            && (candidate_check r.state r.candidate_snapshot_id
                && (errors_check r.state r.error_stage r.error_code r.error_message
                    && (retry_check r.state r.next_retry_at
                        && committed_check r.state r.committed_at)))))

-- The primary key, and uq_compaction_jobs_nonterminal_session.
abbrev pub clashes : JobRow → JobRow → Bool
clashes r s =
    r.job_id == s.job_id
    || (is_nonterminal r.state
        && (is_nonterminal s.state && r.session_key_hash == s.session_key_hash))

abbrev pub unique_check : List JobRow → Bool
unique_check [] = true
unique_check (r ∷ rs) = not (any (clashes r) rs) && unique_check rs

-- What SQLite accepts as the contents of compaction_jobs.
unfoldable pub accepts : List JobRow → Bool
accepts rows = all row_check rows && unique_check rows
