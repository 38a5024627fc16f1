-- ===== src/Runtime/Candidate.antt =====
-- The candidates of a request and the budget's settings (astrcontinuum/runtime/types.py). A score, a
-- finite float that is not below zero, is its bit pattern.
use astrbot_plugin_astrconti.Prelude.{
  ℕ, String, Bool, true, false, not, ◌||◌, Option, none, some, List, [], ◌∷◌, ◌==◌, string_eq,
  Result, ok, ◌>>◌, raise_if, ltb, is_unique, nat_eq, if◌then◌else◌,
}
use astrbot_plugin_astrconti.Prelude.Int.{ℤ}
use astrbot_plugin_astrconti.Domain.Event.{EventType, tool_call, tool_result}

pub data RuntimeSlot : Type 0 where
  active_goal hard_constraint raw_delta exact_anchor recent_raw active_task relevant_evidence
        episode_background global_background :
      RuntimeSlot

-- `RUNTIME_SLOT_PRIORITY`
abbrev pub runtime_slot_priority : List RuntimeSlot
runtime_slot_priority =
    active_goal ∷ hard_constraint ∷ raw_delta ∷ exact_anchor ∷ recent_raw ∷ active_task
    ∷ relevant_evidence ∷ episode_background ∷ global_background ∷ []

-- `_SLOT_RANK`
abbrev pub slot_rank : RuntimeSlot → ℕ
slot_rank active_goal = 0
slot_rank hard_constraint = 1
slot_rank raw_delta = 2
slot_rank exact_anchor = 3
slot_rank recent_raw = 4
slot_rank active_task = 5
slot_rank relevant_evidence = 6
slot_rank episode_background = 7
slot_rank global_background = 8

abbrev pub slot_beq : RuntimeSlot → RuntimeSlot → Bool
slot_beq a b = slot_rank a == slot_rank b

pub data CandidateKind : Type 0 where
  goal constraint raw_event anchor task_context decision entity dependency episode global :
      CandidateKind

-- The members' values.
abbrev pub kind_value : CandidateKind → String
kind_value goal = "goal"
kind_value constraint = "constraint"
kind_value raw_event = "raw_event"
kind_value anchor = "exact_anchor"
kind_value task_context = "task_context"
kind_value decision = "decision"
kind_value entity = "entity"
kind_value dependency = "dependency"
kind_value episode = "episode_background"
kind_value global = "global_background"

abbrev pub is_dependency : CandidateKind → Bool
is_dependency dependency = true
is_dependency _ = false

abbrev pub is_raw_event : CandidateKind → Bool
is_raw_event raw_event = true
is_raw_event _ = false

-- What orders a score: the bit pattern, where that of -0.0, the only one with the sign, is equal to
-- that of 0.0.
abbrev pub score_value : ℕ → ℕ
score_value score = if score == 9223372036854775808 then 0 else score

pub record CandidateBlock : Type 0 where
  pub block_id : String
  pub slot : RuntimeSlot
  pub kind : CandidateKind
  pub text : String
  pub source_event_ids : List String
  pub score : ℕ
  pub reason : String
  pub required : Bool
  pub capsule_id : Option String
  pub event_sequence : Option ℕ
  pub event_type : Option EventType
  pub tool_name : Option String
  pub required_selection_complete : Bool

pub data CandidateError : Type 0 where
  block_id_empty source_event_ids_empty source_event_ids_repeated reason_empty
        event_sequence_not_positive event_type_misplaced tool_name_misplaced :
      CandidateError

abbrev pub is_nil {ℓ} : {A : Type ℓ} → List A → Bool
is_nil [] = true
is_nil (x ∷ xs) = false

abbrev pub is_zero : Option ℕ → Bool
is_zero none = false
is_zero (some n) = ltb n 1

abbrev pub misplaced_type : Option EventType → CandidateKind → Bool
misplaced_type none kind = false
misplaced_type (some type) kind = not (is_raw_event kind)

abbrev pub is_tool_event : Option EventType → Bool
is_tool_event (some tool_call) = true
is_tool_event (some tool_result) = true
is_tool_event _ = false

abbrev pub misplaced_tool : Option String → Option EventType → Bool
misplaced_tool none type = false
misplaced_tool (some name) type = name == "" || not (is_tool_event type)

-- `CandidateBlock.__post_init__`
unfoldable pub validate_candidate : CandidateBlock → Result CandidateError CandidateBlock
validate_candidate c = do
  raise_if (c.block_id == "") block_id_empty
  raise_if (is_nil c.source_event_ids) source_event_ids_empty
  raise_if (not (is_unique c.source_event_ids)) source_event_ids_repeated
  raise_if (c.reason == "") reason_empty
  raise_if (is_zero c.event_sequence) event_sequence_not_positive
  raise_if (misplaced_type c.event_type c.kind) event_type_misplaced
  raise_if (misplaced_tool c.tool_name c.event_type) tool_name_misplaced
  ok c

pub record BudgetConfig : Type 0 where
  pub target_input_budget : ℕ
  pub hard_input_ceiling : ℕ
  pub model_context_limit : ℕ
  pub reserved_output_and_tools : ℕ
  pub safety_margin : ℕ

pub data ConfigError : Type 0 where
  not_positive reserved_exceeds_limit : ConfigError

-- `BudgetConfig.__post_init__`
unfoldable pub validate_config : BudgetConfig → Result ConfigError BudgetConfig
validate_config c = do
  raise_if (ltb c.target_input_budget 1) not_positive
  raise_if (ltb c.hard_input_ceiling 1) not_positive
  raise_if (ltb c.model_context_limit 1) not_positive
  raise_if (ltb c.model_context_limit c.reserved_output_and_tools) reserved_exceeds_limit
  ok c

pub data AssemblyMode : Type 0 where
  normal emergency_assembly : AssemblyMode

pub data BudgetErrorCode : Type 0 where
  current_input_invalid opaque_token_cost_invalid fixed_required_cost_invalid token_counter_invalid
        token_counter_failure required_input_exceeds_budget internal_budget_invariant :
      BudgetErrorCode

pub record BlockSelection : Type 0 where
  pub block_id : String
  pub slot : RuntimeSlot
  pub source_event_ids : List String
  pub token_cost : ℕ
  pub score : ℕ
  pub reason : String

pub record BlockRejection : Type 0 where
  pub block_id : String
  pub slot : RuntimeSlot
  pub source_event_ids : List String
  pub token_cost : ℕ
  pub score : ℕ
  pub reason : String

pub record AssemblyTrace : Type 0 where
  pub mode : AssemblyMode
  pub snapshot_id : Option String
  pub pointer_version : ℕ
  pub covered_event_end : ℕ
  pub high_water_mark : ℕ
  pub b_input : ℕ
  pub current_input_cost : ℕ
  pub fixed_required_cost : ℕ
  pub safety_margin : ℕ
  pub b_required : ℕ
  pub opaque_token_cost : ℕ
  pub b_ac : ℕ
  pub ac_selected_cost : ℕ
  pub projection_overhead_cost : ℤ
  pub total_input_cost : ℕ
  pub slot_token_costs : List (RuntimeSlot × ℕ)
  pub selections : List BlockSelection
  pub rejections : List BlockRejection

pub record AssemblyResult : Type 0 where
  pub projected_text : String
  pub selected_blocks : List CandidateBlock
  pub trace : AssemblyTrace
