-- ===== src/Tests/Budget.antt =====
-- An assembly of two candidates, the optional one removed by its exact cost.
use astrbot_plugin_astrconti.Prelude.{
  ℕ, ◌≡◌, refl, ◌+◌, ◌≤◌, String, Bool, true, false, none, List, [], ◌∷◌, ◌==◌, string_eq,
  if◌then◌else◌, ok, err, EachOf,
}
use astrbot_plugin_astrconti.Storage.Journal.View.{RequestView}
use astrbot_plugin_astrconti.Runtime.Candidate.{
  CandidateBlock, RuntimeSlot, hard_constraint, relevant_evidence, normal, decision, BudgetConfig,
  AssemblyResult, required_input_exceeds_budget,
}
use astrbot_plugin_astrconti.Runtime.Budget.Order.{
  TokenCounter, counted, budget, projection_text, ordered, candidate_compare, split_duplicates,
  deduplicate, count_text, count_from, count_candidate_blocks, validated_block_token_counts,
  canonical_candidates,
}
use astrbot_plugin_astrconti.Runtime.Budget.Select.{
  offer, normal_loop, normal_selection, lowest_priority_optional_group, exact_loop,
  exact_final_selection,
}
use astrbot_plugin_astrconti.Runtime.Budget.Assemble.{
  assemble, keeps_required, select, duplicate_rejections, trace,
}
use astrbot_plugin_astrconti.ContextGraph.Closure.{
  companions, walk, components, dependency_groups, removable_dependency_groups,
}
use astrbot_plugin_astrconti.Runtime.Budget.Required.{IsAt}
use astrbot_plugin_astrconti.Runtime.Budget.Kept.{assemble-within_budget, assemble-keeps_required}
use astrbot_plugin_astrconti.Runtime.Budget.Errors.{is_expected}
use astrbot_plugin_astrconti.Runtime.Budget.Ends.{assemble-Expected}
use astrbot_plugin_astrconti.Prelude.Int.{pos}
use astrbot_plugin_astrconti.Tests.History.{key}

abbrev block : String → String → Bool → RuntimeSlot → CandidateBlock
block id text required slot = record {
  block_id = id;
  slot = slot;
  kind = decision;
  text = text;
  source_event_ids = id ∷ [];
  score = 1;
  reason = "test";
  required = required;
  capsule_id = none;
  event_sequence = none;
  event_type = none;
  tool_name = none;
  required_selection_complete = false;
}

abbrev candidates : List CandidateBlock
candidates = block "a" "keep" true hard_constraint ∷ block "b" "extra" false relevant_evidence ∷ []

-- Joining the two texts costs more than they cost alone.
abbrev counter : TokenCounter
counter text = if text == "keep\n\nextra" then counted 100 else counted 3

abbrev config : BudgetConfig
config = record {
  target_input_budget = 40;
  hard_input_ceiling = 50;
  model_context_limit = 60;
  reserved_output_and_tools = 5;
  safety_margin = 2;
}

abbrev view : RequestView
view = record {
  session_key = key;
  snapshot = none;
  pointer_version = 0;
  covered_event_end = 0;
  high_water_mark = 0;
  delta = [];
}

abbrev fitted : AssemblyResult
fitted = record {
  projected_text = "keep";
  selected_blocks = block "a" "keep" true hard_constraint ∷ [];
  trace = record {
    mode = normal;
    snapshot_id = none;
    pointer_version = 0;
    covered_event_end = 0;
    high_water_mark = 0;
    b_input = 40;
    current_input_cost = 3;
    fixed_required_cost = 2;
    safety_margin = 2;
    b_required = 7;
    opaque_token_cost = 1;
    b_ac = 32;
    ac_selected_cost = 3;
    projection_overhead_cost = pos 0;
    total_input_cost = 11;
    slot_token_costs = (hard_constraint, 3) ∷ [];
    selections =
        record {
          block_id = "a";
          slot = hard_constraint;
          source_event_ids = "a" ∷ [];
          token_cost = 3;
          score = 1;
          reason = "SELECTED_NORMAL";
        }
        ∷ [];
    rejections =
        record {
          block_id = "b";
          slot = relevant_evidence;
          source_event_ids = "b" ∷ [];
          token_cost = 3;
          score = 1;
          reason = "EXACT_BUDGET_COMPONENT_REMOVED";
        }
        ∷ [];
  };
}

assemble-fitted : assemble view candidates "hello" 1 2 counter config none ≡ ok fitted
unfolding assemble deduplicate ordered candidate_compare split_duplicates
    validated_block_token_counts count_candidate_blocks count_from count_text duplicate_rejections
    select normal_selection normal_loop offer dependency_groups components walk companions
    exact_final_selection exact_loop lowest_priority_optional_group removable_dependency_groups
    trace
assemble-fitted = refl

assemble-within_budget_example :
    (input_cost : ℕ) × ((count_text counter "hello" ≡ ok input_cost)
      × ((count_text counter "keep" ≡ ok 3)
          × (("keep" ≡ projection_text (block "a" "keep" true hard_constraint ∷ []))
              × ((11 ≡ 1 + (input_cost + 2 + 2) + 3) × (11 ≤ 40)))))
assemble-within_budget_example =
    assemble-within_budget view candidates "hello" 1 2 counter config none assemble-fitted

assemble-keeps_required_example :
    (keeps_required (canonical_candidates candidates) fitted.selected_blocks ≡ true)
    × EachOf (IsAt (canonical_candidates candidates)) fitted.selected_blocks
assemble-keeps_required_example =
    assemble-keeps_required view candidates "hello" 1 2 counter config none assemble-fitted

-- The required input alone exceeds a budget of five.
abbrev tight : BudgetConfig
tight = record config { target_input_budget = 5 }

assemble-tight :
    assemble view candidates "hello" 1 2 counter tight none
    ≡ err (budget required_input_exceeds_budget)
unfolding assemble deduplicate ordered candidate_compare split_duplicates
    validated_block_token_counts count_candidate_blocks count_from count_text duplicate_rejections
    select normal_selection normal_loop offer dependency_groups components walk companions
    exact_final_selection exact_loop lowest_priority_optional_group removable_dependency_groups
    trace
assemble-tight = refl

assemble-Expected_example : is_expected (budget required_input_exceeds_budget) ≡ true
assemble-Expected_example =
    assemble-Expected view candidates "hello" 1 2 counter tight
      (budget required_input_exceeds_budget) assemble-tight
