-- ===== src/Runtime/Budget/Assemble.antt =====
-- _trace and assemble (astrcontinuum/runtime/budget.py). The costs that the caller gives are natural
-- numbers, so the checks of their type and sign are left out. The view's Snapshot enters by its id.
use Prim.Native.Nat.{Ordering, compare}
use Prim.Native.String.{compare as text_compare}
use astrbot_plugin_astrconti.Prelude.{
  ℕ, ◌+◌, ◌-◌, String, Bool, true, false, not, Option, List, [], ◌∷◌, ◌++◌, ◌==◌, string_eq, nat_eq,
  ok, ◌>>=◌, ◌>>◌, raise_if, if◌then◌else◌, ltb, all, keep_if, mem, map, sum_by, sort_by, min,
}
use astrbot_plugin_astrconti.Prelude.Int.{sub_ℕ}
use astrbot_plugin_astrconti.Runtime.Candidate.{
  score_value, CandidateBlock, RuntimeSlot, runtime_slot_priority, slot_rank, slot_beq,
  BudgetConfig, AssemblyMode, normal, emergency_assembly, required_input_exceeds_budget,
  internal_budget_invariant, BlockSelection, BlockRejection, AssemblyTrace, AssemblyResult,
}
use astrbot_plugin_astrconti.ContextGraph.Closure.{ids_of}
use astrbot_plugin_astrconti.Storage.Journal.View.{RequestView}
use astrbot_plugin_astrconti.Runtime.Budget.Order.{
  TokenCounter, budget, B, separator, count_text, then_by, Counts, cost_of, deduplicate,
  validated_block_token_counts,
}
use astrbot_plugin_astrconti.Runtime.Budget.Select.{normal_selection, exact_final_selection}
use astrbot_plugin_astrconti.Runtime.Budget.Emergency.{emergency_selection}

-- `_rejection_sort_key`
abbrev pub rejection_le : BlockRejection → BlockRejection → Bool
rejection_le a b =
    elim (then_by (compare (slot_rank a.slot) (slot_rank b.slot)) (
      then_by (text_compare a.block_id b.block_id) (
        then_by (text_compare a.reason b.reason)
          (compare (score_value b.score) (score_value a.score))))) [
            | Ordering.gt ↦ false
            | _ ↦ true
          ]

abbrev pub selection_reason : AssemblyMode → String
selection_reason normal = "SELECTED_NORMAL"
selection_reason emergency_assembly = "SELECTED_EMERGENCY"

abbrev pub selection : AssemblyMode → Counts → CandidateBlock → BlockSelection
selection mode counts c = record {
  block_id = c.block_id;
  slot = c.slot;
  source_event_ids = c.source_event_ids;
  token_cost = cost_of counts c;
  score = c.score;
  reason = selection_reason mode;
}

abbrev pub slot_cost : List BlockSelection → RuntimeSlot → ℕ
slot_cost selections slot =
    sum_by (λ (x : BlockSelection). x.token_cost)
      (keep_if (λ (x : BlockSelection). slot_beq x.slot slot) selections)

abbrev pub slot_costs : List BlockSelection → List RuntimeSlot → List (RuntimeSlot × ℕ)
slot_costs selections [] = []
slot_costs selections (slot ∷ slots) =
    let rest = slot_costs selections slots in
    if slot_cost selections slot == 0 then rest else (slot, slot_cost selections slot) ∷ rest

-- The amounts that `assemble` computes from its arguments.
pub record Amounts : Type 0 where
  pub b_input : ℕ
  pub current_input_cost : ℕ
  pub fixed_required_cost : ℕ
  pub safety_margin : ℕ
  pub b_required : ℕ
  pub opaque_token_cost : ℕ
  pub b_ac : ℕ

-- `_trace`
unfoldable pub trace :
    RequestView
    → List CandidateBlock
    → List BlockRejection
    → AssemblyMode
    → Counts
    → ℕ
    → Amounts
    → B AssemblyTrace
trace view selected rejections mode counts exact_projection_cost a = do
  let selections = map (selection mode counts) selected
  let total = a.opaque_token_cost + a.b_required + exact_projection_cost
  raise_if (ltb a.b_input total) (budget internal_budget_invariant)
  ok (record {
    mode = mode;
    snapshot_id = view.snapshot;
    pointer_version = view.pointer_version;
    covered_event_end = view.covered_event_end;
    high_water_mark = view.high_water_mark;
    b_input = a.b_input;
    current_input_cost = a.current_input_cost;
    fixed_required_cost = a.fixed_required_cost;
    safety_margin = a.safety_margin;
    b_required = a.b_required;
    opaque_token_cost = a.opaque_token_cost;
    b_ac = a.b_ac;
    ac_selected_cost = exact_projection_cost;
    projection_overhead_cost =
        sub_ℕ exact_projection_cost (sum_by (λ (x : BlockSelection). x.token_cost) selections);
    total_input_cost = total;
    slot_token_costs = slot_costs selections runtime_slot_priority;
    selections = selections;
    rejections = sort_by rejection_le rejections;
  })

unfoldable pub duplicate_rejections : TokenCounter → List CandidateBlock → B (List BlockRejection)
duplicate_rejections counter [] = ok []
duplicate_rejections counter (c ∷ cs) = do
  n ← count_text counter c.text
  rest ← duplicate_rejections counter cs
  ok (
      record {
        block_id = c.block_id;
        slot = c.slot;
        source_event_ids = c.source_event_ids;
        token_cost = n;
        score = c.score;
        reason = "DUPLICATE_BLOCK_ID";
      }
      ∷ rest)

pub record Selected : Type 0 where
  pub mode : AssemblyMode
  pub blocks : List CandidateBlock
  pub rejections : List BlockRejection

-- The normal selection, or the emergency one where it misses a required block.
unfoldable pub select : Counts → ℕ → ℕ → List CandidateBlock → B Selected
unfolding normal_selection emergency_selection
select counts separator_cost b_ac unique = do
  (blocks, rejections, missing) ← normal_selection counts separator_cost b_ac unique
  if missing
      then (do
        (urgent, refused) ← emergency_selection counts separator_cost b_ac unique
        ok (record { mode = emergency_assembly; blocks = urgent; rejections = refused }))
      else ok (record { mode = normal; blocks = blocks; rejections = rejections })

abbrev pub keeps_required : List CandidateBlock → List CandidateBlock → Bool
keeps_required unique selected =
    all (λ (c : CandidateBlock). mem c.block_id (ids_of selected))
      (keep_if (λ (c : CandidateBlock). c.required) unique)

abbrev pub input_budget : BudgetConfig → ℕ
input_budget config =
    min config.target_input_budget (
      min config.hard_input_ceiling (config.model_context_limit - config.reserved_output_and_tools))

unfoldable pub assemble :
    (view : RequestView) (candidates : List CandidateBlock) (current_input : String)
    (opaque_token_cost fixed_required_cost : ℕ) (counter : TokenCounter) (config : BudgetConfig)
    (block_token_counts : Option Counts)
    → B AssemblyResult
assemble view candidates current_input opaque_cost fixed_cost counter config block_token_counts = do
  current_input_cost ← count_text counter current_input
  let b_input = input_budget config
  let b_required = current_input_cost + fixed_cost + config.safety_margin
  let b_ac = b_input - opaque_cost - b_required
  raise_if (ltb b_input (opaque_cost + b_required)) (budget required_input_exceeds_budget)
  let (unique, duplicates) = deduplicate candidates
  counts ← validated_block_token_counts counter unique block_token_counts
  separator_cost ← count_text counter separator
  repeated ← duplicate_rejections counter duplicates
  chosen ← select counts separator_cost b_ac unique
  raise_if (not (keeps_required unique chosen.blocks)) (budget required_input_exceeds_budget)
  final ← exact_final_selection counter counts b_ac chosen.blocks
  traced ←
      trace view final.selected (repeated ++ (chosen.rejections ++ final.removed)) chosen.mode
        counts final.exact_cost
        (record {
          b_input = b_input;
          current_input_cost = current_input_cost;
          fixed_required_cost = fixed_cost;
          safety_margin = config.safety_margin;
          b_required = b_required;
          opaque_token_cost = opaque_cost;
          b_ac = b_ac;
        })
  ok (record { projected_text = final.text; selected_blocks = final.selected; trace = traced })
