-- ===== src/Runtime/Budget/Steps.antt =====
-- The steps of `assemble` (astrcontinuum/runtime/budget.py) where it returns.
use astrbot_plugin_astrconti.Prelude.{
  ℕ, ◌+◌, ◌-◌, ◌≡◌, ◌∙◌, ap, ok-injective, String, false, not, Option, List, ◌++◌, string_eq,
  nat_eq, ok, ltb, bind-ok, bound, passed, raise_if-ok,
}
use astrbot_plugin_astrconti.Runtime.Candidate.{
  CandidateBlock, BlockRejection, BudgetConfig, AssemblyResult,
}
use astrbot_plugin_astrconti.Storage.Journal.View.{RequestView}
use astrbot_plugin_astrconti.Runtime.Budget.Order.{
  TokenCounter, separator, count_text, Counts, deduplicate, validated_block_token_counts,
}
use astrbot_plugin_astrconti.Runtime.Budget.Select.{Final, exact_final_selection}
use astrbot_plugin_astrconti.Runtime.Budget.Assemble.{
  assemble, input_budget, Amounts, trace, Selected, select, keeps_required, duplicate_rejections,
}

abbrev pub amounts : ℕ → ℕ → BudgetConfig → ℕ → Amounts
amounts opaque_cost fixed_cost config input_cost = record {
  b_input = input_budget config;
  current_input_cost = input_cost;
  fixed_required_cost = fixed_cost;
  safety_margin = config.safety_margin;
  b_required = input_cost + fixed_cost + config.safety_margin;
  opaque_token_cost = opaque_cost;
  b_ac = input_budget config - opaque_cost - (input_cost + fixed_cost + config.safety_margin);
}

-- The steps of an assembly that succeeds.
pub record Assembles (view : RequestView) (unique : List CandidateBlock) (current_input : String)
    (opaque_cost fixed_cost : ℕ) (counter : TokenCounter) (config : BudgetConfig)
    (result : AssemblyResult) : Type 0 where
  pub input_cost : ℕ
  pub input_counted : count_text counter current_input ≡ ok input_cost
  pub affordable :
      ltb (input_budget config) (opaque_cost + (input_cost + fixed_cost + config.safety_margin))
      ≡ false
  pub separator_cost : ℕ
  pub counts : Counts
  pub chosen : Selected
  pub selects :
      select counts separator_cost (amounts opaque_cost fixed_cost config input_cost).b_ac unique
      ≡ ok chosen
  pub required : not (keeps_required unique chosen.blocks) ≡ false
  pub final : Final
  pub fitted :
      exact_final_selection counter counts
        (amounts opaque_cost fixed_cost config input_cost).b_ac
        chosen.blocks
      ≡ ok final
  pub refused : List BlockRejection
  pub traced :
      trace view final.selected refused chosen.mode counts final.exact_cost
        (amounts opaque_cost fixed_cost config input_cost)
      ≡ ok result.trace
  pub text : final.text ≡ result.projected_text
  pub blocks : final.selected ≡ result.selected_blocks

pub assemble-Assembles :
    (view : RequestView) (candidates : List CandidateBlock) (current_input : String)
    (opaque_cost fixed_cost : ℕ) (counter : TokenCounter) (config : BudgetConfig)
    (provided : Option Counts) {result : AssemblyResult}
    → assemble view candidates current_input opaque_cost fixed_cost counter config provided
      ≡ ok result
    → Assembles view
        (deduplicate candidates).0
        current_input
        opaque_cost
        fixed_cost
        counter
        config
        result
unfolding assemble
assemble-Assembles view candidates current_input opaque_cost fixed_cost counter config provided
      {result} h =
    elim (bind-ok (count_text counter current_input) _ h) [
      | bound n counted h1 ↦
          elim (raise_if-ok
            (ltb (input_budget config) (opaque_cost + (n + fixed_cost + config.safety_margin))) _ _
            h1) [
              | passed left h2 ↦
                  elim (bind-ok
                    (validated_block_token_counts counter (deduplicate candidates).0 provided) _
                    h2) [
                      | bound counts validated h3 ↦
                          elim (bind-ok (count_text counter separator) _ h3) [
                            | bound sep sep_counted h4 ↦
                                elim (bind-ok
                                  (duplicate_rejections counter (deduplicate candidates).1) _ h4) [
                                    | bound repeated dups h5 ↦
                                        elim (bind-ok
                                          (select counts sep
                                            (amounts opaque_cost fixed_cost config n).b_ac
                                            (deduplicate candidates).0)
                                          _ h5) [
                                            | bound chosen selects h6 ↦
                                                elim (raise_if-ok
                                                  (not (
                                                    keeps_required (deduplicate candidates).0
                                                      chosen.blocks))
                                                  _ _ h6) [
                                                    | passed keeps h7 ↦
                                                        elim (bind-ok
                                                          (exact_final_selection counter counts
                                                            (amounts opaque_cost fixed_cost config
                                                            n).b_ac
                                                            chosen.blocks)
                                                          _ h7) [
                                                            | bound final fitted h8 ↦
                                                              elim (bind-ok
                                                              (trace view final.selected
                                                              (repeated
                                                              ++ (chosen.rejections
                                                              ++ final.removed))
                                                              chosen.mode counts final.exact_cost
                                                              (amounts opaque_cost fixed_cost config
                                                              n))
                                                              _ h8) [
                                                                | bound t traced h9 ↦
                                                                  let made : AssemblyResult =
                                                                  record {
                                                                  projected_text = final.text;
                                                                  selected_blocks = final.selected;
                                                                  trace = t;
                                                                  } in
                                                                  let same =
                                                                  ok-injective made result h9 in
                                                                  record {
                                                                  input_cost = n;
                                                                  input_counted = counted;
                                                                  affordable = left;
                                                                  separator_cost = sep;
                                                                  counts = counts;
                                                                  chosen = chosen;
                                                                  selects = selects;
                                                                  required = keeps;
                                                                  final = final;
                                                                  fitted = fitted;
                                                                  refused =
                                                                  repeated
                                                                  ++ (chosen.rejections
                                                                  ++ final.removed);
                                                                  traced =
                                                                  traced
                                                                  ∙ ap
                                                                  (λ (z : AssemblyResult).
                                                                  ok z.trace)
                                                                  same;
                                                                  text =
                                                                  ap
                                                                  (λ (z : AssemblyResult).
                                                                  z.projected_text)
                                                                  same;
                                                                  blocks =
                                                                  ap
                                                                  (λ (z : AssemblyResult).
                                                                  z.selected_blocks)
                                                                  same;
                                                                  }
                                                              ]
                                                          ]
                                                  ]
                                          ]
                                  ]
                          ]
                    ]
            ]
    ]
