-- ===== src/Runtime/Budget/Ends.antt =====
-- The errors of an assembly that counts its blocks itself (astrcontinuum/runtime/budget.py).
use astrbot_plugin_astrconti.Prelude.{
  ℕ, suc, ◌+◌, ◌-◌, ◌≤◌, ◌≡◌, refl, String, Bool, true, false, not, none, List, [], ◌∷◌, string_eq,
  arith, length, ok, err, raise_if, ltb, is_unique, EachOf-all,
}
use astrbot_plugin_astrconti.Runtime.Candidate.{
  CandidateBlock, BudgetConfig, BlockRejection, AssemblyMode, internal_budget_invariant,
}
use astrbot_plugin_astrconti.Storage.Journal.View.{RequestView}
use astrbot_plugin_astrconti.ContextGraph.Closure.{ids_of, dependency_groups}
use astrbot_plugin_astrconti.Runtime.Budget.Order.{
  TokenCounter, BudgetError, budget, separator, count_text, Counts, count_candidate_blocks,
  validated_block_token_counts, deduplicate,
}
use astrbot_plugin_astrconti.Runtime.Budget.Select.{
  Final, from_closure, normal_selection, exact_final_selection,
}
use astrbot_plugin_astrconti.Runtime.Budget.Emergency.{emergency_selection}
use astrbot_plugin_astrconti.Runtime.Budget.Assemble.{
  Amounts, select, duplicate_rejections, trace, assemble, input_budget, keeps_required,
}
use astrbot_plugin_astrconti.Runtime.Budget.Bounds.{exact_loop-IsExact}
use astrbot_plugin_astrconti.Runtime.Budget.Steps.{amounts}
use astrbot_plugin_astrconti.Runtime.Budget.Kept.{deduplicate_unique, select-kept}
use astrbot_plugin_astrconti.Runtime.Budget.Errors.{
  is_expected, Expected, bind-Expected, ok-Expected, raise_if-Expected, passes-Expected,
  if-Expected, count_text-Expected, count_from-Expected, from_closure-Expected, keep_if-is_unique,
  exact_loop-Expected,
}

duplicate_rejections-Expected :
    (counter : TokenCounter) (cs : List CandidateBlock) → Expected (duplicate_rejections counter cs)
unfolding duplicate_rejections
duplicate_rejections-Expected counter [] = ok-Expected []
duplicate_rejections-Expected counter (c ∷ cs) =
    bind-Expected (count_text counter c.text) _ (count_text-Expected counter c.text) (λ n counted.
      bind-Expected (duplicate_rejections counter cs) _ (duplicate_rejections-Expected counter cs)
        (λ rest done. ok-Expected _))

validated-Expected :
    (counter : TokenCounter) (cs : List CandidateBlock)
    → is_unique (ids_of cs) ≡ true
    → Expected (validated_block_token_counts counter cs none)
unfolding validated_block_token_counts count_candidate_blocks
validated-Expected counter cs u = count_from-Expected counter cs [] u (EachOf-all _ (λ c. refl) cs)

select-Expected :
    (counts : Counts) (separator_cost b_ac : ℕ) (unique : List CandidateBlock)
    → is_unique (ids_of unique) ≡ true
    → Expected (select counts separator_cost b_ac unique)
unfolding select normal_selection emergency_selection
select-Expected counts separator_cost b_ac unique u =
    bind-Expected (normal_selection counts separator_cost b_ac unique) _
      (bind-Expected (from_closure (dependency_groups unique)) _ (from_closure-Expected unique u)
        (λ groups found. ok-Expected _))
      (λ out found.
        if-Expected out.2
          (bind-Expected (emergency_selection counts separator_cost b_ac unique) _
            (bind-Expected (from_closure (dependency_groups unique)) _
              (from_closure-Expected unique u) (λ groups found. ok-Expected _))
            (λ saved done. ok-Expected _))
          (ok-Expected _))

-- A projection within the budget that is left has a trace.
trace-Expected :
    (view : RequestView) (selected : List CandidateBlock) (refused : List BlockRejection)
    (mode : AssemblyMode) (counts : Counts) (cost : ℕ) (a : Amounts)
    → ltb a.b_input (a.opaque_token_cost + a.b_required) ≡ false
    → cost ≤ a.b_input - a.opaque_token_cost - a.b_required
    → Expected (trace view selected refused mode counts cost a)
unfolding trace
trace-Expected view selected refused mode counts cost a left fits =
    bind-Expected
      (raise_if (ltb a.b_input (a.opaque_token_cost + a.b_required + cost))
        (budget internal_budget_invariant))
      _ (passes-Expected _ _ (ground arith)) (λ v passed. ok-Expected _)

exact_final_selection-bounded :
    (counter : TokenCounter) (counts : Counts) (b_ac : ℕ) (selected : List CandidateBlock)
    {final : Final}
    → exact_final_selection counter counts b_ac selected ≡ ok final
    → final.exact_cost ≤ b_ac
unfolding exact_final_selection
exact_final_selection-bounded counter counts b_ac selected h =
    let (x, t) =
      exact_loop-IsExact (λ s. Unit {0}) counter counts b_ac (λ s g f u. tt) (suc (length selected))
        selected [] h tt in
    x.bounded

exact_final_selection-Expected :
    (counter : TokenCounter) (counts : Counts) (b_ac : ℕ) (selected : List CandidateBlock)
    → is_unique (ids_of selected) ≡ true
    → Expected (exact_final_selection counter counts b_ac selected)
unfolding exact_final_selection
exact_final_selection-Expected counter counts b_ac selected u =
    exact_loop-Expected (suc (length selected)) counter counts b_ac selected [] (omega arith) u

-- What a passed check says.
passed-false :
    (test : Bool) (e : BudgetError) {u : Unit {0}} → raise_if test e ≡ ok u → test ≡ false
passed-false true e h = cc
passed-false false e h = refl

-- An assembly that counts its blocks itself raises only that the required input exceeds the budget, or
-- an error of the counter: never an error of the closure, of a broken invariant or of a loop cut short.
pub assemble-Expected :
    (view : RequestView) (candidates : List CandidateBlock) (current_input : String)
    (opaque_cost fixed_cost : ℕ) (counter : TokenCounter) (config : BudgetConfig) (e : BudgetError)
    → assemble view candidates current_input opaque_cost fixed_cost counter config none ≡ err e
    → is_expected e ≡ true
unfolding assemble
assemble-Expected view candidates current_input opaque_cost fixed_cost counter config =
    let unique = (deduplicate candidates).0 in
    let u : is_unique (ids_of unique) ≡ true = deduplicate_unique candidates in
    bind-Expected (count_text counter current_input) _ (count_text-Expected counter current_input)
      (λ n counted.
        bind-Expected
          (raise_if
            (ltb (input_budget config) (opaque_cost + (n + fixed_cost + config.safety_margin))) _)
          _ (raise_if-Expected _ _ refl)
          (λ v affordable.
            bind-Expected (validated_block_token_counts counter unique none) _
              (validated-Expected counter unique u)
              (λ counts validated.
                bind-Expected (count_text counter separator) _
                  (count_text-Expected counter separator)
                  (λ separator_cost counted_separator.
                    bind-Expected (duplicate_rejections counter (deduplicate candidates).1) _
                      (duplicate_rejections-Expected counter (deduplicate candidates).1)
                      (λ repeated duplicates.
                        bind-Expected (select counts separator_cost _ unique) _
                          (select-Expected counts separator_cost _ unique u)
                          (λ chosen selects.
                            bind-Expected (raise_if (not (keeps_required unique chosen.blocks)) _) _
                              (raise_if-Expected _ _ refl)
                              (λ w kept.
                                bind-Expected (exact_final_selection counter counts _ chosen.blocks)
                                  _
                                  (exact_final_selection-Expected counter counts _ chosen.blocks (
                                    select-kept (λ s. is_unique (ids_of s) ≡ true) counts
                                      separator_cost _ unique (keep_if-is_unique unique u) selects))
                                  (λ final fitted.
                                    bind-Expected _ _
                                      (trace-Expected view final.selected _ chosen.mode counts
                                        final.exact_cost (amounts opaque_cost fixed_cost config n)
                                        (passed-false _ _ affordable)
                                        (exact_final_selection-bounded counter counts _
                                          chosen.blocks fitted))
                                      (λ t traced. ok-Expected _)))))))))
