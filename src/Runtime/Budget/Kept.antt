-- ===== src/Runtime/Budget/Kept.antt =====
-- The costs and the required blocks of `assemble` (astrcontinuum/runtime/budget.py).
use astrbot_plugin_astrconti.Prelude.{
  ℕ, suc, ◌+◌, ◌≤◌, ◌≡◌, refl, sym, ap, subst, ◌∙◌, String, Bool, true, false, Option, inl, inr,
  List, [], ◌∷◌, ◌==◌, string_eq, beq_refl, eq_of_beq, arith, Bool-cases, EachOf, EachOf-kept,
  keep_if, mem, length, is_unique, ok, bind-ok, bound, ok-injective,
}
use astrbot_plugin_astrconti.Runtime.Candidate.{
  CandidateBlock, BlockRejection, BudgetConfig, AssemblyResult,
}
use astrbot_plugin_astrconti.Storage.Journal.View.{RequestView}
use astrbot_plugin_astrconti.ContextGraph.Closure.{ids_of, dependency_groups}
use astrbot_plugin_astrconti.Runtime.Budget.Order.{
  TokenCounter, count_text, Counts, projection_text, ordered, split_duplicates, deduplicate,
  canonical_candidates,
}
use astrbot_plugin_astrconti.Runtime.Budget.Select.{
  from_closure, normal_selection, exact_final_selection,
}
use astrbot_plugin_astrconti.Runtime.Budget.Emergency.{emergency_selection}
use astrbot_plugin_astrconti.Runtime.Budget.Assemble.{
  Selected, select, assemble, input_budget, keeps_required,
}
use astrbot_plugin_astrconti.Runtime.Budget.Bounds.{IsExact, exact_loop-IsExact, trace-IsWithin}
use astrbot_plugin_astrconti.Runtime.Budget.Steps.{amounts, Assembles, assemble-Assembles}
use astrbot_plugin_astrconti.Runtime.Budget.Required.{
  IsAt, is_unique-IsAt, keeps_required-Keeps, Keeps-keeps_required, Holds,
}
use astrbot_plugin_astrconti.Runtime.Budget.Rounds.{lowest-Holds}

split_duplicates-fresh :
    (cs : List CandidateBlock) (seen : List String) (id : String)
    → mem id seen ≡ true
    → mem id (ids_of (split_duplicates cs seen).0) ≡ false
unfolding split_duplicates
split_duplicates-fresh [] seen id h = refl
split_duplicates-fresh (c ∷ cs) seen id h = elim (Bool-cases (mem c.block_id seen)) [
  | inl again ↦ rw (split_duplicates, again) (split_duplicates-fresh cs seen id h)
  | inr new ↦ elim (Bool-cases (c.block_id == id)) [
    | inl same ↦ cc (rw (eq_of_beq c.block_id id same) at new)
    | inr other ↦
        rw (split_duplicates, new, other)
          (split_duplicates-fresh cs (c.block_id ∷ seen) id (rw other h))
  ]
]

split_duplicates_unique :
    (cs : List CandidateBlock) (seen : List String)
    → is_unique (ids_of (split_duplicates cs seen).0) ≡ true
unfolding split_duplicates
split_duplicates_unique [] seen = refl
split_duplicates_unique (c ∷ cs) seen = elim (Bool-cases (mem c.block_id seen)) [
  | inl again ↦ rw (split_duplicates, again) (split_duplicates_unique cs seen)
  | inr new ↦
      let fresh =
        split_duplicates-fresh cs (c.block_id ∷ seen) c.block_id (rw (beq_refl c.block_id)) in
      rw (split_duplicates, new, fresh) (split_duplicates_unique cs (c.block_id ∷ seen))
]

pub deduplicate_unique :
    (candidates : List CandidateBlock) → is_unique (ids_of (deduplicate candidates).0) ≡ true
unfolding deduplicate
deduplicate_unique candidates = split_duplicates_unique (ordered candidates) []

pub deduplicate-IsAt :
    (candidates : List CandidateBlock)
    → EachOf (IsAt (deduplicate candidates).0) (deduplicate candidates).0
deduplicate-IsAt candidates =
    is_unique-IsAt (deduplicate candidates).0 (deduplicate_unique candidates)

-- A selection is taken from the candidates.
module _ (R : List CandidateBlock → Type 0) (counts : Counts) (separator_cost b_ac : ℕ)
    (unique : List CandidateBlock) (kept : (q : CandidateBlock → Bool) → R (keep_if q unique)) where
  normal_selection-kept :
      {out : List CandidateBlock × List BlockRejection × Bool}
      → normal_selection counts separator_cost b_ac unique ≡ ok out
      → R out.0
  unfolding normal_selection
  normal_selection-kept {out} h = elim (bind-ok (from_closure (dependency_groups unique)) _ h) [
    | bound groups found done ↦
        subst (λ (z : List CandidateBlock × List BlockRejection × Bool). R z.0)
          (ok-injective _ out done) (kept _)
  ]

  emergency_selection-kept :
      {out : List CandidateBlock × List BlockRejection}
      → emergency_selection counts separator_cost b_ac unique ≡ ok out
      → R out.0
  unfolding emergency_selection
  emergency_selection-kept {out} h = elim (bind-ok (from_closure (dependency_groups unique)) _ h) [
    | bound groups found done ↦
        subst (λ (z : List CandidateBlock × List BlockRejection). R z.0) (ok-injective _ out done)
          (kept _)
  ]

  pub select-kept :
      {chosen : Selected} → select counts separator_cost b_ac unique ≡ ok chosen → R chosen.blocks
  unfolding select
  select-kept {chosen} h = elim (bind-ok (normal_selection counts separator_cost b_ac unique) _ h) [
    | bound (blocks, rejections, missing) found rest ↦ elim (Bool-cases missing) [
      | inl urgent ↦
          elim (bind-ok (emergency_selection counts separator_cost b_ac unique) _
            (rw urgent at rest)) [
              | bound (saved, refused) found' done ↦
                  subst (λ (z : Selected). R z.blocks) (ok-injective _ chosen done)
                    (emergency_selection-kept found')
            ]
      | inr complete ↦
          subst (λ (z : Selected). R z.blocks) (ok-injective _ chosen (rw complete at rest))
            (normal_selection-kept found)
    ]
  ]

module _ (view : RequestView) (candidates : List CandidateBlock) (current_input : String)
    (opaque_cost fixed_cost : ℕ) (counter : TokenCounter) (config : BudgetConfig)
    (provided : Option Counts) {result : AssemblyResult}
    (h : assemble view candidates current_input opaque_cost fixed_cost counter config provided
      ≡ ok result) where
  steps :
      Assembles view
        (deduplicate candidates).0
        current_input
        opaque_cost
        fixed_cost
        counter
        config
        result
  steps =
      assemble-Assembles view candidates current_input opaque_cost fixed_cost counter config
        provided h

  chosen-Holds : Holds (deduplicate candidates).0 steps.chosen.blocks
  chosen-Holds = record {
    each =
        select-kept (EachOf (IsAt (deduplicate candidates).0)) steps.counts steps.separator_cost _
          (deduplicate candidates).0
          (λ q.
            EachOf-kept (IsAt (deduplicate candidates).0) q (deduplicate candidates).0
              (deduplicate-IsAt candidates))
          steps.selects;
    required =
        keeps_required-Keeps steps.chosen.blocks (deduplicate candidates).0
          (let r = steps.required in ground arith);
  }

  final-IsExact :
      IsExact counter (amounts opaque_cost fixed_cost config steps.input_cost).b_ac steps.final
      × Holds (deduplicate candidates).0 steps.final.selected
  unfolding exact_final_selection
  final-IsExact =
      exact_loop-IsExact (Holds (deduplicate candidates).0) counter steps.counts _
        (λ selected group.
          lowest-Holds (deduplicate candidates).0 selected group (deduplicate-IsAt candidates))
        (suc (length steps.chosen.blocks)) steps.chosen.blocks [] steps.fitted chosen-Holds

  -- An assembly that returns costs what its trace says, the exact count of its text included, and its
  -- total is within the input budget.
  pub assemble-within_budget :
      (input_cost : ℕ) × ((count_text counter current_input ≡ ok input_cost)
        × ((count_text counter result.projected_text ≡ ok result.trace.ac_selected_cost)
            × ((result.projected_text ≡ projection_text result.selected_blocks)
                × ((result.trace.total_input_cost
                      ≡ opaque_cost
                        + (input_cost + fixed_cost + config.safety_margin)
                        + result.trace.ac_selected_cost)
                    × (result.trace.total_input_cost ≤ input_budget config)))))
  assemble-within_budget =
      let s = steps in
      let t =
        trace-IsWithin view s.final.selected s.refused s.chosen.mode s.counts s.final.exact_cost
          (amounts opaque_cost fixed_cost config s.input_cost) s.traced in
      let (x, k) = final-IsExact in
      (
        s.input_cost,
        (
          s.input_counted,
          (
            subst (λ z. count_text counter z ≡ ok result.trace.ac_selected_cost) s.text
                (x.cost ∙ ap ok (sym t.selected_cost)),
            (
              sym s.text ∙ x.text ∙ ap projection_text s.blocks,
              (
                t.total
                    ∙ ap (λ z. opaque_cost + (s.input_cost + fixed_cost + config.safety_margin) + z)
                        (sym t.selected_cost),
                t.bounded,
              ),
            ),
          ),
        ),
      )

  -- An assembly that returns has each required block of the canonical candidates, and each block that
  -- it selects is the canonical candidate of its id.
  pub assemble-keeps_required :
      (keeps_required (canonical_candidates candidates) result.selected_blocks ≡ true)
      × EachOf (IsAt (canonical_candidates candidates)) result.selected_blocks
  unfolding canonical_candidates
  assemble-keeps_required =
      let (x, k) = final-IsExact in
      subst
        (λ z.
          (keeps_required (deduplicate candidates).0 z ≡ true)
          × EachOf (IsAt (deduplicate candidates).0) z)
        steps.blocks
        (Keeps-keeps_required steps.final.selected (deduplicate candidates).0 k.required, k.each)
