-- ===== src/Runtime/Budget/Select.antt =====
-- _normal_selection and _exact_final_selection (astrcontinuum/runtime/budget.py).
use Prim.Native.Nat.{Ordering, compare}
use astrbot_plugin_astrconti.Prelude.{
  ℕ, zero, suc, ◌+◌, ◌-◌, ◌*◌, String, Bool, true, false, not, ◌||◌, Option, none, some, List, [],
  ◌∷◌, ◌++◌, ◌==◌, string_eq, nat_eq, Result, ok, err, ◌>>=◌, if◌then◌else◌, leb, length, keep_if,
  mem, map, sum_by, min,
}
use astrbot_plugin_astrconti.Runtime.Candidate.{
  CandidateBlock, BlockRejection, required_input_exceeds_budget,
}
use astrbot_plugin_astrconti.ContextGraph.Closure.{
  ClosureError, ids_of, has_required, dependency_groups, removable_dependency_groups,
}
use astrbot_plugin_astrconti.Runtime.Budget.Order.{
  TokenCounter, BudgetError, budget, closure, out_of_fuel, B, count_text, then_by, compare_texts,
  projection_text, Counts, cost_of, rejection,
}

abbrev pub from_closure {ℓ} : {A : Type ℓ} → Result ClosureError A → Result BudgetError A
from_closure (err e) = err closure
from_closure (ok a) = ok a

-- `group_by_id.get(candidate.block_id, (candidate,))`
abbrev pub group_of : List (List CandidateBlock) → CandidateBlock → List CandidateBlock
group_of [] c = c ∷ []
group_of (group ∷ groups) c =
    let rest = group_of groups c in if mem c.block_id (ids_of group) then group else rest

-- The variables of the selection loops.
pub record Selection : Type 0 where
  pub selected_ids : List String
  pub selected_cost : ℕ
  pub selected_count : ℕ
  pub rejected : List BlockRejection
  pub handled_ids : List String
  pub required_missing : Bool

abbrev pub start : Selection
start = record {
  selected_ids = [];
  selected_cost = 0;
  selected_count = 0;
  rejected = [];
  handled_ids = [];
  required_missing = false;
}

module _ (counts : Counts) (separator_cost b_ac : ℕ) where
  -- The cost of a group beside what is selected.
  abbrev pub additional_cost : List CandidateBlock → ℕ → ℕ
  additional_cost group selected_count =
      sum_by (cost_of counts) group
      + separator_cost * (length group - 1)
      + (if selected_count == 0 then 0 else separator_cost)

  -- A group is taken whole if it fits, and else refused whole for a reason.
  unfoldable pub offer : String → List CandidateBlock → Selection → Selection
  offer reason group s =
      if leb (s.selected_cost + additional_cost group s.selected_count) b_ac
      then (record s {
        selected_ids = ids_of group ++ s.selected_ids;
        selected_cost = s.selected_cost + additional_cost group s.selected_count;
        selected_count = s.selected_count + length group;
      })
      else (record s {
        rejected = s.rejected ++ map (rejection counts reason) group;
        required_missing = s.required_missing || has_required group;
      })

  abbrev pub handle : List CandidateBlock → Selection → Selection
  handle group s = record s { handled_ids = ids_of group ++ s.handled_ids }

  -- `for candidate in candidates`
  unfoldable pub normal_loop :
      List (List CandidateBlock) → List CandidateBlock → Selection → Selection
  unfolding offer
  normal_loop groups [] s = s
  normal_loop groups (c ∷ cs) s = normal_loop groups cs (
      if mem c.block_id s.handled_ids
      then s
      else offer "INSUFFICIENT_AC_BUDGET" (group_of groups c) (handle (group_of groups c) s))

  abbrev pub chosen_by : Selection → List CandidateBlock → List CandidateBlock
  chosen_by s candidates =
      keep_if (λ (c : CandidateBlock). mem c.block_id s.selected_ids) candidates

  unfoldable pub normal_selection :
      List CandidateBlock → B (List CandidateBlock × List BlockRejection × Bool)
  unfolding normal_loop
  normal_selection candidates = do
    groups ← from_closure (dependency_groups candidates)
    let s = normal_loop groups candidates start
    ok (chosen_by s candidates, s.rejected, s.required_missing)

-- The position of an id.
abbrev pub position : String → List CandidateBlock → ℕ
position id [] = 0
position id (c ∷ cs) = let rest = suc (position id cs) in if c.block_id == id then 0 else rest

abbrev pub first_position : List CandidateBlock → List CandidateBlock → ℕ
first_position selected [] = 0
first_position selected (c ∷ []) = position c.block_id selected
first_position selected (c ∷ d ∷ group) =
    min (position c.block_id selected) (first_position selected (d ∷ group))

abbrev pub key_below : List CandidateBlock → List CandidateBlock → List CandidateBlock → Bool
key_below selected a b =
    elim (then_by (compare (first_position selected a) (first_position selected b))
      (compare_texts (ids_of a) (ids_of b))) [ Ordering.lt ↦ true | _ ↦ false ]

-- `max` by the key: the first of the greatest.
abbrev pub greatest :
    List CandidateBlock → List CandidateBlock → List (List CandidateBlock) → List CandidateBlock
greatest selected best [] = best
greatest selected best (group ∷ groups) =
    greatest selected (if key_below selected best group then group else best) groups

unfoldable pub lowest_priority_optional_group :
    List CandidateBlock → B (Option (List CandidateBlock))
lowest_priority_optional_group selected = do
  groups ← from_closure (removable_dependency_groups selected)
  elim groups [ [] ↦ ok none | group ∷ rest ↦ ok (some (greatest selected group rest)) ]

abbrev pub without_group : List CandidateBlock → List CandidateBlock → List CandidateBlock
without_group group selected =
    keep_if (λ (c : CandidateBlock). not (mem c.block_id (ids_of group))) selected

pub record Final : Type 0 where
  pub selected : List CandidateBlock
  pub text : String
  pub exact_cost : ℕ
  pub removed : List BlockRejection

-- `while True`: each round but the last removes a group, so one round more than there are blocks is
-- enough.
unfoldable pub exact_loop :
    ℕ → TokenCounter → Counts → ℕ → List CandidateBlock → List BlockRejection → B Final
exact_loop zero counter counts b_ac selected removed = err out_of_fuel
exact_loop (suc fuel) counter counts b_ac selected removed = do
  exact_cost ← count_text counter (projection_text selected)
  elim (leb exact_cost b_ac) [
    | true ↦ ok (record {
      selected = selected;
      text = projection_text selected;
      exact_cost = exact_cost;
      removed = removed;
    })
    | false ↦ (do
      least ← lowest_priority_optional_group selected
      elim least [
        | none ↦ err (budget required_input_exceeds_budget)
        | some group ↦
            exact_loop fuel counter counts b_ac (without_group group selected)
              (removed ++ map (rejection counts "EXACT_BUDGET_COMPONENT_REMOVED") group)
      ])
  ]

unfoldable pub exact_final_selection : TokenCounter → Counts → ℕ → List CandidateBlock → B Final
unfolding exact_loop
exact_final_selection counter counts b_ac selected =
    exact_loop (suc (length selected)) counter counts b_ac selected []
