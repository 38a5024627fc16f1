-- ===== src/Runtime/Budget/Bounds.antt =====
-- What an assembly that succeeds may cost (astrcontinuum/runtime/budget.py).
use astrbot_plugin_astrconti.Prelude.{
  ℕ, zero, suc, ◌+◌, ◌≤◌, ◌≡◌, refl, subst, ok-injective, none, some, List, string_eq, nat_eq, ok,
  leb, ltb, bind-ok, bound, arith, leb→le, Bool-cases, inl, inr,
}
use astrbot_plugin_astrconti.Runtime.Candidate.{
  CandidateBlock, BlockRejection, AssemblyMode, AssemblyTrace,
}
use astrbot_plugin_astrconti.Storage.Journal.View.{RequestView}
use astrbot_plugin_astrconti.Runtime.Budget.Order.{
  TokenCounter, count_text, Counts, projection_text,
}
use astrbot_plugin_astrconti.Runtime.Budget.Select.{
  Final, exact_loop, lowest_priority_optional_group, without_group,
}
use astrbot_plugin_astrconti.Runtime.Budget.Assemble.{Amounts, trace}

-- A text and its exact cost, within the bound.
pub record IsExact (counter : TokenCounter) (b_ac : ℕ) (final : Final) : Type 0 where
  pub text : final.text ≡ projection_text final.selected
  pub cost : count_text counter final.text ≡ ok final.exact_cost
  pub bounded : final.exact_cost ≤ b_ac

-- What a round keeps, the loop's result has.
pub exact_loop-IsExact :
    (P : List CandidateBlock → Type 0) (counter : TokenCounter) (counts : Counts) (b_ac : ℕ)
    → ((selected group : List CandidateBlock)
        → lowest_priority_optional_group selected ≡ ok (some group)
        → P selected
        → P (without_group group selected))
    → (fuel : ℕ) (selected : List CandidateBlock) (removed : List BlockRejection) {final : Final}
    → exact_loop fuel counter counts b_ac selected removed ≡ ok final
    → P selected
    → IsExact counter b_ac final × P final.selected
unfolding exact_loop
exact_loop-IsExact P counter counts b_ac keeps zero selected removed h p = cc
exact_loop-IsExact P counter counts b_ac keeps (suc fuel) selected removed {final} h p =
    elim (bind-ok (count_text counter (projection_text selected)) _ h) [
      | bound n counted next ↦ elim (Bool-cases (leb n b_ac)) [
        | inl fits ↦
            let done : Final = record {
              selected = selected;
              text = projection_text selected;
              exact_cost = n;
              removed = removed;
            } in
            let here : IsExact counter b_ac done = record {
              text = refl;
              cost = counted;
              bounded = leb→le n b_ac fits;
            } in
            subst (λ z. IsExact counter b_ac z × P z.selected)
              (ok-injective done final (rw fits at next)) (here, p)
        | inr over ↦ elim (bind-ok (lowest_priority_optional_group selected) _ (rw over at next)) [
          | bound none found rest ↦ cc
          | bound (some group) found rest ↦
              exact_loop-IsExact P counter counts b_ac keeps fuel (without_group group selected) _
                rest (keeps selected group found p)
        ]
      ]
    ]

-- The trace of a projection within the budget.
pub record IsWithin (view : RequestView) (a : Amounts) (cost : ℕ) (t : AssemblyTrace) : Type 0 where
  pub b_input : t.b_input ≡ a.b_input
  pub b_ac : t.b_ac ≡ a.b_ac
  pub selected_cost : t.ac_selected_cost ≡ cost
  pub total : t.total_input_cost ≡ a.opaque_token_cost + a.b_required + cost
  pub bounded : t.total_input_cost ≤ a.b_input

pub trace-IsWithin :
    (view : RequestView) (selected : List CandidateBlock) (refused : List BlockRejection)
    (mode : AssemblyMode) (counts : Counts) (cost : ℕ) (a : Amounts) {t : AssemblyTrace}
    → trace view selected refused mode counts cost a ≡ ok t
    → IsWithin view a cost t
unfolding trace
trace-IsWithin view selected refused mode counts cost a {t} h =
    elim (Bool-cases (ltb a.b_input (a.opaque_token_cost + a.b_required + cost))) [
      | inl over ↦ cc (rw (over, trace) at h)
      | inr within ↦
          subst (λ (z : AssemblyTrace). IsWithin view a cost z)
            (ok-injective _ t (rw (within, trace) at h))
            (record {
              b_input = refl;
              b_ac = refl;
              selected_cost = refl;
              total = refl;
              bounded = ground arith;
            })
    ]
