-- ===== src/Runtime/Projection/Returns.antt =====
-- When `project` (astrcontinuum/runtime/projection.py) returns.
use astrbot_plugin_astrconti.Prelude.{
  ℕ, ◌≡◌, refl, sym, ap, ◌∙◌, subst, true, false, List, [], ◌∷◌, ◌++◌, nat_eq, beq_refl, ok, length,
  any, mem, is_unique,
}
use mathlib.Core.List.{append-nil}
use astrbot_plugin_astrconti.Runtime.Projection.{
  ProjectionGuard, ProjectedView, list_of, validate_message_list, validate_preserved,
  guard_projection, project, positions, in_order,
}
use astrbot_plugin_astrconti.Runtime.Projection.Positions.{
  Apart, any-Apart, range, positions-range, in_order-range,
}
use astrbot_plugin_astrconti.Runtime.Projection.Retained.{is_unique_right}
use astrbot_plugin_astrconti.Runtime.Projection.Steps.{guard_projection-Guards, viewed}
use astrbot_plugin_astrconti.Runtime.Projection.RoundTrip.{captured, kept, start_of-retained}

-- A projection of unique objects that are not in the list is made, where a guard was captured of the
-- list, the system objects stand in it in order, and the current objects end it, none of them before.
pub project-returns :
    (request identity : ℕ) (front current system projection : List ℕ) (g : ProjectionGuard)
    → guard_projection request (list_of identity (front ++ current)) system current ≡ ok g
    → in_order (positions system (front ++ current)) ≡ true
    → any (λ t. mem t front) current ≡ false
    → is_unique projection ≡ true
    → any (λ x. mem x (front ++ current)) projection ≡ false
    → (out : ProjectedView × List ℕ) × (project (list_of identity (front ++ current)) g projection
        ≡ ok out)
unfolding project validate_message_list validate_preserved
project-returns request identity front [] system projection g hg o a u f =
    let w = guard_projection-Guards request identity (front ++ []) system [] hg in cc w.filled
project-returns request identity front (c ∷ cs) system projection g hg o a u f =
    let w = guard_projection-Guards request identity (front ++ (c ∷ cs)) system (c ∷ cs) hg in
    let apart = any-Apart (c ∷ cs) front a in
    let at : positions (c ∷ cs) (front ++ (c ∷ cs)) ≡ range (length front) (length (c ∷ cs)) =
      subst (λ z. positions (c ∷ cs) (front ++ z) ≡ range (length front) (length (c ∷ cs)))
        (append-nil (c ∷ cs))
        (positions-range (c ∷ cs) front [] (is_unique_right system (c ∷ cs) w.unique) apart
          (nowhere (c ∷ cs))) in
    let ordered : in_order (positions (c ∷ cs) (front ++ (c ∷ cs))) ≡ true =
      ap in_order at ∙ in_order-range (length front) (length (c ∷ cs)) in
    let start = start_of-retained request identity front system c cs projection apart in
    subst
      (λ z.
        (out : ProjectedView × List ℕ) × (project (list_of identity (front ++ (c ∷ cs))) z
            projection
          ≡ ok out))
      (sym w.same)
      (
        viewed (captured request identity front system c cs projection) (front ++ (c ∷ cs))
            projection (length (kept request identity front system c cs projection)),
        rw
            (
              project,
              validate_message_list,
              beq_refl identity,
              validate_preserved,
              w.found,
              o,
              ordered,
              u,
              f,
              start,
            )
            refl,
      )
  where
    nowhere : (ts : List ℕ) → Apart ts []
    nowhere [] = tt
    nowhere (t ∷ ts) = (refl, nowhere ts)
