-- ===== src/Runtime/Projection/RoundTrip.antt =====
-- guard_projection, project, restore and verify_native (astrcontinuum/runtime/projection.py) together.
use astrbot_plugin_astrconti.Prelude.{
  ℕ, ◌≡◌, refl, sym, ap, ◌∙◌, subst, true, false, not, some, List, [], ◌∷◌, ◌++◌, nat_eq, arith, ok,
  ok-injective, length, any, keep_if, mem, is_unique,
}
use mathlib.Core.List.{append_assoc}
use astrbot_plugin_astrconti.Runtime.Projection.{
  ProjectionGuard, ProjectedView, RestoredView, list_of, guard_projection, project, restore,
  verify_native, start_of, first_index,
}
use astrbot_plugin_astrconti.Runtime.Projection.Positions.{
  Apart, any-Apart, Apart-append, Apart-keep_if, mem-keep_if, take-append, drop-append,
  first_index-append, same_identity_sequence_refl,
}
use astrbot_plugin_astrconti.Runtime.Projection.Retained.{
  keep_if-append, keep_if_preserved, is_unique_right, Apart_of_fresh,
}
use astrbot_plugin_astrconti.Runtime.Projection.Steps.{
  guard_projection-Guards, retained, viewed, project-Projects, restore_lem,
}

-- The list comes back, with its delta.
abbrev Restores : ℕ → List ℕ → List ℕ → ProjectedView × List ℕ → Type 0
Restores identity items delta out =
    (restored : RestoredView) × ((restore (list_of identity (out.1 ++ delta)) out.0
        ≡ ok (restored, items ++ delta))
      × ((restored.delta_objects ≡ delta)
          × (verify_native (list_of identity (items ++ delta)) restored ≡ true)))

-- A captured guard of a native list that ends with the current objects.
module _ (request identity : ℕ) (front system : List ℕ) (c : ℕ) (cs projection : List ℕ) where
  abbrev pub captured : ProjectionGuard
  captured = record {
    request_identity = request;
    message_list_identity = identity;
    native_objects = front ++ (c ∷ cs);
    native_history_objects = keep_if (λ x. not (mem x (system ++ (c ∷ cs)))) (front ++ (c ∷ cs));
    system_objects = system;
    current_objects = c ∷ cs;
  }

  -- What the guard retains of the front.
  abbrev pub kept : List ℕ
  kept = keep_if (λ x. not (mem x captured.native_history_objects)) front

  pub retained_lem : retained captured (front ++ (c ∷ cs)) ≡ kept ++ (c ∷ cs)
  retained_lem =
      keep_if-append (λ x. not (mem x captured.native_history_objects)) front (c ∷ cs)
      ∙ ap (λ z. kept ++ z) (keep_if_preserved system (c ∷ cs) (front ++ (c ∷ cs)))

  pub start_of-retained :
      Apart (c ∷ cs) front
      → start_of (c ∷ cs) (retained captured (front ++ (c ∷ cs))) ≡ ok (length kept)
  start_of-retained (a, b) =
      let at : first_index 0 c (retained captured (front ++ (c ∷ cs))) ≡ some (length kept) =
        rw retained_lem
          (first_index-append 0 c kept cs (mem-keep_if _ c front a) ∙ ap some (omega arith)) in
      rw (start_of, at)

  viewed_lem :
      (start : ℕ)
      → Apart (c ∷ cs) front
      → start_of (c ∷ cs) (retained captured (front ++ (c ∷ cs))) ≡ ok start
      → (viewed captured (front ++ (c ∷ cs)) projection start).1 ≡ (kept ++ projection) ++ (c ∷ cs)
  viewed_lem start a h =
      let same : length kept ≡ start =
        ok-injective (length kept) start (sym (start_of-retained a) ∙ h) in
      rw (sym same, retained_lem, take-append kept (c ∷ cs), drop-append kept (c ∷ cs))
        (sym (append_assoc kept projection (c ∷ cs)))

  -- The list that a projection leaves, with a delta appended, is restored.
  restore-viewed :
      (start identity' : ℕ) (delta : List ℕ)
      → is_unique (system ++ (c ∷ cs)) ≡ true
      → Apart (c ∷ cs) front
      → any (λ x. mem x (front ++ (c ∷ cs))) projection ≡ false
      → start_of (c ∷ cs) (retained captured (front ++ (c ∷ cs))) ≡ ok start
      → Apart (c ∷ cs) delta
      → any (λ x. mem x delta) projection ≡ false
      → Restores identity'
          (front ++ (c ∷ cs))
          delta
          (viewed captured (front ++ (c ∷ cs)) projection start)
  unfolding verify_native
  restore-viewed start identity' delta u a fresh h b new =
      let out = viewed captured (front ++ (c ∷ cs)) projection start in
      let row : out.1 ++ delta ≡ (kept ++ projection) ++ ((c ∷ cs) ++ delta) =
        ap (λ z. z ++ delta) (viewed_lem start a h)
        ∙ append_assoc (kept ++ projection) (c ∷ cs) delta in
      let before : Apart (c ∷ cs) (kept ++ projection) =
        Apart-append (c ∷ cs) kept projection (Apart-keep_if _ (c ∷ cs) front a)
          (Apart_of_fresh front (c ∷ cs) projection fresh) in
      let back =
        restore_lem identity' out.0 c cs (kept ++ projection) delta refl refl
          (is_unique_right system (c ∷ cs) u) before b new in
      let done : RestoredView = record {
        projected = out.0;
        delta_objects = delta;
        restored_objects = (front ++ (c ∷ cs)) ++ delta;
      } in
      (
        done,
        (
          subst (λ z. restore (list_of identity' z) out.0 ≡ ok (done, (front ++ (c ∷ cs)) ++ delta))
              (sym row) back,
          (refl, same_identity_sequence_refl ((front ++ (c ∷ cs)) ++ delta)),
        ),
      )

-- A native list that ends with its current objects, none of them before, comes back: where a guard was
-- captured of it and a projection made, restoring the projected list with a delta appended, that has
-- no current and no projection object, gives the native list with the delta, and the verification
-- accepts that list.
pub restore-project :
    (request identity identity' : ℕ) (front current system projection delta : List ℕ)
    (g : ProjectionGuard) (out : ProjectedView × List ℕ)
    → guard_projection request (list_of identity (front ++ current)) system current ≡ ok g
    → project (list_of identity (front ++ current)) g projection ≡ ok out
    → any (λ t. mem t front) current ≡ false
    → any (λ t. mem t delta) current ≡ false
    → any (λ x. mem x delta) projection ≡ false
    → (restored : RestoredView) × ((restore (list_of identity' (out.1 ++ delta)) out.0
          ≡ ok (restored, (front ++ current) ++ delta))
        × ((restored.delta_objects ≡ delta)
            × (verify_native (list_of identity' ((front ++ current) ++ delta)) restored ≡ true)))
restore-project request identity identity' front [] system projection delta g out hg hp a b new =
    let w = guard_projection-Guards request identity (front ++ []) system [] hg in cc w.filled
restore-project request identity identity' front (c ∷ cs) system projection delta g out hg hp a b
      new =
    let w = guard_projection-Guards request identity (front ++ (c ∷ cs)) system (c ∷ cs) hg in
    let p =
      project-Projects identity (captured request identity front system c cs projection)
        (front ++ (c ∷ cs)) projection out
        (subst (λ z. project (list_of identity (front ++ (c ∷ cs))) z projection ≡ ok out) w.same
          hp) in
    subst (Restores identity' (front ++ (c ∷ cs)) delta) p.same (
      restore-viewed request identity front system c cs projection p.start identity' delta w.unique
        (any-Apart (c ∷ cs) front a) p.fresh p.starts (any-Apart (c ∷ cs) delta b) new)
