-- ===== src/Runtime/Projection/Steps.antt =====
-- What guard_projection, project and restore (astrcontinuum/runtime/projection.py) do where they return.
use astrbot_plugin_astrconti.Prelude.{
  ℕ, suc, ◌+◌, ◌≡◌, refl, sym, ap, ◌∙◌, true, false, not, ◌||◌, inl, inr, List, ◌∷◌, ◌++◌, ◌==◌,
  nat_eq, beq_refl, arith, Bool-cases, ok, bind-ok, bound, raise_if-ok, passed, ok-injective,
  length, any, keep_if, mem, is_unique, drop, take,
}
use astrbot_plugin_astrconti.Runtime.Candidate.{is_nil}
use astrbot_plugin_astrconti.Runtime.Projection.{
  ProjectionGuard, ProjectedView, list_of, project_stage, identity_occurrences,
  validate_message_list, validate_preserved, guard_projection, project, restore, positions,
  start_of,
}
use astrbot_plugin_astrconti.Runtime.Projection.Positions.{
  Apart, range, positions-range, length-range, in_order-range, last-range, drop_two,
}

-- A guard that was captured.
pub record Guards (request identity : ℕ) (items system current : List ℕ) (g : ProjectionGuard)
    : Type 0 where
  pub filled : is_nil current ≡ false
  pub unique : is_unique (system ++ current) ≡ true
  pub found :
      not (identity_occurrences items (system ++ current) == length (system ++ current)) ≡ false
  pub same : g ≡ record {
    request_identity = request;
    message_list_identity = identity;
    native_objects = items;
    native_history_objects = keep_if (λ x. not (mem x (system ++ current))) items;
    system_objects = system;
    current_objects = current;
  }

pub guard_projection-Guards :
    (request identity : ℕ) (items system current : List ℕ) {g : ProjectionGuard}
    → guard_projection request (list_of identity items) system current ≡ ok g
    → Guards request identity items system current g
unfolding guard_projection validate_message_list
guard_projection-Guards request identity items system current {g} h =
    elim (raise_if-ok (is_nil current || not (is_unique (system ++ current))) _ _ h) [
      | passed valid h1 ↦
          elim (raise_if-ok
            (not (identity_occurrences items (system ++ current) == length (system ++ current))) _ _
            h1) [
              | passed found done ↦ record {
                filled = ground arith;
                unique = ground arith;
                found = found;
                same = sym (ok-injective _ g done);
              }
            ]
    ]

abbrev pub retained : ProjectionGuard → List ℕ → List ℕ
retained g items = keep_if (λ x. not (mem x g.native_history_objects)) items

abbrev pub viewed : ProjectionGuard → List ℕ → List ℕ → ℕ → ProjectedView × List ℕ
viewed g items projection start =
    let written = take start (retained g items) ++ (projection ++ drop start (retained g items)) in
    (
      record {
        guard = g;
        request_identity = g.request_identity;
        message_list_identity = g.message_list_identity;
        pre_projection_objects = items;
        projection_objects = projection;
        projected_objects = written;
      },
      written,
    )

-- A projection that was made.
pub record Projects (g : ProjectionGuard) (items projection : List ℕ) (out : ProjectedView × List ℕ)
    : Type 0 where
  pub fresh : any (λ x. mem x items) projection ≡ false
  pub start : ℕ
  pub starts : start_of g.current_objects (retained g items) ≡ ok start
  pub same : viewed g items projection start ≡ out

pub project-Projects :
    (identity : ℕ) (g : ProjectionGuard) (items projection : List ℕ) (out : ProjectedView × List ℕ)
    → project (list_of identity items) g projection ≡ ok out
    → Projects g items projection out
unfolding project
project-Projects identity g items projection out h =
    elim (Bool-cases (identity == g.message_list_identity)) [
      | inr other ↦ cc (rw (project, validate_message_list, other) at h)
      | inl same ↦
          elim (bind-ok (validate_preserved items g project_stage) _
            (rw (project, validate_message_list, same) at h)) [
              | bound u kept h2 ↦
                  elim (raise_if-ok
                    (not (is_unique projection) || any (λ x. mem x items) projection) _ _ h2) [
                      | passed valid h3 ↦
                          elim (bind-ok (start_of g.current_objects (retained g items)) _ h3) [
                            | bound start starts done ↦ record {
                              fresh = ground arith;
                              start = start;
                              starts = starts;
                              same = ok-injective _ out done;
                            }
                          ]
                    ]
            ]
    ]

-- Restoring a list that has the current objects in a row, and then the delta.
pub restore_lem :
    (identity : ℕ) (v : ProjectedView) (c : ℕ) (cs pre delta : List ℕ)
    → v.guard.current_objects ≡ c ∷ cs
    → v.request_identity ≡ v.guard.request_identity
    → is_unique (c ∷ cs) ≡ true
    → Apart (c ∷ cs) pre
    → Apart (c ∷ cs) delta
    → any (λ x. mem x delta) v.projection_objects ≡ false
    → restore (list_of identity (pre ++ ((c ∷ cs) ++ delta))) v
      ≡ ok (
        record {
          projected = v;
          delta_objects = delta;
          restored_objects = v.pre_projection_objects ++ delta;
        },
        v.pre_projection_objects ++ delta,
      )
unfolding restore validate_message_list
restore_lem identity v c cs pre delta now same u a b new =
    let at : positions v.guard.current_objects (pre ++ ((c ∷ cs) ++ delta))
        ≡ range (length pre) (suc (length cs)) =
      ap (λ z. positions z (pre ++ ((c ∷ cs) ++ delta))) now
      ∙ positions-range (c ∷ cs) pre delta u a b in
    let wide : length v.guard.current_objects ≡ suc (length cs) = ap length now in
    let sums : suc (length pre + length cs) ≡ length pre + suc (length cs) = omega arith in
    let rest : drop (suc (length pre + length cs)) (pre ++ ((c ∷ cs) ++ delta)) ≡ delta =
      ap (λ n. drop n (pre ++ ((c ∷ cs) ++ delta))) sums ∙ drop_two pre (c ∷ cs) delta in
    rw
      (
        restore,
        same,
        beq_refl v.guard.request_identity,
        at,
        length-range (length pre) (suc (length cs)),
        wide,
        beq_refl (suc (length cs)),
        in_order-range (length pre) (suc (length cs)),
        last-range (length pre) (length cs),
        rest,
        new,
      )
      refl
