-- ===== src/Tests/Projection.antt =====
-- A request of four messages, projected and restored.
use astrbot_plugin_astrconti.Prelude.{ℕ, ◌≡◌, refl, true, List, [], ◌∷◌, ◌++◌, ok}
use astrbot_plugin_astrconti.Runtime.Projection.{
  ProjectionGuard, ProjectedView, RestoredView, list_of, validate_message_list, validate_preserved,
  guard_projection, project, restore, verify_native,
}
use astrbot_plugin_astrconti.Runtime.Projection.RoundTrip.{restore-project}
use astrbot_plugin_astrconti.Runtime.Projection.Returns.{project-returns}

-- A system message, two of history, and the current one.
abbrev front : List ℕ
front = 10 ∷ 11 ∷ 12 ∷ []

abbrev guard : ProjectionGuard
guard = record {
  request_identity = 1;
  message_list_identity = 2;
  native_objects = 10 ∷ 11 ∷ 12 ∷ 13 ∷ [];
  native_history_objects = 11 ∷ 12 ∷ [];
  system_objects = 10 ∷ [];
  current_objects = 13 ∷ [];
}

abbrev projected : ProjectedView
projected = record {
  guard = guard;
  request_identity = 1;
  message_list_identity = 2;
  pre_projection_objects = 10 ∷ 11 ∷ 12 ∷ 13 ∷ [];
  projection_objects = 20 ∷ [];
  projected_objects = 10 ∷ 20 ∷ 13 ∷ [];
}

guard_projection-guard :
    guard_projection 1 (list_of 2 (front ++ 13 ∷ [])) (10 ∷ []) (13 ∷ []) ≡ ok guard
unfolding guard_projection validate_message_list
guard_projection-guard = refl

project-projected :
    project (list_of 2 (front ++ 13 ∷ [])) guard (20 ∷ []) ≡ ok (projected, 10 ∷ 20 ∷ 13 ∷ [])
unfolding project validate_message_list validate_preserved
project-projected = refl

restore-project_example :
    (restored : RestoredView) × ((restore (list_of 2 (10 ∷ 20 ∷ 13 ∷ 14 ∷ [])) projected
        ≡ ok (restored, 10 ∷ 11 ∷ 12 ∷ 13 ∷ 14 ∷ []))
      × ((restored.delta_objects ≡ 14 ∷ [])
          × (verify_native (list_of 2 (10 ∷ 11 ∷ 12 ∷ 13 ∷ 14 ∷ [])) restored ≡ true)))
restore-project_example =
    restore-project 1 2 2 front (13 ∷ []) (10 ∷ []) (20 ∷ []) (14 ∷ []) guard
      (projected, 10 ∷ 20 ∷ 13 ∷ []) guard_projection-guard project-projected refl refl refl

project-returns_example :
    (out : ProjectedView × List ℕ) × (project (list_of 2 (10 ∷ 11 ∷ 12 ∷ 13 ∷ [])) guard (20 ∷ [])
      ≡ ok out)
project-returns_example =
    project-returns 1 2 front (13 ∷ []) (10 ∷ []) (20 ∷ []) guard guard_projection-guard refl refl
      refl refl
