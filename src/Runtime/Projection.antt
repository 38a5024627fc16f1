-- ===== src/Runtime/Projection.antt =====
-- astrcontinuum/runtime/projection.py and the views of types.py. An object is its identity, `id(x)`,
-- and a list is its identity and its items; a function that writes to the list returns the items that
-- it leaves. The arguments that are declared as tuples are sequences, so the test that they are tuples
-- is left out.
pub mod Positions
pub mod Retained
pub mod Steps
pub mod RoundTrip
pub mod Returns
use astrbot_plugin_astrconti.Prelude.{
  ℕ, zero, suc, ◌+◌, ◌*◌, max, Bool, true, false, not, ◌&&◌, ◌||◌, Option, none, some, List, [],
  ◌∷◌, ◌++◌, ◌==◌, nat_eq, Result, ok, err, ◌>>=◌, ◌>>◌, raise_if, if◌then◌else◌, leb, length, any,
  all, keep_if, mem, take, drop, is_unique, sum_by, sort_by,
}
use astrbot_plugin_astrconti.Runtime.Candidate.{is_nil}

pub data ProjectionErrorCode : Type 0 where
  message_list_invalid list_identity_mismatch preserved_object_invalid preserved_object_mismatch
        projection_object_invalid request_identity_mismatch projected_prefix_mismatch :
      ProjectionErrorCode

pub data ProjectionStage : Type 0 where
  guard_stage project_stage restore_stage : ProjectionStage

-- `ProjectionInvariantError`
pub record ProjectionInvariantError : Type 0 where
  pub code : ProjectionErrorCode
  pub stage : ProjectionStage
  pub expected_count : ℕ
  pub actual_count : ℕ
  pub message_list_identity_match : Bool

-- What the functions raise: `next` and an index raise where the guard's current objects are missing.
pub data ProjectionFailure : Type 0 where
  invalid : ProjectionInvariantError → ProjectionFailure
  stop_iteration index_error : ProjectionFailure

abbrev pub P : Type 0 → Type 0
P A = Result ProjectionFailure A

pub record ProjectionGuard : Type 0 where
  pub request_identity : ℕ
  pub message_list_identity : ℕ
  pub native_objects : List ℕ
  pub native_history_objects : List ℕ
  pub system_objects : List ℕ
  pub current_objects : List ℕ

pub record ProjectedView : Type 0 where
  pub guard : ProjectionGuard
  pub request_identity : ℕ
  pub message_list_identity : ℕ
  pub pre_projection_objects : List ℕ
  pub projection_objects : List ℕ
  pub projected_objects : List ℕ

pub record RestoredView : Type 0 where
  pub projected : ProjectedView
  pub delta_objects : List ℕ
  pub restored_objects : List ℕ

-- What stands where a list of messages is expected.
pub data Messages : Type 0 where
  list_of : (identity : ℕ) → (items : List ℕ) → Messages
  no_list : Messages

abbrev pub failure : ProjectionErrorCode → ProjectionStage → ℕ → ℕ → Bool → ProjectionFailure
failure code stage expected actual identity_match = invalid (record {
  code = code;
  stage = stage;
  expected_count = expected;
  actual_count = actual;
  message_list_identity_match = identity_match;
})

-- `_same_identity_sequence`
abbrev pub same_identity_sequence : List ℕ → List ℕ → Bool
same_identity_sequence [] [] = true
same_identity_sequence (x ∷ xs) (y ∷ ys) = x == y && same_identity_sequence xs ys
same_identity_sequence _ _ = false

abbrev pub occurrences : ℕ → List ℕ → ℕ
occurrences target messages = length (keep_if (λ x. x == target) messages)

-- `_identity_occurrences`
abbrev pub identity_occurrences : List ℕ → List ℕ → ℕ
identity_occurrences messages targets = sum_by (λ target. occurrences target messages) targets

-- `_validate_message_list`
unfoldable pub validate_message_list : Messages → ProjectionStage → Option ℕ → P (ℕ × List ℕ)
validate_message_list no_list stage expected = err (failure message_list_invalid stage 0 0 false)
validate_message_list (list_of identity items) stage none = ok (identity, items)
validate_message_list (list_of identity items) stage (some expected) = elim (identity == expected) [
  | true ↦ ok (identity, items)
  | false ↦ err (failure list_identity_mismatch stage 0 (length items) false)
]

-- The positions of a target, counted from `n`.
abbrev pub positions_from : ℕ → ℕ → List ℕ → List ℕ
positions_from n target [] = []
positions_from n target (x ∷ xs) =
    let rest = positions_from (suc n) target xs in if x == target then n ∷ rest else rest

abbrev pub positions : List ℕ → List ℕ → List ℕ
positions [] messages = []
positions (target ∷ targets) messages =
    positions_from 0 target messages ++ positions targets messages

abbrev pub in_order : List ℕ → Bool
in_order indexes = same_identity_sequence indexes (sort_by leb indexes)

abbrev pub ordered_group : List ℕ → List ℕ → ProjectionStage → P (Unit {0})
ordered_group messages group stage = raise_if (not (in_order (positions group messages))) (
    failure preserved_object_mismatch stage (length group) (length (positions group messages)) true)

-- `_validate_preserved`
unfoldable pub validate_preserved : List ℕ → ProjectionGuard → ProjectionStage → P (Unit {0})
validate_preserved messages g stage = do
  let preserved = g.system_objects ++ g.current_objects
  let actual = identity_occurrences messages preserved
  raise_if (not (actual == length preserved))
      (failure preserved_object_mismatch stage (length preserved) actual true)
  ordered_group messages g.system_objects stage
  ordered_group messages g.current_objects stage

unfoldable pub guard_projection : ℕ → Messages → List ℕ → List ℕ → P ProjectionGuard
unfolding validate_message_list
guard_projection request messages system_objects current_objects = do
  (identity, items) ← validate_message_list messages guard_stage none
  let preserved = system_objects ++ current_objects
  let actual = identity_occurrences items preserved
  raise_if (is_nil current_objects || not (is_unique preserved))
      (failure preserved_object_invalid guard_stage (length preserved) actual true)
  raise_if (not (actual == length preserved))
      (failure preserved_object_mismatch guard_stage (length preserved) actual true)
  ok (record {
    request_identity = request;
    message_list_identity = identity;
    native_objects = items;
    native_history_objects = keep_if (λ x. not (mem x preserved)) items;
    system_objects = system_objects;
    current_objects = current_objects;
  })

-- `next(index for index, message in enumerate(retained) if message is target)`
abbrev pub first_index : ℕ → ℕ → List ℕ → Option ℕ
first_index n target [] = none
first_index n target (x ∷ xs) =
    let rest = first_index (suc n) target xs in if x == target then some n else rest

abbrev pub start_of : List ℕ → List ℕ → P ℕ
start_of [] retained = elim retained [ [] ↦ err stop_iteration | x ∷ xs ↦ err index_error ]
start_of (target ∷ targets) retained = elim (first_index 0 target retained) [
  | none ↦ err stop_iteration
  | some n ↦ ok n
]

unfoldable pub project : Messages → ProjectionGuard → List ℕ → P (ProjectedView × List ℕ)
unfolding validate_message_list validate_preserved
project messages g projection_objects = do
  (identity, items) ← validate_message_list messages project_stage (some g.message_list_identity)
  validate_preserved items g project_stage
  raise_if (not (is_unique projection_objects) || any (λ x. mem x items) projection_objects) (
      failure projection_object_invalid project_stage (max 1 (length projection_objects))
        (length projection_objects) true)
  let retained = keep_if (λ x. not (mem x g.native_history_objects)) items
  current_start ← start_of g.current_objects retained
  let projected = take current_start retained ++ (projection_objects ++ drop current_start retained)
  ok (
    record {
      guard = g;
      request_identity = g.request_identity;
      message_list_identity = g.message_list_identity;
      pre_projection_objects = items;
      projection_objects = projection_objects;
      projected_objects = projected;
    },
    projected,
  )

abbrev pub last : List ℕ → P ℕ
last [] = err index_error
last (x ∷ []) = ok x
last (x ∷ y ∷ ys) = last (y ∷ ys)

unfoldable pub restore : Messages → ProjectedView → P (RestoredView × List ℕ)
unfolding validate_message_list
restore messages projected = do
  let g = projected.guard
  (identity, items) ← validate_message_list messages restore_stage none
  raise_if (not (projected.request_identity == g.request_identity))
      (failure request_identity_mismatch restore_stage 1 0 true)
  let current_positions = positions g.current_objects items
  let same_list = identity == projected.message_list_identity
  raise_if
      (not (length current_positions == length g.current_objects)
        || not (in_order current_positions))
      (failure projected_prefix_mismatch restore_stage (length g.current_objects)
        (length current_positions) same_list)
  end ← last current_positions
  let delta_objects = drop (suc end) items
  raise_if (any (λ x. mem x delta_objects) projected.projection_objects)
      (failure projected_prefix_mismatch restore_stage 0 1 same_list)
  let restored = projected.pre_projection_objects ++ delta_objects
  ok (
    record { projected = projected; delta_objects = delta_objects; restored_objects = restored },
    restored,
  )

unfoldable pub verify_native : Messages → RestoredView → Bool
verify_native no_list restored = false
verify_native (list_of identity items) restored =
    same_identity_sequence items (restored.projected.guard.native_objects ++ restored.delta_objects)
