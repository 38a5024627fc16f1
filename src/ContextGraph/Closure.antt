-- ===== src/ContextGraph/Closure.antt =====
-- astrcontinuum/context_graph/closure.py: structural companions, their connected components, and the
-- closure of a selection. An index of the source stands with its candidate; a set of indexes is their
-- list in increasing order.
use astrbot_plugin_astrconti.Prelude.{
  ℕ, zero, suc, String, Bool, true, false, not, ◌&&◌, ◌||◌, Option, none, some, List, [], ◌∷◌, ◌==◌,
  string_eq, nat_eq, Result, ok, err, ◌>>=◌, ◌>>◌, raise_if, if◌then◌else◌, leb, ltb, length, any,
  keep_if, mem, is_unique, map, sort_by,
}
use astrbot_plugin_astrconti.Runtime.Candidate.{CandidateBlock, is_dependency}

pub data ClosureError : Type 0 where
  group_duplicate_block closure_duplicate_block closure_unknown_block closure_capacity_exceeded
        max_blocks_not_positive out_of_fuel :
      ClosureError

abbrev pub shares : List String → List String → Bool
shares xs ys = any (λ x. mem x ys) xs

abbrev pub same_capsule : Option String → Option String → Bool
same_capsule none other = false
same_capsule (some id) none = false
same_capsule (some id) (some other) = id == other

-- `_companions`
unfoldable pub companions : CandidateBlock → CandidateBlock → Bool
companions left right =
    (is_dependency left.kind || is_dependency right.kind)
    && (same_capsule left.capsule_id right.capsule_id
        || shares left.source_event_ids right.source_event_ids)

pub record Numbered : Type 0 where
  pub index : ℕ
  pub block : CandidateBlock

abbrev pub number_from : ℕ → List CandidateBlock → List Numbered
number_from n [] = []
number_from n (c ∷ cs) = record { index = n; block = c } ∷ number_from (suc n) cs

abbrev pub holds_index : ℕ → List Numbered → Bool
holds_index n xs = any (λ (x : Numbered). x.index == n) xs

abbrev pub without : ℕ → List Numbered → List Numbered
without n xs = keep_if (λ (x : Numbered). not (x.index == n)) xs

abbrev pub prepend_reversed {ℓ} : {A : Type ℓ} → List A → List A → List A
prepend_reversed [] ys = ys
prepend_reversed (x ∷ xs) ys = prepend_reversed xs (x ∷ ys)

-- `while pending`: the stack's top stands first. An index that was visited is dropped; another
-- leaves `remaining`, so as many rounds as there are remaining ones are enough.
unfoldable pub walk :
    ℕ
    → List Numbered
    → List Numbered
    → List Numbered
    → Result ClosureError (List Numbered × List Numbered)
walk fuel [] component remaining = ok (component, remaining)
walk zero (p ∷ pending) component remaining = elim (holds_index p.index component) [
  | true ↦ walk zero pending component remaining
  | false ↦ err out_of_fuel
]
walk (suc fuel) (p ∷ pending) component remaining = elim (holds_index p.index component) [
  | true ↦ walk (suc fuel) pending component remaining
  | false ↦
      walk fuel
        (prepend_reversed
          (keep_if (λ (x : Numbered). companions p.block x.block) (without p.index remaining))
          pending)
        (p ∷ component) (without p.index remaining)
]

abbrev pub index_le : Numbered → Numbered → Bool
index_le a b = leb a.index b.index

abbrev pub blocks_of : List Numbered → List CandidateBlock
blocks_of xs = map (λ (x : Numbered). x.block) xs

-- `while remaining`: the least index starts a component.
unfoldable pub components : ℕ → List Numbered → Result ClosureError (List (List CandidateBlock))
unfolding walk
components fuel [] = ok []
components zero (x ∷ remaining) = err out_of_fuel
components (suc fuel) (x ∷ remaining) = do
  (component, rest) ← walk (length (x ∷ remaining)) (x ∷ []) [] (x ∷ remaining)
  groups ← components fuel rest
  ok (blocks_of (sort_by index_le component) ∷ groups)

abbrev pub ids_of : List CandidateBlock → List String
ids_of cs = map (λ (c : CandidateBlock). c.block_id) cs

unfoldable pub dependency_groups :
    List CandidateBlock → Result ClosureError (List (List CandidateBlock))
unfolding components
dependency_groups candidates = do
  raise_if (not (is_unique (ids_of candidates))) group_duplicate_block
  components (length candidates) (number_from 0 candidates)

abbrev pub has_required : List CandidateBlock → Bool
has_required group = any (λ (c : CandidateBlock). c.required) group

unfoldable pub removable_dependency_groups :
    List CandidateBlock → Result ClosureError (List (List CandidateBlock))
unfolding dependency_groups
removable_dependency_groups candidates = do
  groups ← dependency_groups candidates
  ok (keep_if (λ group. not (has_required group)) groups)

-- `for right in available`
unfoldable pub absorb :
    ℕ → CandidateBlock → List CandidateBlock → List String → Result ClosureError (List String)
absorb max_blocks left [] selected = ok selected
absorb max_blocks left (right ∷ rest) selected =
    elim (mem right.block_id selected || not (companions left right)) [
      | true ↦ absorb max_blocks left rest selected
      | false ↦ (do
        raise_if (leb max_blocks (length selected)) closure_capacity_exceeded
        absorb max_blocks left rest (right.block_id ∷ selected))
    ]

-- `for left in active`
unfoldable pub absorb_all :
    ℕ → List CandidateBlock → List CandidateBlock → List String → Result ClosureError (List String)
unfolding absorb
absorb_all max_blocks [] available selected = ok selected
absorb_all max_blocks (left ∷ active) available selected = do
  selected' ← absorb max_blocks left available selected
  absorb_all max_blocks active available selected'

abbrev pub chosen : List String → List CandidateBlock → List CandidateBlock
chosen selected cs = keep_if (λ (c : CandidateBlock). mem c.block_id selected) cs

-- `while changed`: a round that changes adds an id of `available`.
unfoldable pub close_rounds :
    ℕ → ℕ → List CandidateBlock → List String → Result ClosureError (List String)
unfolding absorb_all
close_rounds zero max_blocks available selected = err out_of_fuel
close_rounds (suc fuel) max_blocks available selected = do
  selected' ← absorb_all max_blocks (chosen selected available) available selected
  elim (length selected' == length selected) [
    | true ↦ ok selected'
    | false ↦ close_rounds fuel max_blocks available selected'
  ]

abbrev pub add_ids : List CandidateBlock → List String → List String
add_ids [] ids = ids
add_ids (c ∷ cs) ids = add_ids cs (if mem c.block_id ids then ids else c.block_id ∷ ids)

unfoldable pub close_dependency_closure :
    List CandidateBlock → List CandidateBlock → ℕ → Result ClosureError (List CandidateBlock)
unfolding close_rounds
close_dependency_closure selected_blocks available max_blocks = do
  raise_if (ltb max_blocks 1) max_blocks_not_positive
  raise_if (not (is_unique (ids_of available))) closure_duplicate_block
  raise_if (any (λ (c : CandidateBlock). not (mem c.block_id (ids_of available))) selected_blocks)
      closure_unknown_block
  let selected =
      add_ids (keep_if (λ (c : CandidateBlock). c.required) available) (add_ids selected_blocks [])
  raise_if (ltb max_blocks (length selected)) closure_capacity_exceeded
  closed ← close_rounds (suc (length available)) max_blocks available selected
  ok (chosen closed available)

abbrev pub same_texts : List String → List String → Bool
same_texts [] [] = true
same_texts (x ∷ xs) (y ∷ ys) = x == y && same_texts xs ys
same_texts _ _ = false

unfoldable pub validate_dependency_closure : List CandidateBlock → List CandidateBlock → ℕ → Bool
unfolding close_dependency_closure
validate_dependency_closure packed universe max_blocks =
    elim (close_dependency_closure packed universe max_blocks) [
      | err e ↦ false
      | ok closed ↦ same_texts (ids_of packed) (ids_of closed)
    ]
