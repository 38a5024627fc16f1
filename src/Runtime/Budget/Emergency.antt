-- ===== src/Runtime/Budget/Emergency.antt =====
-- _contiguous_raw_tail, _longest_raw_suffix and _emergency_selection
-- (astrcontinuum/runtime/budget.py).
use astrbot_plugin_astrconti.Prelude.{
  ℕ, ◌+◌, ◌-◌, ◌*◌, String, Bool, true, false, not, ◌&&◌, ◌||◌, Option, none, some, List, [], ◌∷◌,
  ◌++◌, ◌==◌, string_eq, nat_eq, ok, ◌>>=◌, if◌then◌else◌, leb, length, keep_if, mem, map, sum_by,
}
use astrbot_plugin_astrconti.Runtime.Candidate.{
  CandidateBlock, RuntimeSlot, runtime_slot_priority, slot_beq, BlockRejection,
}
use astrbot_plugin_astrconti.ContextGraph.Closure.{ids_of, has_required, dependency_groups}
use astrbot_plugin_astrconti.Runtime.Budget.Order.{B, is_raw, Counts, cost_of, rejection}
use astrbot_plugin_astrconti.Runtime.Budget.Select.{
  from_closure, group_of, Selection, start, offer, handle, chosen_by,
}

abbrev pub has_sequence : CandidateBlock → Bool
has_sequence c = elim c.event_sequence [ none ↦ false | some n ↦ true ]

abbrev pub adjoins : Option ℕ → ℕ → Option ℕ → Bool
adjoins (some previous) n (some current) = previous + n == current
adjoins _ n _ = false

-- The longest suffix in which each block begins where the one before it ends.
abbrev pub contiguous_suffix : List CandidateBlock → List CandidateBlock
contiguous_suffix [] = []
contiguous_suffix (c ∷ []) = c ∷ []
contiguous_suffix (c ∷ d ∷ rest) =
    let tail = contiguous_suffix (d ∷ rest) in
    if length tail == length (d ∷ rest)
      && adjoins c.event_sequence (length c.source_event_ids) d.event_sequence
    then c ∷ tail
    else tail

-- `_contiguous_raw_tail`
unfoldable pub contiguous_raw_tail : List CandidateBlock → List CandidateBlock
contiguous_raw_tail candidates = contiguous_suffix (keep_if has_sequence candidates)

module _ (counts : Counts) (separator_cost b_ac : ℕ) where
  abbrev pub estimated : List CandidateBlock → List CandidateBlock → ℕ
  estimated critical units =
      sum_by (cost_of counts) critical
      + sum_by (cost_of counts) units
      + separator_cost * (length critical + length units - 1)

  -- `_longest_raw_suffix`
  unfoldable pub longest_raw_suffix :
      List CandidateBlock → List CandidateBlock → List CandidateBlock
  longest_raw_suffix critical [] = []
  longest_raw_suffix critical (c ∷ rest) =
      let shorter = longest_raw_suffix critical rest in
      if leb (estimated critical (c ∷ rest)) b_ac then c ∷ rest else shorter

  -- A group of several blocks or of a slot that is not raw.
  unfoldable pub offer_required : List CandidateBlock → Selection → Selection
  unfolding offer
  offer_required group s =
      if not (has_required group)
      then (record s {
        rejected = s.rejected ++ map (rejection counts "EMERGENCY_OPTIONAL_OMITTED") group;
      })
      else offer counts separator_cost b_ac "EMERGENCY_REQUIRED_NOT_FIT" group s

  abbrev pub handle_group : List CandidateBlock → Selection → Selection
  handle_group = handle counts separator_cost b_ac

  -- `for candidate in slot_candidates` of a slot that is not raw
  unfoldable pub slot_loop :
      List (List CandidateBlock) → List CandidateBlock → Selection → Selection
  unfolding offer_required
  slot_loop groups [] s = s
  slot_loop groups (c ∷ cs) s = slot_loop groups cs (
      if mem c.block_id s.handled_ids
      then s
      else offer_required (group_of groups c) (handle_group (group_of groups c) s))

  -- The groups of several blocks that the slot's candidates stand in.
  abbrev pub atomic_groups :
      List (List CandidateBlock) → List CandidateBlock → List String → List (List CandidateBlock)
  atomic_groups groups [] seen = []
  atomic_groups groups (c ∷ cs) seen =
      elim (length (group_of groups c) == 1 || mem c.block_id seen) [
        | true ↦ atomic_groups groups cs seen
        | false ↦ group_of groups c ∷ atomic_groups groups cs (ids_of (group_of groups c) ++ seen)
      ]

  -- `for group in atomic_groups`
  unfoldable pub atomic_loop : List (List CandidateBlock) → Selection → Selection
  unfolding offer_required
  atomic_loop [] s = s
  atomic_loop (group ∷ groups) s = atomic_loop groups (offer_required group (handle_group group s))

  -- `for candidate in selected_raw`
  unfoldable pub take_raw : List CandidateBlock → Selection → Selection
  take_raw [] s = s
  take_raw (c ∷ cs) s = take_raw cs (record s {
    selected_cost =
        s.selected_cost + (if s.selected_count == 0 then 0 else separator_cost) + cost_of counts c;
    selected_count = s.selected_count + 1;
    selected_ids = c.block_id ∷ s.selected_ids;
  })

  abbrev pub unhandled : Selection → List CandidateBlock → List CandidateBlock
  unhandled s cs = keep_if (λ (c : CandidateBlock). not (mem c.block_id s.handled_ids)) cs

  -- A raw slot, after its atomic groups.
  unfoldable pub raw_rest : List CandidateBlock → List CandidateBlock → Selection → Selection
  unfolding longest_raw_suffix contiguous_raw_tail take_raw
  raw_rest candidates slot_candidates s =
      let raw =
        longest_raw_suffix (chosen_by counts separator_cost b_ac s candidates)
          (contiguous_raw_tail slot_candidates) in
      let omitted =
        keep_if (λ (c : CandidateBlock). not (mem c.block_id (ids_of raw))) slot_candidates in
      let s' = take_raw raw s in
      (record s' {
        handled_ids = ids_of slot_candidates ++ s'.handled_ids;
        rejected = s'.rejected ++ map (rejection counts "EMERGENCY_RAW_PREFIX_OMITTED") omitted;
      })

  abbrev pub in_slot : RuntimeSlot → List CandidateBlock → List CandidateBlock
  in_slot slot cs = keep_if (λ (c : CandidateBlock). slot_beq c.slot slot) cs

  -- One slot.
  unfoldable pub emergency_slot :
      List (List CandidateBlock) → List CandidateBlock → RuntimeSlot → Selection → Selection
  unfolding slot_loop atomic_loop raw_rest
  emergency_slot groups candidates slot s =
      let slot_candidates = unhandled s (in_slot slot candidates) in
      if is_raw slot
      then (let s' = atomic_loop (atomic_groups groups slot_candidates []) s in
          raw_rest candidates (unhandled s' slot_candidates) s')
      else slot_loop groups slot_candidates s

  -- `for slot in RUNTIME_SLOT_PRIORITY`
  unfoldable pub emergency_loop :
      List (List CandidateBlock) → List CandidateBlock → List RuntimeSlot → Selection → Selection
  unfolding emergency_slot
  emergency_loop groups candidates [] s = s
  emergency_loop groups candidates (slot ∷ slots) s =
      emergency_loop groups candidates slots (emergency_slot groups candidates slot s)

  unfoldable pub emergency_selection :
      List CandidateBlock → B (List CandidateBlock × List BlockRejection)
  unfolding emergency_loop
  emergency_selection candidates = do
    groups ← from_closure (dependency_groups candidates)
    let s = emergency_loop groups candidates runtime_slot_priority start
    ok (chosen_by counts separator_cost b_ac s candidates, s.rejected)
