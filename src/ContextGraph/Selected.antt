-- ===== src/ContextGraph/Selected.antt =====
-- What close_dependency_closure (astrcontinuum/context_graph/closure.py) selects.
use astrbot_plugin_astrconti.Prelude.{
  ℕ, suc, ◌≤◌, ◌≡◌, ◌≢◌, subst, String, Bool, true, false, not, inl, inr, List, [], ◌∷◌, nat_eq,
  string_eq, arith, EachOf, EachOf-map, EachOf-both, EachOf-kept, keep_if, mem, any, length, ltb,
  ok, err, raise_if, bind-ok, bound, bind-err, at_once, later, raise_if-err, raise_if-ok, passed,
  ok-injective, is_unique,
}
use astrbot_plugin_astrconti.Runtime.Candidate.{CandidateBlock}
use astrbot_plugin_astrconti.ContextGraph.Closure.{
  out_of_fuel, closure_capacity_exceeded, closure_duplicate_block, closure_unknown_block,
  max_blocks_not_positive, ids_of, chosen, close_rounds, add_ids, close_dependency_closure,
}
use astrbot_plugin_astrconti.ContextGraph.Absorb.{IsCovered, left_out_le, own_ids}
use astrbot_plugin_astrconti.ContextGraph.Closed.{
  IsClosed, Closes, close_rounds-Closes, close_rounds-ends,
}
use astrbot_plugin_astrconti.ContextGraph.Chosen.{
  length-chosen, mem-chosen, mem-add_ids, each_added,
}

each_of_any :
    (q : CandidateBlock → Bool) (cs : List CandidateBlock)
    → any (λ c. not (q c)) cs ≡ false
    → EachOf (λ c. q c ≡ true) cs
each_of_any q [] h = tt
each_of_any q (c ∷ cs) h = (ground arith, each_of_any q cs (ground arith))

-- The blocks of a closure: known ones, at most `max_blocks`, with these and with all companions.
pub record IsClosure (available selected : List CandidateBlock) (max_blocks : ℕ)
    (blocks : List CandidateBlock) : Type 0 where
  pub selects : EachOf (λ (c : CandidateBlock). mem c.block_id (ids_of blocks) ≡ true) selected
  pub requires :
      EachOf
        (λ (c : CandidateBlock). mem c.block_id (ids_of blocks) ≡ true)
        (keep_if (λ (c : CandidateBlock). c.required) available)
  pub closed : IsClosed (ids_of blocks) available blocks
  pub bounded : length blocks ≤ max_blocks

module _ (selected available : List CandidateBlock) (max_blocks : ℕ) where
  -- The ids that the rounds start from.
  abbrev initial : List String
  initial = add_ids (keep_if (λ (c : CandidateBlock). c.required) available) (add_ids selected [])

  closes :
      (closed : List String)
      → is_unique (ids_of available) ≡ true
      → EachOf (λ (c : CandidateBlock). mem c.block_id (ids_of available) ≡ true) selected
      → length initial ≤ max_blocks
      → Closes max_blocks available initial closed
      → IsClosure available selected max_blocks (chosen closed available)
  closes closed u known n c =
      let required = keep_if (λ (d : CandidateBlock). d.required) available in
      let stays : (d : CandidateBlock)
          → mem d.block_id initial ≡ true × (mem d.block_id (ids_of available) ≡ true)
          → mem d.block_id (ids_of (chosen closed available)) ≡ true =
        λ d (h, k). mem-chosen d.block_id closed available (c.keeps d.block_id h) k in
      let covered : (l r : CandidateBlock)
          → IsCovered closed l r × (mem r.block_id (ids_of available) ≡ true)
          → IsCovered (ids_of (chosen closed available)) l r =
        λ l r (v, k). covered_in closed l r k v in
      record {
        selects = EachOf-map _ _ stays selected (
            EachOf-both _ _ selected
              (EachOf-map (λ (d : CandidateBlock). mem d.block_id (add_ids selected []) ≡ true)
                (λ (d : CandidateBlock). mem d.block_id initial ≡ true)
                (λ d h. mem-add_ids required (add_ids selected []) d.block_id h) selected
                (each_added selected []))
              known);
        requires = EachOf-map _ _ stays required (
            EachOf-both _ _ required (each_added required (add_ids selected [])) (
              EachOf-kept (λ (d : CandidateBlock). mem d.block_id (ids_of available) ≡ true) _
                available (own_ids available)));
        closed =
            EachOf-map (λ l. EachOf (IsCovered closed l) available)
              (λ l. EachOf (IsCovered (ids_of (chosen closed available)) l) available)
              (λ l e.
                EachOf-map _ _ (covered l) available
                  (EachOf-both _ _ available e (own_ids available)))
              (chosen closed available) c.closed;
        bounded = (let a = length-chosen available closed u in let b = c.within n in omega arith);
      }
    where
      covered_in :
          (closed : List String) (l r : CandidateBlock)
          → mem r.block_id (ids_of available) ≡ true
          → IsCovered closed l r
          → IsCovered (ids_of (chosen closed available)) l r
      covered_in closed l r k (inl held) = inl (mem-chosen r.block_id closed available held k)
      covered_in closed l r k (inr apart) = inr apart

  -- A closure that returns has the selected blocks, the required ones of the universe, and with each
  -- block all its companions, and it has at most `max_blocks` blocks.
  pub close_dependency_closure-IsClosure :
      (blocks : List CandidateBlock)
      → close_dependency_closure selected available max_blocks ≡ ok blocks
      → IsClosure available selected max_blocks blocks
  unfolding close_dependency_closure
  close_dependency_closure-IsClosure blocks h = elim (raise_if-ok (ltb max_blocks 1) _ _ h) [
    | passed positive h1 ↦ elim (raise_if-ok (not (is_unique (ids_of available))) _ _ h1) [
      | passed unique h2 ↦
          elim (raise_if-ok
            (any (λ (c : CandidateBlock). not (mem c.block_id (ids_of available))) selected) _ _
            h2) [
              | passed known h3 ↦ elim (raise_if-ok (ltb max_blocks (length initial)) _ _ h3) [
                | passed room h4 ↦
                    elim (bind-ok
                      (close_rounds (suc (length available)) max_blocks available initial) _ h4) [
                        | bound closed run done ↦
                            subst (IsClosure available selected max_blocks)
                              (ok-injective _ blocks done)
                              (closes closed (ground arith)
                                (each_of_any
                                  (λ (c : CandidateBlock). mem c.block_id (ids_of available))
                                  selected known)
                                (ground arith)
                                (close_rounds-Closes max_blocks available (suc (length available))
                                  initial closed run))
                      ]
              ]
            ]
    ]
  ]

  -- The rounds of a closure are enough: it returns, or it raises an error of the code.
  pub close_dependency_closure-ends :
      close_dependency_closure selected available max_blocks ≢ err out_of_fuel
  unfolding close_dependency_closure
  close_dependency_closure-ends h =
      elim (bind-err (raise_if (ltb max_blocks 1) max_blocks_not_positive) _ h) [
        | at_once bad ↦ cc (raise_if-err _ _ bad).1
        | later _ _ h1 ↦
            elim (bind-err (raise_if (not (is_unique (ids_of available))) closure_duplicate_block) _
              h1) [
                | at_once bad ↦ cc (raise_if-err _ _ bad).1
                | later _ _ h2 ↦
                    elim (bind-err
                      (raise_if
                        (any (λ (c : CandidateBlock). not (mem c.block_id (ids_of available)))
                          selected)
                        closure_unknown_block)
                      _ h2) [
                        | at_once bad ↦ cc (raise_if-err _ _ bad).1
                        | later _ _ h3 ↦
                            elim (bind-err
                              (raise_if (ltb max_blocks (length initial)) closure_capacity_exceeded)
                              _ h3) [
                                | at_once bad ↦ cc (raise_if-err _ _ bad).1
                                | later _ _ h4 ↦
                                    elim (bind-err
                                      (close_rounds (suc (length available)) max_blocks available
                                        initial)
                                      _ h4) [
                                        | at_once bad ↦
                                            close_rounds-ends max_blocks available
                                              (suc (length available)) initial
                                              (let a = left_out_le available initial in omega arith)
                                              bad
                                        | later _ _ done ↦ cc
                                      ]
                              ]
                      ]
              ]
      ]
