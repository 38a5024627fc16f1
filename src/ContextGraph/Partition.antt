-- ===== src/ContextGraph/Partition.antt =====
-- The groups of dependency_groups (astrcontinuum/context_graph/closure.py) and the candidates.
use astrbot_plugin_astrconti.Prelude.{
  ℕ, zero, suc, ◌≤◌, ◌≡◌, refl, ap, subst, ◌>>=◌, true, List, [], ◌∷◌, nat_eq, string_eq, arith,
  EachOf, EachOf-sort_by, length, sum_by, flatten, sum_by-append, sort_by, Result, ok, is_unique,
}
use astrbot_plugin_astrconti.Runtime.Candidate.{CandidateBlock}
use astrbot_plugin_astrconti.ContextGraph.Closure.{
  ClosureError, Numbered, number_from, walk, components, index_le, blocks_of, ids_of,
  dependency_groups,
}
use astrbot_plugin_astrconti.ContextGraph.Indexes.{
  Distinct, length-sum_by, sum_by-sort_by, number_from-Distinct,
}
use astrbot_plugin_astrconti.ContextGraph.Groups.{Walks, first-Walks}

pub sum_by-blocks_of :
    (f : CandidateBlock → ℕ) (xs : List Numbered)
    → sum_by f (blocks_of xs) ≡ sum_by (λ (x : Numbered). f x.block) xs
sum_by-blocks_of f [] = refl
sum_by-blocks_of f (x ∷ xs) = let rest = sum_by-blocks_of f xs in omega arith

pub EachOf-blocks_of :
    (P : CandidateBlock → Type 0) (xs : List Numbered)
    → EachOf (λ (x : Numbered). P x.block) xs
    → EachOf P (blocks_of xs)
EachOf-blocks_of P [] e = tt
EachOf-blocks_of P (x ∷ xs) (p, e) = (p, EachOf-blocks_of P xs e)

blocks_of-number_from : (n : ℕ) (cs : List CandidateBlock) → blocks_of (number_from n cs) ≡ cs
blocks_of-number_from n [] = refl
blocks_of-number_from n (c ∷ cs) = ap (◌∷◌ c) (blocks_of-number_from (suc n) cs)

pub EachOf-number_from :
    (P : CandidateBlock → Type 0) (n : ℕ) (cs : List CandidateBlock)
    → EachOf P cs
    → EachOf (λ (x : Numbered). P x.block) (number_from n cs)
EachOf-number_from P n [] e = tt
EachOf-number_from P n (c ∷ cs) (p, e) = (p, EachOf-number_from P (suc n) cs e)

pub length-number_from : (n : ℕ) (cs : List CandidateBlock) → length (number_from n cs) ≡ length cs
length-number_from n [] = refl
length-number_from n (c ∷ cs) = ap suc (length-number_from (suc n) cs)

-- Groups of `candidates`, none empty: a measure of the candidates is the same summed over the groups.
pub record Partitions (P : CandidateBlock → Type 0) (candidates : List CandidateBlock)
    (groups : List (List CandidateBlock)) : Type 0 where
  pub sums : (f : CandidateBlock → ℕ) → sum_by f (flatten groups) ≡ sum_by f candidates
  pub filled : EachOf (λ (group : List CandidateBlock). 1 ≤ length group) groups
  pub each : EachOf (λ (group : List CandidateBlock). EachOf P group) groups

module _ (P : CandidateBlock → Type 0) where
  abbrev Q : Numbered → Type 0
  Q x = P x.block

  extend :
      (x : Numbered) (xs : List Numbered) (out : List Numbered × List Numbered)
      (groups : List (List CandidateBlock))
      → Walks Q [] (x ∷ xs) out
      → 1 ≤ length out.0
      → Partitions P (blocks_of out.1) groups
      → Partitions P (blocks_of (x ∷ xs)) (blocks_of (sort_by index_le out.0) ∷ groups)
  extend x xs out groups w one g = record {
    sums = λ f.
        let a = sum_by-append f (blocks_of (sort_by index_le out.0)) (flatten groups) in
        let b = sum_by-blocks_of f (sort_by index_le out.0) in
        let c = sum_by-sort_by (λ (y : Numbered). f y.block) index_le out.0 in
        let d = g.sums f in
        let e = sum_by-blocks_of f out.1 in
        let h = w.sums (λ (y : Numbered). f y.block) in
        let k = sum_by-blocks_of f (x ∷ xs) in omega arith;
    filled = (nonempty, g.filled);
    each = (
      EachOf-blocks_of P (sort_by index_le out.0) (EachOf-sort_by Q index_le out.0 w.each),
      g.each,
    );
  }
    where
      nonempty : 1 ≤ length (blocks_of (sort_by index_le out.0))
      nonempty =
          let a = sum_by-blocks_of (λ c. 1) (sort_by index_le out.0) in
          let b = length-sum_by (blocks_of (sort_by index_le out.0)) in
          let c = sum_by-sort_by (λ (y : Numbered). 1) index_le out.0 in
          let d = length-sum_by out.0 in omega arith

  pub components-Partitions :
      (fuel : ℕ) (remaining : List Numbered)
      → length remaining ≤ fuel
      → Distinct remaining
      → EachOf Q remaining
      → (groups : List (List CandidateBlock)) × ((components fuel remaining ≡ ok groups)
          × Partitions P (blocks_of remaining) groups)
  unfolding components
  components-Partitions fuel [] n d e =
      ([], (refl, record { sums = λ f. refl; filled = tt; each = tt }))
  components-Partitions zero (x ∷ xs) n d e = absurd (omega arith)
  components-Partitions (suc fuel) (x ∷ xs) n d e =
      let (out, (run, (w, one))) = first-Walks Q x xs d e in
      let fits : length out.1 ≤ fuel =
        (let a = w.sums (λ c. 1) in
          let b = length-sum_by out.0 in
          let c = length-sum_by out.1 in let g = length-sum_by (x ∷ xs) in omega arith) in
      let (groups, (rest, g)) = components-Partitions fuel out.1 fits w.distinct w.each_left in
      (
        blocks_of (sort_by index_le out.0) ∷ groups,
        (
          components_step (walk (length (x ∷ xs)) (x ∷ []) [] (x ∷ xs)) fuel out groups run rest,
          extend x xs out groups w one g,
        ),
      )
    where
      components_step :
          (r : Result ClosureError (List Numbered × List Numbered)) (fuel : ℕ)
          (out : List Numbered × List Numbered) (groups : List (List CandidateBlock))
          → r ≡ ok out
          → components fuel out.1 ≡ ok groups
          → (r >>= λ o. components fuel o.1 >>= λ gs. ok (blocks_of (sort_by index_le o.0) ∷ gs))
            ≡ ok (blocks_of (sort_by index_le out.0) ∷ groups)
      components_step r fuel out groups e f = rw (e, f)

-- The groups exist where the block ids are unique, and only there.
pub dependency_groups-Partitions :
    (P : CandidateBlock → Type 0) (candidates : List CandidateBlock)
    → is_unique (ids_of candidates) ≡ true
    → EachOf P candidates
    → (groups : List (List CandidateBlock)) × ((dependency_groups candidates ≡ ok groups)
        × Partitions P candidates groups)
unfolding dependency_groups
dependency_groups-Partitions P candidates u e =
    let (groups, (run, g)) =
      components-Partitions P (length candidates) (number_from 0 candidates)
        (rw (length-number_from 0 candidates) (omega arith)) (number_from-Distinct 0 candidates)
        (EachOf-number_from P 0 candidates e) in
    (
      groups,
      (
        rw (dependency_groups, u) run,
        subst (λ cs. Partitions P cs groups) (blocks_of-number_from 0 candidates) g,
      ),
    )
