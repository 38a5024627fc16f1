-- ===== src/ContextGraph/Components.antt =====
-- dependency_groups (astrcontinuum/context_graph/closure.py) against its specification: the connected
-- components of the companions.
use astrbot_plugin_astrconti.Prelude.{
  ℕ, zero, suc, ◌≤◌, ◌≡◌, refl, ◌∙◌, subst, Bool, true, false, inl, inr, List, [], ◌∷◌, string_eq,
  arith, Bool-cases, EachOf, EachOf-map, EachOf-all, EachOf-sort_by, length, if◌then◌else◌, sum_by,
  flatten, sort_by, ok, is_unique, ok-injective,
}
use astrbot_plugin_astrconti.Runtime.Candidate.{CandidateBlock}
use astrbot_plugin_astrconti.ContextGraph.Closure.{
  Numbered, number_from, companions, components, index_le, blocks_of, ids_of, dependency_groups,
}
use astrbot_plugin_astrconti.ContextGraph.Indexes.{Distinct, length-sum_by, number_from-Distinct}
use astrbot_plugin_astrconti.ContextGraph.Groups.{first-Walks}
use astrbot_plugin_astrconti.ContextGraph.Links.{Unlinked, walk-Unlinked}
use astrbot_plugin_astrconti.ContextGraph.Partition.{
  components-Partitions, dependency_groups-Partitions, EachOf-blocks_of, length-number_from,
}

-- No block of a group is a companion of a block of a later group.
abbrev pub IsSeparate : List (List CandidateBlock) → Type 0
IsSeparate [] = Unit {0}
IsSeparate (group ∷ groups) =
    EachOf (λ c. EachOf (λ d. companions c d ≡ false) (flatten groups)) group × IsSeparate groups

abbrev tick : (CandidateBlock → Bool) → CandidateBlock → ℕ
tick q c = if q c then 1 else 0

none_of_sum :
    (q : CandidateBlock → Bool) (cs : List CandidateBlock)
    → sum_by (tick q) cs ≡ 0
    → EachOf (λ c. q c ≡ false) cs
none_of_sum q [] h = tt
none_of_sum q (c ∷ cs) h = elim (Bool-cases (q c)) [
  | inl hit ↦ absurd (let k = (rw hit at h) in omega arith)
  | inr miss ↦ (miss, none_of_sum q cs (let k = (rw miss at h) in omega arith))
]

sum_of_none :
    (q : CandidateBlock → Bool) (cs : List CandidateBlock)
    → EachOf (λ c. q c ≡ false) cs
    → sum_by (tick q) cs ≡ 0
sum_of_none q [] e = refl
sum_of_none q (c ∷ cs) (miss, e) = let rest = sum_of_none q cs e in rw miss (omega arith)

-- The sorted component and the groups of what remains.
separate :
    (component rest : List Numbered) (groups : List (List CandidateBlock))
    → EachOf (λ v. EachOf (Unlinked v) rest) component
    → ((f : CandidateBlock → ℕ) → sum_by f (flatten groups) ≡ sum_by f (blocks_of rest))
    → EachOf
        (λ c. EachOf (λ d. companions c d ≡ false) (flatten groups))
        (blocks_of (sort_by index_le component))
separate component rest groups e sums =
    EachOf-blocks_of (λ c. EachOf (λ d. companions c d ≡ false) (flatten groups))
      (sort_by index_le component)
      (EachOf-sort_by
        (λ (v : Numbered). EachOf (λ d. companions v.block d ≡ false) (flatten groups)) index_le
        component
        (EachOf-map (λ v. EachOf (Unlinked v) rest)
          (λ (v : Numbered). EachOf (λ d. companions v.block d ≡ false) (flatten groups))
          (λ v u. none_of_sum (companions v.block) (flatten groups) (
            sums (tick (companions v.block))
            ∙ sum_of_none (companions v.block) (blocks_of rest)
                (EachOf-blocks_of (λ d. companions v.block d ≡ false) rest u)))
          component e))

components-IsSeparate :
    (fuel : ℕ) (remaining : List Numbered) (groups : List (List CandidateBlock))
    → length remaining ≤ fuel
    → Distinct remaining
    → components fuel remaining ≡ ok groups
    → IsSeparate groups
unfolding components
components-IsSeparate fuel [] groups n d h = subst IsSeparate (ok-injective [] groups h) tt
components-IsSeparate zero (x ∷ xs) groups n d h = absurd (omega arith)
components-IsSeparate (suc fuel) (x ∷ xs) groups n d h =
    let (out, (run, (w, one))) =
      first-Walks (λ y. Unit {0}) x xs d (EachOf-all _ (λ y. tt) (x ∷ xs)) in
    let fits : length out.1 ≤ fuel =
      (let a = w.sums (λ c. 1) in
        let b = length-sum_by out.0 in
        let c = length-sum_by out.1 in let g = length-sum_by (x ∷ xs) in omega arith) in
    let (later, (rest, parts)) =
      components-Partitions (λ c. Unit {0}) fuel out.1 fits w.distinct
        (EachOf-all _ (λ y. tt) out.1) in
    subst IsSeparate
      (ok-injective (blocks_of (sort_by index_le out.0) ∷ later) groups
        (rw (components, run, rest) at h))
      (
        separate out.0 out.1 later
            (walk-Unlinked (length (x ∷ xs)) (x ∷ []) [] (x ∷ xs) out run
              (EachOf-all _ (λ r. refl) (x ∷ xs)) tt)
            parts.sums,
        components-IsSeparate fuel out.1 later fits w.distinct rest,
      )

-- Candidates with unique ids have groups, each of them with a block: a measure of the candidates is the
-- same summed over the groups, and no block is a companion of one of a later group.
pub dependency_groups-IsSeparate :
    (candidates : List CandidateBlock)
    → is_unique (ids_of candidates) ≡ true
    → (groups : List (List CandidateBlock)) × ((dependency_groups candidates ≡ ok groups)
        × (EachOf (λ (group : List CandidateBlock). 1 ≤ length group) groups
            × (((f : CandidateBlock → ℕ) → sum_by f (flatten groups) ≡ sum_by f candidates)
                × IsSeparate groups)))
unfolding dependency_groups
dependency_groups-IsSeparate candidates u =
    let (groups, (run, parts)) =
      dependency_groups-Partitions (λ c. Unit {0}) candidates u
        (EachOf-all _ (λ c. tt) candidates) in
    let s =
      components-IsSeparate (length candidates) (number_from 0 candidates) groups
        (rw (length-number_from 0 candidates) (omega arith)) (number_from-Distinct 0 candidates)
        (rw (dependency_groups, u) at run) in
    (groups, (run, (parts.filled, (parts.sums, s))))
