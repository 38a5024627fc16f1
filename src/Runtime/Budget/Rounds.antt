-- ===== src/Runtime/Budget/Rounds.antt =====
-- A round of _exact_final_selection (astrcontinuum/runtime/budget.py).
use mathlib.Core.Option.{some-injective}
use astrbot_plugin_astrconti.Prelude.{
  suc, ◌≤◌, ◌≡◌, subst, Bool, true, false, not, Option, none, some, inl, inr, List, [], ◌∷◌, ◌==◌,
  string_eq, beq_refl, eq_of_beq, arith, Bool-cases, Result-cases, EachOf, keep_if, mem, length,
  is_unique, ok, raise_if-ok, passed, ok-injective,
}
use astrbot_plugin_astrconti.Runtime.Candidate.{CandidateBlock}
use astrbot_plugin_astrconti.ContextGraph.Closure.{
  ids_of, has_required, dependency_groups, removable_dependency_groups,
}
use astrbot_plugin_astrconti.ContextGraph.Absorb.{own_ids}
use astrbot_plugin_astrconti.ContextGraph.Partition.{dependency_groups-Partitions}
use astrbot_plugin_astrconti.Runtime.Budget.Order.{B}
use astrbot_plugin_astrconti.Runtime.Budget.Select.{
  without_group, greatest, key_below, lowest_priority_optional_group,
}
use astrbot_plugin_astrconti.Runtime.Budget.Required.{IsAt, Holds, without_group-Holds}

greatest-EachOf :
    (R : List CandidateBlock → Type 0) (selected best : List CandidateBlock)
    (groups : List (List CandidateBlock))
    → R best
    → EachOf R groups
    → R (greatest selected best groups)
greatest-EachOf R selected best [] r e = r
greatest-EachOf R selected best (group ∷ groups) r (q, e) =
    elim (Bool-cases (key_below selected best group)) [
      | inl below ↦ rw below (greatest-EachOf R selected group groups q e)
      | inr above ↦ rw above (greatest-EachOf R selected best groups r e)
    ]

-- A group that a round removes.
pub record Removable (P : CandidateBlock → Type 0) (group : List CandidateBlock) : Type 0 where
  pub each : EachOf P group
  pub filled : 1 ≤ length group
  pub optional : has_required group ≡ false

dependency_groups-is_unique :
    (selected : List CandidateBlock) {groups : List (List CandidateBlock)}
    → dependency_groups selected ≡ ok groups
    → is_unique (ids_of selected) ≡ true
unfolding dependency_groups
dependency_groups-is_unique selected h =
    elim (raise_if-ok (not (is_unique (ids_of selected))) _ _ h) [
      | passed unique rest ↦ ground arith
    ]

optional_groups :
    (P : CandidateBlock → Type 0) (groups : List (List CandidateBlock))
    → EachOf (λ (group : List CandidateBlock). EachOf P group) groups
    → EachOf (λ (group : List CandidateBlock). 1 ≤ length group) groups
    → EachOf (Removable P) (keep_if (λ group. not (has_required group)) groups)
optional_groups P [] e f = tt
optional_groups P (group ∷ groups) (p, e) (n, f) = elim (Bool-cases (has_required group)) [
  | inl needed ↦ rw needed (optional_groups P groups e f)
  | inr free ↦
      rw free (record { each = p; filled = n; optional = free }, optional_groups P groups e f)
]

one_of :
    (P : CandidateBlock → Type 0) (selected group : List CandidateBlock)
    (groups : List (List CandidateBlock))
    → EachOf (Removable P) groups
    → ◌≡◌ {A = B (Option (List CandidateBlock))}
        (elim groups [ [] ↦ ok none | best ∷ rest ↦ ok (some (greatest selected best rest)) ])
        (ok (some group))
    → Removable P group
one_of P selected group [] e h = cc
one_of P selected group (best ∷ rest) (r, e) h =
    subst (Removable P)
      (some-injective (greatest selected best rest) group (ok-injective _ (some group) h))
      (greatest-EachOf (Removable P) selected best rest r e)

pub lowest-Removable :
    (P : CandidateBlock → Type 0) (selected group : List CandidateBlock)
    → EachOf P selected
    → lowest_priority_optional_group selected ≡ ok (some group)
    → Removable P group
unfolding lowest_priority_optional_group removable_dependency_groups
lowest-Removable P selected group e h = elim (Result-cases (dependency_groups selected)) [
  | inl (x, bad) ↦ cc (rw (lowest_priority_optional_group, removable_dependency_groups, bad) at h)
  | inr (groups, found) ↦
      let (groups', (found', parts)) =
        dependency_groups-Partitions P selected (dependency_groups-is_unique selected found) e in
      one_of P selected group (keep_if (λ g. not (has_required g)) groups')
        (optional_groups P groups' parts.each parts.filled)
        (rw (lowest_priority_optional_group, removable_dependency_groups, found') at h)
]

length-keep_if :
    (q : CandidateBlock → Bool) (cs : List CandidateBlock) → length (keep_if q cs) ≤ length cs
length-keep_if q [] = omega arith
length-keep_if q (c ∷ cs) =
    let rest = length-keep_if q cs in
    elim (Bool-cases (q c)) [ inl hit ↦ rw hit (omega arith) | inr miss ↦ rw miss (omega arith) ]

length-without_group :
    (c : CandidateBlock) (group selected : List CandidateBlock)
    → mem c.block_id (ids_of selected) ≡ true
    → suc (length (without_group (c ∷ group) selected)) ≤ length selected
length-without_group c group [] h = cc
length-without_group c group (d ∷ ds) h = elim (Bool-cases (d.block_id == c.block_id)) [
  | inl here ↦
      let gone : mem d.block_id (ids_of (c ∷ group)) ≡ true =
        rw (eq_of_beq d.block_id c.block_id here, beq_refl c.block_id) in
      let rest =
        length-keep_if (λ (e : CandidateBlock). not (mem e.block_id (ids_of (c ∷ group)))) ds in
      rw gone (omega arith)
  | inr there ↦
      let rest = length-without_group c group ds (rw there at h) in
      elim (Bool-cases (mem d.block_id (ids_of (c ∷ group)))) [
        | inl gone ↦ rw gone (omega arith)
        | inr kept ↦ rw kept (omega arith)
      ]
]

pub lowest-shrinks :
    (selected group : List CandidateBlock)
    → lowest_priority_optional_group selected ≡ ok (some group)
    → suc (length (without_group group selected)) ≤ length selected
lowest-shrinks selected group h = shrinks group (
    lowest-Removable (λ (c : CandidateBlock). mem c.block_id (ids_of selected) ≡ true) selected
      group (own_ids selected) h)
  where
    shrinks :
        (g : List CandidateBlock)
        → Removable (λ (c : CandidateBlock). mem c.block_id (ids_of selected) ≡ true) g
        → suc (length (without_group g selected)) ≤ length selected
    shrinks [] r = absurd (let f = r.filled in omega arith)
    shrinks (c ∷ g) r = length-without_group c g selected r.each.0

pub lowest-Holds :
    (unique selected group : List CandidateBlock)
    → EachOf (IsAt unique) unique
    → lowest_priority_optional_group selected ≡ ok (some group)
    → Holds unique selected
    → Holds unique (without_group group selected)
lowest-Holds unique selected group u h s =
    let r = lowest-Removable (IsAt unique) selected group s.each h in
    without_group-Holds unique group selected u r.each r.optional s
