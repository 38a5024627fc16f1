-- ===== src/Runtime/Budget/Required.antt =====
-- The required blocks of a selection (astrcontinuum/runtime/budget.py) and the removal of a group.
use mathlib.Core.Option.{some-injective}
use astrbot_plugin_astrconti.Prelude.{
  ◌≡◌, refl, sym, ap, subst, ◌∙◌, String, Bool, true, false, some, inl, inr, List, [], ◌∷◌, ◌==◌,
  string_eq, beq_refl, eq_of_beq, arith, Bool-cases, EachOf, EachOf-kept, mem, is_unique,
}
use astrbot_plugin_astrconti.Storage.Rows.{find}
use astrbot_plugin_astrconti.Runtime.Candidate.{CandidateBlock}
use astrbot_plugin_astrconti.ContextGraph.Closure.{ids_of, has_required}
use astrbot_plugin_astrconti.Runtime.Budget.Select.{without_group}
use astrbot_plugin_astrconti.Runtime.Budget.Assemble.{keeps_required}

abbrev pub has_id : String → CandidateBlock → Bool
has_id id c = c.block_id == id

-- The block that the universe holds under its id.
abbrev pub IsAt : List CandidateBlock → CandidateBlock → Type 0
IsAt unique c = find (has_id c.block_id) unique ≡ some c

IsAt-later :
    (x : CandidateBlock) (xs ys : List CandidateBlock)
    → mem x.block_id (ids_of ys) ≡ false
    → EachOf (IsAt xs) ys
    → EachOf (IsAt (x ∷ xs)) ys
IsAt-later x xs [] h e = tt
IsAt-later x xs (y ∷ ys) h (p, e) = elim (Bool-cases (x.block_id == y.block_id)) [
  | inl same ↦ absurd (
      clash (
        subst (λ z. (y.block_id == z) ≡ true) (sym (eq_of_beq x.block_id y.block_id same))
          (beq_refl y.block_id)))
  | inr apart ↦ (rw apart p, IsAt-later x xs ys (ground arith) e)
]
  where
    clash : (y.block_id == x.block_id) ≡ true → ⊥
    clash s = cc (rw s at h)

pub is_unique-IsAt : (xs : List CandidateBlock) → is_unique (ids_of xs) ≡ true → EachOf (IsAt xs) xs
is_unique-IsAt [] u = tt
is_unique-IsAt (x ∷ xs) u = elim (Bool-cases (mem x.block_id (ids_of xs))) [
  | inl again ↦ cc (rw again at u)
  | inr new ↦ (rw (beq_refl x.block_id), IsAt-later x xs xs new (is_unique-IsAt xs (rw new at u)))
]

-- A required block of the universe stands in the selection.
abbrev pub Keeps : List CandidateBlock → CandidateBlock → Type 0
Keeps selected c = c.required ≡ true → mem c.block_id (ids_of selected) ≡ true

pub keeps_required-Keeps :
    (selected unique : List CandidateBlock)
    → keeps_required unique selected ≡ true
    → EachOf (Keeps selected) unique
keeps_required-Keeps selected [] h = tt
keeps_required-Keeps selected (c ∷ cs) h = elim (Bool-cases c.required) [
  | inl needed ↦ (
    λ r. ground (arith, rw needed at h),
    keeps_required-Keeps selected cs (ground (arith, rw needed at h)),
  )
  | inr optional ↦ (λ r. cc, keeps_required-Keeps selected cs (rw optional at h))
]

pub Keeps-keeps_required :
    (selected unique : List CandidateBlock)
    → EachOf (Keeps selected) unique
    → keeps_required unique selected ≡ true
Keeps-keeps_required selected [] e = refl
Keeps-keeps_required selected (c ∷ cs) (k, e) = elim (Bool-cases c.required) [
  | inl needed ↦ rw needed (ground (arith, k needed, Keeps-keeps_required selected cs e))
  | inr optional ↦ rw optional (Keeps-keeps_required selected cs e)
]

mem-without_group :
    (id : String) (group selected : List CandidateBlock)
    → mem id (ids_of group) ≡ false
    → mem id (ids_of selected) ≡ true
    → mem id (ids_of (without_group group selected)) ≡ true
mem-without_group id group [] g h = cc
mem-without_group id group (c ∷ cs) g h = elim (Bool-cases (c.block_id == id)) [
  | inl here ↦
      let kept : mem c.block_id (ids_of group) ≡ false = rw (eq_of_beq c.block_id id here) g in
      rw (kept, here)
  | inr there ↦
      let rest = mem-without_group id group cs g (rw there at h) in
      elim (Bool-cases (mem c.block_id (ids_of group))) [
        | inl gone ↦ rw gone rest
        | inr kept ↦ rw (kept, there) rest
      ]
]

-- An optional group has no required block of the universe.
mem-optional :
    (unique group : List CandidateBlock) (c : CandidateBlock)
    → IsAt unique c
    → EachOf (IsAt unique) group
    → has_required group ≡ false
    → c.required ≡ true
    → mem c.block_id (ids_of group) ≡ false
mem-optional unique [] c i e h r = refl
mem-optional unique (d ∷ group) c i (j, e) h r = elim (Bool-cases (d.block_id == c.block_id)) [
  | inl same ↦
      let at : find (has_id c.block_id) unique ≡ some d =
        subst (λ id. find (has_id id) unique ≡ some d) (eq_of_beq d.block_id c.block_id same) j in
      let equal = some-injective c d (sym i ∙ at) in
      cc (ap (λ (z : CandidateBlock). z.required) equal)
  | inr other ↦ rw other (mem-optional unique group c i e (ground arith) r)
]

-- What each round of the exact loop keeps.
pub record Holds (unique selected : List CandidateBlock) : Type 0 where
  pub each : EachOf (IsAt unique) selected
  pub required : EachOf (Keeps selected) unique

pub without_group-Holds :
    (unique group selected : List CandidateBlock)
    → EachOf (IsAt unique) unique
    → EachOf (IsAt unique) group
    → has_required group ≡ false
    → Holds unique selected
    → Holds unique (without_group group selected)
without_group-Holds unique group selected u g h s = record {
  each = EachOf-kept (IsAt unique) _ selected s.each;
  required = each_kept unique u s.required;
}
  where
    each_kept :
        (cs : List CandidateBlock)
        → EachOf (IsAt unique) cs
        → EachOf (Keeps selected) cs
        → EachOf (Keeps (without_group group selected)) cs
    each_kept [] a b = tt
    each_kept (c ∷ cs) (i, a) (k, b) = (
      λ r. mem-without_group c.block_id group selected (mem-optional unique group c i g h r) (k r),
      each_kept cs a b,
    )
