-- ===== src/ContextGraph/Groups.antt =====
-- The walk of dependency_groups (astrcontinuum/context_graph/closure.py): what it returns from its
-- component and what remains.
use astrbot_plugin_astrconti.Prelude.{
  ℕ, zero, suc, ◌+◌, ◌≤◌, ◌≡◌, refl, ◌⊎◌, true, false, not, inl, inr, List, [], ◌∷◌, ◌==◌, nat_eq,
  string_eq, beq_refl, nat_beq_iff, arith, Bool-cases, EachOf, EachOf-map, EachOf-keep_if,
  EachOf-kept, keep_if, length, sum_by, ok,
}
use astrbot_plugin_astrconti.ContextGraph.Closure.{
  Numbered, holds_index, without, prepend_reversed, companions, walk,
}
use astrbot_plugin_astrconti.ContextGraph.Indexes.{
  IsIn, Distinct, keep_if-Distinct, Distinct-IsIn, without-IsIn, sum_by-without, length-sum_by,
}

-- A pending index is visited or remains.
abbrev IsPending : List Numbered → List Numbered → Numbered → Type 0
IsPending component remaining p = (holds_index p.index component ≡ true) ⊎ IsIn remaining p

pub EachOf-prepend_reversed :
    (P : Numbered → Type 0) (xs ys : List Numbered)
    → EachOf P xs
    → EachOf P ys
    → EachOf P (prepend_reversed xs ys)
EachOf-prepend_reversed P [] ys e f = f
EachOf-prepend_reversed P (x ∷ xs) ys (p, e) f = EachOf-prepend_reversed P xs (x ∷ ys) e (p, f)

module _ (P : Numbered → Type 0) where
  -- What a walk returns, from its component and what remains.
  pub record Walks (component remaining : List Numbered) (out : List Numbered × List Numbered)
      : Type 0 where
    pub sums :
        (f : Numbered → ℕ)
        → sum_by f out.0 + sum_by f out.1 ≡ sum_by f component + sum_by f remaining
    pub distinct : Distinct out.1
    pub grows : length component ≤ length out.0
    pub each : EachOf P out.0
    pub each_left : EachOf P out.1

  -- The walk's step at an index that was not visited.
  IsPending-next :
      (p : Numbered) (pending component remaining : List Numbered)
      → Distinct remaining
      → EachOf (IsPending component remaining) pending
      → EachOf (IsPending (p ∷ component) (without p.index remaining)) (
          prepend_reversed
            (keep_if (λ (x : Numbered). companions p.block x.block) (without p.index remaining))
            pending)
  IsPending-next p pending component remaining d e =
      let left = without p.index remaining in
      let fresh : EachOf (IsIn left) left = Distinct-IsIn left (keep_if-Distinct _ remaining d) in
      EachOf-prepend_reversed (IsPending (p ∷ component) left) _ pending
        (EachOf-map (λ x. (companions p.block x.block ≡ true) × IsIn left x)
          (IsPending (p ∷ component) left) (λ x (h, i). inr i) _
          (EachOf-keep_if (IsIn left) (λ (x : Numbered). companions p.block x.block) left fresh))
        (EachOf-map (IsPending component remaining) (IsPending (p ∷ component) left) step pending e)
    where
      step :
          (q : Numbered)
          → IsPending component remaining q
          → IsPending (p ∷ component) (without p.index remaining) q
      step q (inl seen) = inl (ground arith)
      step q (inr here) = elim (Bool-cases (q.index == p.index)) [
        | inl same ↦ inl (ground (arith, nat_beq_iff q.index p.index, nat_beq_iff p.index q.index))
        | inr other ↦ inr (without-IsIn p.index remaining q other here)
      ]

  -- A walk that returns so.
  abbrev Returns : ℕ → List Numbered → List Numbered → List Numbered → Type 0
  Returns fuel pending component remaining =
      (out : List Numbered × List Numbered) × ((walk fuel pending component remaining ≡ ok out)
        × Walks component remaining out)

  visit :
      (p : Numbered) (component remaining : List Numbered) (out : List Numbered × List Numbered)
      → Distinct remaining
      → IsIn remaining p
      → Walks (p ∷ component) (without p.index remaining) out
      → Walks component remaining out
  visit p component remaining out d here w = record {
    sums = λ f. let s = w.sums f in let o = sum_by-without f remaining p d here in omega arith;
    distinct = w.distinct;
    grows = let g = w.grows in omega arith;
    each = w.each;
    each_left = w.each_left;
  }

  smaller :
      (fuel : ℕ) (p : Numbered) (remaining : List Numbered)
      → Distinct remaining
      → IsIn remaining p
      → length remaining ≤ suc fuel
      → length (without p.index remaining) ≤ fuel
  smaller fuel p remaining d here n =
      let o = sum_by-without (λ x. 1) remaining p d here in
      let a = length-sum_by remaining in
      let b = length-sum_by (without p.index remaining) in omega arith

  IsIn-of_unseen :
      (component remaining : List Numbered) (p : Numbered)
      → holds_index p.index component ≡ false
      → IsPending component remaining p
      → IsIn remaining p
  IsIn-of_unseen component remaining p new (inl seen) = cc
  IsIn-of_unseen component remaining p new (inr here) = here

  pub walk-Walks :
      (fuel : ℕ) (pending component remaining : List Numbered)
      → length remaining ≤ fuel
      → Distinct remaining
      → EachOf (IsPending component remaining) pending
      → EachOf P pending
      → EachOf P component
      → EachOf P remaining
      → Returns fuel pending component remaining
  unfolding walk
  walk-Walks fuel [] component remaining n d e pp pc pr = (
    (component, remaining),
    (
      refl,
      record { sums = λ f. refl; distinct = d; grows = omega arith; each = pc; each_left = pr },
    ),
  )
  walk-Walks zero (p ∷ pending) component remaining n d (here, e) (q, pp) pc pr =
      elim (Bool-cases (holds_index p.index component)) [
        | inl seen ↦ rw (walk, seen) (walk-Walks zero pending component remaining n d e pp pc pr)
        | inr new ↦ absurd (none_left remaining (IsIn-of_unseen component remaining p new here) n)
      ]
    where
      none_left : (xs : List Numbered) → IsIn xs p → length xs ≤ zero → ⊥
      none_left [] i m = cc
      none_left (x ∷ xs) i m = omega arith
  walk-Walks (suc fuel) (p ∷ pending) component remaining n d (here, e) (q, pp) pc pr =
      elim (Bool-cases (holds_index p.index component)) [
        | inl seen ↦
            rw (walk, seen) (walk-Walks (suc fuel) pending component remaining n d e pp pc pr)
        | inr new ↦
            let i = IsIn-of_unseen component remaining p new here in
            let left = without p.index remaining in
            let kept : EachOf P left = EachOf-kept P _ remaining pr in
            let (out, (run, w)) =
              walk-Walks fuel
                (prepend_reversed (keep_if (λ (x : Numbered). companions p.block x.block) left)
                  pending)
                (p ∷ component) left (smaller fuel p remaining d i n)
                (keep_if-Distinct _ remaining d) (IsPending-next p pending component remaining d e)
                (EachOf-prepend_reversed P _ pending (EachOf-kept P _ left kept) pp) (q, pc) kept in
            (out, (rw (walk, new) run, visit p component remaining out d i w))
      ]

  -- The walk from the first remaining index visits it.
  pub first-Walks :
      (x : Numbered) (xs : List Numbered)
      → Distinct (x ∷ xs)
      → EachOf P (x ∷ xs)
      → (out : List Numbered × List Numbered) × ((walk (length (x ∷ xs)) (x ∷ []) [] (x ∷ xs)
            ≡ ok out)
          × (Walks [] (x ∷ xs) out × (1 ≤ length out.0)))
  unfolding walk
  first-Walks x xs d (p, e) =
      let i : IsIn (x ∷ xs) x = rw (beq_refl x.index) in
      let left = without x.index (x ∷ xs) in
      let kept : EachOf P left =
        EachOf-kept P (λ (y : Numbered). not (y.index == x.index)) (x ∷ xs) (p, e) in
      let (out, (run, w)) =
        walk-Walks (length xs)
          (prepend_reversed (keep_if (λ (y : Numbered). companions x.block y.block) left) [])
          (x ∷ []) left (smaller (length xs) x (x ∷ xs) d i (omega arith))
          (keep_if-Distinct (λ (y : Numbered). not (y.index == x.index)) (x ∷ xs) d)
          (IsPending-next x [] [] (x ∷ xs) d tt)
          (EachOf-prepend_reversed P _ [] (EachOf-kept P _ left kept) tt) (p, tt) kept in
      (out, (run, (visit x [] (x ∷ xs) out d i w, let g = w.grows in omega arith)))
