-- ===== src/ContextGraph/Links.antt =====
-- The walk of dependency_groups (astrcontinuum/context_graph/closure.py) and the companions of what it
-- visits.
use astrbot_plugin_astrconti.Prelude.{
  ℕ, zero, suc, ◌≡◌, sym, subst, ◌⊎◌, true, false, not, inl, inr, List, [], ◌∷◌, ◌==◌, nat_eq,
  nat_beq_iff, arith, Bool-cases, EachOf, EachOf-map, EachOf-keep_if, beq_refl, keep_if, ok,
  ok-injective,
}
use astrbot_plugin_astrconti.ContextGraph.Closure.{
  Numbered, holds_index, without, prepend_reversed, companions, walk,
}

prepended_new :
    (n : ℕ) (xs ys : List Numbered)
    → holds_index n ys ≡ true
    → holds_index n (prepend_reversed xs ys) ≡ true
prepended_new n [] ys h = h
prepended_new n (x ∷ xs) ys h = prepended_new n xs (x ∷ ys) (ground arith)

prepended :
    (n : ℕ) (xs ys : List Numbered)
    → holds_index n xs ≡ true
    → holds_index n (prepend_reversed xs ys) ≡ true
prepended n [] ys h = cc
prepended n (x ∷ xs) ys h = elim (Bool-cases (x.index == n)) [
  | inl here ↦ prepended_new n xs (x ∷ ys) (ground arith)
  | inr there ↦ prepended n xs (x ∷ ys) (rw there at h)
]

-- A remaining index is no companion of a visited one, or it is pending.
abbrev pub IsDue : List Numbered → Numbered → Numbered → Type 0
IsDue pending v r = (companions v.block r.block ≡ false) ⊎ (holds_index r.index pending ≡ true)

abbrev pub Unvisited : List Numbered → Numbered → Type 0
Unvisited component r = holds_index r.index component ≡ false

abbrev pub Unlinked : Numbered → Numbered → Type 0
Unlinked v r = companions v.block r.block ≡ false

-- A visited index on top of the stack is due no more.
dropped :
    (p : Numbered) (pending component remaining : List Numbered)
    → holds_index p.index component ≡ true
    → EachOf (Unvisited component) remaining
    → (v : Numbered) → EachOf (IsDue (p ∷ pending) v) remaining
    → EachOf (IsDue pending v) remaining
dropped p pending component [] seen u v e = tt
dropped p pending component (r ∷ rs) seen (new, u) v (due, e) =
    (one due, dropped p pending component rs seen u v e)
  where
    one : IsDue (p ∷ pending) v r → IsDue pending v r
    one (inl apart) = inl apart
    one (inr held) = elim (Bool-cases (p.index == r.index)) [
      | inl same ↦
          cc (
            subst (λ n. holds_index n component ≡ true) ((nat_beq_iff p.index r.index).0 same) seen)
      | inr other ↦ inr (rw other at held)
    ]

-- The companions of a visited index that remain.
abbrev pub linked_to : Numbered → List Numbered → List Numbered
linked_to p left = keep_if (λ (x : Numbered). companions p.block x.block) left

linked_or_apart : (p : Numbered) (left : List Numbered) → EachOf (IsDue (linked_to p left) p) left
linked_or_apart p [] = tt
linked_or_apart p (x ∷ left) = elim (Bool-cases (companions p.block x.block)) [
  | inl linked ↦
      let taken : linked_to p (x ∷ left) ≡ x ∷ linked_to p left = rw linked in
      subst (λ z. EachOf (IsDue z p) (x ∷ left)) (sym taken)
        (
          inr (rw (beq_refl x.index)),
          EachOf-map (IsDue (linked_to p left) p) (IsDue (x ∷ linked_to p left) p)
              (λ r d. later r d) left (linked_or_apart p left),
        )
  | inr apart ↦
      let passed_over : linked_to p (x ∷ left) ≡ linked_to p left = rw apart in
      subst (λ z. EachOf (IsDue z p) (x ∷ left)) (sym passed_over)
        (inl apart, linked_or_apart p left)
]
  where
    later : (r : Numbered) → IsDue (linked_to p left) p r → IsDue (x ∷ linked_to p left) p r
    later r (inl apart) = inl apart
    later r (inr held) = inr (ground arith)

-- What stays due after a visit of p.
visited-IsDue :
    (p : Numbered) (pending left rest : List Numbered) (v : Numbered)
    → EachOf (λ (r : Numbered). (not (r.index == p.index) ≡ true) × IsDue (p ∷ pending) v r) rest
    → EachOf (IsDue (prepend_reversed (linked_to p left) pending) v) rest
visited-IsDue p pending left rest v e =
    EachOf-map _ (IsDue (prepend_reversed (linked_to p left) pending) v) step rest e
  where
    step :
        (r : Numbered)
        → (not (r.index == p.index) ≡ true) × IsDue (p ∷ pending) v r
        → IsDue (prepend_reversed (linked_to p left) pending) v r
    step r (other, inl apart) = inl apart
    step r (other, inr held) = inr (
        prepended_new r.index (linked_to p left) pending
          (ground (arith, nat_beq_iff r.index p.index, nat_beq_iff p.index r.index)))

Unvisited-next :
    (p : Numbered) (component remaining : List Numbered)
    → EachOf (Unvisited component) remaining
    → EachOf (Unvisited (p ∷ component)) (without p.index remaining)
Unvisited-next p component remaining u =
    EachOf-map (λ (r : Numbered). (not (r.index == p.index) ≡ true) × Unvisited component r)
      (Unvisited (p ∷ component))
      (λ r (other, new). ground (arith, nat_beq_iff r.index p.index, nat_beq_iff p.index r.index))
      (without p.index remaining)
      (EachOf-keep_if (Unvisited component) (λ (x : Numbered). not (x.index == p.index)) remaining
        u)

-- A walk leaves no companion of what it visited.
pub walk-Unlinked :
    (fuel : ℕ) (pending component remaining : List Numbered) (out : List Numbered × List Numbered)
    → walk fuel pending component remaining ≡ ok out
    → EachOf (Unvisited component) remaining
    → EachOf (λ v. EachOf (IsDue pending v) remaining) component
    → EachOf (λ v. EachOf (Unlinked v) out.1) out.0
unfolding walk
walk-Unlinked fuel [] component remaining out h u e =
    subst (λ (z : List Numbered × List Numbered). EachOf (λ v. EachOf (Unlinked v) z.1) z.0)
      (ok-injective (component, remaining) out h)
      (EachOf-map _ (λ v. EachOf (Unlinked v) remaining)
        (λ v d. EachOf-map (IsDue [] v) (Unlinked v) (λ r k. none_due v r k) remaining d) component
        e)
  where
    none_due : (v r : Numbered) → IsDue [] v r → Unlinked v r
    none_due v r (inl apart) = apart
    none_due v r (inr held) = cc
walk-Unlinked zero (p ∷ pending) component remaining out h u e =
    elim (Bool-cases (holds_index p.index component)) [
      | inr new ↦ cc (rw (walk, new) at h)
      | inl seen ↦ walk-Unlinked zero pending component remaining out (rw (walk, seen) at h) u (
          EachOf-map _ (λ v. EachOf (IsDue pending v) remaining)
            (λ v d. dropped p pending component remaining seen u v d) component e)
    ]
walk-Unlinked (suc fuel) (p ∷ pending) component remaining out h u e =
    elim (Bool-cases (holds_index p.index component)) [
      | inl seen ↦
          walk-Unlinked (suc fuel) pending component remaining out (rw (walk, seen) at h) u (
            EachOf-map _ (λ v. EachOf (IsDue pending v) remaining)
              (λ v d. dropped p pending component remaining seen u v d) component e)
      | inr new ↦
          let left = without p.index remaining in
          walk-Unlinked fuel (prepend_reversed (linked_to p left) pending) (p ∷ component) left out
            (rw (walk, new) at h) (Unvisited-next p component remaining u)
            (
              EachOf-map (IsDue (linked_to p left) p)
                  (IsDue (prepend_reversed (linked_to p left) pending) p)
                  (λ r d. pushed p pending left r d) left (linked_or_apart p left),
              EachOf-map _
                  (λ v. EachOf (IsDue (prepend_reversed (linked_to p left) pending) v) left)
                  (λ v d. visited-IsDue p pending left left v (
                    EachOf-keep_if (IsDue (p ∷ pending) v)
                      (λ (x : Numbered). not (x.index == p.index)) remaining d))
                  component e,
            )
    ]
  where
    pushed :
        (p : Numbered) (pending left : List Numbered) (r : Numbered)
        → IsDue (linked_to p left) p r
        → IsDue (prepend_reversed (linked_to p left) pending) p r
    pushed p pending left r (inl apart) = inl apart
    pushed p pending left r (inr held) = inr (prepended r.index (linked_to p left) pending held)
