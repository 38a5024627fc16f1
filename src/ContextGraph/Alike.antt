-- ===== src/ContextGraph/Alike.antt =====
-- The blocks of a group of dependency_groups (astrcontinuum/context_graph/closure.py) under a test.
use astrbot_plugin_astrconti.Prelude.{
  zero, suc, ◌≡◌, refl, ◌==◌, sym, ◌∙◌, subst, Bool, true, not, inl, inr, List, [], ◌∷◌, nat_eq,
  string_eq, Bool-cases, EachOf, EachOf-map, EachOf-kept, EachOf-sort_by, ℕ, length, sort_by, ok,
  is_unique, bind-ok, bound, raise_if-ok, passed, ok-injective,
}
use astrbot_plugin_astrconti.Runtime.Candidate.{CandidateBlock}
use astrbot_plugin_astrconti.ContextGraph.Closure.{
  Numbered, number_from, holds_index, without, prepend_reversed, companions, walk, components,
  index_le, blocks_of, ids_of, dependency_groups,
}
use astrbot_plugin_astrconti.ContextGraph.Groups.{EachOf-prepend_reversed}
use astrbot_plugin_astrconti.ContextGraph.Links.{linked_to}
use astrbot_plugin_astrconti.ContextGraph.Partition.{EachOf-blocks_of, EachOf-number_from}

-- A walk leaves only what remained.
walk-kept :
    (P : Numbered → Type 0) (fuel : ℕ) (pending component remaining : List Numbered)
    (out : List Numbered × List Numbered)
    → walk fuel pending component remaining ≡ ok out
    → EachOf P remaining
    → EachOf P out.1
unfolding walk
walk-kept P fuel [] component remaining out h e =
    subst (λ (z : List Numbered × List Numbered). EachOf P z.1)
      (ok-injective (component, remaining) out h) e
walk-kept P zero (p ∷ pending) component remaining out h e =
    elim (Bool-cases (holds_index p.index component)) [
      | inr new ↦ cc (rw (walk, new) at h)
      | inl seen ↦ walk-kept P zero pending component remaining out (rw (walk, seen) at h) e
    ]
walk-kept P (suc fuel) (p ∷ pending) component remaining out h e =
    elim (Bool-cases (holds_index p.index component)) [
      | inl seen ↦ walk-kept P (suc fuel) pending component remaining out (rw (walk, seen) at h) e
      | inr new ↦
          let left = without p.index remaining in
          walk-kept P fuel (prepend_reversed (linked_to p left) pending) (p ∷ component) left out
            (rw (walk, new) at h) (EachOf-kept P _ remaining e)
    ]

module _ (q : CandidateBlock → Bool) where
  -- Companions among these blocks answer alike.
  abbrev pub Agrees : List CandidateBlock → CandidateBlock → Type 0
  Agrees candidates c = EachOf (λ d. companions c d ≡ true → q c ≡ q d) candidates

  -- All of a group answer alike.
  abbrev pub IsAlike : List CandidateBlock → Type 0
  IsAlike group = EachOf (λ c. EachOf (λ d. q c ≡ q d) group) group

  abbrev AgreesAt : List Numbered → Numbered → Type 0
  AgreesAt remaining v =
      EachOf (λ (r : Numbered). companions v.block r.block ≡ true → q v.block ≡ q r.block) remaining

  -- An index that agrees with what remains, and answers so.
  abbrev Answers : Bool → List Numbered → Numbered → Type 0
  Answers b remaining v = (q v.block ≡ b) × AgreesAt remaining v

  fewer :
      (b : Bool) (n : ℕ) (remaining xs : List Numbered)
      → EachOf (Answers b remaining) xs
      → EachOf (Answers b (without n remaining)) xs
  fewer b n remaining xs e =
      EachOf-map (Answers b remaining) (Answers b (without n remaining))
        (λ v (s, a). (s, EachOf-kept _ (λ (x : Numbered). not (x.index == n)) remaining a)) xs e

  fewer_left :
      (n : ℕ) (remaining : List Numbered)
      → EachOf (AgreesAt remaining) remaining
      → EachOf (AgreesAt (without n remaining)) (without n remaining)
  fewer_left n remaining a =
      EachOf-map (AgreesAt remaining) (AgreesAt (without n remaining))
        (λ v k. EachOf-kept _ (λ (x : Numbered). not (x.index == n)) remaining k)
        (without n remaining)
        (EachOf-kept (AgreesAt remaining) (λ (x : Numbered). not (x.index == n)) remaining a)

  -- The companions that a visit pushes.
  pushed :
      (b : Bool) (p : Numbered) (left whole xs : List Numbered)
      → q p.block ≡ b
      → EachOf (λ (r : Numbered). companions p.block r.block ≡ true → q p.block ≡ q r.block) xs
      → EachOf (AgreesAt whole) xs
      → EachOf (Answers b whole) (linked_to p xs)
  pushed b p left whole [] s k a = tt
  pushed b p left whole (x ∷ xs) s (same, k) (agrees, a) =
      elim (Bool-cases (companions p.block x.block)) [
        | inl linked ↦ rw linked ((sym (same linked) ∙ s, agrees), pushed b p left whole xs s k a)
        | inr apart ↦ rw apart (pushed b p left whole xs s k a)
      ]

  walk-alike :
      (b : Bool) (fuel : ℕ) (pending component remaining : List Numbered)
      (out : List Numbered × List Numbered)
      → walk fuel pending component remaining ≡ ok out
      → EachOf (Answers b remaining) pending
      → EachOf (λ (x : Numbered). q x.block ≡ b) component
      → EachOf (AgreesAt remaining) remaining
      → EachOf (λ (x : Numbered). q x.block ≡ b) out.0
  unfolding walk
  walk-alike b fuel [] component remaining out h e f a =
      subst (λ (z : List Numbered × List Numbered). EachOf (λ (x : Numbered). q x.block ≡ b) z.0)
        (ok-injective (component, remaining) out h) f
  walk-alike b zero (p ∷ pending) component remaining out h (s, e) f a =
      elim (Bool-cases (holds_index p.index component)) [
        | inr new ↦ cc (rw (walk, new) at h)
        | inl seen ↦ walk-alike b zero pending component remaining out (rw (walk, seen) at h) e f a
      ]
  walk-alike b (suc fuel) (p ∷ pending) component remaining out h ((s, k), e) f a =
      elim (Bool-cases (holds_index p.index component)) [
        | inl seen ↦
            walk-alike b (suc fuel) pending component remaining out (rw (walk, seen) at h) e f a
        | inr new ↦
            let left = without p.index remaining in
            let agreed = fewer_left p.index remaining a in
            walk-alike b fuel (prepend_reversed (linked_to p left) pending) (p ∷ component) left out
              (rw (walk, new) at h)
              (EachOf-prepend_reversed (Answers b left) (linked_to p left) pending
                (pushed b p left left left s
                  (EachOf-kept _ (λ (x : Numbered). not (x.index == p.index)) remaining k) agreed)
                (fewer b p.index remaining pending e))
              (s, f) agreed
      ]

  IsAlike-group :
      (x : Numbered) (component : List Numbered)
      → EachOf (λ (y : Numbered). q y.block ≡ q x.block) component
      → IsAlike (blocks_of (sort_by index_le component))
  IsAlike-group x component e =
      let group = blocks_of (sort_by index_le component) in
      let alike : EachOf (λ d. q d ≡ q x.block) group =
        EachOf-blocks_of (λ d. q d ≡ q x.block) (sort_by index_le component)
          (EachOf-sort_by (λ (y : Numbered). q y.block ≡ q x.block) index_le component e) in
      EachOf-map (λ c. q c ≡ q x.block) (λ c. EachOf (λ d. q c ≡ q d) group)
        (λ c same.
          EachOf-map (λ d. q d ≡ q x.block) (λ d. q c ≡ q d) (λ d other. same ∙ sym other) group
            alike)
        group alike

  components-IsAlike :
      (fuel : ℕ) (remaining : List Numbered) (groups : List (List CandidateBlock))
      → components fuel remaining ≡ ok groups
      → EachOf (AgreesAt remaining) remaining
      → EachOf IsAlike groups
  unfolding components
  components-IsAlike fuel [] groups h a = subst (EachOf IsAlike) (ok-injective [] groups h) tt
  components-IsAlike zero (x ∷ xs) groups h a = cc
  components-IsAlike (suc fuel) (x ∷ xs) groups h (k, a) =
      elim (bind-ok (walk (length (x ∷ xs)) (x ∷ []) [] (x ∷ xs)) _ h) [
        | bound out run h1 ↦ elim (bind-ok (components fuel out.1) _ h1) [
          | bound later rest done ↦
              let kept : (P : Numbered → Type 0) → EachOf P (x ∷ xs) → EachOf P out.1 =
                λ P e. walk-kept P (length (x ∷ xs)) (x ∷ []) [] (x ∷ xs) out run e in
              subst (EachOf IsAlike) (ok-injective _ groups done) (
                IsAlike-group x out.0 (
                    walk-alike (q x.block) (length (x ∷ xs)) (x ∷ []) [] (x ∷ xs) out run
                      ((refl, k), tt) tt (k, a)),
                components-IsAlike fuel out.1 later rest (
                    EachOf-map (AgreesAt (x ∷ xs)) (AgreesAt out.1)
                      (λ v e.
                        kept
                          (λ (r : Numbered).
                            companions v.block r.block ≡ true → q v.block ≡ q r.block)
                          e)
                      out.1 (kept (AgreesAt (x ∷ xs)) (k, a))),
              )
        ]
      ]

  -- A test that any two companions among the candidates answer alike is answered alike by all blocks of
  -- a group: the companions connect each group.
  pub dependency_groups-IsAlike :
      (candidates : List CandidateBlock) (groups : List (List CandidateBlock))
      → dependency_groups candidates ≡ ok groups
      → EachOf (Agrees candidates) candidates
      → EachOf IsAlike groups
  unfolding dependency_groups
  dependency_groups-IsAlike candidates groups h a =
      elim (raise_if-ok (not (is_unique (ids_of candidates))) _ _ h) [
        | passed unique rest ↦
            components-IsAlike (length candidates) (number_from 0 candidates) groups rest (
              EachOf-map (λ (x : Numbered). Agrees candidates x.block)
                (AgreesAt (number_from 0 candidates))
                (λ v e.
                  EachOf-number_from (λ d. companions v.block d ≡ true → q v.block ≡ q d) 0
                    candidates e)
                (number_from 0 candidates) (EachOf-number_from (Agrees candidates) 0 candidates a))
      ]
