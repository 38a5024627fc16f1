-- ===== src/ContextGraph/Absorb.antt =====
-- The loops of close_dependency_closure (astrcontinuum/context_graph/closure.py).
use astrbot_plugin_astrconti.Prelude.{
  ℕ, suc, ◌+◌, ◌≤◌, ◌≡◌, ◌⊎◌, refl, subst, String, true, false, not, ◌||◌, inl, inr, List, [], ◌∷◌,
  ◌==◌, nat_eq, string_eq, beq_refl, eq_of_beq, arith, Bool-cases, EachOf, EachOf-map, keep_if, mem,
  length, leb, ok, raise_if-ok, passed, ok-injective,
}
use astrbot_plugin_astrconti.Runtime.Candidate.{CandidateBlock}
use astrbot_plugin_astrconti.ContextGraph.Closure.{companions, ids_of, absorb}

-- Each block's id is the id of a block.
pub own_ids :
    (cs : List CandidateBlock)
    → EachOf (λ (c : CandidateBlock). mem c.block_id (ids_of cs) ≡ true) cs
own_ids [] = tt
own_ids (c ∷ cs) = (
  rw (beq_refl c.block_id),
  EachOf-map (λ (d : CandidateBlock). mem d.block_id (ids_of cs) ≡ true)
      (λ (d : CandidateBlock). mem d.block_id (ids_of (c ∷ cs)) ≡ true) (λ d h. ground (arith, h))
      cs (own_ids cs),
)

-- A block is selected, or it is no companion of that one.
abbrev pub IsCovered : List String → CandidateBlock → CandidateBlock → Type 0
IsCovered ids l r = (mem r.block_id ids ≡ true) ⊎ (companions l r ≡ false)

-- How many blocks are not selected.
abbrev pub left_out : List CandidateBlock → List String → ℕ
left_out available ids =
    length (keep_if (λ (c : CandidateBlock). not (mem c.block_id ids)) available)

pub left_out_le : (cs : List CandidateBlock) (ids : List String) → left_out cs ids ≤ length cs
left_out_le [] ids = omega arith
left_out_le (c ∷ cs) ids =
    let rest = left_out_le cs ids in
    elim (Bool-cases (mem c.block_id ids)) [
      | inl held ↦ rw held (omega arith)
      | inr free ↦ rw free (omega arith)
    ]

left_out_more :
    (id : String) (ids : List String) (cs : List CandidateBlock)
    → left_out cs (id ∷ ids) ≤ left_out cs ids
left_out_more id ids [] = omega arith
left_out_more id ids (c ∷ cs) =
    let rest = left_out_more id ids cs in
    elim (Bool-cases (mem c.block_id ids)) [
      | inl held ↦ elim (Bool-cases (id == c.block_id)) [
        | inl same ↦ rw (held, same) rest
        | inr other ↦ rw (held, other) rest
      ]
      | inr free ↦ elim (Bool-cases (id == c.block_id)) [
        | inl same ↦ rw (free, same) (omega arith)
        | inr other ↦ rw (free, other) (omega arith)
      ]
    ]

left_out_fewer :
    (id : String) (ids : List String) (cs : List CandidateBlock)
    → mem id (ids_of cs) ≡ true
    → mem id ids ≡ false
    → suc (left_out cs (id ∷ ids)) ≤ left_out cs ids
left_out_fewer id ids [] h n = cc
left_out_fewer id ids (c ∷ cs) h n = elim (Bool-cases (c.block_id == id)) [
  | inl here ↦
      let is = eq_of_beq c.block_id id here in
      let free : mem c.block_id ids ≡ false = rw is n in
      let same : (id == c.block_id) ≡ true = rw is (beq_refl id) in
      let rest = left_out_more id ids cs in rw (free, same) (omega arith)
  | inr there ↦
      let rest = left_out_fewer id ids cs (rw there at h) n in
      elim (Bool-cases (mem c.block_id ids)) [
        | inl held ↦ elim (Bool-cases (id == c.block_id)) [
          | inl same ↦ rw (held, same) rest
          | inr other ↦ rw (held, other) rest
        ]
        | inr free ↦ elim (Bool-cases (id == c.block_id)) [
          | inl same ↦ rw (free, same) (omega arith)
          | inr other ↦ rw (free, other) (omega arith)
        ]
      ]
]

-- A loop that returns has selected more, of what was left out; if nothing more, it has covered what it
-- went through.
pub record Absorbs (max_blocks : ℕ) (available : List CandidateBlock) (before after : List String)
    (Covered : List String → Type 0) : Type 0 where
  pub keeps : (id : String) → mem id before ≡ true → mem id after ≡ true
  pub grows : length before ≤ length after
  pub within : length before ≤ max_blocks → length after ≤ max_blocks
  pub uses : left_out available after + length after ≤ left_out available before + length before
  pub covers : length after ≡ length before → (after ≡ before) × Covered before

module _ (max_blocks : ℕ) (available : List CandidateBlock) where
  skipped :
      (l r : CandidateBlock) (rest : List CandidateBlock) (before after : List String)
      → (mem r.block_id before || not (companions l r)) ≡ true
      → Absorbs max_blocks available before after (λ ids. EachOf (IsCovered ids l) rest)
      → Absorbs max_blocks available before after (λ ids. EachOf (IsCovered ids l) (r ∷ rest))
  skipped l r rest before after test a = record {
    keeps = a.keeps;
    grows = a.grows;
    within = a.within;
    uses = a.uses;
    covers = λ e. let (same, each) = a.covers e in (same, (covered, each));
  }
    where
      covered : IsCovered before l r
      covered = elim (Bool-cases (mem r.block_id before)) [
        | inl held ↦ inl held
        | inr free ↦ inr (ground arith)
      ]

  taken :
      (l r : CandidateBlock) (rest : List CandidateBlock) (before after : List String)
      → mem r.block_id before ≡ false
      → mem r.block_id (ids_of available) ≡ true
      → leb max_blocks (length before) ≡ false
      → Absorbs max_blocks available
          (r.block_id ∷ before)
          after
          (λ ids. EachOf (IsCovered ids l) rest)
      → Absorbs max_blocks available before after (λ ids. EachOf (IsCovered ids l) (r ∷ rest))
  taken l r rest before after new known room a = record {
    keeps = λ id h. a.keeps id (ground (arith, h));
    grows = let g = a.grows in omega arith;
    within = λ h. a.within (ground arith);
    uses =
        let u = a.uses in
        let f = left_out_fewer r.block_id before available known new in omega arith;
    covers = λ e. absurd (let g = a.grows in omega arith);
  }

  pub absorb-Absorbs :
      (l : CandidateBlock) (rest : List CandidateBlock) (before after : List String)
      → EachOf (λ (c : CandidateBlock). mem c.block_id (ids_of available) ≡ true) rest
      → absorb max_blocks l rest before ≡ ok after
      → Absorbs max_blocks available before after (λ ids. EachOf (IsCovered ids l) rest)
  unfolding absorb
  absorb-Absorbs l [] before after e h =
      subst (λ z. Absorbs max_blocks available before z (λ ids. EachOf (IsCovered ids l) []))
        (ok-injective before after h)
        (record {
          keeps = λ id h. h;
          grows = omega arith;
          within = λ h. h;
          uses = omega arith;
          covers = λ e. (refl, tt);
        })
  absorb-Absorbs l (r ∷ rest) before after (known, e) h =
      elim (Bool-cases (mem r.block_id before || not (companions l r))) [
        | inl pass ↦
            skipped l r rest before after pass
              (absorb-Absorbs l rest before after e (rw (absorb, pass) at h))
        | inr new ↦
            elim (raise_if-ok (leb max_blocks (length before)) _ _ (rw (absorb, new) at h)) [
              | passed room go ↦
                  taken l r rest before after (ground arith) known room
                    (absorb-Absorbs l rest (r.block_id ∷ before) after e go)
            ]
      ]
