-- ===== src/ContextGraph/Closed.antt =====
-- close_dependency_closure (astrcontinuum/context_graph/closure.py) against its specification.
use astrbot_plugin_astrconti.Prelude.{
  ℕ, zero, suc, ◌≤◌, ◌≡◌, ◌≢◌, refl, sym, subst, ◌∙◌, String, true, not, ◌||◌, inl, inr, List, [],
  ◌∷◌, ◌==◌, nat_eq, string_eq, arith, Bool-cases, EachOf, mem, length, leb, ok, err, bind-ok,
  bound, bind-err, at_once, later, ok-injective, nat_beq_iff,
}
use astrbot_plugin_astrconti.Runtime.Candidate.{CandidateBlock}
use astrbot_plugin_astrconti.ContextGraph.Closure.{
  out_of_fuel, companions, absorb, absorb_all, chosen, close_rounds,
}
use astrbot_plugin_astrconti.ContextGraph.Absorb.{
  IsCovered, left_out, Absorbs, absorb-Absorbs, own_ids,
}

-- Each of these blocks covers the available ones.
abbrev pub IsClosed : List String → List CandidateBlock → List CandidateBlock → Type 0
IsClosed ids available cs = EachOf (λ l. EachOf (IsCovered ids l) available) cs

module _ (max_blocks : ℕ) (available : List CandidateBlock) where
  absorb_all-Absorbs :
      (active : List CandidateBlock) (before after : List String)
      → absorb_all max_blocks active available before ≡ ok after
      → Absorbs max_blocks available before after (λ ids. IsClosed ids available active)
  unfolding absorb_all
  absorb_all-Absorbs [] before after h =
      subst (λ z. Absorbs max_blocks available before z (λ ids. IsClosed ids available []))
        (ok-injective before after h)
        (record {
          keeps = λ id h. h;
          grows = omega arith;
          within = λ h. h;
          uses = omega arith;
          covers = λ e. (refl, tt);
        })
  absorb_all-Absorbs (l ∷ active) before after h =
      elim (bind-ok (absorb max_blocks l available before) _ h) [
        | bound middle first rest ↦
            let a =
              absorb-Absorbs max_blocks available l available before middle (own_ids available)
                first in
            let b = absorb_all-Absorbs active middle after rest in
            record {
              keeps = λ id k. b.keeps id (a.keeps id k);
              grows = let g = a.grows in let k = b.grows in omega arith;
              within = λ k. b.within (a.within k);
              uses = let u = a.uses in let v = b.uses in omega arith;
              covers = λ e.
                  let g = a.grows in
                  let k = b.grows in
                  let (same, each) = a.covers (omega arith) in
                  let (same', each') = b.covers (omega arith) in
                  (same' ∙ same, (each, subst (λ z. IsClosed z available active) same each'));
            }
      ]

  -- What the rounds return.
  pub record Closes (before after : List String) : Type 0 where
    pub keeps : (id : String) → mem id before ≡ true → mem id after ≡ true
    pub within : length before ≤ max_blocks → length after ≤ max_blocks
    pub closed : IsClosed after available (chosen after available)

  pub close_rounds-Closes :
      (fuel : ℕ) (before after : List String)
      → close_rounds fuel max_blocks available before ≡ ok after
      → Closes before after
  unfolding close_rounds
  close_rounds-Closes zero before after h = cc
  close_rounds-Closes (suc fuel) before after h =
      elim (bind-ok (absorb_all max_blocks (chosen before available) available before) _ h) [
        | bound next run rest ↦
            let a = absorb_all-Absorbs (chosen before available) before next run in
            elim (Bool-cases (length next == length before)) [
              | inl same ↦
                  let (is, each) = a.covers ((nat_beq_iff (length next) (length before)).0 same) in
                  let end = ok-injective next after (rw same at rest) in
                  let still : IsClosed next available (chosen next available) =
                    subst (λ z. IsClosed z available (chosen z available)) (sym is) each in
                  subst (λ z. Closes before z) end
                    (record { keeps = a.keeps; within = a.within; closed = still })
              | inr changed ↦
                  let c = close_rounds-Closes fuel next after (rw changed at rest) in
                  record {
                    keeps = λ id k. c.keeps id (a.keeps id k);
                    within = λ k. c.within (a.within k);
                    closed = c.closed;
                  }
            ]
      ]

  absorb-raises :
      (l : CandidateBlock) (rest : List CandidateBlock) (before : List String)
      → absorb max_blocks l rest before ≢ err out_of_fuel
  unfolding absorb
  absorb-raises l [] before h = cc
  absorb-raises l (r ∷ rest) before h =
      elim (Bool-cases (mem r.block_id before || not (companions l r))) [
        | inl pass ↦ absorb-raises l rest before (rw (absorb, pass) at h)
        | inr new ↦ elim (Bool-cases (leb max_blocks (length before))) [
          | inl full ↦ cc (rw (absorb, new, full) at h)
          | inr room ↦ absorb-raises l rest (r.block_id ∷ before) (rw (absorb, new, room) at h)
        ]
      ]

  absorb_all-raises :
      (active : List CandidateBlock) (before : List String)
      → absorb_all max_blocks active available before ≢ err out_of_fuel
  unfolding absorb_all
  absorb_all-raises [] before h = cc
  absorb_all-raises (l ∷ active) before h =
      elim (bind-err (absorb max_blocks l available before) _ h) [
        | at_once bad ↦ absorb-raises l available before bad
        | later middle first bad ↦ absorb_all-raises active middle bad
      ]

  pub close_rounds-ends :
      (fuel : ℕ) (before : List String)
      → suc (left_out available before) ≤ fuel
      → close_rounds fuel max_blocks available before ≢ err out_of_fuel
  unfolding close_rounds
  close_rounds-ends zero before n h = omega arith
  close_rounds-ends (suc fuel) before n h =
      elim (bind-err (absorb_all max_blocks (chosen before available) available before) _ h) [
        | at_once bad ↦ absorb_all-raises (chosen before available) before bad
        | later next run bad ↦
            let a = absorb_all-Absorbs (chosen before available) before next run in
            elim (Bool-cases (length next == length before)) [
              | inl same ↦ cc (rw same at bad)
              | inr changed ↦
                  let g = a.grows in
                  let u = a.uses in
                  let more : suc (length before) ≤ length next =
                    ground (arith, nat_beq_iff (length next) (length before)) in
                  close_rounds-ends fuel next (omega arith) (rw changed at bad)
            ]
      ]
