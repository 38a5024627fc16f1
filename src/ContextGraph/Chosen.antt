-- ===== src/ContextGraph/Chosen.antt =====
-- The ids of close_dependency_closure (astrcontinuum/context_graph/closure.py) and the blocks chosen by
-- them.
use astrbot_plugin_astrconti.Prelude.{
  suc, ◌≤◌, ◌≡◌, refl, ap, subst, String, true, false, not, ◌||◌, inl, inr, List, [], ◌∷◌, ◌==◌,
  nat_eq, string_eq, beq_refl, eq_of_beq, arith, Bool-cases, EachOf, keep_if, mem, length,
  is_unique, if◌then◌else◌,
}
use astrbot_plugin_astrconti.Runtime.Candidate.{CandidateBlock}
use astrbot_plugin_astrconti.ContextGraph.Closure.{ids_of, chosen, add_ids}

abbrev without_id : String → List String → List String
without_id id ids = keep_if (λ x. not (x == id)) ids

length-without_id_le : (id : String) (ids : List String) → length (without_id id ids) ≤ length ids
length-without_id_le id [] = omega arith
length-without_id_le id (x ∷ ids) =
    let rest = length-without_id_le id ids in
    elim (Bool-cases (x == id)) [
      | inl same ↦ rw same (omega arith)
      | inr other ↦ rw other (omega arith)
    ]

length-without_id :
    (id : String) (ids : List String)
    → mem id ids ≡ true
    → suc (length (without_id id ids)) ≤ length ids
length-without_id id [] h = cc
length-without_id id (x ∷ ids) h = elim (Bool-cases (x == id)) [
  | inl same ↦ let rest = length-without_id_le id ids in rw same (omega arith)
  | inr other ↦ let rest = length-without_id id ids (rw other at h) in rw other (omega arith)
]

mem-without_id :
    (id other : String) (ids : List String)
    → (other == id) ≡ false
    → mem other (without_id id ids) ≡ mem other ids
mem-without_id id other [] h = refl
mem-without_id id other (x ∷ ids) h = elim (Bool-cases (x == id)) [
  | inl same ↦
      let apart : (x == other) ≡ false = elim (Bool-cases (x == other)) [
        | inl both ↦ absurd (clash (eq_of_beq x id same) (eq_of_beq x other both))
        | inr free ↦ free
      ] in
      rw (same, apart) (mem-without_id id other ids h)
  | inr kept ↦ rw kept (ap (λ z. (x == other) || z) (mem-without_id id other ids h))
]
  where
    clash : x ≡ id → x ≡ other → ⊥
    clash a b = cc (subst (λ z. (z == id) ≡ true) b (subst (λ z. (x == z) ≡ true) a (beq_refl x)))

chosen-without_id :
    (id : String) (ids : List String) (cs : List CandidateBlock)
    → mem id (ids_of cs) ≡ false
    → chosen (without_id id ids) cs ≡ chosen ids cs
chosen-without_id id ids [] h = refl
chosen-without_id id ids (c ∷ cs) h =
    let rest = chosen-without_id id ids cs (ground arith) in
    let same = mem-without_id id c.block_id ids (ground arith) in
    elim (Bool-cases (mem c.block_id ids)) [
      | inl held ↦ rw (same, held, rest)
      | inr free ↦ rw (same, free, rest)
    ]

-- No more blocks are chosen than there are ids.
pub length-chosen :
    (cs : List CandidateBlock) (ids : List String)
    → is_unique (ids_of cs) ≡ true
    → length (chosen ids cs) ≤ length ids
length-chosen [] ids u = omega arith
length-chosen (c ∷ cs) ids u = elim (Bool-cases (mem c.block_id (ids_of cs))) [
  | inl again ↦ cc (rw again at u)
  | inr once ↦ elim (Bool-cases (mem c.block_id ids)) [
    | inr free ↦ rw free (length-chosen cs ids (rw once at u))
    | inl held ↦
        let rest = length-chosen cs (without_id c.block_id ids) (rw once at u) in
        let same = ap length (chosen-without_id c.block_id ids cs once) in
        let less = length-without_id c.block_id ids held in rw held (omega arith)
  ]
]

pub mem-chosen :
    (id : String) (ids : List String) (cs : List CandidateBlock)
    → mem id ids ≡ true
    → mem id (ids_of cs) ≡ true
    → mem id (ids_of (chosen ids cs)) ≡ true
mem-chosen id ids [] h k = cc
mem-chosen id ids (c ∷ cs) h k = elim (Bool-cases (c.block_id == id)) [
  | inl here ↦
      let kept : mem c.block_id ids ≡ true = rw (eq_of_beq c.block_id id here) h in rw (kept, here)
  | inr there ↦
      let rest = mem-chosen id ids cs h (rw there at k) in
      elim (Bool-cases (mem c.block_id ids)) [
        | inl held ↦ rw (held, there) rest
        | inr free ↦ rw free rest
      ]
]

pub mem-add_ids :
    (cs : List CandidateBlock) (ids : List String) (id : String)
    → mem id ids ≡ true
    → mem id (add_ids cs ids) ≡ true
mem-add_ids [] ids id h = h
mem-add_ids (c ∷ cs) ids id h = elim (Bool-cases (mem c.block_id ids)) [
  | inl held ↦ rw held (mem-add_ids cs ids id h)
  | inr free ↦ rw free (mem-add_ids cs (c.block_id ∷ ids) id (ground (arith, h)))
]

pub each_added :
    (cs : List CandidateBlock) (ids : List String)
    → EachOf (λ (c : CandidateBlock). mem c.block_id (add_ids cs ids) ≡ true) cs
each_added [] ids = tt
each_added (c ∷ cs) ids =
    let ids' : List String = if mem c.block_id ids then ids else c.block_id ∷ ids in
    (mem-add_ids cs ids' c.block_id held, each_added cs ids')
  where
    held : mem c.block_id (if mem c.block_id ids then ids else c.block_id ∷ ids) ≡ true
    held = elim (Bool-cases (mem c.block_id ids)) [
      | inl is ↦ rw (is, is)
      | inr free ↦ rw (free, beq_refl c.block_id)
    ]
