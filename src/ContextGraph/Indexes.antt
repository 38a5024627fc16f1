-- ===== src/ContextGraph/Indexes.antt =====
-- The indexes of astrcontinuum/context_graph/closure.py among the remaining ones.
use mathlib.Core.Option.{some-injective}
use astrbot_plugin_astrconti.Prelude.{
  ℕ, suc, ◌+◌, ◌≤◌, ◌≡◌, refl, sym, ap, Bool, false, some, inl, inr, List, [], ◌∷◌, ◌==◌, nat_eq,
  beq_refl, arith, nat_beq_iff, Bool-cases, EachOf, keep_if, length, sum_by, sort_by, insert_sorted,
}
use astrbot_plugin_astrconti.Storage.Rows.{find}
use astrbot_plugin_astrconti.Runtime.Candidate.{CandidateBlock}
use astrbot_plugin_astrconti.ContextGraph.Closure.{Numbered, number_from, holds_index, without}

abbrev pub at : ℕ → Numbered → Bool
at n x = x.index == n

abbrev pub IsIn : List Numbered → Numbered → Type 0
IsIn xs p = find (at p.index) xs ≡ some p

abbrev pub Distinct : List Numbered → Type 0
Distinct [] = Unit
Distinct (x ∷ xs) = (holds_index x.index xs ≡ false) × Distinct xs

holds_index-keep_if :
    (q : Numbered → Bool) (n : ℕ) (xs : List Numbered)
    → holds_index n xs ≡ false
    → holds_index n (keep_if q xs) ≡ false
holds_index-keep_if q n [] h = refl
holds_index-keep_if q n (x ∷ xs) h =
    let rest = holds_index-keep_if q n xs (ground arith) in
    elim (Bool-cases (q x)) [ inl hit ↦ rw hit (ground arith) | inr miss ↦ rw miss rest ]

pub keep_if-Distinct :
    (q : Numbered → Bool) (xs : List Numbered) → Distinct xs → Distinct (keep_if q xs)
keep_if-Distinct q [] d = tt
keep_if-Distinct q (x ∷ xs) (apart, d) = elim (Bool-cases (q x)) [
  | inl hit ↦ rw hit (holds_index-keep_if q x.index xs apart, keep_if-Distinct q xs d)
  | inr miss ↦ rw miss (keep_if-Distinct q xs d)
]

-- An index that is not held is another than each that is in.
IsIn-later :
    (x : Numbered) (xs ys : List Numbered)
    → holds_index x.index ys ≡ false
    → EachOf (IsIn xs) ys
    → EachOf (IsIn (x ∷ xs)) ys
IsIn-later x xs [] h e = tt
IsIn-later x xs (y ∷ ys) h (p, e) =
    let apart : (x.index == y.index) ≡ false =
      ground (arith, nat_beq_iff x.index y.index, nat_beq_iff y.index x.index) in
    (rw apart p, IsIn-later x xs ys (ground arith) e)

pub Distinct-IsIn : (xs : List Numbered) → Distinct xs → EachOf (IsIn xs) xs
Distinct-IsIn [] d = tt
Distinct-IsIn (x ∷ xs) (h, d) = (rw (beq_refl x.index), IsIn-later x xs xs h (Distinct-IsIn xs d))

pub without-IsIn :
    (n : ℕ) (xs : List Numbered) (q : Numbered)
    → (q.index == n) ≡ false
    → IsIn xs q
    → IsIn (without n xs) q
without-IsIn n [] q h e = cc
without-IsIn n (x ∷ xs) q h e = elim (Bool-cases (x.index == q.index)) [
  | inl here ↦
      let same = some-injective x q (rw here at e) in
      let kept : (x.index == n) ≡ false = rw (ap (λ (z : Numbered). z.index) same) h in
      rw (kept, here) (ap some same)
  | inr there ↦ elim (Bool-cases (x.index == n)) [
    | inl gone ↦ rw gone (without-IsIn n xs q h (rw there at e))
    | inr kept ↦ rw (kept, there) (without-IsIn n xs q h (rw there at e))
  ]
]

without_none : (n : ℕ) (xs : List Numbered) → holds_index n xs ≡ false → without n xs ≡ xs
without_none n [] h = refl
without_none n (x ∷ xs) h =
    let apart : (x.index == n) ≡ false = ground arith in
    rw apart (ap (◌∷◌ x) (without_none n xs (ground arith)))

pub sum_by-without :
    (f : Numbered → ℕ) (xs : List Numbered) (p : Numbered)
    → Distinct xs
    → IsIn xs p
    → sum_by f xs ≡ f p + sum_by f (without p.index xs)
sum_by-without f [] p d e = cc
sum_by-without f (x ∷ xs) p (h, d) e = elim (Bool-cases (x.index == p.index)) [
  | inl here ↦
      let same = some-injective x p (rw here at e) in
      let none_left : holds_index p.index xs ≡ false =
        rw (sym (ap (λ (z : Numbered). z.index) same)) h in
      let cost : f x ≡ f p = ap f same in rw (here, without_none p.index xs none_left) (omega arith)
  | inr there ↦ let rest = sum_by-without f xs p d (rw there at e) in rw there (omega arith)
]

pub length-sum_by {ℓ} : {A : Type ℓ} (xs : List A) → sum_by (λ x. 1) xs ≡ length xs
length-sum_by [] = refl
length-sum_by (x ∷ xs) = let rest = length-sum_by xs in omega arith

sum_by-insert_sorted {ℓ} :
    {A : Type ℓ} (f : A → ℕ) (le : A → A → Bool) (x : A) (ys : List A)
    → sum_by f (insert_sorted le x ys) ≡ f x + sum_by f ys
sum_by-insert_sorted f le x [] = refl
sum_by-insert_sorted f le x (y ∷ ys) = elim (Bool-cases (le x y)) [
  | inl before ↦ rw before
  | inr after ↦ let rest = sum_by-insert_sorted f le x ys in rw after (omega arith)
]

pub sum_by-sort_by {ℓ} :
    {A : Type ℓ} (f : A → ℕ) (le : A → A → Bool) (xs : List A)
    → sum_by f (sort_by le xs) ≡ sum_by f xs
sum_by-sort_by f le [] = refl
sum_by-sort_by f le (x ∷ xs) =
    let one = sum_by-insert_sorted f le x (sort_by le xs) in
    let rest = sum_by-sort_by f le xs in omega arith

number_from-above :
    (k n : ℕ) (cs : List CandidateBlock) → suc k ≤ n → holds_index k (number_from n cs) ≡ false
number_from-above k n [] h = refl
number_from-above k n (c ∷ cs) h =
    let rest = number_from-above k (suc n) cs (omega arith) in
    let apart : (n == k) ≡ false = ground (arith, nat_beq_iff n k) in ground arith

pub number_from-Distinct : (n : ℕ) (cs : List CandidateBlock) → Distinct (number_from n cs)
number_from-Distinct n [] = tt
number_from-Distinct n (c ∷ cs) =
    (number_from-above n (suc n) cs (omega arith), number_from-Distinct (suc n) cs)
