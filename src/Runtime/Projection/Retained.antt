-- ===== src/Runtime/Projection/Retained.antt =====
-- The history that a guard sets apart (astrcontinuum/runtime/projection.py) and the preserved objects.
use astrbot_plugin_astrconti.Prelude.{
  ℕ, ◌≡◌, refl, ap, Bool, true, false, not, inl, inr, List, [], ◌∷◌, ◌++◌, ◌==◌, nat_eq, beq_refl,
  eq_of_beq, arith, Bool-cases, EachOf, EachOf-map, any, keep_if, mem, is_unique,
}

pub keep_if-append :
    (q : ℕ → Bool) (xs ys : List ℕ) → keep_if q (xs ++ ys) ≡ keep_if q xs ++ keep_if q ys
keep_if-append q [] ys = refl
keep_if-append q (x ∷ xs) ys = elim (Bool-cases (q x)) [
  | inl hit ↦ rw hit (ap (◌∷◌ x) (keep_if-append q xs ys))
  | inr miss ↦ rw miss (keep_if-append q xs ys)
]

pub keep_if_all : (q : ℕ → Bool) (xs : List ℕ) → EachOf (λ x. q x ≡ true) xs → keep_if q xs ≡ xs
keep_if_all q [] e = refl
keep_if_all q (x ∷ xs) (h, e) = rw h (ap (◌∷◌ x) (keep_if_all q xs e))

-- An object that the filter drops is not in what it keeps.
pub mem_dropped :
    (preserved : List ℕ) (t : ℕ) (items : List ℕ)
    → mem t preserved ≡ true
    → mem t (keep_if (λ x. not (mem x preserved)) items) ≡ false
mem_dropped preserved t [] h = refl
mem_dropped preserved t (x ∷ items) h = elim (Bool-cases (mem x preserved)) [
  | inl dropped ↦ rw dropped (mem_dropped preserved t items h)
  | inr kept ↦ elim (Bool-cases (x == t)) [
    | inl same ↦ cc (rw (eq_of_beq x t same) at kept)
    | inr apart ↦ rw (kept, apart) (mem_dropped preserved t items h)
  ]
]

mem_right : (t : ℕ) (xs ys : List ℕ) → mem t ys ≡ true → mem t (xs ++ ys) ≡ true
mem_right t [] ys h = h
mem_right t (x ∷ xs) ys h = let rest = mem_right t xs ys h in ground arith

own : (xs : List ℕ) → EachOf (λ t. mem t xs ≡ true) xs
own [] = tt
own (x ∷ xs) = (
  rw (beq_refl x),
  EachOf-map (λ t. mem t xs ≡ true) (λ t. mem t (x ∷ xs) ≡ true) (λ t h. ground (arith, h)) xs
      (own xs),
)

-- The preserved objects stay: a list of them is kept whole.
pub keep_if_preserved :
    (system current items : List ℕ)
    → keep_if (λ x. not (mem x (keep_if (λ y. not (mem y (system ++ current))) items))) current
      ≡ current
keep_if_preserved system current items = keep_if_all _ current (
    EachOf-map (λ t. mem t current ≡ true)
      (λ t. not (mem t (keep_if (λ y. not (mem y (system ++ current))) items)) ≡ true)
      (λ t h. rw (mem_dropped (system ++ current) t items (mem_right t system current h))) current
      (own current))

pub is_unique_right : (xs ys : List ℕ) → is_unique (xs ++ ys) ≡ true → is_unique ys ≡ true
is_unique_right [] ys h = h
is_unique_right (x ∷ xs) ys h = elim (Bool-cases (mem x (xs ++ ys))) [
  | inl again ↦ cc (rw again at h)
  | inr once ↦ is_unique_right xs ys (rw once at h)
]

mem_of_fresh :
    (items : List ℕ) (t : ℕ) (projection : List ℕ)
    → mem t items ≡ true
    → any (λ x. mem x items) projection ≡ false
    → mem t projection ≡ false
mem_of_fresh items t [] h f = refl
mem_of_fresh items t (x ∷ projection) h f = elim (Bool-cases (x == t)) [
  | inl same ↦ cc (rw (eq_of_beq x t same, h) at f)
  | inr apart ↦ rw apart (mem_of_fresh items t projection h (ground arith))
]

-- Objects of a list are apart from objects that are not in it.
pub Apart_of_fresh :
    (front current projection : List ℕ)
    → any (λ x. mem x (front ++ current)) projection ≡ false
    → EachOf (λ t. mem t projection ≡ false) current
Apart_of_fresh front current projection f =
    EachOf-map (λ t. mem t current ≡ true) (λ t. mem t projection ≡ false)
      (λ t h. mem_of_fresh (front ++ current) t projection (mem_right t front current h) f) current
      (own current)
