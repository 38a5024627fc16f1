-- ===== src/Runtime/Projection/Positions.antt =====
-- The positions of the current objects (astrcontinuum/runtime/projection.py) in a list that has them
-- once, one after the other.
use astrbot_plugin_astrconti.Prelude.{
  ℕ, zero, suc, ◌+◌, ◌≡◌, refl, ap, ◌∙◌, subst, Bool, true, false, some, inl, inr, List, [], ◌∷◌,
  ◌++◌, ◌==◌, nat_eq, beq_refl, nat_beq_iff, arith, Bool-cases, EachOf, EachOf-map, ok, leb, le→leb,
  length, length-append, any, keep_if, mem, is_unique, drop, take, sort_by, insert_sorted,
}
use mathlib.Core.List.{append_assoc}
use astrbot_plugin_astrconti.Runtime.Projection.{
  same_identity_sequence, positions_from, positions, in_order, first_index, last,
}

-- None of these objects is in that list.
abbrev pub Apart : List ℕ → List ℕ → Type 0
Apart targets messages = EachOf (λ t. mem t messages ≡ false) targets

pub any-Apart :
    (targets messages : List ℕ) → any (λ t. mem t messages) targets ≡ false → Apart targets messages
any-Apart [] messages h = tt
any-Apart (t ∷ ts) messages h = (ground arith, any-Apart ts messages (ground arith))

pub mem-append :
    (t : ℕ) (xs ys : List ℕ) → mem t xs ≡ false → mem t ys ≡ false → mem t (xs ++ ys) ≡ false
mem-append t [] ys h k = k
mem-append t (x ∷ xs) ys h k = let rest = mem-append t xs ys (ground arith) k in ground arith

pub Apart-append : (ts xs ys : List ℕ) → Apart ts xs → Apart ts ys → Apart ts (xs ++ ys)
Apart-append [] xs ys a b = tt
Apart-append (t ∷ ts) xs ys (h, a) (k, b) = (mem-append t xs ys h k, Apart-append ts xs ys a b)

pub mem-keep_if :
    (q : ℕ → Bool) (t : ℕ) (xs : List ℕ) → mem t xs ≡ false → mem t (keep_if q xs) ≡ false
mem-keep_if q t [] h = refl
mem-keep_if q t (x ∷ xs) h =
    let rest = mem-keep_if q t xs (ground arith) in
    elim (Bool-cases (q x)) [ inl hit ↦ rw hit (ground arith) | inr miss ↦ rw miss rest ]

pub Apart-keep_if : (q : ℕ → Bool) (ts xs : List ℕ) → Apart ts xs → Apart ts (keep_if q xs)
Apart-keep_if q ts xs a =
    EachOf-map _ (λ t. mem t (keep_if q xs) ≡ false) (λ t. mem-keep_if q t xs) ts a

abbrev pub range : ℕ → ℕ → List ℕ
range k zero = []
range k (suc n) = k ∷ range (suc k) n

no_position : (n t : ℕ) (xs : List ℕ) → mem t xs ≡ false → positions_from n t xs ≡ []
no_position n t [] h = refl
no_position n t (x ∷ xs) h =
    let apart : (x == t) ≡ false = ground arith in
    rw apart (no_position (suc n) t xs (ground arith))

one_position :
    (n t : ℕ) (pre post : List ℕ)
    → mem t pre ≡ false
    → mem t post ≡ false
    → positions_from n t (pre ++ t ∷ post) ≡ (n + length pre) ∷ []
one_position n t [] post h k =
    rw (beq_refl t, no_position (suc n) t post k) (ap (λ m. m ∷ []) (omega arith))
one_position n t (x ∷ pre) post h k =
    let apart : (x == t) ≡ false = ground arith in
    let rest = one_position (suc n) t pre post (ground arith) k in
    rw apart (rest ∙ ap (λ m. m ∷ []) (omega arith))

-- Distinct objects of a list, in a row, are at a row of positions.
pub positions-range :
    (ts pre post : List ℕ)
    → is_unique ts ≡ true
    → Apart ts pre
    → Apart ts post
    → positions ts (pre ++ (ts ++ post)) ≡ range (length pre) (length ts)
positions-range [] pre post u a b = refl
positions-range (t ∷ ts) pre post u (h, a) (k, b) = elim (Bool-cases (mem t ts)) [
  | inl again ↦ cc (rw again at u)
  | inr once ↦
      let first = one_position 0 t pre (ts ++ post) h (mem-append t ts post once k) in
      let rest =
        positions-range ts (pre ++ t ∷ []) post (rw once at u)
          (Apart-append ts pre (t ∷ []) a (others ts once)) b in
      let len : length (pre ++ t ∷ []) ≡ suc (length pre) =
        (let l = length-append pre (t ∷ []) in omega arith) in
      let moved : positions ts (pre ++ t ∷ (ts ++ post)) ≡ range (suc (length pre)) (length ts) =
        subst (λ z. positions ts z ≡ range (suc (length pre)) (length ts))
          (append_assoc pre (t ∷ []) (ts ++ post)) (rest ∙ ap (λ m. range m (length ts)) len) in
      rw (first, moved) (ap (λ m. m ∷ range (suc (length pre)) (length ts)) (omega arith))
]
  where
    others : (us : List ℕ) → mem t us ≡ false → Apart us (t ∷ [])
    others [] m = tt
    others (v ∷ us) m = (ground (arith, nat_beq_iff v t, nat_beq_iff t v), others us (ground arith))

pub length-range : (k n : ℕ) → length (range k n) ≡ n
length-range k zero = refl
length-range k (suc n) = ap suc (length-range (suc k) n)

insert-range : (k n : ℕ) → insert_sorted leb k (range (suc k) n) ≡ range k (suc n)
insert-range k zero = refl
insert-range k (suc n) = rw (le→leb k (suc k) (omega arith))

sort-range : (k n : ℕ) → sort_by leb (range k n) ≡ range k n
sort-range k zero = refl
sort-range k (suc n) = rw (sort-range (suc k) n) (insert-range k n)

pub same_identity_sequence_refl : (xs : List ℕ) → same_identity_sequence xs xs ≡ true
same_identity_sequence_refl [] = refl
same_identity_sequence_refl (x ∷ xs) = rw (beq_refl x) (same_identity_sequence_refl xs)

pub in_order-range : (k n : ℕ) → in_order (range k n) ≡ true
in_order-range k n = rw (sort-range k n) (same_identity_sequence_refl (range k n))

pub last-range : (k n : ℕ) → last (range k (suc n)) ≡ ok (k + n)
last-range k zero = ap ok (omega arith)
last-range k (suc n) = last-range (suc k) n ∙ ap ok (omega arith)

pub drop-append : (xs ys : List ℕ) → drop (length xs) (xs ++ ys) ≡ ys
drop-append [] ys = refl
drop-append (x ∷ xs) ys = drop-append xs ys

pub drop_two : (xs ys zs : List ℕ) → drop (length xs + length ys) (xs ++ (ys ++ zs)) ≡ zs
drop_two xs ys zs =
    subst (λ m. drop m (xs ++ (ys ++ zs)) ≡ zs) (length-append xs ys)
      (subst (λ w. drop (length (xs ++ ys)) w ≡ zs) (append_assoc xs ys zs)
        (drop-append (xs ++ ys) zs))

pub take-append : (xs ys : List ℕ) → take (length xs) (xs ++ ys) ≡ xs
take-append [] ys = refl
take-append (x ∷ xs) ys = ap (◌∷◌ x) (take-append xs ys)

pub first_index-append :
    (n t : ℕ) (pre post : List ℕ)
    → mem t pre ≡ false
    → first_index n t (pre ++ t ∷ post) ≡ some (n + length pre)
first_index-append n t [] post h = rw (beq_refl t) (ap some (omega arith))
first_index-append n t (x ∷ pre) post h =
    let apart : (x == t) ≡ false = ground arith in
    rw apart (first_index-append (suc n) t pre post (ground arith) ∙ ap some (omega arith))
