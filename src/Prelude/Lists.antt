-- ===== src/Prelude/Lists.antt =====
-- Sequences measured by native numbers, filtered by Boolean tests, and searched by `==`.
use Prim.Native.Nat.{ℕ, zero, suc, ◌+◌, ◌≤◌}
use mathlib.Core.Path.{◌≡◌, refl, ap}
use mathlib.Core.Bool.{Bool, true, false, ◌&&◌, ◌||◌}
use mathlib.Core.List.{List, [], ◌∷◌, ◌++◌, append_assoc}
use native.Mathlib.Omega.{arith}
use astrbot_plugin_astrconti.Prelude.Tests.{if◌then◌else◌}
use astrbot_plugin_astrconti.Prelude.Equality.{Eq, ◌==◌}

module _ {ℓ} {A : Type ℓ} where
  abbrev pub length : List A → ℕ
  length [] = 0
  length (_ ∷ xs) = suc (length xs)

  abbrev pub take : ℕ → List A → List A
  take zero xs = []
  take (suc n) [] = []
  take (suc n) (x ∷ xs) = x ∷ take n xs

  abbrev pub drop : ℕ → List A → List A
  drop zero xs = xs
  drop (suc n) [] = []
  drop (suc n) (x ∷ xs) = drop n xs

  -- `xs[start:stop]`
  abbrev pub slice : ℕ → ℕ → List A → List A
  slice start stop xs = drop start (take stop xs)

  abbrev pub flatten : List (List A) → List A
  flatten [] = []
  flatten (xs ∷ xss) = xs ++ flatten xss

  abbrev pub any : (A → Bool) → List A → Bool
  any p [] = false
  any p (x ∷ xs) = p x || any p xs

  abbrev pub all : (A → Bool) → List A → Bool
  all p [] = true
  all p (x ∷ xs) = p x && all p xs

  -- `[x for x in xs if p(x)]`
  abbrev pub keep_if : (A → Bool) → List A → List A
  keep_if p [] = []
  keep_if p (x ∷ xs) = let rest = keep_if p xs in if p x then x ∷ rest else rest

  -- `sum(f(x) for x in xs)`
  abbrev pub sum_by : (A → ℕ) → List A → ℕ
  sum_by f [] = 0
  sum_by f (x ∷ xs) = f x + sum_by f xs

module _ {ℓ} {A : Type ℓ} where
  pub length-append : (xs ys : List A) → length (xs ++ ys) ≡ length xs + length ys
  length-append [] ys = omega arith
  length-append (x ∷ xs) ys = omega (arith, length-append xs ys)

  pub sum_by-append : (f : A → ℕ) (xs ys : List A) → sum_by f (xs ++ ys) ≡ sum_by f xs + sum_by f ys
  sum_by-append f [] ys = omega arith
  sum_by-append f (x ∷ xs) ys = omega (arith, sum_by-append f xs ys)

  pub flatten-append : (xss yss : List (List A)) → flatten (xss ++ yss) ≡ flatten xss ++ flatten yss
  flatten-append [] yss = refl
  flatten-append (xs ∷ xss) yss =
      rw (flatten-append xss yss, append_assoc xs (flatten xss) (flatten yss))

  pub take-append-drop : (n : ℕ) (xs : List A) → take n xs ++ drop n xs ≡ xs
  take-append-drop zero xs = refl
  take-append-drop (suc n) [] = refl
  take-append-drop (suc n) (x ∷ xs) = rw (take-append-drop n xs)

  pub take-append-slice :
      (start stop : ℕ) (xs : List A)
      → start ≤ stop
      → take start xs ++ slice start stop xs ≡ take stop xs
  take-append-slice zero stop xs h = refl
  take-append-slice (suc s) zero xs h = absurd (omega arith)
  take-append-slice (suc s) (suc e) [] h = refl
  take-append-slice (suc s) (suc e) (x ∷ xs) h = ap (◌∷◌ x) (take-append-slice s e xs (omega arith))

module _ {ℓ} {A : Type ℓ} ⦃e : Eq A⦄ where
  -- `a in xs`
  abbrev pub mem : A → List A → Bool
  mem a xs = any (λ x. x == a) xs

  -- `len(set(xs)) == len(xs)`
  abbrev pub is_unique : List A → Bool
  is_unique [] = true
  is_unique (x ∷ xs) = if mem x xs then false else is_unique xs

module _ {ℓ} {A : Type ℓ} where
  pub drop-suc_of_cons :
      (n : ℕ) (xs : List A) {x : A} {rest : List A}
      → drop n xs ≡ x ∷ rest
      → (drop (suc n) xs ≡ rest) × (take (suc n) xs ≡ take n xs ++ x ∷ [])
  drop-suc_of_cons zero [] h = cc
  drop-suc_of_cons zero (y ∷ ys) h = (cc, cc)
  drop-suc_of_cons (suc n) [] h = cc
  drop-suc_of_cons (suc n) (y ∷ ys) h = let (d, t) = drop-suc_of_cons n ys h in (d, ap (◌∷◌ y) t)

  pub take_of_drop-nil : (n : ℕ) (xs : List A) → drop n xs ≡ [] → take n xs ≡ xs
  take_of_drop-nil zero [] h = refl
  take_of_drop-nil zero (y ∷ ys) h = cc
  take_of_drop-nil (suc n) [] h = refl
  take_of_drop-nil (suc n) (y ∷ ys) h = ap (◌∷◌ y) (take_of_drop-nil n ys h)
