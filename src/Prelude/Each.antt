-- ===== src/Prelude/Each.antt =====
-- A property of each member of a sequence, and what sorting and filtering keep of it.
use mathlib.Core.Path.{◌≡◌}
use mathlib.Core.Logic.{inl, inr}
use mathlib.Core.Bool.{Bool, true}
use mathlib.Core.List.{List, [], ◌∷◌, ◌++◌}
use astrbot_plugin_astrconti.Prelude.Tests.{Bool-cases}
use astrbot_plugin_astrconti.Prelude.Lists.{keep_if}
use astrbot_plugin_astrconti.Prelude.Texts.{insert_sorted, sort_by}

module _ {ℓ κ} {A : Type ℓ} where
  abbrev pub EachOf : (A → Type κ) → List A → Type κ
  EachOf P [] = Unit
  EachOf P (x ∷ xs) = P x × EachOf P xs

module _ {ℓ κ} {A : Type ℓ} (P : A → Type κ) where
  pub EachOf-append : (xs ys : List A) → EachOf P xs → EachOf P ys → EachOf P (xs ++ ys)
  EachOf-append [] ys e f = f
  EachOf-append (x ∷ xs) ys (p, e) f = (p, EachOf-append xs ys e f)

  pub EachOf-insert_sorted :
      (le : A → A → Bool) (x : A) (ys : List A)
      → P x
      → EachOf P ys
      → EachOf P (insert_sorted le x ys)
  EachOf-insert_sorted le x [] p e = (p, tt)
  EachOf-insert_sorted le x (y ∷ ys) p (q, e) = elim (Bool-cases (le x y)) [
    | inl before ↦ rw before (p, (q, e))
    | inr after ↦ rw after (q, EachOf-insert_sorted le x ys p e)
  ]

  pub EachOf-sort_by : (le : A → A → Bool) (xs : List A) → EachOf P xs → EachOf P (sort_by le xs)
  EachOf-sort_by le [] e = tt
  EachOf-sort_by le (x ∷ xs) (p, e) =
      EachOf-insert_sorted le x (sort_by le xs) p (EachOf-sort_by le xs e)

  pub EachOf-insert_sorted_back :
      (le : A → A → Bool) (x : A) (ys : List A)
      → EachOf P (insert_sorted le x ys)
      → P x × EachOf P ys
  EachOf-insert_sorted_back le x [] e = e
  EachOf-insert_sorted_back le x (y ∷ ys) e = elim (Bool-cases (le x y)) [
    | inl before ↦ rw before at e
    | inr after ↦
        let (q, rest) = rw after at e in
        let (p, others) = EachOf-insert_sorted_back le x ys rest in (p, (q, others))
  ]

  -- What holds of each member of the sorted list holds of each member.
  pub EachOf-sort_by_back :
      (le : A → A → Bool) (xs : List A) → EachOf P (sort_by le xs) → EachOf P xs
  EachOf-sort_by_back le [] e = tt
  EachOf-sort_by_back le (x ∷ xs) e =
      let (p, rest) = EachOf-insert_sorted_back le x (sort_by le xs) e in
      (p, EachOf-sort_by_back le xs rest)

  pub EachOf-keep_if :
      (q : A → Bool) (xs : List A) → EachOf P xs → EachOf (λ x. (q x ≡ true) × P x) (keep_if q xs)
  EachOf-keep_if q [] e = tt
  EachOf-keep_if q (x ∷ xs) (p, e) = elim (Bool-cases (q x)) [
    | inl hit ↦ rw hit ((hit, p), EachOf-keep_if q xs e)
    | inr miss ↦ rw miss (EachOf-keep_if q xs e)
  ]

  pub EachOf-all : ((x : A) → P x) → (xs : List A) → EachOf P xs
  EachOf-all h [] = tt
  EachOf-all h (x ∷ xs) = (h x, EachOf-all h xs)

pub EachOf-map {ℓ κ μ} :
    {A : Type ℓ} (P : A → Type κ) (Q : A → Type μ)
    → ((x : A) → P x → Q x)
    → (xs : List A) → EachOf P xs
    → EachOf Q xs
EachOf-map P Q f [] e = tt
EachOf-map P Q f (x ∷ xs) (p, e) = (f x p, EachOf-map P Q f xs e)

pub EachOf-kept {ℓ κ} :
    {A : Type ℓ} (P : A → Type κ) (q : A → Bool) (xs : List A)
    → EachOf P xs
    → EachOf P (keep_if q xs)
EachOf-kept P q xs e =
    EachOf-map (λ x. (q x ≡ true) × P x) P (λ x (hit, p). p) (keep_if q xs)
      (EachOf-keep_if P q xs e)

pub EachOf-both {ℓ κ μ} :
    {A : Type ℓ} (P : A → Type κ) (Q : A → Type μ) (xs : List A)
    → EachOf P xs
    → EachOf Q xs
    → EachOf (λ x. P x × Q x) xs
EachOf-both P Q [] e f = tt
EachOf-both P Q (x ∷ xs) (p, e) (q, f) = ((p, q), EachOf-both P Q xs e f)
