-- ===== src/Prelude/Equality.antt =====
-- Python's `==` as an interface, with its instances for numbers, texts and optional values.
use Prim.Native.Nat.{ℕ}
use Prim.Native.String.{String}
use mathlib.Core.Path.{◌≡◌, refl, ap, subst}
use mathlib.Core.Logic.{◌↔◌}
use mathlib.Core.Bool.{Bool, true, false}
use mathlib.Core.Option.{Option, none, some, some-injective}
use text.Mathlib.Text.{◌==◌ as str_eq}
use text.Mathlib.TextEquality.{eq_iff}
use astrbot_plugin_astrconti.Prelude.Tests.{nat_beq, nat_beq_iff}

-- A test that answers true exactly for equal values.
pub record Eq {ℓ} (A : Type ℓ) : Type ℓ where
  pub same : A → A → Bool
  pub eq_of_same : {x y : A} → same x y ≡ true → x ≡ y
  pub same_self : (x : A) → same x x ≡ true

infix 50 ◌==◌
abbrev pub ◌==◌ {κ} : {X : Type κ} ⦃q : Eq X⦄ → X → X → Bool
◌==◌ ⦃q⦄ x y = q.same x y

-- An instance from a test and its law in one statement.
abbrev pub from_iff {κ} :
    {X : Type κ} (test : X → X → Bool) → ((x y : X) → (test x y ≡ true) ↔ (x ≡ y)) → Eq X
from_iff test law = record {
  same = test;
  eq_of_same = λ {x} {y} h. (law x y).0 h;
  same_self = λ x. (law x x).1 refl;
}

instance abbrev pub nat_eq : Eq ℕ
nat_eq = from_iff nat_beq nat_beq_iff

instance abbrev pub string_eq : Eq String
string_eq = from_iff str_eq eq_iff

module _ {ℓ} {A : Type ℓ} ⦃e : Eq A⦄ where
  pub beq_refl : (a : A) → (a == a) ≡ true
  beq_refl a = e.same_self a

  pub eq_of_beq : (a b : A) → (a == b) ≡ true → a ≡ b
  eq_of_beq a b h = e.eq_of_same h

  abbrev pub option_beq : Option A → Option A → Bool
  option_beq none none = true
  option_beq (some a) (some b) = a == b
  option_beq _ _ = false

  pub option_beq_iff : (a b : Option A) → (option_beq a b ≡ true) ↔ (a ≡ b)
  option_beq_iff none none = (λ _. refl, λ _. refl)
  option_beq_iff (some a) (some b) = (
    λ h. ap some (eq_of_beq a b h),
    λ h. subst (λ c. (a == c) ≡ true) (some-injective a b h) (beq_refl a),
  )
  option_beq_iff none (some b) = (λ h. cc, λ h. cc)
  option_beq_iff (some a) none = (λ h. cc, λ h. cc)

instance abbrev pub option_eq {ℓ} : {A : Type ℓ} ⦃e : Eq A⦄ → Eq (Option A)
option_eq = from_iff option_beq option_beq_iff
