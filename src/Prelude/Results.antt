-- ===== src/Prelude/Results.antt =====
-- A computation that returns or raises: `raise e` leaves a `do` block with `err e`.
use mathlib.Core.Bool.{Bool, true, false}
use mathlib.Core.Path.{◌≡◌, refl}
use mathlib.Core.Logic.{◌⊎◌, inl, inr}

pub data Result {ℓ κ} (E : Type ℓ) (A : Type κ) : Type (ℓ ⊔ κ) where
  err : E → Result E A
  ok : A → Result E A

module _ {ℓ κ μ} {E : Type ℓ} {A : Type κ} {B : Type μ} where
  infixl 5 ◌>>=◌
  abbrev pub ◌>>=◌ : Result E A → (A → Result E B) → Result E B
  err failure >>= next = err failure
  ok value >>= next = next value

module _ {ℓ μ} {E : Type ℓ} {B : Type μ} where
  infixl 5 ◌>>◌
  abbrev pub ◌>>◌ : Result E (Unit {0}) → Result E B → Result E B
  check >> rest = check >>= λ done. rest

-- `if test: raise e`
abbrev pub raise_if {ℓ} : {E : Type ℓ} → Bool → E → Result E (Unit {0})
raise_if false error = ok tt
raise_if true error = err error

pub Result-cases {ℓ κ} :
    {E : Type ℓ} {A : Type κ} (x : Result E A) → ((e : E) × (x ≡ err e)) ⊎ ((a : A) × (x ≡ ok a))
Result-cases (err e) = inl (e, refl)
Result-cases (ok a) = inr (a, refl)

-- A sequence that returns: what its first step returned, and the rest from there.
pub data Bound {ℓ κ μ} {E : Type ℓ} {A : Type κ} {B : Type μ} (x : Result E A)
    (next : A → Result E B) (b : B) : Type (ℓ ⊔ κ ⊔ μ) where
  bound : (a : A) → x ≡ ok a → next a ≡ ok b → Bound x next b

pub bind-ok {ℓ κ μ} :
    {E : Type ℓ} {A : Type κ} {B : Type μ} (x : Result E A) (next : A → Result E B) {b : B}
    → (x >>= next) ≡ ok b
    → Bound x next b
bind-ok (err e) next h = cc
bind-ok (ok a) next h = bound a refl h

-- A check that passed before a sequence that returns.
pub data Passed {ℓ κ} {E : Type ℓ} {B : Type κ} (test : Bool) (rest : Result E B) (b : B)
    : Type (ℓ ⊔ κ) where
  passed : test ≡ false → rest ≡ ok b → Passed test rest b

pub raise_if-ok {ℓ κ} :
    {E : Type ℓ} {B : Type κ} (test : Bool) (e : E) (rest : Result E B) {b : B}
    → (raise_if test e >> rest) ≡ ok b
    → Passed test rest b
raise_if-ok true e rest h = cc
raise_if-ok false e rest h = passed refl h

pub ok-injective {ℓ κ} :
    {E : Type ℓ} {A : Type κ} (x y : A) → ◌≡◌ {A = Result E A} (ok x) (ok y) → x ≡ y
ok-injective x y h = cc

-- A sequence that raises: its first step raised, or the rest did.
pub data Failed {ℓ κ μ} {E : Type ℓ} {A : Type κ} {B : Type μ} (x : Result E A)
    (next : A → Result E B) (e : E) : Type (ℓ ⊔ κ ⊔ μ) where
  at_once : x ≡ err e → Failed x next e
  later : (a : A) → x ≡ ok a → next a ≡ err e → Failed x next e

pub bind-err {ℓ κ μ} :
    {E : Type ℓ} {A : Type κ} {B : Type μ} (x : Result E A) (next : A → Result E B) {e : E}
    → (x >>= next) ≡ err e
    → Failed x next e
bind-err (err e) next h = at_once cc
bind-err (ok a) next h = later a refl h

-- The error that a check raises.
pub raise_if-err {ℓ} :
    {E : Type ℓ} (test : Bool) (e : E) {f : E} → raise_if test e ≡ err f → (test ≡ true) × (e ≡ f)
raise_if-err true e h = (refl, cc)
raise_if-err false e h = cc
