-- ===== src/Storage/Jobs/Table.antt =====
-- Statements on a table with a primary key: what an UPDATE of one job hits, and that it keeps the
-- constraints.
use mathlib.Core.Option.{some-injective}
use astrbot_plugin_astrconti.Prelude.{
  String, ◌≡◌, refl, subst, Bool, true, false, ◌&&◌, ◌||◌, some, inl, inr, List, [], ◌∷◌, ◌==◌,
  string_eq, if◌then◌else◌, any, all, arith, Bool-cases, &&-true,
}
use astrbot_plugin_astrconti.Storage.Rows.{JobRow, find, update_where}
use astrbot_plugin_astrconti.Storage.Schema.{
  is_nonterminal, row_check, clashes, unique_check, accepts,
}

abbrev pub has_id : String → JobRow → Bool
has_id id r = r.job_id == id

pub find_holds {ℓ} :
    {A : Type ℓ} (p : A → Bool) (xs : List A) {x : A} → find p xs ≡ some x → p x ≡ true
find_holds p [] h = cc
find_holds p (y ∷ ys) {x} h = elim (Bool-cases (p y)) [
  | inl hit ↦ subst (λ z. p z ≡ true) (some-injective y x (rw hit at h)) hit
  | inr miss ↦ find_holds p ys (rw miss at h)
]

-- A predicate on rows that holds throughout a table holds of a row that was found in it.
pub find_of_all {ℓ} :
    {A : Type ℓ} (p q : A → Bool) (xs : List A) {x : A}
    → all q xs ≡ true
    → find p xs ≡ some x
    → q x ≡ true
find_of_all p q [] h f = cc
find_of_all p q (y ∷ ys) {x} h f = elim (Bool-cases (p y)) [
  | inl hit ↦ subst (λ z. q z ≡ true) (some-injective y x (rw hit at f)) (&&-true (q y) _ h).0
  | inr miss ↦ find_of_all p q ys (&&-true (q y) _ h).1 (rw miss at f)
]

-- The changed row keeps its key, and an open job was open before.
pub record Keeps (p : JobRow → Bool) (f : JobRow → JobRow) : Type 0 where
  pub same_id : (r : JobRow) → (f r).job_id ≡ r.job_id
  pub same_session : (r : JobRow) → (f r).session_key_hash ≡ r.session_key_hash
  pub checked : (r : JobRow) → p r ≡ true → row_check r ≡ true → row_check (f r) ≡ true
  pub open_before :
      (r : JobRow)
      → p r ≡ true
      → row_check r ≡ true
      → is_nonterminal (f r).state ≡ true
      → is_nonterminal r.state ≡ true

weaker_clash :
    (same x y z x' y' : Bool)
    → (same || (x && (y && z))) ≡ false
    → (x ≡ false → x' ≡ false)
    → (y ≡ false → y' ≡ false)
    → (same || (x' && (y' && z))) ≡ false
weaker_clash true x y z x' y' h p q = h
weaker_clash false x y false x' y' h p q = ground arith
weaker_clash false false y true x' y' h p q = ground (arith, p refl)
weaker_clash false true false true x' y' h p q = ground (arith, q refl)
weaker_clash false true true true x' y' h p q = cc

module _ (p : JobRow → Bool) (f : JobRow → JobRow) (k : Keeps p f) where
  update-row_check :
      (rows : List JobRow)
      → all row_check rows ≡ true
      → all row_check (update_where p f rows) ≡ true
  update-row_check [] h = refl
  update-row_check (r ∷ rs) h =
      let (now, later) = &&-true (row_check r) (all row_check rs) h in
      let rest = update-row_check rs later in
      elim (Bool-cases (p r)) [
        | inl hit ↦ rw (hit, k.checked r hit now) rest
        | inr miss ↦ rw (miss, now) rest
      ]

  abbrev new : JobRow → JobRow
  new r = if p r then f r else r

  new_id : (r : JobRow) → (new r).job_id ≡ r.job_id
  new_id r = ground (arith, k.same_id r)

  new_session : (r : JobRow) → (new r).session_key_hash ≡ r.session_key_hash
  new_session r = ground (arith, k.same_session r)

  new_open :
      (r : JobRow)
      → row_check r ≡ true
      → is_nonterminal r.state ≡ false
      → is_nonterminal (new r).state ≡ false
  new_open r c h = elim (Bool-cases (p r)) [
    | inl hit ↦ elim (Bool-cases (is_nonterminal (f r).state)) [
      | inl is_open ↦ absurd (cc (k.open_before r hit c is_open))
      | inr is_closed ↦ rw (hit, is_closed)
    ]
    | inr miss ↦ rw (miss, h)
  ]

  -- Two rows that do not clash do not clash when they are changed.
  new-clashes :
      (r s : JobRow)
      → row_check r ≡ true
      → row_check s ≡ true
      → clashes r s ≡ false
      → clashes (new r) (new s) ≡ false
  new-clashes r s cr cs h =
      rw (new_id r, new_id s, new_session r, new_session s)
        (weaker_clash (r.job_id == s.job_id) (is_nonterminal r.state) (is_nonterminal s.state)
          (r.session_key_hash == s.session_key_hash) _ _ h (new_open r cr) (new_open s cs))

  new-any-clashes :
      (r : JobRow) (rs : List JobRow)
      → row_check r ≡ true
      → all row_check rs ≡ true
      → any (clashes r) rs ≡ false
      → any (clashes (new r)) (update_where p f rs) ≡ false
  new-any-clashes r [] cr crs h = refl
  new-any-clashes r (s ∷ rs) cr crs h =
      let (cs, later) = &&-true (row_check s) (all row_check rs) crs in
      rw (new-clashes r s cr cs (ground arith)) (new-any-clashes r rs cr later (ground arith))

  update-unique_check :
      (rows : List JobRow)
      → all row_check rows ≡ true
      → unique_check rows ≡ true
      → unique_check (update_where p f rows) ≡ true
  update-unique_check [] c h = refl
  update-unique_check (r ∷ rs) c h =
      let (now, later) = &&-true (row_check r) (all row_check rs) c in
      rw (new-any-clashes r rs now later (ground arith))
        (update-unique_check rs later (ground arith))

  pub update-accepts :
      (rows : List JobRow) → accepts rows ≡ true → accepts (update_where p f rows) ≡ true
  unfolding accepts
  update-accepts rows h =
      let (checked, unique) = &&-true (all row_check rows) (unique_check rows) h in
      rw (update-row_check rows checked, update-unique_check rows checked unique)
