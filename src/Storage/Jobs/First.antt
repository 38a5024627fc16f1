-- ===== src/Storage/Jobs/First.antt =====
-- The row that claim_job selects (astrcontinuum/storage/repository.py): eligible, in the table under
-- its id, and the only one that its UPDATE hits.
use mathlib.Core.Option.{some-injective}
use text.Mathlib.TextEquality.{eq_iff}
use astrbot_plugin_astrconti.Prelude.{
  ℕ, ◌+◌, ◌≤◌, String, ◌≡◌, refl, sym, ap, subst, Bool, true, false, some, inl, inr, List, [], ◌∷◌,
  EachOf, EachOf-sort_by, EachOf-keep_if, string_eq, beq_refl, any, arith, Bool-cases, sort_by,
  keep_if, length,
}
use astrbot_plugin_astrconti.Storage.Rows.{JobRow, find, update_where, row_count}
use astrbot_plugin_astrconti.Storage.Schema.{clashes, unique_check}
use astrbot_plugin_astrconti.Storage.Jobs.Changes.{row_le, is_eligible, first_eligible}
use astrbot_plugin_astrconti.Storage.Jobs.Table.{has_id}
use astrbot_plugin_astrconti.Storage.Jobs.Single.{miss_of_other, other_id}

module _ (P : JobRow → Type 0) where
  EachOf-first :
      (xs : List JobRow) {x : JobRow} → find (λ (r : JobRow). true) xs ≡ some x → EachOf P xs → P x
  EachOf-first [] f e = cc
  EachOf-first (y ∷ ys) {x} f (p, e) = subst P (some-injective y x f) p

-- The row that the table holds under its id.
abbrev pub IsIn : List JobRow → JobRow → Type 0
IsIn rows x = find (has_id x.job_id) rows ≡ some x

IsIn-later :
    (y : JobRow) (rows xs : List JobRow)
    → any (clashes y) xs ≡ false
    → EachOf (IsIn rows) xs
    → EachOf (IsIn (y ∷ rows)) xs
IsIn-later y rows [] c e = tt
IsIn-later y rows (x ∷ xs) c (p, e) =
    let apart : clashes y x ≡ false = ground arith in
    let miss : has_id x.job_id y ≡ false = ground (arith, eq_iff y.job_id x.job_id) in
    (rw miss p, IsIn-later y rows xs (ground arith) e)

pub unique_check-IsIn : (rows : List JobRow) → unique_check rows ≡ true → EachOf (IsIn rows) rows
unique_check-IsIn [] u = tt
unique_check-IsIn (x ∷ xs) u = (
  rw (beq_refl x.job_id),
  IsIn-later x xs xs (ground arith) (unique_check-IsIn xs (ground arith)),
)

-- What `SELECT … LIMIT 1` finds.
pub first_eligible_lem :
    (now : ℕ) (rows : List JobRow) {r : JobRow}
    → unique_check rows ≡ true
    → first_eligible now rows ≡ some r
    → (is_eligible now r ≡ true) × IsIn rows r
first_eligible_lem now rows u f =
    EachOf-first (λ x. (is_eligible now x ≡ true) × IsIn rows x)
      (sort_by row_le (keep_if (is_eligible now) rows)) f
      (EachOf-sort_by (λ x. (is_eligible now x ≡ true) × IsIn rows x) row_le
        (keep_if (is_eligible now) rows)
        (EachOf-keep_if (IsIn rows) (is_eligible now) rows (unique_check-IsIn rows u)))

module _ (p : JobRow → Bool) (f : JobRow → JobRow) (id : String)
    (only : (s : JobRow) → p s ≡ true → has_id id s ≡ true) where
  untouched :
      (r : JobRow) (rs : List JobRow)
      → has_id id r ≡ true
      → any (clashes r) rs ≡ false
      → update_where (has_id id) f rs ≡ update_where p f rs
  untouched r [] h c = refl
  untouched r (s ∷ rs) h c =
      let other = other_id p f id only r s h (ground arith) in
      rw (other, miss_of_other p f id only s other)
        (ap (λ z. s ∷ z) (untouched r rs h (ground arith)))

  -- An UPDATE by the id alone is the one with the whole condition, where that holds of the row.
  pub update-by_id :
      (rows : List JobRow) {r : JobRow}
      → unique_check rows ≡ true
      → find (has_id id) rows ≡ some r
      → p r ≡ true
      → update_where (has_id id) f rows ≡ update_where p f rows
  update-by_id [] u e h = refl
  update-by_id (x ∷ rows) {r} u e h = elim (Bool-cases (has_id id x)) [
    | inl here ↦
        let hit = subst (λ z. p z ≡ true) (sym (some-injective x r (rw here at e))) h in
        rw (here, hit) (ap (λ z. f x ∷ z) (untouched x rows here (ground arith)))
    | inr there ↦
        rw (there, miss_of_other p f id only x there)
          (ap (λ z. x ∷ z) (update-by_id rows (ground arith) (rw there at e) h))
  ]

-- Rows that an UPDATE hits and takes out of a selection are no longer counted.
pub row_count-update :
    (p q : JobRow → Bool) (f : JobRow → JobRow) (rows : List JobRow)
    → ((r : JobRow) → p r ≡ true → (q r ≡ true) × (q (f r) ≡ false))
    → row_count q (update_where p f rows) + row_count p rows ≡ row_count q rows
row_count-update p q f [] k = omega arith
row_count-update p q f (x ∷ xs) k =
    let rest = row_count-update p q f xs k in
    elim (Bool-cases (p x)) [
      | inl hit ↦ let (before, after) = k x hit in rw (hit, before, after) (omega (arith, rest))
      | inr miss ↦ elim (Bool-cases (q x)) [
        | inl counted ↦ rw (miss, counted) (omega (arith, rest))
        | inr not_counted ↦ rw (miss, not_counted) rest
      ]
    ]

pub row_count-length : (p : JobRow → Bool) (rows : List JobRow) → row_count p rows ≤ length rows
row_count-length p [] = omega arith
row_count-length p (x ∷ xs) = ground (arith, row_count-length p xs)
