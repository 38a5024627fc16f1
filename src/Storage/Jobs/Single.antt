-- ===== src/Storage/Jobs/Single.antt =====
-- An UPDATE that hits at most one key hits the row of that key, once.
use mathlib.Core.Option.{some-injective}
use astrbot_plugin_astrconti.Prelude.{
  suc, String, ◌≡◌, refl, sym, ap, subst, Bool, true, false, some, inl, inr, List, [], ◌∷◌,
  string_eq, any, arith, Bool-cases,
}
use text.Mathlib.TextEquality.{eq_iff}
use astrbot_plugin_astrconti.Storage.Rows.{JobRow, find, update_where, row_count}
use astrbot_plugin_astrconti.Storage.Schema.{clashes, unique_check}
use astrbot_plugin_astrconti.Storage.Jobs.Table.{has_id}

module _ (p : JobRow → Bool) (f : JobRow → JobRow) (id : String)
    (only : (s : JobRow) → p s ≡ true → has_id id s ≡ true) where
  pub miss_of_other : (r : JobRow) → has_id id r ≡ false → p r ≡ false
  miss_of_other r h = elim (Bool-cases (p r)) [
    | inl hit ↦ absurd (cc (only r hit))
    | inr miss ↦ miss
  ]

  pub other_id : (r s : JobRow) → has_id id r ≡ true → clashes r s ≡ false → has_id id s ≡ false
  other_id r s h c =
      ground (arith, eq_iff r.job_id id, eq_iff s.job_id id, eq_iff r.job_id s.job_id)

  none_below :
      (r : JobRow) (rs : List JobRow)
      → has_id id r ≡ true
      → any (clashes r) rs ≡ false
      → row_count p rs ≡ 0
  none_below r [] h c = refl
  none_below r (s ∷ rs) h c =
      rw (miss_of_other s (other_id r s h (ground arith))) (none_below r rs h (ground arith))

  pub row_count_one :
      (rows : List JobRow) {r : JobRow}
      → unique_check rows ≡ true
      → find (has_id id) rows ≡ some r
      → p r ≡ true
      → row_count p rows ≡ 1
  row_count_one [] u e h = cc
  row_count_one (x ∷ rows) {r} u e h = elim (Bool-cases (has_id id x)) [
    | inl here ↦
        let same = some-injective x r (rw here at e) in
        rw (subst (λ z. p z ≡ true) (sym same) h) (ap suc (none_below x rows here (ground arith)))
    | inr there ↦ rw (miss_of_other x there) (row_count_one rows (ground arith) (rw there at e) h)
  ]

  pub find-update :
      (rows : List JobRow) {r : JobRow}
      → ((s : JobRow) → (f s).job_id ≡ s.job_id)
      → find (has_id id) rows ≡ some r
      → p r ≡ true
      → find (has_id id) (update_where p f rows) ≡ some (f r)
  find-update [] k e h = cc
  find-update (x ∷ rows) {r} k e h = elim (Bool-cases (has_id id x)) [
    | inl here ↦
        let same = some-injective x r (rw here at e) in
        let hit = subst (λ z. p z ≡ true) (sym same) h in
        let kept : has_id id (f x) ≡ true = rw (k x) here in
        rw (hit, kept) (ap (λ z. some (f z)) same)
    | inr there ↦ rw (miss_of_other x there, there) (find-update rows k (rw there at e) h)
  ]
