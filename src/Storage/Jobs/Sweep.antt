-- ===== src/Storage/Jobs/Sweep.antt =====
-- The loop of recover_expired_leases (astrcontinuum/storage/repository.py): an UPDATE for each
-- selected row, against one UPDATE for all.
use astrbot_plugin_astrconti.Prelude.{
  EachOf, EachOf-map, EachOf-all, ℕ, ◌≡◌, refl, sym, ◌∙◌, ap, Bool, true, false, ◌&&◌, ◌||◌, inl,
  inr, List, [], ◌∷◌, ◌==◌, string_eq, beq_refl, if◌then◌else◌, any, arith, Bool-cases, sort_by,
  insert_sorted, keep_if,
}
use astrbot_plugin_astrconti.Storage.Rows.{JobRow, update_where}
use astrbot_plugin_astrconti.Storage.Jobs.Changes.{row_le, is_expired, recovered}

update-ext :
    (p q : JobRow → Bool) (f : JobRow → JobRow) (rows : List JobRow)
    → EachOf (λ x. p x ≡ q x) rows
    → update_where p f rows ≡ update_where q f rows
update-ext p q f [] e = refl
update-ext p q f (x ∷ xs) (same, e) = rw (same, update-ext p q f xs e)

update-fuse :
    (p q : JobRow → Bool) (f : JobRow → JobRow) (rows : List JobRow)
    → ((r : JobRow) → p r ≡ true → q (f r) ≡ false)
    → update_where q f (update_where p f rows) ≡ update_where (λ r. p r || q r) f rows
update-fuse p q f [] k = refl
update-fuse p q f (x ∷ xs) k = elim (Bool-cases (p x)) [
  | inl hit ↦ rw (hit, k x hit) (ap (λ z. f x ∷ z) (update-fuse p q f xs k))
  | inr miss ↦ rw miss (ap (λ z. (if q x then f x else x) ∷ z) (update-fuse p q f xs k))
]

update-none :
    (f : JobRow → JobRow) (rows : List JobRow) → update_where (λ (x : JobRow). false) f rows ≡ rows
update-none f [] = refl
update-none f (x ∷ xs) = ap (λ z. x ∷ z) (update-none f xs)

-- The table after the loop's UPDATEs.
abbrev pub expires_as : ℕ → JobRow → JobRow → Bool
expires_as now r x = x.job_id == r.job_id && is_expired now x

abbrev pub sweep : ℕ → List JobRow → List JobRow → List JobRow
sweep now [] rows = rows
sweep now (r ∷ rest) rows = sweep now rest (update_where (expires_as now r) (recovered now) rows)

abbrev pub is_among : List JobRow → JobRow → Bool
is_among selected x = any (λ (r : JobRow). x.job_id == r.job_id) selected

either : (a b e : Bool) → ((a && e) || (b && e)) ≡ ((a || b) && e)
either a b e = ground arith

no_longer : (a : Bool) → (a && false) ≡ false
no_longer a = ground arith

sweep-update :
    (now : ℕ) (selected rows : List JobRow)
    → sweep now selected rows
      ≡ update_where (λ x. is_among selected x && is_expired now x) (recovered now) rows
sweep-update now [] rows = sym (update-none (recovered now) rows)
sweep-update now (r ∷ rest) rows =
    sweep-update now rest (update_where (expires_as now r) (recovered now) rows)
    ∙ (update-fuse (expires_as now r) (λ x. is_among rest x && is_expired now x) (recovered now)
          rows (λ x hit. no_longer (is_among rest (recovered now x)))
        ∙ update-ext _ _ (recovered now) rows (
            EachOf-all _ (λ x. either (x.job_id == r.job_id) (is_among rest x) (is_expired now x))
              rows))

module _ (p : JobRow → Bool) where
  any-insert_here :
      (x : JobRow) (ys : List JobRow) → p x ≡ true → any p (insert_sorted row_le x ys) ≡ true
  any-insert_here x [] h = rw h
  any-insert_here x (y ∷ ys) h = elim (Bool-cases (row_le x y)) [
    | inl before ↦ rw (before, h)
    | inr after ↦ elim (Bool-cases (p y)) [
      | inl hit ↦ rw (after, hit)
      | inr miss ↦ rw (after, miss) (any-insert_here x ys h)
    ]
  ]

  any-insert_later :
      (x : JobRow) (ys : List JobRow) → any p ys ≡ true → any p (insert_sorted row_le x ys) ≡ true
  any-insert_later x [] h = cc
  any-insert_later x (y ∷ ys) h = elim (Bool-cases (row_le x y)) [
    | inl before ↦ elim (Bool-cases (p x)) [
      | inl hit ↦ rw (before, hit)
      | inr miss ↦ rw (before, miss) h
    ]
    | inr after ↦ elim (Bool-cases (p y)) [
      | inl hit ↦ rw (after, hit)
      | inr miss ↦ rw (after, miss) (any-insert_later x ys (rw miss at h))
    ]
  ]

  any-sort_by : (xs : List JobRow) → any p xs ≡ true → any p (sort_by row_le xs) ≡ true
  any-sort_by [] h = cc
  any-sort_by (x ∷ xs) h = elim (Bool-cases (p x)) [
    | inl hit ↦ any-insert_here x (sort_by row_le xs) hit
    | inr miss ↦ any-insert_later x (sort_by row_le xs) (any-sort_by xs (rw miss at h))
  ]

among_kept :
    (q : JobRow → Bool) (rows : List JobRow)
    → EachOf (λ x. q x ≡ true → is_among (keep_if q rows) x ≡ true) rows
among_kept q [] = tt
among_kept q (x ∷ xs) = (
  λ h. rw (h, beq_refl x.job_id),
  EachOf-map (λ z. q z ≡ true → is_among (keep_if q xs) z ≡ true)
      (λ z. q z ≡ true → is_among (keep_if q (x ∷ xs)) z ≡ true) (λ z k h. later z (k h)) xs
      (among_kept q xs),
)
  where
    later : (z : JobRow) → is_among (keep_if q xs) z ≡ true → is_among (keep_if q (x ∷ xs)) z ≡ true
    later z k = elim (Bool-cases (q x)) [
      | inr miss ↦ rw miss k
      | inl hit ↦ elim (Bool-cases (z.job_id == x.job_id)) [
        | inl same ↦ rw (hit, same)
        | inr other ↦ rw (hit, other) k
      ]
    ]

agrees : (a e : Bool) → (e ≡ true → a ≡ true) → (a && e) ≡ e
agrees a true k = rw (k refl)
agrees true false k = refl
agrees false false k = refl

-- The loop over the rows that the SELECT returned recovers every expired row, as one UPDATE of all
-- would.
pub sweep-all :
    (now : ℕ) (rows : List JobRow)
    → sweep now (sort_by row_le (keep_if (is_expired now) rows)) rows
      ≡ update_where (is_expired now) (recovered now) rows
sweep-all now rows =
    let selected = keep_if (is_expired now) rows in
    sweep-update now (sort_by row_le selected) rows
    ∙ update-ext _ _ (recovered now) rows (
        EachOf-map (λ x. is_expired now x ≡ true → is_among selected x ≡ true)
          (λ x. (is_among (sort_by row_le selected) x && is_expired now x) ≡ is_expired now x)
          (λ x k.
            agrees _ (is_expired now x)
              (λ h. any-sort_by (λ (r : JobRow). x.job_id == r.job_id) selected (k h)))
          rows (among_kept (is_expired now) rows))
