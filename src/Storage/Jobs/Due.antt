-- ===== src/Storage/Jobs/Due.antt =====
-- Which job is due, and that claim_job takes the oldest that is (astrcontinuum/storage/repository.py).
use mathlib.Core.Option.{some-injective}
use astrbot_plugin_astrconti.Prelude.{
  EachOf, EachOf-map, EachOf-insert_sorted, EachOf-sort_by_back, ℕ, ◌≤◌, ◌<◌, ◌≡◌, ◌≢◌, refl, subst,
  true, false, Option, none, some, ◌⊎◌, inl, inr, List, [], ◌∷◌, string_eq, arith, Bool-cases, ltb,
  sort_by, insert_sorted, keep_if,
}
use astrbot_plugin_astrconti.Storage.Rows.{
  JobState, pending, leased, compiling, auditing, ready_to_commit, retry_wait, committed,
  superseded, failed, cancelled, JobRow, find,
}
use astrbot_plugin_astrconti.Storage.Schema.{unique_check}
use astrbot_plugin_astrconti.Storage.Jobs.Changes.{
  row_le, eligible_state, is_eligible, first_eligible,
}
use astrbot_plugin_astrconti.Storage.Jobs.Table.{has_id}
use astrbot_plugin_astrconti.Storage.Jobs.First.{first_eligible_lem}

-- A pending job is due, and one that waits for a retry as soon as its moment has come.
pub data IsDue (now : ℕ) (r : JobRow) : Type 0 where
  waiting : r.state ≡ pending → IsDue now r
  retried : {at : ℕ} → r.state ≡ retry_wait → r.next_retry_at ≡ some at → at ≤ now → IsDue now r

pub data NotDue (now : ℕ) (r : JobRow) : Type 0 where
  elsewhere : r.state ≢ pending → r.state ≢ retry_wait → NotDue now r
  too_early : {at : ℕ} → r.state ≡ retry_wait → r.next_retry_at ≡ some at → now < at → NotDue now r
  never : r.state ≡ retry_wait → r.next_retry_at ≡ none → NotDue now r

eligible_state-IsDue :
    (now : ℕ) (r : JobRow) (st : JobState) (next : Option ℕ)
    → r.state ≡ st
    → r.next_retry_at ≡ next
    → eligible_state now st next ≡ true
    → IsDue now r
eligible_state-IsDue now r pending next s n e = waiting s
eligible_state-IsDue now r retry_wait none s n e = cc
eligible_state-IsDue now r retry_wait (some at) s n e = retried s n (ground arith)
eligible_state-IsDue now r leased next s n e = cc
eligible_state-IsDue now r compiling next s n e = cc
eligible_state-IsDue now r auditing next s n e = cc
eligible_state-IsDue now r ready_to_commit next s n e = cc
eligible_state-IsDue now r committed next s n e = cc
eligible_state-IsDue now r superseded next s n e = cc
eligible_state-IsDue now r failed next s n e = cc
eligible_state-IsDue now r cancelled next s n e = cc

eligible_state-NotDue :
    (now : ℕ) (r : JobRow) (st : JobState) (next : Option ℕ)
    → r.state ≡ st
    → r.next_retry_at ≡ next
    → eligible_state now st next ≡ false
    → NotDue now r
eligible_state-NotDue now r pending next s n e = cc
eligible_state-NotDue now r retry_wait none s n e = never s n
eligible_state-NotDue now r retry_wait (some at) s n e = too_early s n (ground arith)
eligible_state-NotDue now r leased next s n e = elsewhere (λ w. cc) (λ w. cc)
eligible_state-NotDue now r compiling next s n e = elsewhere (λ w. cc) (λ w. cc)
eligible_state-NotDue now r auditing next s n e = elsewhere (λ w. cc) (λ w. cc)
eligible_state-NotDue now r ready_to_commit next s n e = elsewhere (λ w. cc) (λ w. cc)
eligible_state-NotDue now r committed next s n e = elsewhere (λ w. cc) (λ w. cc)
eligible_state-NotDue now r superseded next s n e = elsewhere (λ w. cc) (λ w. cc)
eligible_state-NotDue now r failed next s n e = elsewhere (λ w. cc) (λ w. cc)
eligible_state-NotDue now r cancelled next s n e = elsewhere (λ w. cc) (λ w. cc)

eligible-IsDue : (now : ℕ) (r : JobRow) → is_eligible now r ≡ true → IsDue now r
eligible-IsDue now r e = eligible_state-IsDue now r r.state r.next_retry_at refl refl e

not_eligible-NotDue : (now : ℕ) (r : JobRow) → is_eligible now r ≡ false → NotDue now r
not_eligible-NotDue now r e = eligible_state-NotDue now r r.state r.next_retry_at refl refl e

-- The row stands in the table, is due, and no job that is due was created before it.
pub record IsOldestDue (now : ℕ) (rows : List JobRow) (r : JobRow) : Type 0 where
  pub stored : find (has_id r.job_id) rows ≡ some r
  pub due : IsDue now r
  pub oldest : EachOf (λ (s : JobRow). NotDue now s ⊎ (r.created_at ≤ s.created_at)) rows

abbrev NotBefore : JobRow → JobRow → Type 0
NotBefore r s = r.created_at ≤ s.created_at

abbrev Leads : List JobRow → Type 0
Leads [] = Unit
Leads (y ∷ ys) = EachOf (NotBefore y) (y ∷ ys)

row_le-before : (a b : JobRow) → row_le a b ≡ true → a.created_at ≤ b.created_at
row_le-before a b e = elim (Bool-cases (ltb b.created_at a.created_at)) [
  | inl after ↦ elim (Bool-cases (ltb a.created_at b.created_at)) [
    | inl before ↦ ground arith
    | inr late ↦ cc (rw (late, after) at e)
  ]
  | inr before ↦ ground arith
]

row_le-after : (a b : JobRow) → row_le a b ≡ false → b.created_at ≤ a.created_at
row_le-after a b e = elim (Bool-cases (ltb a.created_at b.created_at)) [
  | inl before ↦ cc (rw before at e)
  | inr late ↦ ground arith
]

insert-Leads : (x : JobRow) (ys : List JobRow) → Leads ys → Leads (insert_sorted row_le x ys)
insert-Leads x [] l = (omega arith, tt)
insert-Leads x (y ∷ ys) l = elim (Bool-cases (row_le x y)) [
  | inl first ↦
      let near = row_le-before x y first in
      rw first (
        omega arith,
        EachOf-map (NotBefore y) (NotBefore x) (λ s far. omega (arith, near, far)) (y ∷ ys) l,
      )
  | inr second ↦
      rw second (l.0, EachOf-insert_sorted (NotBefore y) row_le x ys (row_le-after x y second) l.1)
]

sort-Leads : (xs : List JobRow) → Leads (sort_by row_le xs)
sort-Leads [] = tt
sort-Leads (x ∷ xs) = insert-Leads x (sort_by row_le xs) (sort-Leads xs)

leader :
    (xs : List JobRow) {r : JobRow}
    → find (λ (s : JobRow). true) xs ≡ some r
    → Leads xs
    → EachOf (NotBefore r) xs
leader [] f l = cc
leader (y ∷ ys) {r} f l = subst (λ z. EachOf (NotBefore z) (y ∷ ys)) (some-injective y r f) l

-- What was not selected is not due.
kept-oldest :
    (now : ℕ) (r : JobRow) (rows : List JobRow)
    → EachOf (NotBefore r) (keep_if (is_eligible now) rows)
    → EachOf (λ (s : JobRow). NotDue now s ⊎ (r.created_at ≤ s.created_at)) rows
kept-oldest now r [] e = tt
kept-oldest now r (s ∷ rows) e = elim (Bool-cases (is_eligible now s)) [
  | inl due ↦ let (near, rest) = rw due at e in (inr near, kept-oldest now r rows rest)
  | inr idle ↦ (inl (not_eligible-NotDue now s idle), kept-oldest now r rows (rw idle at e))
]

pub first_eligible-IsOldestDue :
    (now : ℕ) (rows : List JobRow) {r : JobRow}
    → unique_check rows ≡ true
    → first_eligible now rows ≡ some r
    → IsOldestDue now rows r
first_eligible-IsOldestDue now rows {r} u f =
    let (due, here) = first_eligible_lem now rows u f in
    let selected = keep_if (is_eligible now) rows in
    record {
      stored = here;
      due = eligible-IsDue now r due;
      oldest = kept-oldest now r rows (
          EachOf-sort_by_back (NotBefore r) row_le selected
            (leader (sort_by row_le selected) f (sort-Leads selected)));
    }

first_of_insert :
    (x : JobRow) (ys : List JobRow) → find (λ (s : JobRow). true) (insert_sorted row_le x ys) ≢ none
first_of_insert x [] = λ e. cc
first_of_insert x (y ∷ ys) = elim (Bool-cases (row_le x y)) [
  | inl before ↦ rw before (λ e. cc)
  | inr after ↦ rw after (λ e. cc)
]

pub none_eligible-NotDue :
    (now : ℕ) (rows : List JobRow) → first_eligible now rows ≡ none → EachOf (NotDue now) rows
none_eligible-NotDue now [] f = tt
none_eligible-NotDue now (s ∷ rows) f = elim (Bool-cases (is_eligible now s)) [
  | inl due ↦
      absurd (first_of_insert s (sort_by row_le (keep_if (is_eligible now) rows)) (rw due at f))
  | inr idle ↦ (not_eligible-NotDue now s idle, none_eligible-NotDue now rows (rw idle at f))
]
