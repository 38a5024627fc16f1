-- ===== src/Storage/Journal/Numbers.antt =====
-- The sequence numbers of the Journal, and what an UPDATE or an INSERT does to them
-- (astrcontinuum/storage/repository.py).
use mathlib.Core.Option.{some-injective}
use astrbot_plugin_astrconti.Prelude.{
  ℕ, suc, ◌+◌, String, ◌≡◌, refl, ◌∙◌, ap, Bool, true, false, Option, none, some, inl, inr, List,
  [], ◌∷◌, ◌++◌, ◌==◌, string_eq, nat_eq, beq_refl, if◌then◌else◌, arith, Bool-cases, Option-cases,
  &&-true,
}
use astrbot_plugin_astrconti.Domain.Identity.{session_key_eq}
use astrbot_plugin_astrconti.Domain.Event.{event_type_eq, event_role_eq, source_hook_eq}
use astrbot_plugin_astrconti.Storage.Rows.{SessionRow, EventRow, Db, find, update_where}
use astrbot_plugin_astrconti.Storage.Journal.Tables.{artifact_kind_eq}
use text.Mathlib.TextEquality.{eq_iff}
use astrbot_plugin_astrconti.Prelude.{zero, ◌-◌, leb, all}
use astrbot_plugin_astrconti.Storage.Journal.Capture.{is_at, advanced}
use astrbot_plugin_astrconti.Storage.Journal.View.{range}
use astrbot_plugin_astrconti.Storage.Journal.Facts.{
  find-append_new, find-append_old, find-append_miss,
}

-- The sequence numbers of one session's events, in the order of insertion.
abbrev pub numbers : String → List EventRow → List ℕ
numbers hash [] = []
numbers hash (r ∷ rs) =
    let rest = numbers hash rs in if r.session_key_hash == hash then r.sequence ∷ rest else rest

-- How many the session has taken.
abbrev pub taken : Option SessionRow → ℕ
taken none = 0
taken (some s) = s.next_event_sequence - 1

abbrev pub has_hash : String → SessionRow → Bool
has_hash hash s = s.session_key_hash == hash

-- Every session's events carry 1, 2, 3 and so on, up to the number before its next one.
pub record IsGapless (db : Db) : Type 0 where
  pub positive : all (λ (s : SessionRow). leb 1 s.next_event_sequence) db.sessions ≡ true
  pub gapless :
      (hash : String) → numbers hash db.events ≡ range 1 (taken (find (has_hash hash) db.sessions))

pub range-snoc : (start n : ℕ) → range start n ++ (start + n) ∷ [] ≡ range start (suc n)
range-snoc start zero = ap (λ z. z ∷ []) (omega arith)
range-snoc start (suc n) =
    ap (λ z. start ∷ z)
      (ap (λ z. range (suc start) n ++ z ∷ []) (omega arith) ∙ range-snoc (suc start) n)

pub numbers-append :
    (hash : String) (rs : List EventRow) (r : EventRow)
    → numbers hash (rs ++ r ∷ [])
      ≡ (if r.session_key_hash == hash then numbers hash rs ++ r.sequence ∷ [] else numbers hash rs)
numbers-append hash [] r = refl
numbers-append hash (x ∷ xs) r =
    let later = numbers-append hash xs r in
    elim (Bool-cases (r.session_key_hash == hash)) [
      | inl own ↦ elim (Bool-cases (x.session_key_hash == hash)) [
        | inl mine ↦ rw (own, mine) (ap (λ z. x.sequence ∷ z) (rw own at later))
        | inr other ↦ rw (own, other) (rw own at later)
      ]
      | inr foreign ↦ elim (Bool-cases (x.session_key_hash == hash)) [
        | inl mine ↦ rw (foreign, mine) (ap (λ z. x.sequence ∷ z) (rw foreign at later))
        | inr other ↦ rw (foreign, other) (rw foreign at later)
      ]
    ]

pub taken-append :
    (hash : String) (rows : List SessionRow) (s : SessionRow)
    → s.next_event_sequence ≡ 1
    → taken (find (has_hash hash) (rows ++ s ∷ [])) ≡ taken (find (has_hash hash) rows)
taken-append hash rows s one = elim (Option-cases (find (has_hash hash) rows)) [
  | inr (x, here) ↦ rw (find-append_old (has_hash hash) rows s x here, here)
  | inl gone ↦ elim (Bool-cases (has_hash hash s)) [
    | inl own ↦ rw (find-append_new (has_hash hash) rows s gone own, gone, one)
    | inr other ↦ rw (find-append_miss (has_hash hash) rows s other, gone)
  ]
]

pub positive-append :
    (rows : List SessionRow) (s : SessionRow)
    → s.next_event_sequence ≡ 1
    → all (λ (x : SessionRow). leb 1 x.next_event_sequence) rows ≡ true
    → all (λ (x : SessionRow). leb 1 x.next_event_sequence) (rows ++ s ∷ []) ≡ true
positive-append [] s one h = rw one
positive-append (x ∷ xs) s one h =
    let (now, later) = &&-true (leb 1 x.next_event_sequence) _ h in
    rw now (positive-append xs s one later)

pub positive-update :
    (p : SessionRow → Bool) (now : ℕ) (rows : List SessionRow)
    → all (λ (x : SessionRow). leb 1 x.next_event_sequence) rows ≡ true
    → all (λ (x : SessionRow). leb 1 x.next_event_sequence) (update_where p (advanced now) rows)
      ≡ true
positive-update p now [] h = refl
positive-update p now (x ∷ xs) h =
    let (one, later) = &&-true (leb 1 x.next_event_sequence) _ h in
    let more : leb 1 (x.next_event_sequence + 1) ≡ true = ground arith in
    elim (Bool-cases (p x)) [
      | inl hit ↦ rw (hit, more) (positive-update p now xs later)
      | inr miss ↦ rw (miss, one) (positive-update p now xs later)
    ]

-- Taking a number moves the session's own row, and no other session's.
pub find-advanced :
    (hash other : String) (n now : ℕ) (rows : List SessionRow)
    → (hash == other) ≡ false
    → taken (find (has_hash other) (update_where (is_at hash n) (advanced now) rows))
      ≡ taken (find (has_hash other) rows)
find-advanced hash other n now [] d = refl
find-advanced hash other n now (x ∷ xs) d =
    let rest = find-advanced hash other n now xs d in
    elim (Bool-cases (x.session_key_hash == other)) [
      | inl mine ↦
          let foreign : (x.session_key_hash == hash) ≡ false = ground (
            arith,
            eq_iff x.session_key_hash other,
            eq_iff x.session_key_hash hash,
            eq_iff hash other,
          ) in
          rw (foreign, mine)
      | inr theirs ↦ elim (Bool-cases (is_at hash n x)) [
        | inl hit ↦ rw (hit, theirs) rest
        | inr miss ↦ rw (miss, theirs) rest
      ]
    ]

pub taken-advanced :
    (hash : String) (n now : ℕ) (rows : List SessionRow) {s : SessionRow}
    → find (has_hash hash) rows ≡ some s
    → s.next_event_sequence ≡ n
    → taken (find (has_hash hash) (update_where (is_at hash n) (advanced now) rows)) ≡ n
taken-advanced hash n now [] e k = cc
taken-advanced hash n now (x ∷ xs) {s} e k = elim (Bool-cases (x.session_key_hash == hash)) [
  | inr miss ↦ rw (miss, miss) (taken-advanced hash n now xs (rw miss at e) k)
  | inl hit ↦
      let same : x ≡ s = some-injective x s (rw hit at e) in
      let at_n : (x.next_event_sequence == n) ≡ true = rw (same, k, beq_refl n) in
      rw (hit, at_n, hit, same, k) (omega arith)
]
