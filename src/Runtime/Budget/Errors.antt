-- ===== src/Runtime/Budget/Errors.antt =====
-- The errors of the steps of `assemble` (astrcontinuum/runtime/budget.py).
use astrbot_plugin_astrconti.Prelude.{
  ℕ, zero, suc, ◌≤◌, ◌≡◌, refl, ◌∙◌, ap, subst, String, Bool, true, false, not, Option, none, some,
  inl, inr, List, [], ◌∷◌, ◌++◌, ◌==◌, string_eq, beq_refl, eq_of_beq, arith, Bool-cases,
  Option-cases, length, ok, err, ◌>>=◌, raise_if, if◌then◌else◌, leb, mem, keep_if, is_unique,
  bind-err, at_once, later, EachOf, EachOf-all,
}
use astrbot_plugin_astrconti.Runtime.Candidate.{
  CandidateBlock, BlockRejection, token_counter_invalid, token_counter_failure,
  required_input_exceeds_budget, internal_budget_invariant,
}
use astrbot_plugin_astrconti.ContextGraph.Closure.{
  ids_of, has_required, dependency_groups, removable_dependency_groups,
}
use astrbot_plugin_astrconti.ContextGraph.Partition.{dependency_groups-Partitions}
use astrbot_plugin_astrconti.Runtime.Budget.Order.{
  TokenCounter, BudgetError, budget, tokenizer, B, count_text, Counts, lookup_count, is_counted,
  count_from, projection_text,
}
use astrbot_plugin_astrconti.Runtime.Budget.Select.{
  from_closure, greatest, without_group, lowest_priority_optional_group, exact_loop,
}
use astrbot_plugin_astrconti.Runtime.Budget.Rounds.{lowest-shrinks}

-- The errors that an assembly without given counts may raise.
abbrev pub is_expected : BudgetError → Bool
is_expected (budget required_input_exceeds_budget) = true
is_expected (budget token_counter_invalid) = true
is_expected (budget token_counter_failure) = true
is_expected tokenizer = true
is_expected _ = false

abbrev pub Expected : {A : Type 0} → B A → Type 0
Expected x = (e : BudgetError) → x ≡ err e → is_expected e ≡ true

pub bind-Expected :
    {A C : Type 0} (x : B A) (next : A → B C)
    → Expected x
    → ((a : A) → x ≡ ok a → Expected (next a))
    → Expected (x >>= next)
bind-Expected x next first rest e h = elim (bind-err x next h) [
  | at_once bad ↦ first e bad
  | later a found bad ↦ rest a found e bad
]

pub ok-Expected : {A : Type 0} (a : A) → Expected (ok a)
ok-Expected a e h = cc

pub err-Expected : {A : Type 0} (e : BudgetError) → is_expected e ≡ true → Expected {A = A} (err e)
err-Expected {A} e h f same = subst (λ z. is_expected z ≡ true) (err-injective e f same) h
  where
    err-injective : (a b : BudgetError) → ◌≡◌ {0} {A = B A} (err a) (err b) → a ≡ b
    err-injective a b h = cc

-- A check that raises an expected error, or that passes.
pub raise_if-Expected :
    (test : Bool) (e : BudgetError) → is_expected e ≡ true → Expected (raise_if test e)
raise_if-Expected true e h = err-Expected e h
raise_if-Expected false e h = ok-Expected tt

pub passes-Expected : (test : Bool) (e : BudgetError) → test ≡ false → Expected (raise_if test e)
passes-Expected true e p f h = cc
passes-Expected false e p f h = cc

pub count_text-Expected :
    (counter : TokenCounter) (text : String) → Expected (count_text counter text)
unfolding count_text
count_text-Expected counter text e h = ground arith

pub if-Expected :
    {A : Type 0} (test : Bool) {x y : B A}
    → Expected x
    → Expected y
    → Expected (if test then x else y)
if-Expected true first second = first
if-Expected false first second = second

lookup_count-append :
    (id key : String) (n : ℕ) (counts : Counts)
    → (key == id) ≡ false
    → lookup_count id counts ≡ none
    → lookup_count id (counts ++ (key, n) ∷ []) ≡ none
lookup_count-append id key n [] apart h = rw apart
lookup_count-append id key n ((k, m) ∷ counts) apart h = elim (Bool-cases (k == id)) [
  | inl here ↦ cc (rw here at h)
  | inr there ↦ rw there (lookup_count-append id key n counts apart (rw there at h))
]

abbrev IsUncounted : Counts → CandidateBlock → Type 0
IsUncounted counts c = lookup_count c.block_id counts ≡ none

IsUncounted-next :
    (key : String) (n : ℕ) (counts : Counts) (cs : List CandidateBlock)
    → mem key (ids_of cs) ≡ false
    → EachOf (IsUncounted counts) cs
    → EachOf (IsUncounted (counts ++ (key, n) ∷ [])) cs
IsUncounted-next key n counts [] h e = tt
IsUncounted-next key n counts (c ∷ cs) h (u, e) = elim (Bool-cases (key == c.block_id)) [
  | inl same ↦ cc (rw (eq_of_beq key c.block_id same, beq_refl c.block_id) at h)
  | inr apart ↦ (
    lookup_count-append c.block_id key n counts apart u,
    IsUncounted-next key n counts cs (ground arith) e,
  )
]

pub count_from-Expected :
    (counter : TokenCounter) (cs : List CandidateBlock) (counts : Counts)
    → is_unique (ids_of cs) ≡ true
    → EachOf (IsUncounted counts) cs
    → Expected (count_from counter cs counts)
unfolding count_from
count_from-Expected counter [] counts u e = ok-Expected counts
count_from-Expected counter (c ∷ cs) counts u (new, e) =
    elim (Bool-cases (mem c.block_id (ids_of cs))) [
      | inl again ↦ λ f h. cc (rw again at u)
      | inr once ↦
          bind-Expected (raise_if (is_counted counts c.block_id) (budget internal_budget_invariant))
            _ (passes-Expected _ _ (rw (is_counted, new)))
            (λ v passed.
              bind-Expected (count_text counter c.text) _ (count_text-Expected counter c.text)
                (λ n counted.
                  count_from-Expected counter cs (counts ++ (c.block_id, n) ∷ []) (rw once at u)
                    (IsUncounted-next c.block_id n counts cs once e)))
    ]

-- Unique ids have groups.
pub from_closure-Expected :
    (cs : List CandidateBlock)
    → is_unique (ids_of cs) ≡ true
    → Expected (from_closure (dependency_groups cs))
from_closure-Expected cs u e h =
    let (groups, (found, parts)) =
      dependency_groups-Partitions (λ c. Unit {0}) cs u (EachOf-all _ (λ c. tt) cs) in
    cc (rw found at h)

mem-keep_if :
    (q : CandidateBlock → Bool) (id : String) (cs : List CandidateBlock)
    → mem id (ids_of cs) ≡ false
    → mem id (ids_of (keep_if q cs)) ≡ false
mem-keep_if q id [] h = refl
mem-keep_if q id (c ∷ cs) h =
    let rest = mem-keep_if q id cs (ground arith) in
    elim (Bool-cases (q c)) [ inl hit ↦ rw hit (ground arith) | inr miss ↦ rw miss rest ]

pub keep_if-is_unique :
    (cs : List CandidateBlock)
    → is_unique (ids_of cs) ≡ true
    → (q : CandidateBlock → Bool) → is_unique (ids_of (keep_if q cs)) ≡ true
keep_if-is_unique [] u q = refl
keep_if-is_unique (c ∷ cs) u q = elim (Bool-cases (mem c.block_id (ids_of cs))) [
  | inl again ↦ cc (rw again at u)
  | inr once ↦
      let rest = keep_if-is_unique cs (rw once at u) q in
      let apart = mem-keep_if q c.block_id cs once in
      elim (Bool-cases (q c)) [ inl hit ↦ rw (hit, apart) rest | inr miss ↦ rw miss rest ]
]

lowest-Expected :
    (selected : List CandidateBlock)
    → is_unique (ids_of selected) ≡ true
    → Expected (lowest_priority_optional_group selected)
unfolding lowest_priority_optional_group removable_dependency_groups
lowest-Expected selected u e h =
    let (groups, (found, parts)) =
      dependency_groups-Partitions (λ c. Unit {0}) selected u (EachOf-all _ (λ c. tt) selected) in
    no_group (keep_if (λ g. not (has_required g)) groups)
      (rw (lowest_priority_optional_group, removable_dependency_groups, found) at h)
  where
    no_group :
        (groups : List (List CandidateBlock))
        → ◌≡◌ {A = B (Option (List CandidateBlock))}
            (elim groups [ [] ↦ ok none | best ∷ rest ↦ ok (some (greatest selected best rest)) ])
            (err e)
        → is_expected e ≡ true
    no_group [] h = cc
    no_group (g ∷ gs) h = cc

-- The exact loop ends in as many rounds as there are blocks, and one.
pub exact_loop-Expected :
    (fuel : ℕ) (counter : TokenCounter) (counts : Counts) (b_ac : ℕ)
    (selected : List CandidateBlock) (removed : List BlockRejection)
    → suc (length selected) ≤ fuel
    → is_unique (ids_of selected) ≡ true
    → Expected (exact_loop fuel counter counts b_ac selected removed)
unfolding exact_loop
exact_loop-Expected zero counter counts b_ac selected removed n u = absurd (omega arith)
exact_loop-Expected (suc fuel) counter counts b_ac selected removed n u =
    bind-Expected (count_text counter (projection_text selected)) _
      (count_text-Expected counter (projection_text selected))
      (λ cost counted. elim (Bool-cases (leb cost b_ac)) [
        | inl fits ↦ rw fits (ok-Expected _)
        | inr over ↦ rw over (
            bind-Expected (lowest_priority_optional_group selected) _ (lowest-Expected selected u)
              (λ least found. elim (Option-cases least) [
                | inl gone ↦ rw gone (err-Expected (budget required_input_exceeds_budget) refl)
                | inr (group, is) ↦
                    let s = lowest-shrinks selected group (found ∙ ap ok is) in
                    rw is (
                      exact_loop-Expected fuel counter counts b_ac (without_group group selected) _
                        (omega arith) (keep_if-is_unique selected u _))
              ]))
      ])
