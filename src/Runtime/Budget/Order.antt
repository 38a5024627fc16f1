-- ===== src/Runtime/Budget/Order.antt =====
-- The candidate universe of astrcontinuum/runtime/budget.py: its order, its duplicates and its token
-- counts. A dict from block id to count is an association list; the code asks it for ids that it has
-- counted.
use Prim.Native.Nat.{Ordering, compare}
use Prim.Native.String.{compare as text_compare, ◌++◌ as ◌<>◌}
use astrbot_plugin_astrconti.Prelude.{
  ℕ, ◌+◌, ◌*◌, String, Bool, true, false, Option, none, some, List, [], ◌∷◌, ◌++◌, ◌==◌, string_eq,
  nat_eq, Result, ok, err, ◌>>=◌, ◌>>◌, raise_if, if◌then◌else◌, length, mem, sort_by, sum_by,
}
use astrbot_plugin_astrconti.Runtime.Candidate.{
  score_value, CandidateBlock, RuntimeSlot, raw_delta, recent_raw, slot_rank, kind_value,
  BlockRejection, BudgetErrorCode, token_counter_invalid, token_counter_failure,
  internal_budget_invariant,
}

-- The tokenizer: what `count_text` returns or raises. `not_counted` is a value that is no count.
pub data Counted : Type 0 where
  counted : ℕ → Counted
  not_counted raised tokenizer_error : Counted

abbrev pub TokenCounter : Type 0
TokenCounter = String → Counted

pub data BudgetError : Type 0 where
  budget : BudgetErrorCode → BudgetError
  tokenizer closure out_of_fuel : BudgetError

abbrev pub B : Type 0 → Type 0
B A = Result BudgetError A

abbrev pub separator : String
separator = "\n\n"

-- `_count_text`
unfoldable pub count_text : TokenCounter → String → B ℕ
count_text counter text = elim (counter text) [
  | counted n ↦ ok n
  | not_counted ↦ err (budget token_counter_invalid)
  | raised ↦ err (budget token_counter_failure)
  | tokenizer_error ↦ err tokenizer
]

-- Comparison of tuples, of which the first difference decides.
abbrev pub then_by : Ordering → Ordering → Ordering
then_by Ordering.lt later = Ordering.lt
then_by Ordering.gt later = Ordering.gt
then_by Ordering.eq later = later

abbrev pub compare_texts : List String → List String → Ordering
compare_texts [] [] = Ordering.eq
compare_texts [] (y ∷ ys) = Ordering.lt
compare_texts (x ∷ xs) [] = Ordering.gt
compare_texts (x ∷ xs) (y ∷ ys) = then_by (text_compare x y) (compare_texts xs ys)

abbrev pub compare_bools : Bool → Bool → Ordering
compare_bools false true = Ordering.lt
compare_bools true false = Ordering.gt
compare_bools _ _ = Ordering.eq

abbrev pub is_raw : RuntimeSlot → Bool
is_raw raw_delta = true
is_raw recent_raw = true
is_raw _ = false

abbrev pub or_zero : Option ℕ → ℕ
or_zero none = 0
or_zero (some n) = n

abbrev pub or_empty : Option String → String
or_empty none = ""
or_empty (some s) = s

abbrev pub raw_order : CandidateBlock → ℕ
raw_order c = if is_raw c.slot then or_zero c.event_sequence else 0

-- The score is read where the slot is not raw; a higher score stands first.
abbrev pub score_order : CandidateBlock → ℕ
score_order c = if is_raw c.slot then 0 else score_value c.score

-- `_candidate_sort_key`
unfoldable pub candidate_compare : CandidateBlock → CandidateBlock → Ordering
candidate_compare a b = then_by (compare (slot_rank a.slot) (slot_rank b.slot)) (
    then_by (compare (raw_order a) (raw_order b)) (
      then_by (compare (score_order b) (score_order a)) (
        then_by (text_compare a.block_id b.block_id) (
          then_by (text_compare (kind_value a.kind) (kind_value b.kind)) (
            then_by (text_compare a.text b.text) (
              then_by (compare_texts a.source_event_ids b.source_event_ids) (
                then_by (text_compare a.reason b.reason) (
                  then_by (compare_bools a.required b.required)
                    (text_compare (or_empty a.capsule_id) (or_empty b.capsule_id))))))))))

abbrev pub candidate_le : CandidateBlock → CandidateBlock → Bool
candidate_le a b = elim (candidate_compare a b) [ Ordering.gt ↦ false | _ ↦ true ]

-- `_ordered`
unfoldable pub ordered : List CandidateBlock → List CandidateBlock
unfolding candidate_compare
ordered candidates = sort_by candidate_le candidates

-- `_projection_text`
abbrev pub projection_text : List CandidateBlock → String
projection_text [] = ""
projection_text (c ∷ []) = c.text
projection_text (c ∷ d ∷ rest) = c.text <> (separator <> projection_text (d ∷ rest))

-- `_deduplicate`: the loop, with the ids seen.
unfoldable pub split_duplicates :
    List CandidateBlock → List String → List CandidateBlock × List CandidateBlock
split_duplicates [] seen = ([], [])
split_duplicates (c ∷ cs) seen = elim (mem c.block_id seen) [
  | true ↦ (let (unique, duplicates) = split_duplicates cs seen in (unique, c ∷ duplicates))
  | false ↦
      (let (unique, duplicates) = split_duplicates cs (c.block_id ∷ seen) in
        (c ∷ unique, duplicates))
]

unfoldable pub deduplicate : List CandidateBlock → List CandidateBlock × List CandidateBlock
unfolding split_duplicates ordered
deduplicate candidates = split_duplicates (ordered candidates) []

unfoldable pub canonical_candidates : List CandidateBlock → List CandidateBlock
unfolding deduplicate
canonical_candidates candidates = (deduplicate candidates).0

abbrev pub Counts : Type 0
Counts = List (String × ℕ)

abbrev pub lookup_count : String → Counts → Option ℕ
lookup_count id [] = none
lookup_count id ((key, n) ∷ counts) =
    let rest = lookup_count id counts in if key == id then some n else rest

abbrev pub cost_of : Counts → CandidateBlock → ℕ
cost_of counts c = or_zero (lookup_count c.block_id counts)

abbrev pub is_counted : Counts → String → Bool
is_counted counts id = elim (lookup_count id counts) [ none ↦ false | some n ↦ true ]

unfoldable pub count_from : TokenCounter → List CandidateBlock → Counts → B Counts
unfolding count_text
count_from counter [] counts = ok counts
count_from counter (c ∷ cs) counts = do
  raise_if (is_counted counts c.block_id) (budget internal_budget_invariant)
  n ← count_text counter c.text
  count_from counter cs (counts ++ (c.block_id, n) ∷ [])

unfoldable pub count_candidate_blocks : TokenCounter → List CandidateBlock → B Counts
unfolding count_from
count_candidate_blocks counter candidates = count_from counter candidates []

unfoldable pub take_counts : List CandidateBlock → Counts → B Counts
take_counts [] provided = ok []
take_counts (c ∷ cs) provided = elim (lookup_count c.block_id provided) [
  | none ↦ err (budget token_counter_invalid)
  | some n ↦ (do rest ← take_counts cs provided; ok ((c.block_id, n) ∷ rest))
]

-- `_validated_block_token_counts`
unfoldable pub validated_block_token_counts :
    TokenCounter → List CandidateBlock → Option Counts → B Counts
unfolding count_candidate_blocks take_counts
validated_block_token_counts counter candidates none = count_candidate_blocks counter candidates
validated_block_token_counts counter candidates (some provided) = take_counts candidates provided

-- `_estimated_projection_cost`
unfoldable pub estimated_projection_cost : List CandidateBlock → Counts → ℕ → ℕ
estimated_projection_cost [] counts separator_cost = 0
estimated_projection_cost (c ∷ cs) counts separator_cost =
    sum_by (cost_of counts) (c ∷ cs) + separator_cost * length cs

-- `_rejection`
abbrev pub rejection : Counts → String → CandidateBlock → BlockRejection
rejection counts reason c = record {
  block_id = c.block_id;
  slot = c.slot;
  source_event_ids = c.source_event_ids;
  token_cost = cost_of counts c;
  score = c.score;
  reason = reason;
}
