-- ===== src/Compaction/Segmenter/Pack.antt =====
-- astrcontinuum/compaction/segmenter.py: the definitions.
use astrbot_plugin_astrconti.Prelude.{
  ℕ, suc, ◌+◌, String, Bool, true, false, not, ◌&&◌, ◌||◌, Option, none, some, List, [], ◌∷◌, ◌++◌,
  ◌==◌, nat_eq, string_eq, Result, ok, err, ◌>>=◌, ◌>>◌, raise_if, if◌then◌else◌, ltb, leb, any,
  all, mem, map, take, keep_if, length, sum_by,
}
use astrbot_plugin_astrconti.Domain.Identity.{SessionKey, session_key_eq}
use astrbot_plugin_astrconti.Domain.Event.{EventEnvelope}
use astrbot_plugin_astrconti.Runtime.ToolLoop.Fingerprint.{JsonText}
use astrbot_plugin_astrconti.Runtime.ToolLoop.Parse.{durable_event_units}

pub data SegmentBoundaryReason : Type 0 where
  preferred max_events max_tokens oversized_event end_of_input : SegmentBoundaryReason

pub record SegmenterConfig : Type 0 where
  pub max_events_per_segment : ℕ
  pub max_tokens_per_segment : ℕ
  pub max_preferred_boundaries : ℕ

pub record EventSegment : Type 0 where
  pub start_sequence : ℕ
  pub end_sequence : ℕ
  pub events : List EventEnvelope
  pub token_cost : ℕ
  pub boundary_reason : SegmentBoundaryReason

-- The texts of the raised `ValueError`s, and the `IndexError` of an empty `event_tuple`.
pub data SegmentError : Type 0 where
  invalid_max_events invalid_max_tokens empty_events session_mismatch noncontiguous_events
        token_metric_missing tool_loop_invalid index_error :
      SegmentError

-- `SegmenterConfig.__post_init__`
unfoldable pub make_config : ℕ → ℕ → ℕ → Result SegmentError SegmenterConfig
make_config events tokens boundaries = do
  raise_if (events == 0) invalid_max_events
  raise_if (tokens == 0) invalid_max_tokens
  ok (record {
    max_events_per_segment = events;
    max_tokens_per_segment = tokens;
    max_preferred_boundaries = boundaries;
  })

abbrev pub TokenCounts : Type 0
TokenCounts = List (String × ℕ)

-- `token_counts[event_id]`, for an id that is a key.
abbrev pub tokens_of : TokenCounts → String → ℕ
tokens_of [] k = 0
tokens_of ((j, n) ∷ rest) k = let later = tokens_of rest k in if j == k then n else later

abbrev pub unit_tokens : TokenCounts → List EventEnvelope → ℕ
unit_tokens counts unit = sum_by (λ e. tokens_of counts e.event_id) unit

abbrev validate_from : SessionKey → ℕ → List EventEnvelope → Result SegmentError (Unit {0})
validate_from key expected [] = ok tt
validate_from key expected (e ∷ rest) =
    let later = validate_from key (suc expected) rest in
    if not (e.session_key == key)
    then err session_mismatch
    else if not (e.sequence == expected)
    then err noncontiguous_events
    else later

unfoldable pub validate_events : List EventEnvelope → Result SegmentError (Unit {0})
validate_events [] = err empty_events
validate_events (e ∷ rest) = validate_from e.session_key e.sequence (e ∷ rest)

abbrev pub last_sequence : ℕ → List EventEnvelope → ℕ
last_sequence n [] = n
last_sequence n (e ∷ rest) = last_sequence e.sequence rest

abbrev pub first_sequence : List EventEnvelope → ℕ
first_sequence [] = 0
first_sequence (e ∷ rest) = e.sequence

-- The set is only asked for membership, so its order and repetitions stay.
unfoldable pub normalize_preferred_boundaries : List EventEnvelope → List ℕ → ℕ → List ℕ
normalize_preferred_boundaries events wanted limit =
    keep_if
      (λ n. leb (first_sequence events) n && ltb n (last_sequence (first_sequence events) events))
      (take limit wanted)

-- The variables of the loop.
pub record Packing : Type 0 where
  pub segments : List EventSegment
  pub current : List EventEnvelope
  pub current_token_cost : ℕ

unfoldable pub close_current :
    SegmentBoundaryReason → List EventEnvelope → Packing → Result SegmentError Packing
close_current reason [] p = err index_error
close_current reason (e ∷ rest) p = ok (record {
  segments =
      p.segments
      ++ record {
        start_sequence = e.sequence;
        end_sequence = last_sequence e.sequence rest;
        events = e ∷ rest;
        token_cost = p.current_token_cost;
        boundary_reason = reason;
      }
        ∷ [];
  current = [];
  current_token_cost = 0;
})

abbrev pub has_events : List EventEnvelope → Bool
has_events [] = false
has_events (e ∷ rest) = true

-- Whether the open segment has to end before the unit, and why.
unfoldable pub reason_before :
    SegmenterConfig → List EventEnvelope → ℕ → Packing → Option SegmentBoundaryReason
reason_before c unit tokens p =
    if has_events p.current && ltb c.max_events_per_segment (length p.current + length unit)
    then some max_events
    else if has_events p.current && ltb c.max_tokens_per_segment (p.current_token_cost + tokens)
    then some max_tokens
    else none

-- Whether it ends behind the unit, and why.
unfoldable pub reason_after :
    SegmenterConfig
    → List ℕ
    → Bool
    → List EventEnvelope
    → ℕ
    → Packing
    → Option SegmentBoundaryReason
reason_after c boundaries is_last unit tokens p =
    if ltb c.max_events_per_segment (length unit) || ltb c.max_tokens_per_segment tokens
    then some oversized_event
    else if is_last
    then some end_of_input
    else if leb c.max_events_per_segment (length p.current)
    then some max_events
    else if leb c.max_tokens_per_segment p.current_token_cost
    then some max_tokens
    else if any (λ e. mem e.sequence boundaries) unit
    then some preferred
    else none

abbrev pub close_for : Option SegmentBoundaryReason → Packing → Result SegmentError Packing
close_for none p = ok p
close_for (some reason) p = close_current reason p.current p

abbrev pub extend : List EventEnvelope → ℕ → Packing → Packing
extend unit tokens p = record p {
  current = p.current ++ unit;
  current_token_cost = p.current_token_cost + tokens;
}

-- The body of the loop.
unfoldable pub place :
    SegmenterConfig
    → TokenCounts
    → List ℕ
    → Bool
    → List EventEnvelope
    → Packing
    → Result SegmentError Packing
place c counts boundaries is_last unit p = do
  q ← close_for (reason_before c unit (unit_tokens counts unit) p) p
  let r = extend unit (unit_tokens counts unit) q
  close_for (reason_after c boundaries is_last unit (unit_tokens counts unit) r) r

abbrev pub is_end : List (List EventEnvelope) → Bool
is_end [] = true
is_end (u ∷ us) = false

unfoldable pub pack :
    SegmenterConfig
    → TokenCounts
    → List ℕ
    → List (List EventEnvelope)
    → Packing
    → Result SegmentError Packing
pack c counts boundaries [] p = ok p
pack c counts boundaries (unit ∷ rest) p = do
  q ← place c counts boundaries (is_end rest) unit p
  pack c counts boundaries rest q

abbrev pub empty_packing : Packing
empty_packing = record { segments = []; current = []; current_token_cost = 0 }

-- `set(token_counts) == {event.event_id for event in events}`
unfoldable pub counts_match : TokenCounts → List EventEnvelope → Bool
counts_match counts events =
    all (λ e. mem e.event_id (map (λ entry. entry.0) counts)) events
    && all (λ entry. mem entry.0 (map (λ e. e.event_id) events)) counts

abbrev pub units_or_raise :
    Option (List (List EventEnvelope)) → Result SegmentError (List (List EventEnvelope))
units_or_raise none = err tool_loop_invalid
units_or_raise (some units) = ok units

unfoldable pub segment :
    JsonText
    → List EventEnvelope
    → TokenCounts
    → SegmenterConfig
    → List ℕ
    → Result SegmentError (List EventSegment)
segment j events counts c wanted = do
  validate_events events
  raise_if (not (counts_match counts events)) token_metric_missing
  let boundaries = normalize_preferred_boundaries events wanted c.max_preferred_boundaries
  units ← units_or_raise (durable_event_units j events)
  p ← pack c counts boundaries units empty_packing
  ok p.segments
