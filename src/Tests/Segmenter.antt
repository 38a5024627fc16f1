-- ===== src/Tests/Segmenter.antt =====
-- The segmenter on the short history, with three events to a segment.
use astrbot_plugin_astrconti.Prelude.{◌≡◌, refl, List, [], ◌∷◌, ok, true}
use astrbot_plugin_astrconti.Domain.Identity.{key_beq}
use astrbot_plugin_astrconti.Runtime.ToolLoop.Fingerprint.{tool_fingerprint}
use astrbot_plugin_astrconti.Runtime.ToolLoop.Parse.{durable_event_units}
use astrbot_plugin_astrconti.Compaction.Segmenter.Pack.{
  SegmenterConfig, EventSegment, TokenCounts, max_events, end_of_input, segment, validate_events,
  counts_match, normalize_preferred_boundaries, pack, place, close_current, reason_before,
  reason_after,
}
use astrbot_plugin_astrconti.Compaction.Segmenter.Cover.{
  events_of, events_of-segment, segment-returns,
}
use astrbot_plugin_astrconti.Compaction.Segmenter.Limits.{AllSegments, segment-AllSegments}
use astrbot_plugin_astrconti.Tests.History.{
  parser, ask, call, result, answer, thanks, history, history_units,
}
use astrbot_plugin_astrconti.Tests.ToolLoop.{units-history}

abbrev limits : SegmenterConfig
limits = record {
  max_events_per_segment = 3;
  max_tokens_per_segment = 100;
  max_preferred_boundaries = 8;
}

abbrev counts : TokenCounts
counts = ("e1", 5) ∷ ("e2", 6) ∷ ("e3", 7) ∷ ("e4", 8) ∷ ("e5", 9) ∷ []

abbrev cut : List EventSegment
cut =
    record {
      start_sequence = 1;
      end_sequence = 1;
      events = ask ∷ [];
      token_cost = 5;
      boundary_reason = max_events;
    }
    ∷ record {
      start_sequence = 2;
      end_sequence = 4;
      events = call ∷ result ∷ answer ∷ [];
      token_cost = 21;
      boundary_reason = max_events;
    }
    ∷ record {
      start_sequence = 5;
      end_sequence = 5;
      events = thanks ∷ [];
      token_cost = 9;
      boundary_reason = end_of_input;
    }
    ∷ []

program : Unit {0}
unfolding segment validate_events counts_match normalize_preferred_boundaries pack place
    close_current reason_before reason_after durable_event_units tool_fingerprint key_beq
program = tt

segment-history : segment parser history counts limits [] ≡ ok cut
unfolding program
segment-history = refl

events_of-segment_example : events_of cut ≡ history
events_of-segment_example = events_of-segment parser history counts limits [] cut segment-history

segment-AllSegments_example : AllSegments limits counts cut
segment-AllSegments_example =
    segment-AllSegments parser history counts limits [] cut segment-history

history_valid : validate_events history ≡ ok tt
unfolding program
history_valid = refl

history_counted : counts_match counts history ≡ true
unfolding program
history_counted = refl

segment-returns_example :
    (segments : List EventSegment) × (segment parser history counts limits [] ≡ ok segments)
segment-returns_example =
    segment-returns parser history counts limits [] history_units history_valid history_counted
      units-history
