-- ===== src/Compaction/Segmenter/Closed.antt =====
-- The loop of the segmenter without its error: an open segment is never empty when it is closed.
use astrbot_plugin_astrconti.Prelude.{
  ℕ, ◌≡◌, refl, Bool, true, Option, none, some, inl, inr, List, [], ◌∷◌, ◌++◌, ok, Bool-cases,
  nat_eq,
}
use astrbot_plugin_astrconti.Domain.Event.{EventEnvelope}
use astrbot_plugin_astrconti.Runtime.ToolLoop.Shape.{IsUnit, AllUnits}
use astrbot_plugin_astrconti.Compaction.Segmenter.Pack.{
  SegmentBoundaryReason, SegmenterConfig, EventSegment, TokenCounts, unit_tokens, first_sequence,
  last_sequence, Packing, close_current, close_for, extend, place, pack, has_events, is_end,
  reason_before, reason_after,
}

abbrev pub segment_of : SegmentBoundaryReason → Packing → EventSegment
segment_of reason p = record {
  start_sequence = first_sequence p.current;
  end_sequence = last_sequence (first_sequence p.current) p.current;
  events = p.current;
  token_cost = p.current_token_cost;
  boundary_reason = reason;
}

abbrev pub closed : Option SegmentBoundaryReason → Packing → Packing
closed none p = p
closed (some reason) p = record {
  segments = p.segments ++ segment_of reason p ∷ [];
  current = [];
  current_token_cost = 0;
}

-- The open segment is not empty, or is not closed.
abbrev MayClose : Option SegmentBoundaryReason → Packing → Type 0
MayClose none p = Unit {0}
MayClose (some reason) p = has_events p.current ≡ true

close_for-closed :
    (r : Option SegmentBoundaryReason) (p : Packing)
    → MayClose r p
    → close_for r p ≡ ok (closed r p)
unfolding close_current
close_for-closed none p h = refl
close_for-closed (some reason) p h = closing p.current p.segments p.current_token_cost h
  where
    closing :
        (events : List EventEnvelope) (done : List EventSegment) (cost : ℕ)
        → has_events events ≡ true
        → close_current reason events
            (record { segments = done; current = events; current_token_cost = cost })
          ≡ ok (
              closed
                (some reason)
                (record { segments = done; current = events; current_token_cost = cost }))
    closing [] done cost h = cc
    closing (e ∷ rest) done cost h = refl

module _ (c : SegmenterConfig) (counts : TokenCounts) (boundaries : List ℕ) where
  abbrev pub before : List EventEnvelope → Packing → Packing
  before unit p = closed (reason_before c unit (unit_tokens counts unit) p) p

  abbrev pub grown : List EventEnvelope → Packing → Packing
  grown unit p = extend unit (unit_tokens counts unit) (before unit p)

  abbrev pub placed : Bool → List EventEnvelope → Packing → Packing
  placed is_last unit p =
      closed (reason_after c boundaries is_last unit (unit_tokens counts unit) (grown unit p))
        (grown unit p)

  abbrev pub packed : List (List EventEnvelope) → Packing → Packing
  packed [] p = p
  packed (unit ∷ rest) p = packed rest (placed (is_end rest) unit p)

has_events-MayClose :
    (r : Option SegmentBoundaryReason) (p : Packing) → has_events p.current ≡ true → MayClose r p
has_events-MayClose none p h = tt
has_events-MayClose (some reason) p h = h

reason_before-MayClose :
    (c : SegmenterConfig) (unit : List EventEnvelope) (tokens : ℕ) (p : Packing)
    → MayClose (reason_before c unit tokens p) p
unfolding reason_before
reason_before-MayClose c unit tokens p = elim (Bool-cases (has_events p.current)) [
  | inl some_events ↦ has_events-MayClose (reason_before c unit tokens p) p some_events
  | inr empty ↦ rw empty tt
]

IsUnit-has_events : (xs unit : List EventEnvelope) → IsUnit unit → has_events (xs ++ unit) ≡ true
IsUnit-has_events [] [] h = absurd h
IsUnit-has_events [] (e ∷ rest) h = refl
IsUnit-has_events (x ∷ xs) unit h = refl

module _ (c : SegmenterConfig) (counts : TokenCounts) (boundaries : List ℕ) where
  place-placed :
      (is_last : Bool) (unit : List EventEnvelope) (p : Packing)
      → IsUnit unit
      → place c counts boundaries is_last unit p ≡ ok (placed c counts boundaries is_last unit p)
  unfolding place
  place-placed is_last unit p h =
      let first =
        close_for-closed (reason_before c unit (unit_tokens counts unit) p) p
          (reason_before-MayClose c unit (unit_tokens counts unit) p) in
      let r = grown c counts boundaries unit p in
      let second =
        close_for-closed (reason_after c boundaries is_last unit (unit_tokens counts unit) r) r (
          has_events-MayClose _ r
            (IsUnit-has_events (before c counts boundaries unit p).current unit h)) in
      rw (first, second)

  pub pack-packed :
      (units : List (List EventEnvelope)) (p : Packing)
      → AllUnits units
      → pack c counts boundaries units p ≡ ok (packed c counts boundaries units p)
  unfolding pack
  pack-packed [] p h = refl
  pack-packed (unit ∷ rest) p h =
      rw (place-placed (is_end rest) unit p h.0) (pack-packed rest _ h.1)
