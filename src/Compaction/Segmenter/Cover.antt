-- ===== src/Compaction/Segmenter/Cover.antt =====
-- What the segments hold (segment).
use mathlib.Core.List.{append-nil, append_assoc}
use astrbot_plugin_astrconti.Prelude.{
  ℕ, ◌≡◌, refl, sym, ◌∙◌, ap, Bool, true, false, Option, none, some, ◌≢◌, ◌⊎◌, inl, inr, List, [],
  ◌∷◌, ◌++◌, ok, flatten, map, arith, Option-cases,
}
use astrbot_plugin_astrconti.Domain.Event.{EventEnvelope}
use astrbot_plugin_astrconti.Runtime.ToolLoop.Fingerprint.{JsonText}
use astrbot_plugin_astrconti.Runtime.ToolLoop.Parse.{durable_event_units}
use astrbot_plugin_astrconti.Runtime.ToolLoop.Units.{flatten-durable_event_units}
use astrbot_plugin_astrconti.Runtime.ToolLoop.Shape.{durable_event_units-AllUnits}
use astrbot_plugin_astrconti.Compaction.Segmenter.Pack.{
  SegmentBoundaryReason, SegmenterConfig, EventSegment, TokenCounts, unit_tokens, Packing, extend,
  is_end, reason_after, reason_before, empty_packing, normalize_preferred_boundaries, segment,
  validate_events, counts_match,
}
use astrbot_plugin_astrconti.Compaction.Segmenter.Closed.{
  closed, segment_of, before, grown, placed, packed, pack-packed,
}

abbrev pub events_of : List EventSegment → List EventEnvelope
events_of segments = flatten (map (λ s. s.events) segments)

abbrev content : Packing → List EventEnvelope
content p = events_of p.segments ++ p.current

events_of-snoc :
    (segments : List EventSegment) (s : EventSegment)
    → events_of (segments ++ s ∷ []) ≡ events_of segments ++ s.events
events_of-snoc [] s = append-nil s.events
events_of-snoc (x ∷ xs) s =
    ap (λ t. x.events ++ t) (events_of-snoc xs s)
    ∙ sym (append_assoc x.events (events_of xs) s.events)

content-closed : (r : Option SegmentBoundaryReason) (p : Packing) → content (closed r p) ≡ content p
content-closed none p = refl
content-closed (some reason) p =
    append-nil (events_of (p.segments ++ segment_of reason p ∷ []))
    ∙ events_of-snoc p.segments (segment_of reason p)

content-extend :
    (unit : List EventEnvelope) (tokens : ℕ) (p : Packing)
    → content (extend unit tokens p) ≡ content p ++ unit
content-extend unit tokens p = sym (append_assoc (events_of p.segments) p.current unit)

module _ (c : SegmenterConfig) (counts : TokenCounts) (boundaries : List ℕ) where
  content-placed :
      (is_last : Bool) (unit : List EventEnvelope) (p : Packing)
      → content (placed c counts boundaries is_last unit p) ≡ content p ++ unit
  content-placed is_last unit p =
      let q = before c counts boundaries unit p in
      let r = grown c counts boundaries unit p in
      content-closed (reason_after c boundaries is_last unit (unit_tokens counts unit) r) r
      ∙ content-extend unit (unit_tokens counts unit) q
      ∙ ap (λ t. t ++ unit) (content-closed (reason_before c unit (unit_tokens counts unit) p) p)

  content-packed :
      (units : List (List EventEnvelope)) (p : Packing)
      → content (packed c counts boundaries units p) ≡ content p ++ flatten units
  content-packed [] p = sym (append-nil (content p))
  content-packed (unit ∷ rest) p =
      content-packed rest (placed c counts boundaries (is_end rest) unit p)
      ∙ ap (λ t. t ++ flatten rest) (content-placed (is_end rest) unit p)
      ∙ append_assoc (content p) unit (flatten rest)

  -- The last unit closes the open segment.
  current-placed_last :
      (unit : List EventEnvelope) (p : Packing)
      → (placed c counts boundaries true unit p).current ≡ []
  unfolding reason_after
  current-placed_last unit p = ground arith

  current-packed :
      (units : List (List EventEnvelope)) (p : Packing)
      → p.current ≡ [] ⊎ (units ≢ [])
      → (packed c counts boundaries units p).current ≡ []
  current-packed [] p (inl h) = h
  current-packed [] p (inr h) = absurd (h refl)
  current-packed (unit ∷ []) p h = current-placed_last unit p
  current-packed (unit ∷ (next ∷ rest)) p h =
      current-packed (next ∷ rest) (placed c counts boundaries false unit p) (inr (λ e. cc))

-- A segmentation that returns went through the loop on the durable units of the history.
pub segment-packed :
    (j : JsonText) (events : List EventEnvelope) (counts : TokenCounts) (c : SegmenterConfig)
    (wanted : List ℕ) (segments : List EventSegment)
    → segment j events counts c wanted ≡ ok segments
    → (units : List (List EventEnvelope)) × (durable_event_units j events ≡ some units)
      × (segments
          ≡ (packed c counts
              (normalize_preferred_boundaries events wanted c.max_preferred_boundaries)
              units
              empty_packing).segments)
unfolding segment
segment-packed j events counts c wanted segments h =
    elim (Option-cases (durable_event_units j events)) [
      | inl stop ↦ absurd (ground arith)
      | inr (units, run) ↦ (
        units,
        run,
        ground (
          arith,
          pack-packed c counts
              (normalize_preferred_boundaries events wanted c.max_preferred_boundaries) units
              empty_packing (durable_event_units-AllUnits j events units run),
        ),
      )
    ]

-- The events of the segments, joined in the segments' order, are the given history: no event is
-- lost, repeated or moved.
pub events_of-segment :
    (j : JsonText) (events : List EventEnvelope) (counts : TokenCounts) (c : SegmenterConfig)
    (wanted : List ℕ) (segments : List EventSegment)
    → segment j events counts c wanted ≡ ok segments
    → events_of segments ≡ events
events_of-segment j events counts c wanted segments h =
    let (units, run, e) = segment-packed j events counts c wanted segments h in
    let boundaries = normalize_preferred_boundaries events wanted c.max_preferred_boundaries in
    let p = packed c counts boundaries units empty_packing in
    ap events_of e
    ∙ sym (append-nil (events_of p.segments))
    ∙ ap (λ t. events_of p.segments ++ t)
        (sym (current-packed c counts boundaries units empty_packing (inl refl)))
    ∙ content-packed c counts boundaries units empty_packing
    ∙ flatten-durable_event_units j events units run

-- A contiguous history of one session whose tool loop is stable, with a count for exactly its
-- events, is segmented: no check fails, and no empty segment is closed.
pub segment-returns :
    (j : JsonText) (events : List EventEnvelope) (counts : TokenCounts) (c : SegmenterConfig)
    (wanted : List ℕ) (units : List (List EventEnvelope))
    → validate_events events ≡ ok tt
    → counts_match counts events ≡ true
    → durable_event_units j events ≡ some units
    → (segments : List EventSegment) × (segment j events counts c wanted ≡ ok segments)
unfolding segment
segment-returns j events counts c wanted units valid counted run =
    let boundaries = normalize_preferred_boundaries events wanted c.max_preferred_boundaries in
    (
      (packed c counts boundaries units empty_packing).segments,
      rw (
        valid,
        counted,
        run,
        pack-packed c counts boundaries units empty_packing
            (durable_event_units-AllUnits j events units run),
      ),
    )
