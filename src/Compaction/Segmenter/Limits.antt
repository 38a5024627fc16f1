-- ===== src/Compaction/Segmenter/Limits.antt =====
-- The limits that a segment keeps (segment).
use astrbot_plugin_astrconti.Prelude.{
  ℕ, ◌+◌, ◌≤◌, ◌<◌, ◌≡◌, refl, sym, ◌∙◌, ap, subst, Bool, Option, none, some, ◌⊎◌, inl, inr, List,
  [], ◌∷◌, ◌++◌, ok, length, length-append, sum_by-append, arith, Bool-cases, ltb, ◌||◌,
}
use astrbot_plugin_astrconti.Domain.Event.{EventEnvelope}
use astrbot_plugin_astrconti.Runtime.ToolLoop.Fingerprint.{JsonText}
use astrbot_plugin_astrconti.Runtime.ToolLoop.Shape.{AllUnits, IsUnit, durable_event_units-AllUnits}
use astrbot_plugin_astrconti.Compaction.Segmenter.Pack.{
  SegmentBoundaryReason, oversized_event, SegmenterConfig, EventSegment, TokenCounts, unit_tokens,
  tokens_of, first_sequence, last_sequence, Packing, extend, is_end, reason_after, reason_before,
  empty_packing, normalize_preferred_boundaries, segment,
}
use astrbot_plugin_astrconti.Compaction.Segmenter.Closed.{closed, segment_of, placed, packed}
use astrbot_plugin_astrconti.Compaction.Segmenter.Cover.{segment-packed}

module _ (c : SegmenterConfig) (counts : TokenCounts) where
  pub record IsSegment (s : EventSegment) : Type 0 where
    pub starts : s.start_sequence ≡ first_sequence s.events
    pub ends : s.end_sequence ≡ last_sequence (first_sequence s.events) s.events
    pub priced : s.token_cost ≡ unit_tokens counts s.events
    pub limited :
        (length s.events ≤ c.max_events_per_segment) × (s.token_cost ≤ c.max_tokens_per_segment)
        ⊎ (s.boundary_reason ≡ oversized_event) × IsUnit s.events

  abbrev pub AllSegments : List EventSegment → Type 0
  AllSegments [] = Unit {0}
  AllSegments (s ∷ rest) = IsSegment s × AllSegments rest

  AllSegments-snoc :
      (ss : List EventSegment) (s : EventSegment)
      → AllSegments ss
      → IsSegment s
      → AllSegments (ss ++ s ∷ [])
  AllSegments-snoc [] s h k = (k, tt)
  AllSegments-snoc (x ∷ ss) s h k = (h.0, AllSegments-snoc ss s h.1 k)

  record Fits (p : Packing) : Type 0 where
    priced : p.current_token_cost ≡ unit_tokens counts p.current
    few : length p.current ≤ c.max_events_per_segment
    cheap : p.current_token_cost ≤ c.max_tokens_per_segment

  -- There is room for the unit, or nothing is open.
  abbrev HasRoom : List EventEnvelope → Packing → Type 0
  HasRoom unit p =
      (length p.current + length unit ≤ c.max_events_per_segment)
        × (p.current_token_cost + unit_tokens counts unit ≤ c.max_tokens_per_segment)
      ⊎ (p.current ≡ [])

  segment_of-IsSegment :
      (reason : SegmentBoundaryReason) (p : Packing) → Fits p → IsSegment (segment_of reason p)
  segment_of-IsSegment reason p f = record {
    starts = refl;
    ends = refl;
    priced = f.priced;
    limited = inl (f.few, f.cheap);
  }

  record Opens (unit : List EventEnvelope) (q : Packing) : Type 0 where
    priced : q.current_token_cost ≡ unit_tokens counts q.current
    all : AllSegments q.segments
    room : HasRoom unit q

  room_of_none :
      (unit current : List EventEnvelope) (segments : List EventSegment) (cost : ℕ)
      → reason_before c unit
          (unit_tokens counts unit)
          (record { segments = segments; current = current; current_token_cost = cost })
        ≡ none
      → HasRoom unit (record { segments = segments; current = current; current_token_cost = cost })
  unfolding reason_before
  room_of_none unit [] segments cost h = inr refl
  room_of_none unit (e ∷ rest) segments cost h = inl (ground arith, ground arith)

  closed-Opens :
      (unit : List EventEnvelope) (p : Packing) (r : Option SegmentBoundaryReason)
      → reason_before c unit (unit_tokens counts unit) p ≡ r
      → Fits p
      → AllSegments p.segments
      → Opens unit (closed r p)
  closed-Opens unit p none h f all = record {
    priced = f.priced;
    all = all;
    room = room_of_none unit p.current p.segments p.current_token_cost h;
  }
  closed-Opens unit p (some reason) h f all = record {
    priced = refl;
    all = AllSegments-snoc p.segments (segment_of reason p) all (segment_of-IsSegment reason p f);
    room = inr refl;
  }

  grown_priced :
      (unit : List EventEnvelope) (q : Packing)
      → Opens unit q
      → (extend unit (unit_tokens counts unit) q).current_token_cost
        ≡ unit_tokens counts (extend unit (unit_tokens counts unit) q).current
  grown_priced unit q o = omega (
    arith,
    sum_by-append (λ (e : EventEnvelope). tokens_of counts e.event_id) q.current unit,
    o.priced,
  )

  -- What the open segment is behind the unit: within the limits, or the unit alone.
  grown-Fits :
      (unit : List EventEnvelope) (q : Packing)
      → Opens unit q
      → length unit ≤ c.max_events_per_segment
      → unit_tokens counts unit ≤ c.max_tokens_per_segment
      → Fits (extend unit (unit_tokens counts unit) q)
  grown-Fits unit q o few cheap = elim o.room [
    | inl (events, tokens) ↦ record {
      priced = grown_priced unit q o;
      few = omega (arith, length-append q.current unit);
      cheap = tokens;
    }
    | inr empty ↦
        let no_cost : q.current_token_cost ≡ 0 = o.priced ∙ ap (unit_tokens counts) empty in
        record { priced = grown_priced unit q o; few = rw empty few; cheap = omega arith }
  ]

  oversized-IsSegment :
      (unit : List EventEnvelope) (q : Packing)
      → Opens unit q
      → (c.max_events_per_segment < length unit)
        ⊎ (c.max_tokens_per_segment < unit_tokens counts unit)
      → IsUnit unit
      → IsSegment (segment_of oversized_event (extend unit (unit_tokens counts unit) q))
  oversized-IsSegment unit q o big is = elim o.room [
    | inl (events, tokens) ↦ absurd (omega arith)
    | inr empty ↦ record {
      starts = refl;
      ends = refl;
      priced = grown_priced unit q o;
      limited = inr (refl, rw empty is);
    }
  ]

  closed-Fits_reason :
      (reason : SegmentBoundaryReason) (p : Packing) → Fits (closed (some reason) p)
  closed-Fits_reason reason p = record { priced = refl; few = omega arith; cheap = omega arith }

  closed-Fits :
      (r : Option SegmentBoundaryReason) (p : Packing)
      → Fits p
      → AllSegments p.segments
      → Fits (closed r p) × AllSegments (closed r p).segments
  closed-Fits none p f all = (f, all)
  closed-Fits (some reason) p f all = (
    closed-Fits_reason reason p,
    AllSegments-snoc p.segments (segment_of reason p) all (segment_of-IsSegment reason p f),
  )

  -- Behind the unit: a reason closes a segment within the limits or an oversized unit, and no
  -- reason leaves the open segment within the limits.
  after-Fits :
      (boundaries : List ℕ) (is_last : Bool) (unit : List EventEnvelope) (q : Packing)
      (r : Option SegmentBoundaryReason)
      → Opens unit q
      → IsUnit unit
      → reason_after c boundaries is_last unit
          (unit_tokens counts unit)
          (extend unit (unit_tokens counts unit) q)
        ≡ r
      → Fits (closed r (extend unit (unit_tokens counts unit) q))
        × AllSegments (closed r (extend unit (unit_tokens counts unit) q)).segments
  unfolding reason_after
  after-Fits boundaries is_last unit q r o is h =
      elim (Bool-cases (
        ltb c.max_events_per_segment (length unit)
        || ltb c.max_tokens_per_segment (unit_tokens counts unit))) [
          | inl big ↦
              let why : r ≡ some oversized_event = sym h ∙ rw big in
              let p = extend unit (unit_tokens counts unit) q in
              rw why (
                closed-Fits_reason oversized_event p,
                AllSegments-snoc q.segments (segment_of oversized_event p) o.all
                    (oversized-IsSegment unit q o (ground arith) is),
              )
          | inr small ↦
              closed-Fits r (extend unit (unit_tokens counts unit) q)
                (grown-Fits unit q o (ground arith) (ground arith)) o.all
        ]

module _ (c : SegmenterConfig) (counts : TokenCounts) (boundaries : List ℕ) where
  packed-AllSegments :
      (units : List (List EventEnvelope)) (p : Packing)
      → AllUnits units
      → Fits c counts p
      → AllSegments c counts p.segments
      → AllSegments c counts (packed c counts boundaries units p).segments
  packed-AllSegments [] p us f all = all
  packed-AllSegments (unit ∷ rest) p us f all =
      let r = reason_before c unit (unit_tokens counts unit) p in
      let q = closed r p in
      let o = closed-Opens c counts unit p r refl f all in
      let (f', all') = after-Fits c counts boundaries (is_end rest) unit q _ o us.0 refl in
      packed-AllSegments rest (placed c counts boundaries (is_end rest) unit p) us.1 f' all'

-- Every segment names its first and last event's sequence and the exact token sum of its events,
-- and keeps both limits, unless it is one durable unit that is marked as oversized.
pub segment-AllSegments :
    (j : JsonText) (events : List EventEnvelope) (counts : TokenCounts) (c : SegmenterConfig)
    (wanted : List ℕ) (segments : List EventSegment)
    → segment j events counts c wanted ≡ ok segments
    → AllSegments c counts segments
segment-AllSegments j events counts c wanted segments h =
    let (units, run, e) = segment-packed j events counts c wanted segments h in
    subst (AllSegments c counts) (sym e) (
      packed-AllSegments c counts
        (normalize_preferred_boundaries events wanted c.max_preferred_boundaries) units
        empty_packing (durable_event_units-AllUnits j events units run)
        (record { priced = refl; few = omega arith; cheap = omega arith }) tt)
