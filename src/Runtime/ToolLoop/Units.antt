-- ===== src/Runtime/ToolLoop/Units.antt =====
-- The durable units of a stable history (durable_event_units).
use mathlib.Core.List.{append-nil}
use mathlib.Core.Option.{some-injective}
use astrbot_plugin_astrconti.Prelude.{
  subst, ℕ, suc, ◌+◌, ◌≤◌, ◌≡◌, refl, sym, ◌∙◌, ap, true, Option, none, some, inl, inr, List, [],
  ◌∷◌, ◌++◌, arith, flatten, flatten-append, take, drop, slice, take-append-slice, drop-suc_of_cons,
  take_of_drop-nil, Bool-cases, Option-cases, of_some, ltb, not,
}
use astrbot_plugin_astrconti.Domain.Event.{
  EventEnvelope, EventType, user_message, assistant_message, tool_call, tool_result,
}
use astrbot_plugin_astrconti.Runtime.ToolLoop.Fingerprint.{JsonText, ToolFingerprint}
use astrbot_plugin_astrconti.Runtime.ToolLoop.Parse.{
  ToolLoopState, stable, awaiting_results, awaiting_assistant, invalid, Scan, start, is_stable,
  dispatch, step, scan, follows, same_session, fingerprint_for, durable_event_units, PendingTool,
  results_state, close_unit, count_of, decrement,
}

-- What the finished units cover: everything so far, or everything before the open unit.
abbrev Covers :
    List EventEnvelope → ℕ → ToolLoopState → Option ℕ → List (List EventEnvelope) → Type 0
Covers events i stable first units = flatten units ≡ take i events
Covers events i awaiting_results (some first) units =
    (first ≤ i) × (flatten units ≡ take first events)
Covers events i awaiting_assistant (some first) units =
    (first ≤ i) × (flatten units ≡ take first events)
Covers _ _ _ _ _ = ⊥

abbrev CoversScan : List EventEnvelope → ℕ → Scan → Type 0
CoversScan events i s = Covers events i s.state s.start_index s.units

flatten-snoc :
    (units : List (List EventEnvelope)) (unit : List EventEnvelope)
    → flatten (units ++ unit ∷ []) ≡ flatten units ++ unit
flatten-snoc units unit =
    flatten-append units (unit ∷ []) ∙ ap (λ t. flatten units ++ t) (append-nil unit)

module _ (events : List EventEnvelope) (i : ℕ) (e : EventEnvelope) (rest : List EventEnvelope)
    (at : drop i events ≡ e ∷ rest) where
  Covers-open :
      (first : Option ℕ) (units : List (List EventEnvelope))
      → Covers events i awaiting_results first units
      → Covers events (suc i) awaiting_results first units
  Covers-open none units h = h
  Covers-open (some first) units (le, eq) = (omega arith, eq)

  Covers-results :
      (pending : List PendingTool) (first : Option ℕ) (units : List (List EventEnvelope))
      → Covers events (suc i) awaiting_results first units
      → Covers events (suc i) (results_state pending) first units
  Covers-results [] none units h = h
  Covers-results [] (some first) units h = h
  Covers-results (p ∷ ps) first units h = h

  Covers-resume :
      (first : Option ℕ) (units : List (List EventEnvelope))
      → Covers events i awaiting_assistant first units
      → Covers events (suc i) awaiting_results first units
  Covers-resume none units h = h
  Covers-resume (some first) units (le, eq) = (omega arith, eq)

  flatten-single :
      (units : List (List EventEnvelope))
      → flatten units ≡ take i events
      → flatten (units ++ (e ∷ []) ∷ []) ≡ take (suc i) events
  flatten-single units c =
      flatten-snoc units (e ∷ []) ∙ ap (λ t. t ++ e ∷ []) c ∙ sym ((drop-suc_of_cons i events at).1)

  close_unit-Covers :
      (first : Option ℕ) (s : Scan) {s' : Scan}
      → close_unit events i first s ≡ some s'
      → Covers events i awaiting_assistant first s.units
      → CoversScan events (suc i) s'
  close_unit-Covers none s h c = absurd c
  close_unit-Covers (some first) s h (le, eq) = of_some (CoversScan events (suc i)) h (
      flatten-snoc s.units _
      ∙ ap (λ t. t ++ slice first (i + 1) events) eq
      ∙ take-append-slice first (i + 1) events (omega arith)
      ∙ ap (λ n. take n events) {y = suc i} (omega arith))

  dispatch-Covers :
      (st : ToolLoopState) (t : EventType) (f : Option ToolFingerprint) (s : Scan) {s' : Scan}
      → s.state ≡ st
      → dispatch events i e st t f s ≡ some s'
      → Covers events i st s.start_index s.units
      → CoversScan events (suc i) s'
  unfolding dispatch
  dispatch-Covers stable tool_call (some f) s at_state h c =
      of_some (CoversScan events (suc i)) h (omega arith, c)
  dispatch-Covers stable user_message f s at_state h c = of_some (CoversScan events (suc i)) h (
      subst (λ st. Covers events (suc i) st s.start_index (s.units ++ (e ∷ []) ∷ [])) (sym at_state)
        (flatten-single s.units c))
  dispatch-Covers stable assistant_message f s at_state h c =
      of_some (CoversScan events (suc i)) h (
        subst (λ st. Covers events (suc i) st s.start_index (s.units ++ (e ∷ []) ∷ []))
          (sym at_state) (flatten-single s.units c))
  dispatch-Covers awaiting_results tool_call (some f) s at_state h c =
      of_some (CoversScan events (suc i)) h (
        subst (λ st. Covers events (suc i) st s.start_index s.units) (sym at_state)
          (Covers-open s.start_index s.units c))
  dispatch-Covers awaiting_results tool_result (some f) s at_state h c =
      elim (Bool-cases (ltb (count_of f s.pending) 1)) [
        | inl short ↦ ground arith
        | inr live ↦ of_some (CoversScan events (suc i)) (rw live at h) (
            Covers-results (decrement f s.pending) s.start_index s.units
              (Covers-open s.start_index s.units c))
      ]
  dispatch-Covers awaiting_assistant assistant_message f s at_state h c =
      close_unit-Covers s.start_index s h c
  dispatch-Covers awaiting_assistant tool_call (some f) s at_state h c =
      of_some (CoversScan events (suc i)) h (Covers-resume s.start_index s.units c)
  dispatch-Covers _ _ _ s at_state h c = cc

step-Covers :
    (j : JsonText) (events : List EventEnvelope) (i : ℕ) (e : EventEnvelope)
    (rest : List EventEnvelope) (s : Scan) {s' : Scan}
    → drop i events ≡ e ∷ rest
    → step j events i e s ≡ some s'
    → CoversScan events i s
    → CoversScan events (suc i) s'
unfolding step
step-Covers j events i e rest s at h c =
    elim (Bool-cases (not (follows s.previous_sequence e.sequence))) [
      | inl gap ↦ ground arith
      | inr next ↦ elim (Bool-cases (not (same_session s.session_key e.session_key))) [
        | inl other ↦ ground arith
        | inr same ↦
            dispatch-Covers events i e rest at s.state e.event_type (fingerprint_for j e) _ refl
              (rw (next, same) at h) c
      ]
    ]

scan-Covers :
    (j : JsonText) (events : List EventEnvelope) (i : ℕ) (rest : List EventEnvelope) (s : Scan)
    {s' : Scan}
    → drop i events ≡ rest
    → scan j events i rest s ≡ some s'
    → CoversScan events i s
    → (n : ℕ) × (drop n events ≡ []) × CoversScan events n s'
unfolding scan
scan-Covers j events i [] s at h c = (i, at, of_some (CoversScan events i) h c)
scan-Covers j events i (e ∷ rest) s at h c = elim (Option-cases (step j events i e s)) [
  | inl stop ↦ absurd (ground arith)
  | inr (s1, go) ↦
      scan-Covers j events (suc i) rest s1 (drop-suc_of_cons i events at).0 (rw (go, scan) at h)
        (step-Covers j events i e rest s at go c)
]

units-Covers :
    (events : List EventEnvelope) (n : ℕ) (s : Scan)
    → drop n events ≡ []
    → is_stable s.state ≡ true
    → CoversScan events n s
    → flatten s.units ≡ events
units-Covers events n s end closed c = closing s.state s.start_index closed c
  where
    closing :
        (st : ToolLoopState) (first : Option ℕ)
        → is_stable st ≡ true
        → Covers events n st first s.units
        → flatten s.units ≡ events
    closing stable first h c = c ∙ take_of_drop-nil n events end
    closing awaiting_results first h c = cc
    closing awaiting_assistant first h c = cc
    closing invalid first h c = cc

pub scan_of_units :
    (j : JsonText) (events : List EventEnvelope) (units : List (List EventEnvelope))
    → durable_event_units j events ≡ some units
    → (s : Scan) × (scan j events 0 events start ≡ some s)
      × (is_stable s.state ≡ true)
      × (s.units ≡ units)
unfolding durable_event_units
scan_of_units j events units h = elim (Option-cases (scan j events 0 events start)) [
  | inl stop ↦ cc (rw stop at h)
  | inr (s, run) ↦ elim (Bool-cases (is_stable s.state)) [
    | inl closed ↦ (s, run, closed, some-injective s.units units (rw (run, closed) at h))
    | inr open_loop ↦ cc (rw (run, open_loop) at h)
  ]
]

-- The durable units of a history, joined in their order, are the history: no event is lost,
-- repeated or moved.
pub flatten-durable_event_units :
    (j : JsonText) (events : List EventEnvelope) (units : List (List EventEnvelope))
    → durable_event_units j events ≡ some units
    → flatten units ≡ events
flatten-durable_event_units j events units h =
    let (s, run, closed, same) = scan_of_units j events units h in
    let (n, end, c) = scan-Covers j events 0 events start refl run refl in
    rw (← same) (units-Covers events n s end closed c)
