-- ===== src/Runtime/ToolLoop/Shape.antt =====
-- What a durable unit looks like.
use astrbot_plugin_astrconti.Prelude.{
  ℕ, zero, suc, ◌+◌, ◌≤◌, ◌≡◌, refl, sym, true, false, not, Option, none, some, inl, inr, List, [],
  ◌∷◌, ◌++◌, arith, all, drop, slice, subst, drop-suc_of_cons, Bool-cases, Option-cases, of_some,
  ltb,
}
use astrbot_plugin_astrconti.Domain.Event.{
  EventEnvelope, EventType, user_message, assistant_message, tool_call, tool_result,
}
use astrbot_plugin_astrconti.Runtime.ToolLoop.Fingerprint.{JsonText, ToolFingerprint}
use astrbot_plugin_astrconti.Runtime.ToolLoop.Parse.{
  ToolLoopState, stable, awaiting_results, awaiting_assistant, invalid, Scan, start, is_stable,
  is_tool, dispatch, step, scan, follows, same_session, fingerprint_for, durable_event_units,
  PendingTool, results_state, close_unit, count_of, decrement,
}
use astrbot_plugin_astrconti.Runtime.ToolLoop.Units.{scan_of_units}

-- Calls and results only, then the assistant's message.
abbrev pub Closes : List EventEnvelope → Type 0
Closes [] = ⊥
Closes (e ∷ []) = e.event_type ≡ assistant_message
Closes (e ∷ more) = (is_tool e.event_type ≡ true) × Closes more

-- One message, or a continuation that a call opens and the assistant Closes.
abbrev pub IsUnit : List EventEnvelope → Type 0
IsUnit [] = ⊥
IsUnit (e ∷ []) = is_tool e.event_type ≡ false
IsUnit (e ∷ more) = (e.event_type ≡ tool_call) × Closes more

-- The open part of a continuation.
abbrev IsOpen : List EventEnvelope → Type 0
IsOpen [] = ⊥
IsOpen (e ∷ more) = (e.event_type ≡ tool_call) × (all (λ x. is_tool x.event_type) more ≡ true)

abbrev pub AllUnits : List (List EventEnvelope) → Type 0
AllUnits [] = Unit {0}
AllUnits (u ∷ us) = IsUnit u × AllUnits us

AllUnits-snoc :
    (us : List (List EventEnvelope)) (u : List EventEnvelope)
    → AllUnits us
    → IsUnit u
    → AllUnits (us ++ u ∷ [])
AllUnits-snoc [] u h k = (k, tt)
AllUnits-snoc (x ∷ us) u h k = (h.0, AllUnits-snoc us u h.1 k)

all-snoc :
    (xs : List EventEnvelope) (e : EventEnvelope)
    → all (λ x. is_tool x.event_type) xs ≡ true
    → is_tool e.event_type ≡ true
    → all (λ x. is_tool x.event_type) (xs ++ e ∷ []) ≡ true
all-snoc [] e h k = rw k
all-snoc (x ∷ xs) e h k = ground (arith, all-snoc xs e)

Closes-snoc :
    (xs : List EventEnvelope) (e : EventEnvelope)
    → all (λ x. is_tool x.event_type) xs ≡ true
    → e.event_type ≡ assistant_message
    → Closes (xs ++ e ∷ [])
Closes-snoc [] e h k = k
Closes-snoc (x ∷ []) e h k = (ground arith, k)
Closes-snoc (x ∷ (y ∷ ys)) e h k = (ground arith, Closes-snoc (y ∷ ys) e (ground arith) k)

IsOpen-snoc :
    (xs : List EventEnvelope) (e : EventEnvelope)
    → IsOpen xs
    → is_tool e.event_type ≡ true
    → IsOpen (xs ++ e ∷ [])
IsOpen-snoc [] e h k = absurd h
IsOpen-snoc (x ∷ xs) e h k = (h.0, all-snoc xs e h.1 k)

IsUnit-snoc :
    (xs : List EventEnvelope) (e : EventEnvelope)
    → IsOpen xs
    → e.event_type ≡ assistant_message
    → IsUnit (xs ++ e ∷ [])
IsUnit-snoc [] e h k = absurd h
IsUnit-snoc (x ∷ []) e h k = (h.0, k)
IsUnit-snoc (x ∷ (y ∷ ys)) e h k = (h.0, Closes-snoc (y ∷ ys) e h.1 k)

-- The open unit grows by the event at the index.
slice-suc :
    (first i : ℕ) (events : List EventEnvelope) {e : EventEnvelope} {rest : List EventEnvelope}
    → first ≤ i
    → drop i events ≡ e ∷ rest
    → slice first (suc i) events ≡ slice first i events ++ e ∷ []
slice-suc zero i events le at = (drop-suc_of_cons i events at).1
slice-suc (suc f) zero events le at = absurd (omega arith)
slice-suc (suc f) (suc i) [] le at = cc
slice-suc (suc f) (suc i) (x ∷ xs) le at = slice-suc f i xs (omega arith) at

slice-single :
    (i : ℕ) (events : List EventEnvelope) {e : EventEnvelope} {rest : List EventEnvelope}
    → drop i events ≡ e ∷ rest
    → slice i (suc i) events ≡ e ∷ []
slice-single zero [] at = cc
slice-single zero (x ∷ xs) at = cc
slice-single (suc i) [] at = cc
slice-single (suc i) (x ∷ xs) at = slice-single i xs at

abbrev Shaped :
    List EventEnvelope → ℕ → ToolLoopState → Option ℕ → List (List EventEnvelope) → Type 0
Shaped events i stable first units = AllUnits units
Shaped events i awaiting_results (some first) units =
    (first ≤ i) × IsOpen (slice first i events) × AllUnits units
Shaped events i awaiting_assistant (some first) units =
    (first ≤ i) × IsOpen (slice first i events) × AllUnits units
Shaped _ _ _ _ _ = ⊥

abbrev ShapedScan : List EventEnvelope → ℕ → Scan → Type 0
ShapedScan events i s = Shaped events i s.state s.start_index s.units

module _ (events : List EventEnvelope) (i : ℕ) (e : EventEnvelope) (rest : List EventEnvelope)
    (at : drop i events ≡ e ∷ rest) where
  Shaped-grow :
      (st : ToolLoopState) (first : Option ℕ) (units : List (List EventEnvelope))
      → is_stable st ≡ false
      → is_tool e.event_type ≡ true
      → Shaped events i st first units
      → Shaped events (suc i) awaiting_results first units
  Shaped-grow stable first units n t h = cc
  Shaped-grow awaiting_results none units n t h = h
  Shaped-grow awaiting_results (some f) units n t (le, o, us) =
      (omega arith, rw (slice-suc f i events le at) (IsOpen-snoc (slice f i events) e o t), us)
  Shaped-grow awaiting_assistant none units n t h = h
  Shaped-grow awaiting_assistant (some f) units n t (le, o, us) =
      (omega arith, rw (slice-suc f i events le at) (IsOpen-snoc (slice f i events) e o t), us)
  Shaped-grow invalid first units n t h = absurd h

  Shaped-results :
      (pending : List PendingTool) (first : Option ℕ) (units : List (List EventEnvelope))
      → Shaped events (suc i) awaiting_results first units
      → Shaped events (suc i) (results_state pending) first units
  Shaped-results [] none units h = h
  Shaped-results [] (some first) units h = h
  Shaped-results (p ∷ ps) first units h = h

  Shaped-close :
      (first : Option ℕ) (s : Scan) {s' : Scan}
      → e.event_type ≡ assistant_message
      → close_unit events i first s ≡ some s'
      → Shaped events i awaiting_assistant first s.units
      → ShapedScan events (suc i) s'
  Shaped-close none s t h c = absurd c
  Shaped-close (some f) s t h (le, o, us) =
      let next : i + 1 ≡ suc i = omega arith in
      let whole : IsUnit (slice f (i + 1) events) =
        rw (next, slice-suc f i events le at) (IsUnit-snoc (slice f i events) e o t) in
      of_some (ShapedScan events (suc i)) h
        (AllUnits-snoc s.units (slice f (i + 1) events) us whole)

  dispatch-Shaped :
      (st : ToolLoopState) (t : EventType) (g : Option ToolFingerprint) (s : Scan) {s' : Scan}
      → s.state ≡ st
      → e.event_type ≡ t
      → dispatch events i e st t g s ≡ some s'
      → Shaped events i st s.start_index s.units
      → ShapedScan events (suc i) s'
  unfolding dispatch
  dispatch-Shaped stable tool_call (some g) s at_state is h c =
      of_some (ShapedScan events (suc i)) h
        (omega arith, rw (slice-single i events at) (is, refl), c)
  dispatch-Shaped stable user_message g s at_state is h c = of_some (ShapedScan events (suc i)) h (
      subst (λ st. Shaped events (suc i) st s.start_index (s.units ++ (e ∷ []) ∷ [])) (sym at_state)
        (AllUnits-snoc s.units (e ∷ []) c (rw is)))
  dispatch-Shaped stable assistant_message g s at_state is h c =
      of_some (ShapedScan events (suc i)) h (
        subst (λ st. Shaped events (suc i) st s.start_index (s.units ++ (e ∷ []) ∷ []))
          (sym at_state) (AllUnits-snoc s.units (e ∷ []) c (rw is)))
  dispatch-Shaped awaiting_results tool_call (some g) s at_state is h c =
      of_some (ShapedScan events (suc i)) h (
        subst (λ st. Shaped events (suc i) st s.start_index s.units) (sym at_state)
          (Shaped-grow awaiting_results s.start_index s.units refl (rw is) c))
  dispatch-Shaped awaiting_results tool_result (some g) s at_state is h c =
      elim (Bool-cases (ltb (count_of g s.pending) 1)) [
        | inl short ↦ cc (rw short at h)
        | inr live ↦ of_some (ShapedScan events (suc i)) (rw live at h) (
            Shaped-results (decrement g s.pending) s.start_index s.units
              (Shaped-grow awaiting_results s.start_index s.units refl (rw is) c))
      ]
  dispatch-Shaped awaiting_assistant assistant_message g s at_state is h c =
      Shaped-close s.start_index s is h c
  dispatch-Shaped awaiting_assistant tool_call (some g) s at_state is h c =
      of_some (ShapedScan events (suc i)) h
        (Shaped-grow awaiting_assistant s.start_index s.units refl (rw is) c)
  dispatch-Shaped _ _ _ s at_state is h c = cc

module _ (j : JsonText) (events : List EventEnvelope) where
  step-Shaped :
      (i : ℕ) (e : EventEnvelope) (rest : List EventEnvelope) (s : Scan) {s' : Scan}
      → drop i events ≡ e ∷ rest
      → step j events i e s ≡ some s'
      → ShapedScan events i s
      → ShapedScan events (suc i) s'
  unfolding step
  step-Shaped i e rest s at h c = elim (Bool-cases (not (follows s.previous_sequence e.sequence))) [
    | inl gap ↦ cc (rw gap at h)
    | inr next ↦ elim (Bool-cases (not (same_session s.session_key e.session_key))) [
      | inl other ↦ cc (rw (next, other) at h)
      | inr same ↦
          dispatch-Shaped events i e rest at s.state e.event_type (fingerprint_for j e)
            (record s { previous_sequence = some e.sequence; session_key = some e.session_key })
            refl refl (rw (next, same) at h) c
    ]
  ]

  scan-Shaped :
      (i : ℕ) (rest : List EventEnvelope) (s : Scan) {s' : Scan}
      → drop i events ≡ rest
      → scan j events i rest s ≡ some s'
      → ShapedScan events i s
      → (n : ℕ) × ShapedScan events n s'
  unfolding scan
  scan-Shaped i [] s at h c = (i, of_some (ShapedScan events i) h c)
  scan-Shaped i (e ∷ rest) s at h c = elim (Option-cases (step j events i e s)) [
    | inl stop ↦ cc (rw (stop, scan) at h)
    | inr (s1, go) ↦
        scan-Shaped (suc i) rest s1 (drop-suc_of_cons i events at).0 (rw (go, scan) at h)
          (step-Shaped i e rest s at go c)
  ]

units_of_Shaped :
    (events : List EventEnvelope) (n : ℕ) (st : ToolLoopState) (first : Option ℕ)
    (units : List (List EventEnvelope))
    → is_stable st ≡ true
    → Shaped events n st first units
    → AllUnits units
units_of_Shaped events n stable first units h c = c
units_of_Shaped events n awaiting_results first units h c = cc
units_of_Shaped events n awaiting_assistant first units h c = cc
units_of_Shaped events n invalid first units h c = cc

-- A durable unit is one user or assistant message, or a tool call, then calls and results only,
-- then the assistant's message: no unit is empty, and none is cut off inside a continuation.
pub durable_event_units-AllUnits :
    (j : JsonText) (events : List EventEnvelope) (units : List (List EventEnvelope))
    → durable_event_units j events ≡ some units
    → AllUnits units
durable_event_units-AllUnits j events units h =
    let (s, run, closed, same) = scan_of_units j events units h in
    let (n, c) = scan-Shaped j events 0 events start refl run tt in
    subst AllUnits same (units_of_Shaped events n s.state s.start_index s.units closed c)
