-- ===== src/Runtime/ToolLoop/Balance.antt =====
-- Calls and results of a stable history pair up.
use astrbot_plugin_astrconti.Prelude.{
  ℕ, suc, ◌+◌, ◌≡◌, refl, sym, ◌∙◌, Bool, true, false, not, Option, none, some, inl, inr, List, [],
  ◌∷◌, arith, if◌then◌else◌, Bool-cases, Option-cases, of_some, ltb, ◌==◌, subst, ap,
}
use astrbot_plugin_astrconti.Domain.Event.{
  EventEnvelope, EventType, user_message, assistant_message, tool_call, tool_result,
}
use astrbot_plugin_astrconti.Runtime.ToolLoop.Fingerprint.{
  JsonText, ToolFingerprint, fingerprint_eq, fingerprint_beq_iff, tool_fingerprint,
}
use astrbot_plugin_astrconti.Runtime.ToolLoop.Parse.{
  ToolLoopState, stable, awaiting_results, awaiting_assistant, invalid, Scan, start, is_stable,
  dispatch, step, scan, follows, same_session, fingerprint_for, durable_event_units, PendingTool,
  is_tool, results_state, close_unit, count_of, decrement, increment,
}
use astrbot_plugin_astrconti.Runtime.ToolLoop.Units.{scan_of_units}

-- The open calls of one fingerprint, over all entries.
total : ToolFingerprint → List PendingTool → ℕ
total f [] = 0
total f (p ∷ ps) = (if p.fingerprint == f then p.count else 0) + total f ps

total-increment :
    (f g : ToolFingerprint) (ps : List PendingTool)
    → total f (increment g ps) ≡ total f ps + (if g == f then 1 else 0)
unfolding total increment
total-increment f g [] = omega arith
total-increment f g (p ∷ ps) = ground (
  arith,
  fingerprint_beq_iff p.fingerprint g,
  fingerprint_beq_iff p.fingerprint f,
  fingerprint_beq_iff g f,
  total-increment f g ps,
)

total-decrement :
    (f g : ToolFingerprint) (ps : List PendingTool)
    → ltb (count_of g ps) 1 ≡ false
    → total f (decrement g ps) + (if g == f then 1 else 0) ≡ total f ps
unfolding total decrement count_of
total-decrement f g [] h = cc
total-decrement f g (p ∷ ps) h = ground (
  arith,
  fingerprint_beq_iff p.fingerprint g,
  fingerprint_beq_iff p.fingerprint f,
  fingerprint_beq_iff g f,
  total-decrement f g ps,
)

-- How often a history calls, and answers, the tool of one fingerprint.
abbrev is_for : JsonText → ToolFingerprint → EventEnvelope → Bool
is_for j f e = elim (tool_fingerprint j e) [ none ↦ false | some g ↦ g == f ]

abbrev call_count : JsonText → ToolFingerprint → EventType → EventEnvelope → ℕ
call_count j f tool_call e = if is_for j f e then 1 else 0
call_count j f _ e = 0

abbrev result_count : JsonText → ToolFingerprint → EventType → EventEnvelope → ℕ
result_count j f tool_result e = if is_for j f e then 1 else 0
result_count j f _ e = 0

abbrev pub calls : JsonText → ToolFingerprint → List EventEnvelope → ℕ
calls j f [] = 0
calls j f (e ∷ rest) = call_count j f e.event_type e + calls j f rest

abbrev pub results : JsonText → ToolFingerprint → List EventEnvelope → ℕ
results j f [] = 0
results j f (e ∷ rest) = result_count j f e.event_type e + results j f rest

-- Where the machine is stable or waits for the assistant, no call is open.
abbrev IsSettled : ToolLoopState → List PendingTool → Type 0
IsSettled stable pending = pending ≡ []
IsSettled awaiting_assistant pending = pending ≡ []
IsSettled _ pending = Unit {0}

results_state-IsSettled : (ps : List PendingTool) → IsSettled (results_state ps) ps
results_state-IsSettled [] = refl
results_state-IsSettled (p ∷ ps) = tt

close_unit-pending :
    (events : List EventEnvelope) (i : ℕ) (first : Option ℕ) (s : Scan) {s' : Scan}
    → close_unit events i first s ≡ some s'
    → (s'.pending ≡ s.pending) × (s'.state ≡ stable)
close_unit-pending events i none s h = cc
close_unit-pending events i (some first) s h =
    of_some (λ t. (t.pending ≡ s.pending) × (t.state ≡ stable)) h (refl, refl)

module _ (j : JsonText) (f : ToolFingerprint) (events : List EventEnvelope) (i : ℕ)
    (e : EventEnvelope) where
  abbrev Balances : EventType → Scan → Scan → Type 0
  Balances t s s' =
      total f s.pending + call_count j f t e ≡ total f s'.pending + result_count j f t e

  dispatch-Balances :
      (st : ToolLoopState) (t : EventType) (g : Option ToolFingerprint) (s : Scan) {s' : Scan}
      → s.state ≡ st
      → (is_tool t ≡ true → g ≡ tool_fingerprint j e)
      → dispatch events i e st t g s ≡ some s'
      → IsSettled st s.pending
      → Balances t s s' × IsSettled s'.state s'.pending
  unfolding dispatch
  dispatch-Balances stable tool_call (some g) s at_state fp h c =
      of_some (λ t. Balances tool_call s t × IsSettled t.state t.pending) h
        (ground (arith, fp refl, total-increment f g s.pending), tt)
  dispatch-Balances stable user_message g s at_state fp h c =
      of_some (λ t. Balances user_message s t × IsSettled t.state t.pending) h
        (refl, subst (λ st. IsSettled st s.pending) (sym at_state) c)
  dispatch-Balances stable assistant_message g s at_state fp h c =
      of_some (λ t. Balances assistant_message s t × IsSettled t.state t.pending) h
        (refl, subst (λ st. IsSettled st s.pending) (sym at_state) c)
  dispatch-Balances awaiting_results tool_call (some g) s at_state fp h c =
      of_some (λ t. Balances tool_call s t × IsSettled t.state t.pending) h
        (
          ground (arith, fp refl, total-increment f g s.pending),
          subst (λ st. IsSettled st (increment g s.pending)) (sym at_state) tt,
        )
  dispatch-Balances awaiting_results tool_result (some g) s at_state fp h c =
      elim (Bool-cases (ltb (count_of g s.pending) 1)) [
        | inl short ↦ cc (rw short at h)
        | inr live ↦
            of_some (λ t. Balances tool_result s t × IsSettled t.state t.pending) (rw live at h)
              (
                ground (arith, fp refl, total-decrement f g s.pending live),
                results_state-IsSettled (decrement g s.pending),
              )
      ]
  dispatch-Balances awaiting_assistant assistant_message g s at_state fp h c =
      let (same, closed) = close_unit-pending events i s.start_index s h in
      (ground arith, rw closed (same ∙ c))
  dispatch-Balances awaiting_assistant tool_call (some g) s at_state fp h c =
      of_some (λ t. Balances tool_call s t × IsSettled t.state t.pending) h
        (ground (arith, fp refl, total-increment f g s.pending), tt)
  dispatch-Balances _ _ _ s at_state fp h c = cc

fingerprint_for_tool :
    (j : JsonText) (e : EventEnvelope)
    → is_tool e.event_type ≡ true
    → fingerprint_for j e ≡ tool_fingerprint j e
fingerprint_for_tool j e h = rw h

module _ (j : JsonText) (f : ToolFingerprint) (events : List EventEnvelope) where
  step-Balances :
      (i : ℕ) (e : EventEnvelope) (s : Scan) {s' : Scan}
      → step j events i e s ≡ some s'
      → IsSettled s.state s.pending
      → Balances j f events i e e.event_type s s' × IsSettled s'.state s'.pending
  unfolding step
  step-Balances i e s h c = elim (Bool-cases (not (follows s.previous_sequence e.sequence))) [
    | inl gap ↦ cc (rw gap at h)
    | inr next ↦ elim (Bool-cases (not (same_session s.session_key e.session_key))) [
      | inl other ↦ cc (rw (next, other) at h)
      | inr same ↦
          dispatch-Balances j f events i e s.state e.event_type (fingerprint_for j e)
            (record s { previous_sequence = some e.sequence; session_key = some e.session_key })
            refl (fingerprint_for_tool j e) (rw (next, same) at h) c
    ]
  ]

  scan-Balances :
      (i : ℕ) (rest : List EventEnvelope) (s : Scan) {s' : Scan}
      → scan j events i rest s ≡ some s'
      → IsSettled s.state s.pending
      → (total f s.pending + calls j f rest ≡ total f s'.pending + results j f rest)
        × IsSettled s'.state s'.pending
  unfolding scan
  scan-Balances i [] s h c =
      of_some (λ t. (total f s.pending + 0 ≡ total f t.pending + 0) × IsSettled t.state t.pending) h
        (refl, c)
  scan-Balances i (e ∷ rest) s h c = elim (Option-cases (step j events i e s)) [
    | inl stop ↦ cc (rw (stop, scan) at h)
    | inr (s1, go) ↦
        let (one, settled) = step-Balances i e s go c in
        let (more, ends) = scan-Balances (suc i) rest s1 (rw (go, scan) at h) settled in
        (omega arith, ends)
  ]

settled_of_stable :
    (st : ToolLoopState) (pending : List PendingTool)
    → is_stable st ≡ true
    → IsSettled st pending
    → pending ≡ []
settled_of_stable stable pending h c = c
settled_of_stable awaiting_results pending h c = cc
settled_of_stable awaiting_assistant pending h c = cc
settled_of_stable invalid pending h c = cc

-- A history that has durable units answers each tool call: every fingerprint of tool name and
-- canonical arguments stands in as many results as calls.
pub calls-eq-results_of_units :
    (j : JsonText) (events : List EventEnvelope) (units : List (List EventEnvelope))
    (f : ToolFingerprint)
    → durable_event_units j events ≡ some units
    → calls j f events ≡ results j f events
unfolding total
calls-eq-results_of_units j events units f h =
    let (s, run, closed, same) = scan_of_units j events units h in
    let (sums, settled) = scan-Balances j f events 0 events start run refl in
    let none_open : total f s.pending ≡ 0 =
      ap (total f) (settled_of_stable s.state s.pending closed settled) in
    omega arith
