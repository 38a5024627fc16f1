-- ===== src/Runtime/ToolLoop/Parse.antt =====
-- astrcontinuum/runtime/tool_loop.py: the state machine over a Journal delta. `none` of a step is
-- the early return of the invalid assessment.
use Prim.Native.String.{compare}
use Prim.Native.Nat.{Ordering}
use astrbot_plugin_astrconti.Prelude.{
  ℕ, suc, ◌+◌, ◌-◌, String, Bool, true, false, not, Option, none, some, List, [], ◌∷◌, ◌++◌,
  if◌then◌else◌, ◌==◌, nat_eq, slice, keep_if, sort_by, ltb,
}
use astrbot_plugin_astrconti.Domain.Identity.{SessionKey, session_key_eq}
use astrbot_plugin_astrconti.Domain.Event.{
  EventEnvelope, EventType, user_message, assistant_message, tool_call, tool_result,
}
use astrbot_plugin_astrconti.Runtime.ToolLoop.Fingerprint.{
  JsonText, ToolFingerprint, fingerprint_eq, tool_fingerprint,
}

pub data ToolLoopState : Type 0 where
  stable awaiting_results awaiting_assistant invalid : ToolLoopState

pub record PendingTool : Type 0 where
  pub fingerprint : ToolFingerprint
  pub count : ℕ

pub record ToolLoopAssessment : Type 0 where
  pub state : ToolLoopState
  pub pending : List PendingTool

pub record ParsedToolLoop : Type 0 where
  pub assessment : ToolLoopAssessment
  pub units : Option (List (List EventEnvelope))

abbrev pub is_stable : ToolLoopState → Bool
is_stable stable = true
is_stable _ = false

-- The `Counter` of open calls: `pending[f]`, `pending[f] += 1`, and `pending[f] -= 1` with the
-- deletion of an entry that reaches zero.
unfoldable pub count_of : ToolFingerprint → List PendingTool → ℕ
count_of f [] = 0
count_of f (p ∷ ps) = let rest = count_of f ps in if p.fingerprint == f then p.count else rest

unfoldable pub increment : ToolFingerprint → List PendingTool → List PendingTool
increment f [] = record { fingerprint = f; count = 1 } ∷ []
increment f (p ∷ ps) =
    let rest = increment f ps in
    if p.fingerprint == f then record p { count = p.count + 1 } ∷ ps else p ∷ rest

unfoldable pub decrement : ToolFingerprint → List PendingTool → List PendingTool
decrement f [] = []
decrement f (p ∷ ps) =
    let rest = decrement f ps in
    if p.fingerprint == f
    then (if ltb 1 p.count then record p { count = p.count - 1 } ∷ ps else ps)
    else p ∷ rest

abbrev text_le : String → String → Bool
text_le s t = elim (compare s t) [ Ordering.gt ↦ false | _ ↦ true ]

abbrev text_lt : String → String → Bool
text_lt s t = elim (compare s t) [ Ordering.lt ↦ true | _ ↦ false ]

abbrev entry_le : PendingTool → PendingTool → Bool
entry_le a b =
    if text_lt a.fingerprint.tool b.fingerprint.tool
    then true
    else if text_lt b.fingerprint.tool a.fingerprint.tool
    then false
    else text_le a.fingerprint.arguments b.fingerprint.arguments

unfoldable pub pending_entries : List PendingTool → List PendingTool
pending_entries pending = keep_if (λ p. ltb 0 p.count) (sort_by entry_le pending)

-- The variables of the loop of `_parse_events`.
pub record Scan : Type 0 where
  pub state : ToolLoopState
  pub pending : List PendingTool
  pub previous_sequence : Option ℕ
  pub session_key : Option SessionKey
  pub units : List (List EventEnvelope)
  pub start_index : Option ℕ

abbrev pub start : Scan
start = record {
  state = stable;
  pending = [];
  previous_sequence = none;
  session_key = none;
  units = [];
  start_index = none;
}

abbrev pub follows : Option ℕ → ℕ → Bool
follows none n = true
follows (some previous) n = n == previous + 1

abbrev pub same_session : Option SessionKey → SessionKey → Bool
same_session none k = true
same_session (some key) k = k == key

abbrev pub results_state : List PendingTool → ToolLoopState
results_state [] = awaiting_assistant
results_state (p ∷ ps) = awaiting_results

-- The unit of the closing assistant message, `events[start_index : index + 1]`.
abbrev pub close_unit : List EventEnvelope → ℕ → Option ℕ → Scan → Option Scan
close_unit events index none s = none
close_unit events index (some first) s = some (record s {
  units = s.units ++ slice first (index + 1) events ∷ [];
  start_index = none;
  state = stable;
})

-- The branches on state and event type, behind the checks that every event passes.
unfoldable pub dispatch :
    List EventEnvelope
    → ℕ
    → EventEnvelope
    → ToolLoopState
    → EventType
    → Option ToolFingerprint
    → Scan
    → Option Scan
unfolding increment decrement count_of
dispatch events index e stable tool_call (some f) s = some (record s {
  start_index = some index;
  pending = increment f s.pending;
  state = awaiting_results;
})
dispatch events index e stable user_message f s =
    some (record s { units = s.units ++ (e ∷ []) ∷ [] })
dispatch events index e stable assistant_message f s =
    some (record s { units = s.units ++ (e ∷ []) ∷ [] })
dispatch events index e awaiting_results tool_call (some f) s =
    some (record s { pending = increment f s.pending })
dispatch events index e awaiting_results tool_result (some f) s =
    if ltb (count_of f s.pending) 1
    then none
    else some (record s {
      pending = decrement f s.pending;
      state = results_state (decrement f s.pending);
    })
dispatch events index e awaiting_assistant assistant_message f s =
    close_unit events index s.start_index s
dispatch events index e awaiting_assistant tool_call (some f) s =
    some (record s { pending = increment f s.pending; state = awaiting_results })
dispatch events index e _ _ _ s = none

abbrev pub is_tool : EventType → Bool
is_tool tool_call = true
is_tool tool_result = true
is_tool _ = false

abbrev pub fingerprint_for : JsonText → EventEnvelope → Option ToolFingerprint
fingerprint_for j e = if is_tool e.event_type then tool_fingerprint j e else none

unfoldable pub step : JsonText → List EventEnvelope → ℕ → EventEnvelope → Scan → Option Scan
unfolding dispatch
step j events index e s =
    if not (follows s.previous_sequence e.sequence)
    then none
    else if not (same_session s.session_key e.session_key)
    then none
    else dispatch events index e s.state e.event_type (fingerprint_for j e)
        (record s { previous_sequence = some e.sequence; session_key = some e.session_key })

unfoldable pub scan : JsonText → List EventEnvelope → ℕ → List EventEnvelope → Scan → Option Scan
unfolding step
scan j events index [] s = some s
scan j events index (e ∷ rest) s = elim (step j events index e s) [
  | none ↦ none
  | some s' ↦ scan j events (suc index) rest s'
]

abbrev finish : Option Scan → ParsedToolLoop
finish none = record { assessment = record { state = invalid; pending = [] }; units = none }
finish (some s) = record {
  assessment = record { state = s.state; pending = pending_entries s.pending };
  units = if is_stable s.state then some s.units else none;
}

unfoldable pub parse_events : JsonText → List EventEnvelope → ParsedToolLoop
unfolding scan pending_entries
parse_events j events = finish (scan j events 0 events start)

unfoldable pub evaluate_tool_loop : JsonText → List EventEnvelope → ToolLoopAssessment
unfolding parse_events
evaluate_tool_loop j events = (parse_events j events).assessment

unfoldable pub durable_event_units :
    JsonText → List EventEnvelope → Option (List (List EventEnvelope))
unfolding parse_events
durable_event_units j events =
    if is_stable (parse_events j events).assessment.state
    then (parse_events j events).units
    else none
