-- ===== src/Tests/ToolLoop.antt =====
-- The durable tool loop on the short history.
use astrbot_plugin_astrconti.Prelude.{◌≡◌, refl, none, some, [], ◌∷◌, flatten}
use astrbot_plugin_astrconti.Domain.Identity.{key_beq}
use astrbot_plugin_astrconti.Runtime.ToolLoop.Fingerprint.{tool_fingerprint}
use astrbot_plugin_astrconti.Runtime.ToolLoop.Parse.{durable_event_units}
use astrbot_plugin_astrconti.Runtime.ToolLoop.Units.{flatten-durable_event_units}
use astrbot_plugin_astrconti.Runtime.ToolLoop.Balance.{calls, results, calls-eq-results_of_units}
use astrbot_plugin_astrconti.Runtime.ToolLoop.Shape.{AllUnits, durable_event_units-AllUnits}
use astrbot_plugin_astrconti.Tests.History.{
  parser, clock, ask, result, answer, history, history_units,
}

pub units-history : durable_event_units parser history ≡ some history_units
unfolding durable_event_units tool_fingerprint key_beq
units-history = refl

-- A result without its call is no history.
units_without_call : durable_event_units parser (ask ∷ result ∷ answer ∷ []) ≡ none
unfolding durable_event_units tool_fingerprint key_beq
units_without_call = refl

flatten-durable_event_units_example : flatten history_units ≡ history
flatten-durable_event_units_example =
    flatten-durable_event_units parser history history_units units-history

calls-eq-results_of_units_example : calls parser clock history ≡ results parser clock history
calls-eq-results_of_units_example =
    calls-eq-results_of_units parser history history_units clock units-history

durable_event_units-AllUnits_example : AllUnits history_units
durable_event_units-AllUnits_example =
    durable_event_units-AllUnits parser history history_units units-history
