-- ===== src/Tests/History.antt =====
-- A short history: a message, one tool continuation, and a message.
use astrbot_plugin_astrconti.Prelude.{
  ℕ, String, none, some, List, [], ◌∷◌, ◌==◌, string_eq, if◌then◌else◌,
}
use astrbot_plugin_astrconti.Domain.Identity.{SessionKey}
use astrbot_plugin_astrconti.Domain.Event.{
  EventEnvelope, EventType, mappings, user_message, assistant_message, tool_call, tool_result,
}
use astrbot_plugin_astrconti.Runtime.ToolLoop.Fingerprint.{
  Json, text, object, field, end, null, JsonText, ToolFingerprint,
}

abbrev pub key : SessionKey
key = record {
  platform_instance_id = "p";
  message_type = "private";
  session_id = "s";
  group_id = none;
  user_id = "u";
  conversation_id = "c";
  persona_id = none;
}

abbrev pub event : String → ℕ → EventType → String → EventEnvelope
event id sequence type content = record {
  event_id = id;
  session_key = key;
  sequence = sequence;
  event_type = type;
  role = (mappings type).0;
  content = content;
  source_hook = (mappings type).1;
  idempotency_key = id;
  token_count = 1;
  created_at = sequence;
}

abbrev metadata : String → Json
metadata kind =
    object (field "kind" (text kind) (field "tool" (text "clock") (field "arguments" null end)))

-- A parser that knows two texts.
abbrev pub parser : JsonText
parser = record {
  read = λ s.
      if s == "call"
      then some (metadata "call")
      else if s == "result"
      then some (metadata "result")
      else none;
  canonical_json = λ _. some "null";
  casefold = λ s. s;
}

abbrev pub clock : ToolFingerprint
clock = record { tool = "clock"; arguments = "null" }

abbrev pub ask : EventEnvelope
ask = event "e1" 1 user_message "time?"

abbrev pub call : EventEnvelope
call = event "e2" 2 tool_call "call"

abbrev pub result : EventEnvelope
result = event "e3" 3 tool_result "result"

abbrev pub answer : EventEnvelope
answer = event "e4" 4 assistant_message "noon"

abbrev pub thanks : EventEnvelope
thanks = event "e5" 5 user_message "thanks"

abbrev pub history : List EventEnvelope
history = ask ∷ call ∷ result ∷ answer ∷ thanks ∷ []

abbrev pub history_units : List (List EventEnvelope)
history_units = (ask ∷ []) ∷ (call ∷ result ∷ answer ∷ []) ∷ (thanks ∷ []) ∷ []
