-- ===== src/Domain/Event.antt =====
-- astrcontinuum/domain/events.py: one Journal event. A moment in time is the number that orders it
-- as its normalised text does.
use astrbot_plugin_astrconti.Prelude.{
  ℕ, String, ◌≡◌, ◌↔◌, Bool, true, false, not, ◌&&◌, Eq, from_iff, ◌==◌, arith, Result, ok, ◌>>◌,
  raise_if, nat_eq, string_eq,
}
use astrbot_plugin_astrconti.Domain.Identity.{SessionKey}

pub data EventType : Type 0 where
  user_message assistant_message tool_call tool_result : EventType

pub data EventRole : Type 0 where
  user assistant tool : EventRole

pub data SourceHook : Type 0 where
  on_llm_request on_agent_done on_using_llm_tool on_llm_tool_respond : SourceHook

abbrev pub type_beq : EventType → EventType → Bool
type_beq user_message user_message = true
type_beq assistant_message assistant_message = true
type_beq tool_call tool_call = true
type_beq tool_result tool_result = true
type_beq _ _ = false

pub type_beq_iff : (a b : EventType) → (type_beq a b ≡ true) ↔ (a ≡ b)
type_beq_iff a b = ground arith

instance abbrev pub event_type_eq : Eq EventType
event_type_eq = from_iff type_beq type_beq_iff

abbrev pub role_beq : EventRole → EventRole → Bool
role_beq user user = true
role_beq assistant assistant = true
role_beq tool tool = true
role_beq _ _ = false

pub role_beq_iff : (a b : EventRole) → (role_beq a b ≡ true) ↔ (a ≡ b)
role_beq_iff a b = ground arith

instance abbrev pub event_role_eq : Eq EventRole
event_role_eq = from_iff role_beq role_beq_iff

abbrev pub hook_beq : SourceHook → SourceHook → Bool
hook_beq on_llm_request on_llm_request = true
hook_beq on_agent_done on_agent_done = true
hook_beq on_using_llm_tool on_using_llm_tool = true
hook_beq on_llm_tool_respond on_llm_tool_respond = true
hook_beq _ _ = false

pub hook_beq_iff : (a b : SourceHook) → (hook_beq a b ≡ true) ↔ (a ≡ b)
hook_beq_iff a b = ground arith

instance abbrev pub source_hook_eq : Eq SourceHook
source_hook_eq = from_iff hook_beq hook_beq_iff

pub record EventEnvelope : Type 0 where
  pub event_id : String
  pub session_key : SessionKey
  pub sequence : ℕ
  pub event_type : EventType
  pub role : EventRole
  pub content : String
  pub source_hook : SourceHook
  pub idempotency_key : String
  pub token_count : ℕ
  pub created_at : ℕ

-- `EventEnvelope._MAPPINGS`
abbrev pub mappings : EventType → EventRole × SourceHook
mappings user_message = (user, on_llm_request)
mappings assistant_message = (assistant, on_agent_done)
mappings tool_call = (tool, on_using_llm_tool)
mappings tool_result = (tool, on_llm_tool_respond)

pub data EnvelopeError : Type 0 where
  event_id_empty sequence_not_positive idempotency_key_empty mapping_not_authoritative :
      EnvelopeError

-- What the model's construction checks: the field types, then `validate_authoritative_mapping`.
unfoldable pub validate_event : EventEnvelope → Result EnvelopeError EventEnvelope
validate_event e = do
  raise_if (e.event_id == "") event_id_empty
  raise_if (e.sequence == 0) sequence_not_positive
  raise_if (e.idempotency_key == "") idempotency_key_empty
  raise_if (not (e.role == (mappings e.event_type).0 && e.source_hook == (mappings e.event_type).1))
      mapping_not_authoritative
  ok e

unfoldable pub create :
    (event_id : String) (session_key : SessionKey) (sequence : ℕ) (event_type : EventType)
    (content idempotency_key : String) (token_count created_at : ℕ)
    → Result EnvelopeError EventEnvelope
unfolding validate_event
create event_id session_key sequence event_type content idempotency_key token_count created_at =
    validate_event (record {
      event_id = event_id;
      session_key = session_key;
      sequence = sequence;
      event_type = event_type;
      role = (mappings event_type).0;
      content = content;
      source_hook = (mappings event_type).1;
      idempotency_key = idempotency_key;
      token_count = token_count;
      created_at = created_at;
    })
