-- ===== src/Domain/Identity.antt =====
-- astrcontinuum/domain/identity.py: the seven-field identity of a conversation. Two keys are the
-- same if their fields are. The SHA-256 digest of the key's JSON text enters as an interface.
use astrbot_plugin_astrconti.Prelude.{
  String, ◌≡◌, ◌↔◌, Bool, true, ◌&&◌, Option, Eq, from_iff, string_eq, option_eq, ◌==◌, beq_refl,
  eq_of_beq, &&-true,
}

pub record SessionKey : Type 0 where
  pub platform_instance_id : String
  pub message_type : String
  pub session_id : String
  pub group_id : Option String
  pub user_id : String
  pub conversation_id : String
  pub persona_id : Option String

unfoldable pub key_beq : SessionKey → SessionKey → Bool
key_beq a b =
    (a.platform_instance_id == b.platform_instance_id)
    && ((a.message_type == b.message_type)
        && ((a.session_id == b.session_id)
            && ((a.group_id == b.group_id)
                && ((a.user_id == b.user_id)
                    && ((a.conversation_id == b.conversation_id)
                        && (a.persona_id == b.persona_id))))))

key_of_beq : (a b : SessionKey) → key_beq a b ≡ true → a ≡ b
unfolding key_beq
key_of_beq a b h =
    let (e1, h1) = &&-true (a.platform_instance_id == b.platform_instance_id) _ h in
    let (e2, h2) = &&-true (a.message_type == b.message_type) _ h1 in
    let (e3, h3) = &&-true (a.session_id == b.session_id) _ h2 in
    let (e4, h4) = &&-true (a.group_id == b.group_id) _ h3 in
    let (e5, h5) = &&-true (a.user_id == b.user_id) _ h4 in
    let (e6, e7) = &&-true (a.conversation_id == b.conversation_id) _ h5 in
    λ i. record {
      platform_instance_id = eq_of_beq a.platform_instance_id b.platform_instance_id e1 i;
      message_type = eq_of_beq a.message_type b.message_type e2 i;
      session_id = eq_of_beq a.session_id b.session_id e3 i;
      group_id = eq_of_beq a.group_id b.group_id e4 i;
      user_id = eq_of_beq a.user_id b.user_id e5 i;
      conversation_id = eq_of_beq a.conversation_id b.conversation_id e6 i;
      persona_id = eq_of_beq a.persona_id b.persona_id e7 i;
    }

key_beq_refl : (a : SessionKey) → key_beq a a ≡ true
unfolding key_beq
key_beq_refl a = simp (
  beq_refl a.platform_instance_id,
  beq_refl a.message_type,
  beq_refl a.session_id,
  beq_refl a.group_id,
  beq_refl a.user_id,
  beq_refl a.conversation_id,
  beq_refl a.persona_id,
)

pub key_beq_iff : (a b : SessionKey) → (key_beq a b ≡ true) ↔ (a ≡ b)
key_beq_iff a b = (key_of_beq a b, λ e. rw e (key_beq_refl b))

instance abbrev pub session_key_eq : Eq SessionKey
session_key_eq = from_iff key_beq key_beq_iff

-- `SessionKey.session_key_hash`: hashlib's SHA-256 of the canonical JSON text.
pub record SessionHash : Type 0 where
  pub session_key_hash : SessionKey → String
