-- ===== src/Message.antt =====
-- app/domain/entities/message.py and app/application/services/history_builder.py: a chat message,
-- and the prompt that is made of a session's history.
pub mod Prompt
use chatting.Common.{String, Bool, List, [], ◌∷◌, ◌++◌, ◌||◌, ◌==◌, if◌then◌else◌}
use chatting.Common.{ℤ, pos, ◌*ℤ◌, ltb_ℤ, slice_from_end}

pub record ChatMessage : Type 0 where
  pub role : String
  pub content : String

-- The pattern of the field `role`.
abbrev pub role_is_valid : ChatMessage → Bool
role_is_valid m = m.role == "system" || m.role == "user" || m.role == "assistant"

abbrev pub user : String → ChatMessage
user content = record { role = "user"; content = content }

abbrev pub assistant : String → ChatMessage
assistant content = record { role = "assistant"; content = content }

unfoldable pub build_prompt_history : List ChatMessage → String → ℤ → List ChatMessage
build_prompt_history history user_message max_turns =
    let max_messages = max_turns *ℤ pos 2 in
    let recent = if ltb_ℤ (pos 0) max_messages then slice_from_end max_messages history else [] in
    recent ++ (user user_message ∷ [])
