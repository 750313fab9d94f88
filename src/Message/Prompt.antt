-- ===== src/Message/Prompt.antt =====
-- What the prompt of app/application/services/history_builder.py holds.
use chatting.Common.{◌+◌, ◌*◌, ◌≤◌, ◌≡◌, String, List, [], ◌∷◌, ◌++◌}
use chatting.Common.{ℤ, pos, pos_part, ◌*ℤ◌, length, length-append, arith}
use chatting.Common.Window.{keep, length-keep-le, slice_from_end-keep}
use chatting.Message.{ChatMessage, user, build_prompt_history}

pos_part-double : (n : ℤ) → pos_part (n *ℤ pos 2) ≡ pos_part n * 2
pos_part-double n = ground arith

-- The prompt is the last `2 * max_turns` messages of the history, none of them where `max_turns`
-- is not positive, and then the user's message.
pub build_prompt_history-keep :
    (history : List ChatMessage) (user_message : String) (max_turns : ℤ)
    → build_prompt_history history user_message max_turns
      ≡ keep (pos_part max_turns * 2) history ++ (user user_message ∷ [])
unfolding build_prompt_history
build_prompt_history-keep history m max_turns =
    rw (slice_from_end-keep (max_turns *ℤ pos 2) history, pos_part-double max_turns)

-- The prompt never holds more than `2 * max_turns` messages besides the user's.
pub length-build_prompt_history-le :
    (history : List ChatMessage) (user_message : String) (max_turns : ℤ)
    → length (build_prompt_history history user_message max_turns) ≤ pos_part max_turns * 2 + 1
length-build_prompt_history-le history m max_turns =
    rw (build_prompt_history-keep history m max_turns) (
      omega (
        arith,
        length-append (keep (pos_part max_turns * 2) history) (user m ∷ []),
        length-keep-le (pos_part max_turns * 2) history,
      ))
