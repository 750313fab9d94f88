-- ===== src/Provider/Stub.antt =====
-- app/adapters/outbound/vllm_client_stub.py and gptsovits_client_stub.py: the clients of a
-- deployment without providers. They touch no state.
use mathlib.Core.List.{reverse}
use chatting.Common.{String, true, Option, none, some, List, [], ◌∷◌, map, ◌==◌, if◌then◌else◌}
use chatting.Common.Text.{is_empty, take, replace_spaces, ◌<>◌}
use chatting.Exec.{ok, pure}
use chatting.Message.{ChatMessage}
use chatting.Chunks.{slices}
use chatting.Chat.Ports.{LlmClient, TtsClient}

-- `next((m.content for m in messages if m.role == "user"), "")`
first_user : List ChatMessage → String
first_user [] = ""
first_user (m ∷ messages) = if m.role == "user" then m.content else first_user messages

unfoldable pub stub_reply : List ChatMessage → String
unfolding first_user
stub_reply messages = "stub-vllm-reply: " <> first_user (reverse messages)

unfoldable pub stub_llm_client : {S : Type 0} → LlmClient S
unfolding stub_reply
stub_llm_client = record {
  generate = λ messages s. (ok (stub_reply messages), s);
  generate_stream = some λ messages s. record {
    yielded = map (λ chunk. (chunk, s)) (slices 8 (stub_reply messages));
    end = ok tt;
    last = s;
  };
  ping = pure true;
  close = pure tt;
}

-- `a or b`, where `None` and the empty text count as false
abbrev or_text : Option String → String → String
or_text none b = b
or_text (some a) b = if is_empty a then b else a

unfoldable pub stub_tts_client : {S : Type 0} → TtsClient S
stub_tts_client = record {
  synthesize = λ text voice.
      let safe = replace_spaces (take 32 text) in
      let name = or_text voice.voice_id (or_text voice.speaker "default") in
      pure ("https://audio.local/" <> name <> "/" <> safe <> ".wav");
  ping = pure true;
  close = pure tt;
}
