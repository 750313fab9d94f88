-- ===== src/Tests/Chats.antt =====
-- Runs of the chat service with the stub clients and the in-memory store, and its theorems there.
use chatting.Common.{◌≡◌, refl, ap, true, none, some, [], ◌∷◌, arith, pos, map}
use chatting.Common.Text.{strip, replace_spaces, join}
use chatting.Common.Dict.{lookup, insert}
use chatting.Errors.{new, tts_timeout_error}
use chatting.Exec.{Result, ok, raised, raise}
use chatting.Message.{user, assistant, build_prompt_history}
use chatting.Session.Memory.{Store, history_of, trimmed, append_to, memory_repository}
use chatting.Chunks.{slices}
use chatting.Provider.Stub.{stub_llm_client, stub_tts_client}
use chatting.Chat.Ports.{Voice, TtsClient}
use chatting.Chat.{
  ChatResult, StreamEvent, Streamed, Yields, start, token, done, chat, stream_chat, store_turn,
  history_bound, tokens, kept, stream_reply,
}
use chatting.Chat.Turn
use chatting.Routes.{arrives, deliver, pump, event_generator}
use chatting.Routes.Kept.{events_of}
use chatting.Routes.Frames.{sse_body, read_events}
use chatting.Routes.Frames.Wire.{shown, received, sse_body-IsStored}
use chatting.Tests.Wires.{printed, parsed, json_laws}
use chatting.Chat.Stream.{IsStored, IsTail, stream_chat-IsTail}
use chatting.Chunks.Cover.{All, IsPiece, slices-cover}
use chatting.Message.Prompt.{build_prompt_history-keep}
use chatting.Chat.Turn.{service}

abbrev no_voice : Voice
no_voice = record { voice_id = none; speaker = none; language = none; reference_audio_url = none }

abbrev before : Store
before = ("s", user "a" ∷ assistant "b" ∷ []) ∷ []

-- A stored history of one turn, under a limit of one turn, holds the new turn alone.
chat_runs :
    chat (service stub_llm_client stub_tts_client (pos 1) (pos 12)) "s" "hi" true no_voice before
    ≡ (
      ok (record {
        text = "stub-vllm-reply: hi";
        audio_url = some "https://audio.local/default/stub-vllm-reply:_hi.wav";
      }),
      ("s", user "hi" ∷ assistant "stub-vllm-reply: hi" ∷ []) ∷ [],
    )
unfolding chat strip memory_repository stub_llm_client stub_tts_client history_of append_to trimmed
    lookup insert build_prompt_history store_turn history_bound replace_spaces
chat_runs = refl

history_of-chat_example :
    ((stub_llm_client {S = Store}).generate
        (Turn.asked stub_llm_client stub_tts_client (pos 1) (pos 12) "s" "hi" no_voice before)
        before).0
      ≡ ok "stub-vllm-reply: hi"
    × (history_of "s"
          (chat
            (service stub_llm_client stub_tts_client (pos 1) (pos 12))
            "s"
            "hi"
            true
            no_voice
            before).1
        ≡ user "hi" ∷ assistant "stub-vllm-reply: hi" ∷ [])
unfolding stub_llm_client stub_tts_client history_of lookup
history_of-chat_example =
    Turn.history_of-chat stub_llm_client stub_tts_client (pos 1) (pos 12) "s" "hi" no_voice
      (λ text v u. refl) true before "s" (ap (λ (r : Result ChatResult × Store). r.0) chat_runs)

-- A speech client that always fails.
abbrev no_speech : TtsClient Store
no_speech = record (stub_tts_client {S = Store}) {
  synthesize = λ text voice. raise (new tts_timeout_error "tts provider read timeout");
}

failed_runs :
    (chat (service stub_llm_client no_speech (pos 1) (pos 12)) "s" "hi" true no_voice before).0
    ≡ raised (new tts_timeout_error "tts provider read timeout")
unfolding chat strip memory_repository stub_llm_client stub_tts_client history_of append_to trimmed
    lookup insert build_prompt_history store_turn history_bound
failed_runs = refl

chat_failed_example :
    Turn.IsLeftBy stub_llm_client no_speech
      (pos 1)
      (pos 12)
      "s"
      "hi"
      no_voice
      true
      (new tts_timeout_error "tts provider read timeout")
      before
      (chat (service stub_llm_client no_speech (pos 1) (pos 12)) "s" "hi" true no_voice before).1
chat_failed_example =
    Turn.chat_failed stub_llm_client no_speech (pos 1) (pos 12) "s" "hi" no_voice (λ text v u. refl)
      true before failed_runs

abbrev streamed : Streamed Store
streamed =
    stream_chat (service stub_llm_client stub_tts_client (pos 1) (pos 12)) "s" "hi" "r" "t" before

stream_runs :
    map (λ (e : StreamEvent × Store). e.0) streamed.events
    ≡ start "r" "t" "s" ∷ token "stub-vll" 1 ∷ token "m-reply:" 2 ∷ token " hi" 3 ∷ done ∷ []
unfolding stream_chat stream_reply tokens kept strip memory_repository stub_llm_client
    stub_tts_client history_of append_to trimmed lookup insert build_prompt_history store_turn
    history_bound slices
stream_runs = refl

-- Over a connection that holds, the whole stream is sent.
stream_label : (event_generator (λ k. arrives) (events_of streamed.events)).result ≡ "success"
unfolding stream_chat stream_reply tokens kept strip memory_repository stub_llm_client
    stub_tts_client history_of append_to trimmed lookup insert build_prompt_history store_turn
    history_bound slices event_generator pump deliver
stream_label = refl

-- What the client reads of the bytes is the reply.
sse_body-IsStored_example :
    IsStored
      (service stub_llm_client stub_tts_client (pos 1) (pos 12))
      "s"
      "hi"
      (shown printed parsed (
        map (received printed parsed) (
          read_events
            (sse_body printed (event_generator (λ k. arrives) (events_of streamed.events)).sent))))
      streamed.last
sse_body-IsStored_example =
    sse_body-IsStored printed parsed json_laws
      (service stub_llm_client stub_tts_client (pos 1) (pos 12)) "s" "hi" "r" "t" before
      (λ k. arrives) (λ k e. cc) stream_label

stream_chat-IsTail_example :
    (tail : Yields Store) × (streamed.events ≡ (start "r" "t" "s", before) ∷ tail)
    × IsTail
        (service stub_llm_client stub_tts_client (pos 1) (pos 12))
        "s"
        "hi"
        (record { events = tail; last = streamed.last })
stream_chat-IsTail_example =
    stream_chat-IsTail (service stub_llm_client stub_tts_client (pos 1) (pos 12)) "s" "hi" "r" "t"
      before

slices-cover_example :
    (join (slices 8 "stub-vllm-reply: hi") ≡ "stub-vllm-reply: hi")
    × All (IsPiece 8) (slices 8 "stub-vllm-reply: hi")
slices-cover_example = slices-cover 8 "stub-vllm-reply: hi" (omega arith)

build_prompt_history-keep_example :
    build_prompt_history (user "a" ∷ assistant "b" ∷ user "c" ∷ []) "hi" (pos 1)
    ≡ assistant "b" ∷ user "c" ∷ user "hi" ∷ []
build_prompt_history-keep_example =
    build_prompt_history-keep (user "a" ∷ assistant "b" ∷ user "c" ∷ []) "hi" (pos 1)
