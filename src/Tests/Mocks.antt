-- ===== src/Tests/Mocks.antt =====
-- The HTTP clients before the mock servers, and their theorems there.
use chatting.Common.{
  ◌≡◌, refl, String, true, false, Option, none, some, [], ◌∷◌, pos, ℕ, ◌==◌, if◌then◌else◌,
}
use chatting.Common.Text.{strip, rstrip_char, str, replace_spaces, ◌<>◌}
use chatting.Json.{Json}
use chatting.Exec.{ok, pure}
use chatting.Message.{user, assistant, build_prompt_history}
use chatting.Chat.Ports.{Voice}
use chatting.Provider.Http.{Reply, response, HttpClient}
use chatting.Provider.Vllm.{VllmHttpClient, llm_init, llm_generate}
use chatting.Provider.GptSovits.{GptSovitsHttpClient, tts_init, tts_synthesize}
use chatting.Mock.{chat_completions, synthesize, audio_url}
use chatting.Mock.Reached.{ReachesVllm, llm_generate-mock}
use chatting.Mock.Spoken.{ReachesGptSovits, tts_synthesize-mock}
use chatting.Tests.Retries.{millis}
use chatting.Tests.Providers.{runtime, fresh}

abbrev delivered : Option Json → Reply
delivered none = response 422 none
delivered (some body) = response 200 (some body)

abbrev route : String → Json → Option Json
route url payload =
    if url == "http://mock/v1/chat/completions"
    then chat_completions (λ j. "None") payload
    else if url == "http://mock/synthesize"
    then synthesize payload
    else none

-- A client whose every post reaches the two servers at one address.
abbrev mocks : HttpClient ℕ
mocks = record {
  post = λ url payload n. (delivered (route url payload), n);
  get = λ url. pure 200;
  aclose = pure tt;
}

mocks-ReachesVllm : ReachesVllm (λ j. "None") mocks "http://mock"
mocks-ReachesVllm payload body n h = rw h refl

mocks-ReachesGptSovits : ReachesGptSovits mocks "http://mock"
mocks-ReachesGptSovits payload body n h = rw h refl

abbrev llm : VllmHttpClient millis ℕ
llm =
    llm_init millis (λ t. mocks) "http://mock" "m" "0.7" "64" 2000 30000 (pos 1) 200 2000 true 1
      40000 none

llm_generate-mock_example :
    (llm_generate millis runtime llm
      (build_prompt_history (user "a" ∷ assistant "b" ∷ []) "hi there" (pos 3))
      fresh).0
    ≡ ok (some (strip ("mock-vllm-reply: " <> "hi there")))
unfolding llm_init str rstrip_char chat_completions
llm_generate-mock_example =
    llm_generate-mock (λ j. "None") millis runtime llm 64 (user "a" ∷ assistant "b" ∷ []) "hi there"
      (pos 3) fresh refl mocks-ReachesVllm

abbrev tts : GptSovitsHttpClient millis ℕ
tts = tts_init millis (λ t. mocks) "http://mock" 2000 30000 (pos 1) 200 2000 true 1 40000 false none

abbrev no_voice : Voice
no_voice = record { voice_id = none; speaker = none; language = none; reference_audio_url = none }

-- Of the text, 24 characters are kept.
url_runs :
    audio_url "hi there, you who listen to it"
    ≡ "https://audio.mock.local/hi_there,_you_who_listen.wav"
unfolding replace_spaces
url_runs = refl

speech_runs :
    (tts_synthesize millis runtime tts "hi there" no_voice fresh).0
    ≡ ok (some (audio_url "hi there"))
unfolding tts_init rstrip_char synthesize
speech_runs =
    tts_synthesize-mock millis runtime tts "hi there" no_voice fresh mocks-ReachesGptSovits
