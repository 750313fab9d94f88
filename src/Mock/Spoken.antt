-- ===== src/Mock/Spoken.antt =====
-- The speech client of app/adapters/outbound against the mock server: what it gives of a reply.
use chatting.Common.{◌≡◌, refl, String, Bool, false, some}
use chatting.Common.Text.{is_empty, is_space, strip, ◌<>◌, nil-append, cons-append}
use chatting.Common.Text.Strip.{strip-cons}
use chatting.Json.{Json, text, object, no_fields, field, get_field}
use chatting.Exec.{ok}
use chatting.Retry.{Float, Runtime, should_retry_by_taxonomy}
use chatting.Retry.First.{run_with_retry-first}
use chatting.Chat.Ports.{Voice}
use chatting.Provider.Http.{response, HttpClient, Wire, observe_provider_latency}
use chatting.Provider.GptSovits.{
  GptSovitsHttpClient, parse_audio_location, tts_on_reply, tts_on_response, tts_on_body,
  tts_payload, tts_settle, tts_request, tts_synthesize,
}
use chatting.Mock.{synthesize_request_in, audio_url, synthesize}

-- What is asked of the client: a post to the mock server's route gets the answer of its handler,
-- where its payload is accepted.
abbrev pub ReachesGptSovits : {S : Type 0} → HttpClient S → String → Type 0
ReachesGptSovits {S} client base =
    (payload body : Json) (s : S)
    → synthesize payload ≡ some body
    → (client.post (base <> "/synthesize") payload s).0 ≡ response 200 (some body)

audio_url-filled : (spoken : String) → is_empty (strip (audio_url spoken)) ≡ false
unfolding is_space
audio_url-filled spoken = rw (cons-append, strip-cons) refl

abbrev answer : String → Json
answer url = object (field "audio_url" (text url) no_fields)

parse_audio_location-answer :
    (idempotent : Bool) (url : String)
    → is_empty (strip url) ≡ false
    → parse_audio_location idempotent (answer url) ≡ ok url
unfolding parse_audio_location get_field
parse_audio_location-answer idempotent url h = rw (h, nil-append) refl

on_answer :
    {S : Type 0} (idempotent : Bool) (url : String) (w : Wire S)
    → is_empty (strip url) ≡ false
    → (tts_on_reply idempotent (response 200 (some (answer url))) w).0 ≡ ok url
unfolding tts_on_reply tts_on_response tts_on_body observe_provider_latency
on_answer idempotent url w h =
    rw (parse_audio_location-answer idempotent url h, tts_on_reply, tts_on_response, tts_on_body)
      refl

synthesize-tts_payload :
    (spoken : String) (voice : Voice)
    → synthesize (tts_payload spoken voice) ≡ some (answer (audio_url spoken))
unfolding synthesize synthesize_request_in get_field
synthesize-tts_payload spoken voice = refl

module _ (F : Float) {S : Type 0} (rt : Runtime F (Wire S)) (self : GptSovitsHttpClient F S) where
  tts_request-mock :
      (spoken : String) (voice : Voice) (w : Wire S)
      → ReachesGptSovits self.client self.base_url
      → (tts_request F rt self (tts_payload spoken voice) w).0 ≡ ok (audio_url spoken)
  unfolding tts_request
  tts_request-mock spoken voice w reaches =
      rw (reaches _ _ w.http (synthesize-tts_payload spoken voice))
        (on_answer self.synthesis_idempotent _ _ (audio_url-filled spoken))

  -- Where the posts reach the mock server: for any text and voice, the client gives the URL of the
  -- text's first 24 characters, with underscores for the spaces.
  pub tts_synthesize-mock :
      (spoken : String) (voice : Voice) (w : Wire S)
      → ReachesGptSovits self.client self.base_url
      → (tts_synthesize F rt self spoken voice w).0 ≡ ok (some (audio_url spoken))
  unfolding tts_synthesize tts_settle
  tts_synthesize-mock spoken voice w reaches =
      rw
        (run_with_retry-first F self.retry_policy rt
          (tts_request F rt self (tts_payload spoken voice)) should_retry_by_taxonomy w _
          (tts_request-mock spoken voice w reaches))
        refl
