-- ===== src/Provider/GptSovits/Outcomes.antt =====
-- What a call of `GPTSoVITSHTTPClient` ends with, and how often it posts.
use chatting.Common.{ℕ, ◌≡◌, refl, ◌∙◌, inl, inr, String, Bool, false, Option, none, some}
use chatting.Common.{arith, leb, Bool-cases, if_intro}
use chatting.Common.Text.{◌<>◌}
use chatting.Errors.{Exn, class_code}
use chatting.Exec.{Result, ok, raised, Result-cases, raised-injective}
use chatting.Retry.{should_retry_by_taxonomy}
use chatting.Json.{Json, Fields, object, get_field}
use chatting.Provider.Http.{Failure, Reply, response, failed, Wire, observe_provider_latency}
use chatting.Retry.Taxonomy.{should_retry-unsigned}
use chatting.Provider.Matrix.{retry_expected, IsUnsigned}
use chatting.Provider.GptSovits.{
  is_filled, text_of, audio_in, audio_or, no_audio, parse_audio_location, tts_on_failure,
  tts_on_body, tts_on_response, tts_on_reply,
}

-- The failure of a lookup is not retried.
abbrev IsFinal : Result String → Type 0
IsFinal r = (e : Exn) → r ≡ raised e → should_retry_by_taxonomy e ≡ false

audio_or-IsFinal :
    (prefix : String) (v : Json) (rest : Result String)
    → IsFinal rest
    → IsFinal (audio_or prefix v rest)
audio_or-IsFinal prefix v rest final =
    if_intro IsFinal (is_filled v) (ok (prefix <> text_of v)) rest (λ h e k. cc) (λ h. final)

no_audio-IsFinal : (idempotent : Bool) → IsFinal (raised (no_audio idempotent))
unfolding should_retry_by_taxonomy class_code
no_audio-IsFinal idempotent e h =
    let same : no_audio idempotent ≡ e = raised-injective h in rw (← same) refl

audio_in-retry : (idempotent : Bool) (body : Fields) → IsFinal (audio_in idempotent body)
audio_in-retry idempotent body = audio_or-IsFinal "" (get_field "audio_url" body) _ (
    audio_or-IsFinal "" (get_field "file_path" body) _ (
      audio_or-IsFinal "base64:" (get_field "audio_base64" body) _
        (audio_or-IsFinal "base64:" (get_field "audio" body) _ (no_audio-IsFinal idempotent))))

parse_audio_location-retry :
    (idempotent : Bool) (body : Json) (e : Exn)
    → parse_audio_location idempotent body ≡ raised e
    → should_retry_by_taxonomy e ≡ false
unfolding parse_audio_location should_retry_by_taxonomy class_code
parse_audio_location-retry idempotent (object fields) e h = audio_in-retry idempotent fields e h
parse_audio_location-retry idempotent _ e h = rw (← raised-injective h) refl

module _ {S : Type 0} (idempotent : Bool) where
  tts_on_failure-retry :
      (failure : Failure) (w : Wire S) (e : Exn)
      → IsUnsigned (failed failure)
      → (tts_on_failure idempotent failure w).0 ≡ raised e
      → should_retry_by_taxonomy e ≡ retry_expected idempotent (failed failure)
  unfolding tts_on_failure observe_provider_latency should_retry_by_taxonomy class_code
  tts_on_failure-retry Failure.connect_timeout w e u h = rw (← raised-injective h) refl
  tts_on_failure-retry Failure.read_timeout w e u h = rw (← raised-injective h) refl
  tts_on_failure-retry Failure.other_timeout w e u h = rw (← raised-injective h) refl
  tts_on_failure-retry Failure.network_error w e u h = rw (← raised-injective h) refl
  tts_on_failure-retry Failure.other_http_error w e u h = rw (← raised-injective h) refl
  tts_on_failure-retry (Failure.unrelated x) w e u h =
      rw (← raised-injective h) (should_retry-unsigned x u)

  tts_on_body-retry :
      (body : Option Json) (w : Wire S) (e : Exn)
      → (tts_on_body idempotent body w).0 ≡ raised e
      → should_retry_by_taxonomy e ≡ false
  unfolding tts_on_body observe_provider_latency should_retry_by_taxonomy class_code
  tts_on_body-retry none w e h = rw (← raised-injective h) refl
  tts_on_body-retry (some body) w e h = elim (Result-cases (parse_audio_location idempotent body)) [
    | inl (content, k) ↦ cc (rw (k, tts_on_body) at h)
    | inr (x, k) ↦ parse_audio_location-retry idempotent body e (k ∙ rw (k, tts_on_body) at h)
  ]

  tts_on_response-retry :
      (status : ℕ) (body : Option Json) (w : Wire S) (e : Exn)
      → (tts_on_response idempotent status body w).0 ≡ raised e
      → should_retry_by_taxonomy e ≡ retry_expected idempotent (response status body)
  unfolding tts_on_response observe_provider_latency should_retry_by_taxonomy class_code
  tts_on_response-retry status body w e h = elim (Bool-cases (leb 400 status)) [
    | inl k ↦ rw (← raised-injective (rw (k, tts_on_response) at h)) (ground arith)
    | inr k ↦ tts_on_body-retry body w e (rw (k, tts_on_response) at h) ∙ ground arith
  ]

  -- Whether a failed call is retried is what the table of Provider/Matrix gives for the reply and
  -- the idempotency of the call, whatever the body of a response, where an exception that is no
  -- error of httpx carries no retry signal.
  pub tts_on_reply-retry :
      (reply : Reply) (w : Wire S) (e : Exn)
      → IsUnsigned reply
      → (tts_on_reply idempotent reply w).0 ≡ raised e
      → should_retry_by_taxonomy e ≡ retry_expected idempotent reply
  unfolding tts_on_reply
  tts_on_reply-retry (failed failure) w e u h = tts_on_failure-retry failure w e u h
  tts_on_reply-retry (response status body) w e u h = tts_on_response-retry status body w e h
