-- ===== src/Provider/GptSovits/Replies.antt =====
-- What `GPTSoVITSHTTPClient.synthesize` gives, and how often it posts.
use chatting.Common.{
  some-injective, ℕ, ◌+◌, ◌≤◌, ◌<◌, ◌≡◌, ◌≢◌, refl, ap, ◌∙◌, ◌⊎◌, inl, inr, String, Bool, true,
  ◌||◌, Option, none, some,
}
use chatting.Common.{arith, leb, Bool-cases, if_intro, ℤ, pos, max_ℤ, ◌+ℤ◌}
use chatting.Common.Text.{◌<>◌}
use chatting.Errors.{
  Exn, new, is_instance, is_subclass, base_class, tts_timeout_error, tts_bad_response_error,
}
use chatting.Exec.{Exec, Result, ok, raised, Result-cases, ok-injective, raised-injective}
use chatting.Chat.Ports.{Voice}
use chatting.Retry.{Float, round_limit, Runtime, should_retry_by_taxonomy, run_with_retry}
use chatting.Retry.Calls.{run_with_retry_rule, run_with_retry-calls}
use chatting.Json.{Json}
use chatting.Provider.Http.{
  Failure, HttpClient, NewClient, Reply, response, failed, Wire, observe_provider_latency, posted,
}
use chatting.Provider.GptSovits.{
  GptSovitsHttpClient, tts_init, parse_audio_location, tts_on_failure, tts_on_body, tts_on_response,
  tts_on_reply, tts_payload, tts_settle, tts_request, tts_synthesize,
}

-- The reply is a response whose status is no error and whose body holds the text.
abbrev pub IsAnswer : Bool → Reply → String → Type 0
IsAnswer idempotent reply s =
    (status : ℕ) × (body : Json) × (reply ≡ response status (some body))
    × (status < 400)
    × (parse_audio_location idempotent body ≡ ok s)

module _ {S : Type 0} (idempotent : Bool) where
  tts_on_failure-http :
      (failure : Failure) (w : Wire S) → (tts_on_failure idempotent failure w).1.http ≡ w.http
  unfolding tts_on_failure observe_provider_latency
  tts_on_failure-http Failure.connect_timeout w = refl
  tts_on_failure-http Failure.read_timeout w = refl
  tts_on_failure-http Failure.other_timeout w = refl
  tts_on_failure-http Failure.network_error w = refl
  tts_on_failure-http Failure.other_http_error w = refl
  tts_on_failure-http (Failure.unrelated e) w = refl

  tts_on_body-http :
      (body : Option Json) (w : Wire S) → (tts_on_body idempotent body w).1.http ≡ w.http
  unfolding tts_on_body observe_provider_latency
  tts_on_body-http none w = refl
  tts_on_body-http (some body) w = elim (Result-cases (parse_audio_location idempotent body)) [
    | inl (s, h) ↦ rw (h, tts_on_body) refl
    | inr (e, h) ↦ rw (h, tts_on_body) refl
  ]

  tts_on_reply-http :
      (reply : Reply) (w : Wire S) → (tts_on_reply idempotent reply w).1.http ≡ w.http
  unfolding tts_on_reply tts_on_response observe_provider_latency
  tts_on_reply-http (failed failure) w = tts_on_failure-http failure w
  tts_on_reply-http (response status body) w =
      if_intro (λ (m : Exec (Wire S) String). (m w).1.http ≡ w.http) (leb 400 status) _ _
        (λ h. refl) (λ h. tts_on_body-http body w)

  tts_on_failure-ne-ok :
      (failure : Failure) (w : Wire S) (s : String) → (tts_on_failure idempotent failure w).0 ≢ ok s
  unfolding tts_on_failure observe_provider_latency
  tts_on_failure-ne-ok Failure.connect_timeout w s h = cc
  tts_on_failure-ne-ok Failure.read_timeout w s h = cc
  tts_on_failure-ne-ok Failure.other_timeout w s h = cc
  tts_on_failure-ne-ok Failure.network_error w s h = cc
  tts_on_failure-ne-ok Failure.other_http_error w s h = cc
  tts_on_failure-ne-ok (Failure.unrelated e) w s h = cc

  tts_on_body-ok :
      (body : Option Json) (w : Wire S) (s : String)
      → (tts_on_body idempotent body w).0 ≡ ok s
      → (json : Json) × (body ≡ some json) × (parse_audio_location idempotent json ≡ ok s)
  unfolding tts_on_body observe_provider_latency
  tts_on_body-ok none w s h = cc
  tts_on_body-ok (some body) w s h = elim (Result-cases (parse_audio_location idempotent body)) [
    | inl (t, k) ↦ (body, refl, k ∙ rw (k, tts_on_body) at h)
    | inr (e, k) ↦ cc (rw (k, tts_on_body) at h)
  ]

  tts_on_reply-ok :
      (reply : Reply) (w : Wire S) (s : String)
      → (tts_on_reply idempotent reply w).0 ≡ ok s
      → IsAnswer idempotent reply s
  unfolding tts_on_reply tts_on_response observe_provider_latency
  tts_on_reply-ok (failed failure) w s h = absurd (tts_on_failure-ne-ok failure w s h)
  tts_on_reply-ok (response status body) w s h = elim (Bool-cases (leb 400 status)) [
    | inl k ↦ cc (rw (k, tts_on_reply) at h)
    | inr k ↦
        let b = tts_on_body-ok body w s (rw (k, tts_on_reply) at h) in
        (status, b.0, ap (response status) b.1, ground arith, b.2)
  ]

-- An error of the TTS provider, one of the two.
abbrev pub IsTtsError : Exn → Type 0
IsTtsError e =
    (is_instance e tts_timeout_error ≡ true) ⊎ (is_instance e tts_bad_response_error ≡ true)

failed_synthesis-IsTtsError : IsTtsError (new tts_bad_response_error "tts synthesis failed")
unfolding is_instance is_subclass base_class
failed_synthesis-IsTtsError = inr refl

tts_settle-raised : (r : Result (Option String)) (e : Exn) → tts_settle r ≡ raised e → IsTtsError e
unfolding tts_settle
tts_settle-raised (ok content) e h = cc
tts_settle-raised (raised x) e h =
    if_intro (λ r. r ≡ raised e → IsTtsError e)
      (is_instance x tts_timeout_error || is_instance x tts_bad_response_error) _ _
      (λ k (q : ◌≡◌ {A = Result (Option String)} (raised x) (raised e)).
        let same : x ≡ e = raised-injective q in rw (← same) (ground arith))
      (λ k q.
        let same : new tts_bad_response_error "tts synthesis failed" ≡ e = raised-injective q in
        rw (← same) failed_synthesis-IsTtsError)
      h

tts_settle-ok : (r : Result (Option String)) (o : Option String) → tts_settle r ≡ ok o → r ≡ ok o
unfolding tts_settle
tts_settle-ok (ok content) o h = h
tts_settle-ok (raised x) o h =
    if_intro (λ r. r ≡ ok o → raised x ≡ ok o)
      (is_instance x tts_timeout_error || is_instance x tts_bad_response_error) _ _ (λ k q. cc)
      (λ k q. cc) h

limit_of :
    (retry_count : ℕ) (n : ℤ)
    → n ≡ max_ℤ (pos 1) (pos retry_count +ℤ pos 1)
    → round_limit n ≡ retry_count + 1
limit_of retry_count n h = ground arith

module _ (F : Float) {S : Type 0} (rt : Runtime F (Wire S)) (self : GptSovitsHttpClient F S) where
  open F use {Seconds}

  request-posts :
      (posts : S → ℕ)
      → ((url : String) (payload : Json) (s : S)
          → posts (self.client.post url payload s).1 ≡ posts s + 1)
      → (payload : Json) (v : Wire S)
      → posts (tts_request F rt self payload v).1.http ≡ posts v.http + 1
  unfolding tts_request
  request-posts posts counts payload v =
      ap posts (tts_on_reply-http self.synthesis_idempotent _ _) ∙ counts _ payload v.http

  -- Whatever the server, the network and the runtime do, `synthesize` raises nothing but the two
  -- errors of the TTS provider.
  pub tts_synthesize-raised :
      (spoken : String) (voice : Voice) (w : Wire S) (e : Exn)
      → (tts_synthesize F rt self spoken voice w).0 ≡ raised e
      → IsTtsError e
  unfolding tts_synthesize
  tts_synthesize-raised spoken voice w e h = tts_settle-raised _ e h

  -- The reply to the post that is made in this state.
  abbrev pub reply_at : String → Voice → Wire S → Reply
  reply_at spoken voice w =
      (posted self.client (self.base_url <> "/synthesize") (tts_payload spoken voice) w).0

  loop-answers :
      (spoken : String) (voice : Voice) (w : Wire S) (s : String)
      → (run_with_retry F self.retry_policy rt
          (tts_request F rt self (tts_payload spoken voice))
          should_retry_by_taxonomy
          w).0
        ≡ ok (some s)
      → (before : Wire S) × IsAnswer self.synthesis_idempotent (reply_at spoken voice before) s
  unfolding tts_request
  loop-answers spoken voice w s =
      run_with_retry_rule F self.retry_policy rt _ _ (λ k t. Unit)
        (λ r.
          r.0 ≡ ok (some s)
          → (before : Wire S) × IsAnswer self.synthesis_idempotent (reply_at spoken voice before) s)
        w
        (record {
          returned = λ k t a i h e. (
            t,
            tts_on_reply-ok self.synthesis_idempotent (reply_at spoken voice t)
                (posted self.client (self.base_url <> "/synthesize") (tts_payload spoken voice) t).1
                s (h ∙ ap ok (some-injective (ok-injective e))),
          );
          gave_up = λ k t e i h o q. cc;
          out_of_time = λ k t e i h b r o q. cc;
          again = λ k t e i h b r o. tt;
        })
        tt

  -- A text that `synthesize` gives is the audio location that the body of a response holds, which
  -- some post of this payload got with a status under 400.
  pub tts_synthesize-answers :
      (spoken : String) (voice : Voice) (w : Wire S) (s : String)
      → (tts_synthesize F rt self spoken voice w).0 ≡ ok (some s)
      → (before : Wire S) × IsAnswer self.synthesis_idempotent (reply_at spoken voice before) s
  unfolding tts_synthesize
  tts_synthesize-answers spoken voice w s h =
      loop-answers spoken voice w s (tts_settle-ok _ (some s) h)

  -- The bound for any client whose policy has so many attempts.
  posts_of_policy :
      (spoken : String) (voice : Voice) (w : Wire S) (retry_count : ℕ) (posts : S → ℕ)
      → self.retry_policy.max_attempts ≡ max_ℤ (pos 1) (pos retry_count +ℤ pos 1)
      → ((url : String) (payload : Json) (s : S)
          → posts (self.client.post url payload s).1 ≡ posts s + 1)
      → ((a b : Seconds) (v : Wire S) → posts (rt.uniform a b v).1.http ≡ posts v.http)
      → ((d : Seconds) (v : Wire S) → posts (rt.sleep d v).http ≡ posts v.http)
      → ((k : ℕ) (e : Exn) (d : Seconds) (v : Wire S)
          → posts (rt.on_retry k e d v).http ≡ posts v.http)
      → let n = posts (tts_synthesize F rt self spoken voice w).1.http in
        (posts w.http + 1 ≤ n) × (n ≤ posts w.http + retry_count + 1)
  unfolding tts_synthesize
  posts_of_policy spoken voice w retry_count posts policy counts draws sleeps logs =
      let bound =
        run_with_retry-calls F self.retry_policy rt
          (tts_request F rt self (tts_payload spoken voice)) should_retry_by_taxonomy
          (λ v. posts v.http) (λ v. request-posts posts counts _ v) draws sleeps logs w in
      (bound.0, omega (arith, bound.1, limit_of retry_count self.retry_policy.max_attempts policy))

module _ (F : Float) {S : Type 0} (rt : Runtime F (Wire S)) where
  open F use {Seconds}

  -- The client that `__init__` makes for a `retry_count` that is not negative posts at least once
  -- and at most `retry_count + 1` times in a call of `synthesize`, where its server counts each post
  -- and the runtime of the loop touches nothing that counts.
  pub tts_synthesize-posts :
      (new_client : NewClient Seconds S) (base_url : String)
      (connect_timeout_sec read_timeout_sec : Seconds) (retry_count : ℕ)
      (base_delay_sec max_delay_sec : Seconds) (jitter_enabled : Bool)
      (jitter_ratio total_timeout_sec : Seconds) (synthesis_idempotent : Bool)
      (http_client : Option (HttpClient S)) (spoken : String) (voice : Voice) (w : Wire S)
      (posts : S → ℕ) (self : GptSovitsHttpClient F S)
      → self
        ≡ tts_init F new_client base_url connect_timeout_sec read_timeout_sec
            (pos retry_count)
            base_delay_sec
            max_delay_sec
            jitter_enabled
            jitter_ratio
            total_timeout_sec
            synthesis_idempotent
            http_client
      → ((url : String) (payload : Json) (s : S)
          → posts (self.client.post url payload s).1 ≡ posts s + 1)
      → ((a b : Seconds) (v : Wire S) → posts (rt.uniform a b v).1.http ≡ posts v.http)
      → ((d : Seconds) (v : Wire S) → posts (rt.sleep d v).http ≡ posts v.http)
      → ((k : ℕ) (e : Exn) (d : Seconds) (v : Wire S)
          → posts (rt.on_retry k e d v).http ≡ posts v.http)
      → let n = posts (tts_synthesize F rt self spoken voice w).1.http in
        (posts w.http + 1 ≤ n) × (n ≤ posts w.http + retry_count + 1)
  unfolding tts_init
  tts_synthesize-posts new_client base_url connect_timeout_sec read_timeout_sec retry_count
        base_delay_sec max_delay_sec jitter_enabled jitter_ratio total_timeout_sec
        synthesis_idempotent http_client spoken voice w posts self made counts draws sleeps logs =
      posts_of_policy F rt self spoken voice w retry_count posts
        (ap (λ c. c.retry_policy.max_attempts) made) counts draws sleeps logs
