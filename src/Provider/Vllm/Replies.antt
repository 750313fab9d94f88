-- ===== src/Provider/Vllm/Replies.antt =====
-- What `VLLMHTTPClient.generate` gives, and how often it posts.
use chatting.Common.{
  some-injective, ℕ, ◌+◌, ◌≤◌, ◌<◌, ◌≡◌, ◌≢◌, refl, ap, ◌∙◌, ◌⊎◌, inl, inr, String, Bool, true,
  false, ◌||◌, Option, none, some,
}
use chatting.Common.{List, arith, leb, Bool-cases, if_intro, ℤ, pos, max_ℤ, ◌+ℤ◌}
use chatting.Common.Text.{is_empty, strip, ◌<>◌}
use chatting.Errors.{
  Exn, new, is_instance, is_subclass, base_class, llm_timeout_error, llm_bad_response_error,
}
use chatting.Exec.{Exec, Result, ok, raised, Result-cases, ok-injective, raised-injective}
use chatting.Message.{ChatMessage}
use chatting.Retry.{Float, round_limit, Runtime, should_retry_by_taxonomy, run_with_retry}
use chatting.Retry.Calls.{IsReached, run_with_retry_rule, run_with_retry-calls}
use chatting.Json.{Json}
use chatting.Provider.Http.{
  Failure, HttpClient, NewClient, Reply, response, failed, Wire, observe_provider_latency, posted,
}
use chatting.Provider.Vllm.Content.{parse_response_content-filled}
use chatting.Provider.Vllm.{
  VllmHttpClient, llm_init, parse_response_content, llm_on_failure, llm_on_body, llm_on_response,
  llm_on_reply, llm_payload, llm_settle, llm_request, llm_generate,
}

-- The reply is a response whose status is no error and whose body holds the text.
abbrev pub IsAnswer : Reply → String → Type 0
IsAnswer reply s =
    (status : ℕ) × (body : Json) × (reply ≡ response status (some body))
    × (status < 400)
    × (parse_response_content body ≡ ok s)

module _ {S : Type 0} (idempotent : Bool) where
  llm_on_failure-http :
      (failure : Failure) (w : Wire S) → (llm_on_failure idempotent failure w).1.http ≡ w.http
  unfolding llm_on_failure observe_provider_latency
  llm_on_failure-http Failure.connect_timeout w = refl
  llm_on_failure-http Failure.read_timeout w = refl
  llm_on_failure-http Failure.other_timeout w = refl
  llm_on_failure-http Failure.network_error w = refl
  llm_on_failure-http Failure.other_http_error w = refl
  llm_on_failure-http (Failure.unrelated e) w = refl

  llm_on_body-http :
      (body : Option Json) (w : Wire S) → (llm_on_body idempotent body w).1.http ≡ w.http
  unfolding llm_on_body observe_provider_latency
  llm_on_body-http none w = refl
  llm_on_body-http (some body) w = elim (Result-cases (parse_response_content body)) [
    | inl (s, h) ↦ rw (h, llm_on_body) refl
    | inr (e, h) ↦ rw (h, llm_on_body) refl
  ]

  llm_on_reply-http :
      (reply : Reply) (w : Wire S) → (llm_on_reply idempotent reply w).1.http ≡ w.http
  unfolding llm_on_reply llm_on_response observe_provider_latency
  llm_on_reply-http (failed failure) w = llm_on_failure-http failure w
  llm_on_reply-http (response status body) w =
      if_intro (λ (m : Exec (Wire S) String). (m w).1.http ≡ w.http) (leb 400 status) _ _
        (λ h. refl) (λ h. llm_on_body-http body w)

  llm_on_failure-ne-ok :
      (failure : Failure) (w : Wire S) (s : String) → (llm_on_failure idempotent failure w).0 ≢ ok s
  unfolding llm_on_failure observe_provider_latency
  llm_on_failure-ne-ok Failure.connect_timeout w s h = cc
  llm_on_failure-ne-ok Failure.read_timeout w s h = cc
  llm_on_failure-ne-ok Failure.other_timeout w s h = cc
  llm_on_failure-ne-ok Failure.network_error w s h = cc
  llm_on_failure-ne-ok Failure.other_http_error w s h = cc
  llm_on_failure-ne-ok (Failure.unrelated e) w s h = cc

  llm_on_body-ok :
      (body : Option Json) (w : Wire S) (s : String)
      → (llm_on_body idempotent body w).0 ≡ ok s
      → (json : Json) × (body ≡ some json) × (parse_response_content json ≡ ok s)
  unfolding llm_on_body observe_provider_latency
  llm_on_body-ok none w s h = cc
  llm_on_body-ok (some body) w s h = elim (Result-cases (parse_response_content body)) [
    | inl (t, k) ↦ (body, refl, k ∙ rw (k, llm_on_body) at h)
    | inr (e, k) ↦ cc (rw (k, llm_on_body) at h)
  ]

  llm_on_reply-ok :
      (reply : Reply) (w : Wire S) (s : String)
      → (llm_on_reply idempotent reply w).0 ≡ ok s
      → IsAnswer reply s
  unfolding llm_on_reply llm_on_response observe_provider_latency
  llm_on_reply-ok (failed failure) w s h = absurd (llm_on_failure-ne-ok failure w s h)
  llm_on_reply-ok (response status body) w s h = elim (Bool-cases (leb 400 status)) [
    | inl k ↦ cc (rw (k, llm_on_reply) at h)
    | inr k ↦
        let b = llm_on_body-ok body w s (rw (k, llm_on_reply) at h) in
        (status, b.0, ap (response status) b.1, ground arith, b.2)
  ]

-- An error of the LLM provider, one of the two.
abbrev pub IsLlmError : Exn → Type 0
IsLlmError e =
    (is_instance e llm_timeout_error ≡ true) ⊎ (is_instance e llm_bad_response_error ≡ true)

failed_generation-IsLlmError : IsLlmError (new llm_bad_response_error "llm generation failed")
unfolding is_instance is_subclass base_class
failed_generation-IsLlmError = inr refl

llm_settle-raised : (r : Result (Option String)) (e : Exn) → llm_settle r ≡ raised e → IsLlmError e
unfolding llm_settle
llm_settle-raised (ok content) e h = cc
llm_settle-raised (raised x) e h =
    if_intro (λ r. r ≡ raised e → IsLlmError e)
      (is_instance x llm_timeout_error || is_instance x llm_bad_response_error) _ _
      (λ k (q : ◌≡◌ {A = Result (Option String)} (raised x) (raised e)).
        let same : x ≡ e = raised-injective q in rw (← same) (ground arith))
      (λ k q.
        let same : new llm_bad_response_error "llm generation failed" ≡ e = raised-injective q in
        rw (← same) failed_generation-IsLlmError)
      h

llm_settle-ok : (r : Result (Option String)) (o : Option String) → llm_settle r ≡ ok o → r ≡ ok o
unfolding llm_settle
llm_settle-ok (ok content) o h = h
llm_settle-ok (raised x) o h =
    if_intro (λ r. r ≡ ok o → raised x ≡ ok o)
      (is_instance x llm_timeout_error || is_instance x llm_bad_response_error) _ _ (λ k q. cc)
      (λ k q. cc) h

limit_of :
    (retry_count : ℕ) (n : ℤ)
    → n ≡ max_ℤ (pos 1) (pos retry_count +ℤ pos 1)
    → round_limit n ≡ retry_count + 1
limit_of retry_count n h = ground arith

module _ (F : Float) {S : Type 0} (rt : Runtime F (Wire S)) (self : VllmHttpClient F S) where
  open F use {Seconds}

  request-posts :
      (posts : S → ℕ)
      → ((url : String) (payload : Json) (s : S)
          → posts (self.client.post url payload s).1 ≡ posts s + 1)
      → (payload : Json) (v : Wire S)
      → posts (llm_request F rt self payload v).1.http ≡ posts v.http + 1
  unfolding llm_request
  request-posts posts counts payload v =
      ap posts (llm_on_reply-http true _ _) ∙ counts _ payload v.http

  -- Whatever the server, the network and the runtime do, `generate` raises nothing but the two
  -- errors of the LLM provider.
  pub llm_generate-raised :
      (messages : List ChatMessage) (w : Wire S) (e : Exn)
      → (llm_generate F rt self messages w).0 ≡ raised e
      → IsLlmError e
  unfolding llm_generate
  llm_generate-raised messages w e h = llm_settle-raised _ e h

  -- The reply to the post that is made in this state.
  abbrev pub reply_at : List ChatMessage → Wire S → Reply
  reply_at messages w =
      (posted self.client (self.base_url <> "/v1/chat/completions") (llm_payload self messages) w).0

  -- `generate`, called in `w`, makes its k-th post in the state `before`.
  abbrev pub IsPosting : List ChatMessage → Wire S → ℕ → Wire S → Type 0
  IsPosting messages w k before =
      IsReached F self.retry_policy rt (llm_request F rt self (llm_payload self messages))
        should_retry_by_taxonomy w k before

  -- One of the posts of `generate`, called in `w`, got the text.
  abbrev pub IsAnswered : List ChatMessage → Wire S → String → Type 0
  IsAnswered messages w s =
      (k : ℕ) × (before : Wire S) × IsPosting messages w k before
      × IsAnswer (reply_at messages before) s

  loop-answers :
      (messages : List ChatMessage) (w : Wire S) (s : String)
      → (run_with_retry F self.retry_policy rt
          (llm_request F rt self (llm_payload self messages))
          should_retry_by_taxonomy
          w).0
        ≡ ok (some s)
      → IsAnswered messages w s
  unfolding llm_request
  loop-answers messages w s =
      run_with_retry_rule F self.retry_policy rt _ _ (IsPosting messages w)
        (λ r. r.0 ≡ ok (some s) → IsAnswered messages w s) w
        (record {
          returned = λ k t a i h e. (
            k,
            t,
            i,
            llm_on_reply-ok true (reply_at messages t)
                (posted self.client (self.base_url <> "/v1/chat/completions")
                  (llm_payload self messages) t).1
                s (h ∙ ap ok (some-injective (ok-injective e))),
          );
          gave_up = λ k t e i h o q. cc;
          out_of_time = λ k t e i h b r o q. cc;
          again = λ k t e i h b r o. IsReached.later k t e i h r;
        })
        IsReached.first

  -- A text that `generate` gives is not blank, and is the content of the response that one of the
  -- posts of this call got, with a status under 400. All of its posts before that one failed in a
  -- way that is retried.
  pub llm_generate-answers :
      (messages : List ChatMessage) (w : Wire S) (s : String)
      → (llm_generate F rt self messages w).0 ≡ ok (some s)
      → (is_empty (strip s) ≡ false) × IsAnswered messages w s
  unfolding llm_generate
  llm_generate-answers messages w s h =
      let answered = loop-answers messages w s (llm_settle-ok _ (some s) h) in
      (parse_response_content-filled answered.3.1 s answered.3.4, answered)

  -- The bound for any client whose policy has so many attempts.
  posts_of_policy :
      (messages : List ChatMessage) (w : Wire S) (retry_count : ℕ) (posts : S → ℕ)
      → self.retry_policy.max_attempts ≡ max_ℤ (pos 1) (pos retry_count +ℤ pos 1)
      → ((url : String) (payload : Json) (s : S)
          → posts (self.client.post url payload s).1 ≡ posts s + 1)
      → ((a b : Seconds) (v : Wire S) → posts (rt.uniform a b v).1.http ≡ posts v.http)
      → ((d : Seconds) (v : Wire S) → posts (rt.sleep d v).http ≡ posts v.http)
      → ((k : ℕ) (e : Exn) (d : Seconds) (v : Wire S)
          → posts (rt.on_retry k e d v).http ≡ posts v.http)
      → let n = posts (llm_generate F rt self messages w).1.http in
        (posts w.http + 1 ≤ n) × (n ≤ posts w.http + retry_count + 1)
  unfolding llm_generate
  posts_of_policy messages w retry_count posts policy counts draws sleeps logs =
      let bound =
        run_with_retry-calls F self.retry_policy rt
          (llm_request F rt self (llm_payload self messages)) should_retry_by_taxonomy
          (λ v. posts v.http) (λ v. request-posts posts counts _ v) draws sleeps logs w in
      (bound.0, omega (arith, bound.1, limit_of retry_count self.retry_policy.max_attempts policy))

module _ (F : Float) {S : Type 0} (rt : Runtime F (Wire S)) where
  open F use {Seconds}

  -- The client that `__init__` makes for a `retry_count` that is not negative posts at least once
  -- and at most `retry_count + 1` times in a call of `generate`, where its server counts each post
  -- and the runtime of the loop touches nothing that counts.
  pub llm_generate-posts :
      (new_client : NewClient Seconds S) (base_url model temperature max_tokens : String)
      (connect_timeout_sec read_timeout_sec : Seconds) (retry_count : ℕ)
      (base_delay_sec max_delay_sec : Seconds) (jitter_enabled : Bool)
      (jitter_ratio total_timeout_sec : Seconds) (http_client : Option (HttpClient S))
      (messages : List ChatMessage) (w : Wire S) (posts : S → ℕ) (self : VllmHttpClient F S)
      → self
        ≡ llm_init F new_client base_url model temperature max_tokens connect_timeout_sec
            read_timeout_sec
            (pos retry_count)
            base_delay_sec
            max_delay_sec
            jitter_enabled
            jitter_ratio
            total_timeout_sec
            http_client
      → ((url : String) (payload : Json) (s : S)
          → posts (self.client.post url payload s).1 ≡ posts s + 1)
      → ((a b : Seconds) (v : Wire S) → posts (rt.uniform a b v).1.http ≡ posts v.http)
      → ((d : Seconds) (v : Wire S) → posts (rt.sleep d v).http ≡ posts v.http)
      → ((k : ℕ) (e : Exn) (d : Seconds) (v : Wire S)
          → posts (rt.on_retry k e d v).http ≡ posts v.http)
      → let n = posts (llm_generate F rt self messages w).1.http in
        (posts w.http + 1 ≤ n) × (n ≤ posts w.http + retry_count + 1)
  unfolding llm_init
  llm_generate-posts new_client base_url model temperature max_tokens connect_timeout_sec
        read_timeout_sec retry_count base_delay_sec max_delay_sec jitter_enabled jitter_ratio
        total_timeout_sec http_client messages w posts self made counts draws sleeps logs =
      posts_of_policy F rt self messages w retry_count posts
        (ap (λ c. c.retry_policy.max_attempts) made) counts draws sleeps logs
