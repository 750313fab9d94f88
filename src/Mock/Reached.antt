-- ===== src/Mock/Reached.antt =====
-- The HTTP clients of app/adapters/outbound against the mock servers: what they give of a reply.
use mathlib.Core.List.{reverse-append, map-append}
use chatting.Common.{ℕ, ◌≡◌, refl, String, true, false, some, List, [], ◌∷◌, ◌++◌, map, ℤ, pos}
use chatting.Common.Text.{is_empty, is_space, strip, str, ◌<>◌, cons-append}
use chatting.Common.Text.Strip.{strip-strip-cons}
use chatting.Common.Text.Decimal.{parse_int-str}
use chatting.Json.{Json, text, Fields, no_fields, field, get_field, get_of, dicts}
use chatting.Exec.{ok}
use chatting.Message.{ChatMessage, user, build_prompt_history}
use chatting.Message.Prompt.{build_prompt_history-keep}
use chatting.Retry.{should_retry_by_taxonomy, Float, Runtime}
use chatting.Retry.First.{run_with_retry-first}
use chatting.Provider.Http.{response, HttpClient, Wire, observe_provider_latency}
use chatting.Provider.Vllm.{
  VllmHttpClient, parse_response_content, dumped, llm_payload, llm_settle, llm_request,
  llm_on_reply, llm_on_response, llm_on_body, llm_generate,
}
use chatting.Mock.{completion_request_in, last_user_in, mock_text, completion, chat_completions}

abbrev fields_of : ChatMessage → Fields
fields_of m = field "role" (text m.role) (field "content" (text m.content) no_fields)

dicts-dumped :
    (messages : List ChatMessage) → dicts (dumped messages) ≡ some (map fields_of messages)
dicts-dumped [] = refl
dicts-dumped (m ∷ messages) = rw (dicts-dumped messages) refl

module _ (str_of : Json → String) where
  mock_text-user :
      (before : List ChatMessage) (m : String)
      → mock_text str_of (map fields_of (before ++ (user m ∷ [])))
        ≡ strip ("mock-vllm-reply: " <> m)
  unfolding mock_text last_user_in get_field
  mock_text-user before m = rw (map-append, reverse-append) refl

  module _ (F : Float) {S : Type 0} (self : VllmHttpClient F S) (n : ℕ)
      (sized : self.max_tokens ≡ str n) where
    completion_request_in-llm_payload :
        (messages : List ChatMessage)
        → completion_request_in (llm_payload self messages)
          ≡ some (record {
            model = self.model;
            messages = map fields_of messages;
            temperature = some self.temperature;
            max_tokens = some (pos n);
          })
    unfolding completion_request_in get_field
    completion_request_in-llm_payload messages =
        rw (dicts-dumped messages, sized, parse_int-str n) refl

  -- What is asked of the client: a post to the mock server's route gets the answer of its handler,
  -- where its payload is accepted.
  abbrev pub ReachesVllm : {S : Type 0} → HttpClient S → String → Type 0
  ReachesVllm {S} client base =
      (payload body : Json) (s : S)
      → chat_completions str_of payload ≡ some body
      → (client.post (base <> "/v1/chat/completions") payload s).0 ≡ response 200 (some body)

  parse_response_content-completion :
      (content : String)
      → is_empty (strip content) ≡ false
      → parse_response_content (completion content) ≡ ok content
  unfolding parse_response_content get_of get_field
  parse_response_content-completion content h = rw h refl

  on_completion :
      {S : Type 0} (content : String) (w : Wire S)
      → is_empty (strip content) ≡ false
      → (llm_on_reply true (response 200 (some (completion content))) w).0 ≡ ok content
  unfolding llm_on_reply llm_on_response llm_on_body observe_provider_latency
  on_completion content w h =
      rw (parse_response_content-completion content h, llm_on_reply, llm_on_response, llm_on_body)
        refl

  mock_text-filled : (m : String) → is_empty (strip (strip ("mock-vllm-reply: " <> m))) ≡ false
  unfolding is_space
  mock_text-filled m = rw cons-append (strip-strip-cons _ _ refl)

  module _ (F : Float) {S : Type 0} (rt : Runtime F (Wire S)) (self : VllmHttpClient F S)
      (n : ℕ) where
    accepted :
        (history : List ChatMessage) (m : String) (max_turns : ℤ)
        → self.max_tokens ≡ str n
        → chat_completions str_of (llm_payload self (build_prompt_history history m max_turns))
          ≡ some (completion (strip ("mock-vllm-reply: " <> m)))
    unfolding chat_completions
    accepted history m max_turns sized =
        rw
          (
            build_prompt_history-keep history m max_turns,
            completion_request_in-llm_payload F self n sized _,
            mock_text-user,
          )
          refl

    llm_request-mock :
        (history : List ChatMessage) (m : String) (max_turns : ℤ) (w : Wire S)
        → self.max_tokens ≡ str n
        → ReachesVllm self.client self.base_url
        → (llm_request F rt self (llm_payload self (build_prompt_history history m max_turns)) w).0
          ≡ ok (strip ("mock-vllm-reply: " <> m))
    unfolding llm_request
    llm_request-mock history m max_turns w sized reaches =
        rw (reaches _ _ w.http (accepted history m max_turns sized))
          (on_completion _ _ (mock_text-filled m))

    -- Where max_tokens is a number in decimal and the posts reach the mock server: for any history,
    -- the prompt with a user's message is answered with "mock-vllm-reply: " and this message, stripped.
    pub llm_generate-mock :
        (history : List ChatMessage) (m : String) (max_turns : ℤ) (w : Wire S)
        → self.max_tokens ≡ str n
        → ReachesVllm self.client self.base_url
        → (llm_generate F rt self (build_prompt_history history m max_turns) w).0
          ≡ ok (some (strip ("mock-vllm-reply: " <> m)))
    unfolding llm_generate llm_settle
    llm_generate-mock history m max_turns w sized reaches =
        rw
          (run_with_retry-first F self.retry_policy rt
            (llm_request F rt self (llm_payload self (build_prompt_history history m max_turns)))
            should_retry_by_taxonomy w _ (llm_request-mock history m max_turns w sized reaches))
          refl
