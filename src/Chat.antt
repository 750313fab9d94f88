-- ===== src/Chat.antt =====
-- app/application/services/chat_orchestration_service.py over the ports of app/ports/outbound: one
-- chat request, the streamed one and the readiness check. `S` is the state that the ports work on.
-- The logger's calls change nothing of it and are left out.
pub mod Ports
pub mod Stream
pub mod Turn
use chatting.Common.{
  ℕ, suc, ◌+◌, String, Bool, true, false, not, ◌&&◌, Option, none, some, List, [], ◌∷◌,
}
use chatting.Common.{◌++◌, if◌then◌else◌, ℤ, pos, pos_part, max_ℤ, ◌*ℤ◌}
use chatting.Common.Text.{is_empty, strip, join}
use chatting.Errors.{
  Exn, new, validation_error, external_service_error, domain_error, is_instance, code_or,
}
use chatting.Exec.{Result, ok, raised, Exec, pure, raise, continue, ◌>>=◌, ◌>>◌}
use chatting.Message.{ChatMessage, user, assistant, build_prompt_history}
use chatting.Session.{SessionRepository}
use chatting.Chunks.{slices}
use chatting.Chat.Ports.{LlmClient, TtsClient, Voice}

pub record ChatResult : Type 0 where
  pub text : String
  pub audio_url : Option String

-- `StreamEvent(event, data)`: the four events that the service yields, with what `data` holds.
pub data StreamEvent : Type 0 where
  start : String → String → String → StreamEvent
  token : String → ℕ → StreamEvent
  done : StreamEvent
  error : String → String → StreamEvent

pub record ChatOrchestrationService (S : Type 0) : Type 0 where
  pub llm_client : LlmClient S
  pub tts_client : TtsClient S
  pub session_repo : SessionRepository S
  pub max_history_turns : ℤ
  pub stream_chunk_size : ℕ

-- `__init__`
abbrev pub service_init :
    {S : Type 0}
    → LlmClient S
    → TtsClient S
    → SessionRepository S
    → ℤ
    → ℤ
    → ChatOrchestrationService S
service_init llm tts repo max_history_turns stream_chunk_size = record {
  llm_client = llm;
  tts_client = tts;
  session_repo = repo;
  max_history_turns = max_history_turns;
  stream_chunk_size = pos_part (max_ℤ (pos 1) stream_chunk_size);
}

-- `max(0, self._max_history_turns * 2)`
unfoldable pub history_bound : ℤ → ℤ
history_bound max_turns = max_ℤ (pos 0) (max_turns *ℤ pos 2)

abbrev pub empty_message : Exn
empty_message = new validation_error "message must not be empty"

abbrev pub empty_response : Exn
empty_response = new external_service_error "empty response from llm"

module _ {S : Type 0} (service : ChatOrchestrationService S) where
  open service use {llm_client, tts_client, session_repo, max_history_turns, stream_chunk_size}

  abbrev pub prompt_for : List ChatMessage → String → List ChatMessage
  prompt_for history user_message = build_prompt_history history user_message max_history_turns

  unfoldable pub store_turn : String → String → String → Exec S (Unit {0})
  store_turn session_id user_message assistant_text =
      session_repo.append_messages session_id (user user_message ∷ assistant assistant_text ∷ [])
        (some (history_bound max_history_turns))

  -- The end of `chat`, after the turn is stored.
  speak : Bool → Voice → String → Exec S ChatResult
  speak false voice assistant_text = pure (record { text = assistant_text; audio_url = none })
  speak true voice assistant_text = do
    audio_url ← tts_client.synthesize assistant_text voice
    pure (record { text = assistant_text; audio_url = some audio_url })

  -- What `chat` does with the reply of the LLM.
  answer : String → String → Bool → Voice → String → Exec S ChatResult
  answer session_id user_message generate_audio voice assistant_text =
      if is_empty assistant_text then raise empty_response else do
        store_turn session_id user_message assistant_text
        speak generate_audio voice assistant_text

  unfoldable pub chat : String → String → Bool → Voice → Exec S ChatResult
  unfolding answer speak
  chat session_id user_message generate_audio voice =
      if is_empty (strip user_message) then raise empty_message else do
        history ← session_repo.get_history session_id
        assistant_text ← llm_client.generate (prompt_for history user_message)
        answer session_id user_message generate_audio voice assistant_text

  abbrev pub chunk_text : String → List String
  chunk_text text = slices stream_chunk_size text

-- An event with the state at the moment when it is yielded.
abbrev pub Yields : Type 0 → Type 0
Yields S = List (StreamEvent × S)

module _ {S : Type 0} where
  -- `async for chunk in generate_stream(...)`: a token for each chunk that is not empty, numbered
  -- from `sequence + 1` on.
  unfoldable pub tokens : ℕ → List (String × S) → Yields S
  tokens sequence [] = []
  tokens sequence ((chunk, s) ∷ chunks) = elim (is_empty chunk) [
    | true ↦ tokens sequence chunks
    | false ↦ (token chunk (sequence + 1), s) ∷ tokens (sequence + 1) chunks
  ]

  -- The list `chunks` that this loop fills.
  unfoldable pub kept : List (String × S) → List String
  kept [] = []
  kept ((chunk, _) ∷ chunks) =
      let rest = kept chunks in if is_empty chunk then rest else chunk ∷ rest

  -- `for chunk in self._chunk_text(assistant_text)`: a token for each chunk, all in one state.
  unfoldable pub text_tokens : ℕ → S → List String → Yields S
  text_tokens sequence s [] = []
  text_tokens sequence s (chunk ∷ chunks) =
      (token chunk (sequence + 1), s) ∷ text_tokens (sequence + 1) s chunks

-- The two `except` blocks.
unfoldable pub error_event : Exn → StreamEvent
unfolding is_instance
error_event e =
    if is_instance e domain_error
    then error (code_or "DOMAIN_ERROR" e) e.message
    else error "INTERNAL_ERROR" "streaming request failed"

-- The tokens that the loops have yielded, the list `chunks`, how the loop ended, and the state.
pub record Replied (S : Type 0) : Type 0 where
  pub events : Yields S
  pub chunks : List String
  pub end : Result (Unit {0})
  pub last : S

abbrev pub up_or_down : Bool → String
up_or_down up = if up then "up" else "down"

-- The events that a generator yields until it ends, and the state that it leaves.
pub record Streamed (S : Type 0) : Type 0 where
  pub events : Yields S
  pub last : S

module _ {S : Type 0} (service : ChatOrchestrationService S) where
  open service use {llm_client, session_repo}

  text_reply : Result String → S → Replied S
  text_reply (raised e) s = record { events = []; chunks = []; end = raised e; last = s }
  text_reply (ok text) s =
      let chunks = chunk_text service text in
      record { events = text_tokens 0 s chunks; chunks = chunks; end = ok tt; last = s }

  -- The streamed reply, or the whole one cut into pieces where the client cannot stream.
  unfoldable pub stream_reply : List ChatMessage → S → Replied S
  unfolding text_reply
  stream_reply prompt s = elim llm_client.generate_stream [
    | some generate_stream ↦
        let c = generate_stream prompt s in
        record { events = tokens 0 c.yielded; chunks = kept c.yielded; end = c.end; last = c.last }
    | none ↦ let (r, s') = llm_client.generate prompt s in text_reply r s'
  ]

  -- What follows the `await` of the store: `done`, or an exception for the `except` blocks.
  close_stream : Yields S → Result (Unit {0}) → S → Streamed S
  close_stream events (ok _) s = record { events = events ++ ((done, s) ∷ []); last = s }
  close_stream events (raised e) s = record {
    events = events ++ ((error_event e, s) ∷ []);
    last = s;
  }

  abbrev pub reply_text : Replied S → String
  reply_text r = strip (join r.chunks)

  finish_stream : String → String → Replied S → Streamed S
  finish_stream session_id user_message reply = elim reply.end [
    | raised e ↦ close_stream reply.events (raised e) reply.last
    | ok _ ↦
        let (r, s) = store_turn service session_id user_message (reply_text reply) reply.last in
        if is_empty (reply_text reply)
        then close_stream reply.events (raised empty_response) reply.last
        else close_stream reply.events r s
  ]

  stream_history : String → String → Result (List ChatMessage) → S → Streamed S
  stream_history session_id user_message (raised e) s = close_stream [] (raised e) s
  stream_history session_id user_message (ok history) s =
      finish_stream session_id user_message
        (stream_reply (prompt_for service history user_message) s)

  -- The `try` statement of `stream_chat`.
  stream_body : String → String → S → Streamed S
  stream_body session_id user_message s =
      let (r, s') = session_repo.get_history session_id s in
      if is_empty (strip user_message)
      then close_stream [] (raised empty_message) s
      else stream_history session_id user_message r s'

  unfoldable pub stream_chat : String → String → String → String → S → Streamed S
  unfolding stream_body stream_history finish_stream close_stream
  stream_chat session_id user_message request_id trace_id s =
      let body = stream_body session_id user_message s in
      record { events = (start request_id trace_id session_id, s) ∷ body.events; last = body.last }

  -- `readiness_details`: whether all three are up, and the map of their states.
  unfoldable pub readiness_details : Exec S (Bool × List (String × String))
  readiness_details = do
    session_up ← session_repo.ping
    llm_up ← llm_client.ping
    tts_up ← service.tts_client.ping
    pure (
      session_up && (llm_up && tts_up),
      ("session_repository", up_or_down session_up)
          ∷ ("llm_client", up_or_down llm_up)
          ∷ ("tts_client", up_or_down tts_up)
          ∷ [],
    )
