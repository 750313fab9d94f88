-- ===== src/Chat/Stream.antt =====
-- The events of `stream_chat` (app/application/services/chat_orchestration_service.py): their
-- order and numbering, and what a `done` says of the store.
use chatting.Common.{ℕ, ◌+◌, ◌≡◌, refl, ap, ◌⊎◌, inl, inr, String, false}
use chatting.Common.{List, [], ◌∷◌, ◌++◌, Bool-cases, Option-cases, if_intro}
use chatting.Common.Text.{is_empty, strip, join, ◌<>◌}
use chatting.Errors.{Exn, domain_error, is_instance, code_or}
use chatting.Exec.{Result, ok, raised, Result-cases}
use chatting.Message.{ChatMessage}
use chatting.Chunks.Cover.{All, slices-not_empty}
use chatting.Chat.{
  StreamEvent, start, token, done, error, ChatOrchestrationService, store_turn, Yields, tokens,
  kept, text_tokens, error_event, empty_response, empty_message, Replied, Streamed, text_reply,
  stream_reply, close_stream, reply_text, finish_stream, stream_history, stream_body, stream_chat,
  prompt_for,
}

module _ {S : Type 0} where
  -- Tokens only, none of them empty, numbered from `n + 1` on with no gap.
  abbrev pub IsNumbered : ℕ → Yields S → Type 0
  IsNumbered n [] = Unit
  IsNumbered n ((token delta sequence, _) ∷ events) =
      (sequence ≡ n + 1) × (is_empty delta ≡ false) × IsNumbered (n + 1) events
  IsNumbered n (_ ∷ events) = ⊥

  -- The text that the tokens carry to the client.
  abbrev pub deltas : Yields S → String
  deltas [] = ""
  deltas ((token delta _, _) ∷ events) = delta <> deltas events
  deltas (_ ∷ events) = deltas events

  tokens-IsNumbered : (n : ℕ) (chunks : List (String × S)) → IsNumbered n (tokens n chunks)
  unfolding tokens
  tokens-IsNumbered n [] = tt
  tokens-IsNumbered n ((chunk, s) ∷ chunks) = elim (Bool-cases (is_empty chunk)) [
    | inl e ↦ rw (e, tokens) (tokens-IsNumbered n chunks)
    | inr e ↦ rw (e, tokens) (refl, e, tokens-IsNumbered (n + 1) chunks)
  ]

  -- The empty chunks that the loop skips carry no text.
  deltas-tokens :
      (n : ℕ) (chunks : List (String × S)) → deltas (tokens n chunks) ≡ join (kept chunks)
  unfolding tokens kept
  deltas-tokens n [] = refl
  deltas-tokens n ((chunk, s) ∷ chunks) = elim (Bool-cases (is_empty chunk)) [
    | inl e ↦ rw (e, tokens) (deltas-tokens n chunks)
    | inr e ↦ rw (e, tokens) (ap (λ (t : String). chunk <> t) (deltas-tokens (n + 1) chunks))
  ]

  text_tokens-IsNumbered :
      (n : ℕ) (s : S) (chunks : List String)
      → All (λ c. is_empty c ≡ false) chunks
      → IsNumbered n (text_tokens n s chunks)
  unfolding text_tokens
  text_tokens-IsNumbered n s [] h = tt
  text_tokens-IsNumbered n s (chunk ∷ chunks) h =
      (refl, h.0, text_tokens-IsNumbered (n + 1) s chunks h.1)

  deltas-text_tokens :
      (n : ℕ) (s : S) (chunks : List String) → deltas (text_tokens n s chunks) ≡ join chunks
  unfolding text_tokens
  deltas-text_tokens n s [] = refl
  deltas-text_tokens n s (chunk ∷ chunks) =
      ap (λ (t : String). chunk <> t) (deltas-text_tokens (n + 1) s chunks)

  -- What the loops have yielded is numbered, and carries what they have collected.
  record IsReply (r : Replied S) : Type 0 where
    numbered : IsNumbered 0 r.events
    carried : deltas r.events ≡ join r.chunks

error_event-error :
    (e : Exn) → (code : String) × (message : String) × (error_event e ≡ error code message)
unfolding error_event
error_event-error e =
    if_intro (λ v. (code : String) × (message : String) × (v ≡ error code message))
      (is_instance e domain_error) (error (code_or "DOMAIN_ERROR" e) e.message)
      (error "INTERNAL_ERROR" "streaming request failed") (λ _. (_, _, refl)) (λ _. (_, _, refl))

module _ {S : Type 0} (service : ChatOrchestrationService S) where
  open service use {llm_client, session_repo}

  text_reply-IsReply : (r : Result String) (s : S) → IsReply (text_reply service r s)
  unfolding text_reply
  text_reply-IsReply (raised e) s = record { numbered = tt; carried = refl }
  text_reply-IsReply (ok text) s = record {
    numbered = text_tokens-IsNumbered 0 s _ (slices-not_empty service.stream_chunk_size text);
    carried = deltas-text_tokens 0 s _;
  }

  stream_reply-IsReply :
      (prompt : List ChatMessage) (s : S) → IsReply (stream_reply service prompt s)
  unfolding stream_reply
  stream_reply-IsReply prompt s = elim (Option-cases llm_client.generate_stream) [
    | inl e ↦ rw (e, stream_reply) (text_reply-IsReply _ _)
    | inr (f, e) ↦
        rw (e, stream_reply)
          (record { numbered = tokens-IsNumbered 0 _; carried = deltas-tokens 0 _ })
  ]

  -- The store took the turn: the user's message, and the reply as the client has it, stripped.
  abbrev pub IsStored : String → String → String → S → Type 0
  IsStored session_id user_message text last =
      (s : S) × (store_turn service session_id user_message (strip text) s ≡ (ok tt, last))
      × (is_empty (strip text) ≡ false)

  -- Numbered tokens, then one last event: a `done` for a turn that is stored, or an `error`.
  pub record IsTail (session_id user_message : String) (r : Streamed S) : Type 0 where
    pub sent : Yields S
    pub final : StreamEvent × S
    pub order : r.events ≡ sent ++ (final ∷ [])
    pub numbered : IsNumbered 0 sent
    pub ending :
        ((final.0 ≡ done) × IsStored session_id user_message (deltas sent) r.last)
        ⊎ ((code : String) × (message : String) × (final.0 ≡ error code message))

  module _ (session_id user_message : String) where
    close_stream-IsTail :
        (events : Yields S) (e : Exn) (s : S)
        → IsNumbered 0 events
        → IsTail session_id user_message (close_stream service events (raised e) s)
    unfolding close_stream
    close_stream-IsTail events e s h = record {
      sent = events;
      final = (error_event e, s);
      order = refl;
      numbered = h;
      ending = inr (error_event-error e);
    }

    close_stream-stored :
        (events : Yields S) (text : String) (s : S)
        → IsNumbered 0 events
        → deltas events ≡ text
        → is_empty (strip text) ≡ false
        → let (r, s') = store_turn service session_id user_message (strip text) s in
          IsTail session_id user_message (close_stream service events r s')
    unfolding close_stream
    close_stream-stored events text s h d full =
        elim (Result-cases (store_turn service session_id user_message (strip text) s).0) [
          | inl (u, e) ↦
              rw (e, close_stream)
                (record {
                  sent = events;
                  final = (done, _);
                  order = refl;
                  numbered = h;
                  ending = inl (
                    refl,
                    rw d (
                      s,
                      (λ i. (e i, (store_turn service session_id user_message (strip text) s).1)),
                      full,
                    ),
                  );
                })
          | inr (x, e) ↦ rw (e, close_stream) (close_stream-IsTail events x _ h)
        ]

    finish_stream-IsTail :
        (r : Replied S)
        → IsReply r
        → IsTail session_id user_message (finish_stream service session_id user_message r)
    unfolding finish_stream
    finish_stream-IsTail r h = elim (Result-cases r.end) [
      | inl (u, e) ↦
          rw (e, finish_stream)
            (if_intro (IsTail session_id user_message) (is_empty (reply_text service r)) _ _
              (λ _. close_stream-IsTail r.events empty_response r.last h.numbered)
              (λ full.
                close_stream-stored r.events (join r.chunks) r.last h.numbered h.carried full))
      | inr (x, e) ↦ rw (e, finish_stream) (close_stream-IsTail r.events x r.last h.numbered)
    ]

    stream_history-IsTail :
        (r : Result (List ChatMessage)) (s : S)
        → IsTail session_id user_message (stream_history service session_id user_message r s)
    unfolding stream_history
    stream_history-IsTail (raised e) s = close_stream-IsTail [] e s tt
    stream_history-IsTail (ok history) s =
        finish_stream-IsTail _ (stream_reply-IsReply (prompt_for service history user_message) s)

    stream_body-IsTail :
        (s : S) → IsTail session_id user_message (stream_body service session_id user_message s)
    unfolding stream_body
    stream_body-IsTail s =
        if_intro (IsTail session_id user_message) (is_empty (strip user_message)) _ _
          (λ _. close_stream-IsTail [] empty_message s tt) (λ _. stream_history-IsTail _ _)

  -- Whatever the clients and the store do, a stream is a `start`, then tokens that are not empty and
  -- are numbered 1, 2, 3 and so on, then exactly one `done` or `error`. A `done` is sent only after
  -- the store took the user's message and, as the assistant's, the text of the tokens, stripped of
  -- white space at its ends, which is then not empty.
  pub stream_chat-IsTail :
      (session_id user_message request_id trace_id : String) (s : S)
      → let r = stream_chat service session_id user_message request_id trace_id s in
        (tail : Yields S) × (r.events ≡ (start request_id trace_id session_id, s) ∷ tail)
        × IsTail session_id user_message (record { events = tail; last = r.last })
  unfolding stream_chat
  stream_chat-IsTail session_id user_message request_id trace_id s =
      (_, refl, stream_body-IsTail session_id user_message s)
