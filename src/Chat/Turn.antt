-- ===== src/Chat/Turn.antt =====
-- What a `chat` request leaves in the in-memory store (app/application/services/
-- chat_orchestration_service.py over app/adapters/outbound/inmemory_session_repository.py). The
-- LLM client is any function on the store, so what other requests append while it is awaited is
-- part of it.
use chatting.Common.{
  ◌*◌, ◌≡◌, refl, ◌∙◌, ap, String, Bool, true, false, some, List, [], ◌∷◌, ◌++◌, arith,
}
use chatting.Common.{◌⊎◌, ◌==◌, if◌then◌else◌, ℤ, pos_part, inl, inr, Bool-cases}
use chatting.Common.Text.{is_empty, strip}
use chatting.Common.Window.{keep}
use chatting.Errors.{Exn}
use chatting.Exec.{ok, raised, Result-cases, raised-injective}
use chatting.Message.{ChatMessage, user, assistant, build_prompt_history}
use chatting.Session.Memory.{Store, history_of, append_to, memory_repository}
use chatting.Session.Memory.Laws.{history_of-append_to}
use chatting.Chat.Ports.{LlmClient, TtsClient, Voice}
use chatting.Chat.{
  ChatResult, ChatOrchestrationService, service_init, history_bound, store_turn, speak, answer,
  chat,
}

bound_part : (n : ℤ) → pos_part (history_bound n) ≡ pos_part n * 2
unfolding history_bound
bound_part n = ground arith

module _ (llm : LlmClient Store) (tts : TtsClient Store) (max_turns chunk_size : ℤ) where
  abbrev pub service : ChatOrchestrationService Store
  service = service_init llm tts memory_repository max_turns chunk_size

  module _ (session_id message : String) (voice : Voice) where
    -- What the LLM is asked in the store `s`.
    abbrev pub asked : Store → List ChatMessage
    asked s = build_prompt_history (history_of session_id s) message max_turns

    -- The store when the LLM has replied.
    abbrev pub replied : Store → Store
    replied s = (llm.generate (asked s) s).1

    abbrev pub turn : String → List ChatMessage
    turn text = user message ∷ assistant text ∷ []

    -- The store after the turn is appended to what the LLM call left.
    abbrev pub stored : String → Store → Store
    stored text t = append_to session_id (turn text) (some (history_bound max_turns)) t

    history_of-stored :
        (j text : String) (t : Store)
        → history_of j (stored text t) ≡ (
            if session_id == j
            then keep (pos_part max_turns * 2) (history_of session_id t ++ turn text)
            else history_of j t)
    history_of-stored j text t =
        history_of-append_to session_id j _ _ _ t ∙ rw (bound_part max_turns)

    -- What a failed request may leave: the store of the moment `s` before it, what the LLM call
    -- left, or a stored turn that the speech could not be made for.
    abbrev pub IsLeftBy : Bool → Exn → Store → Store → Type 0
    IsLeftBy audio e s u =
        (u ≡ s)
        ⊎ (u ≡ replied s)
        ⊎ ((text : String) × ((llm.generate (asked s) s).0 ≡ ok text)
            × (u ≡ stored text (replied s))
            × (audio ≡ true)
            × ((tts.synthesize text voice u).0 ≡ raised e))

    module _
        (quiet : (text : String) (v : Voice) (u : Store) → (tts.synthesize text v u).1 ≡ u) where
      speak-quiet :
          (audio : Bool) (text : String) (u : Store) → (speak service audio voice text u).1 ≡ u
      unfolding speak
      speak-quiet false text u = refl
      speak-quiet true text u = elim (Result-cases (tts.synthesize text voice u).0) [
        | inl (a, h) ↦ rw h (quiet text voice u)
        | inr (e, h) ↦ rw h (quiet text voice u)
      ]

      speak-text :
          (audio : Bool) (text : String) (u : Store) {r : ChatResult}
          → (speak service audio voice text u).0 ≡ ok r
          → text ≡ r.text
      unfolding speak
      speak-text false text u h = cc
      speak-text true text u h = elim (Result-cases (tts.synthesize text voice u).0) [
        | inl (a, e) ↦ ground arith
        | inr (x, e) ↦ ground arith
      ]

      answer-ok :
          (audio : Bool) (text : String) (t : Store) {r : ChatResult}
          → (answer service session_id message audio voice text t).0 ≡ ok r
          → ((answer service session_id message audio voice text t).1 ≡ stored r.text t)
            × (text ≡ r.text)
      unfolding answer store_turn memory_repository
      answer-ok audio text t h = elim (Bool-cases (is_empty text)) [
        | inl b ↦ cc (rw (b, answer) at h)
        | inr b ↦
            let e = speak-text audio text (stored text t) (rw (b, answer) at h) in
            rw (b, answer) (speak-quiet audio text _ ∙ ap (λ x. stored x t) e, e)
      ]

      speak_failed :
          (audio : Bool) (text : String) (u : Store) {e : Exn}
          → (speak service audio voice text u).0 ≡ raised e
          → (audio ≡ true) × ((tts.synthesize text voice u).0 ≡ raised e)
      unfolding speak
      speak_failed false text u h = cc
      speak_failed true text u h = elim (Result-cases (tts.synthesize text voice u).0) [
        | inl (a, g) ↦ cc (rw (g, speak) at h)
        | inr (x, g) ↦ (refl, g ∙ ap raised (raised-injective (rw (g, speak) at h)))
      ]

      answer_failed :
          (audio : Bool) (text : String) (s : Store) {e : Exn}
          → (llm.generate (asked s) s).0 ≡ ok text
          → (answer service session_id message audio voice text (replied s)).0 ≡ raised e
          → IsLeftBy audio e s (answer service session_id message audio voice text (replied s)).1
      unfolding answer store_turn memory_repository
      answer_failed audio text s g h = elim (Bool-cases (is_empty text)) [
        | inl b ↦ rw (b, answer) (inr (inl refl))
        | inr b ↦
            let f = speak_failed audio text (stored text (replied s)) (rw (b, answer) at h) in
            rw (b, answer, speak-quiet audio text (stored text (replied s)))
              (inr (inr (text, g, refl, f.0, f.1)))
      ]

      chat-answer :
          (audio : Bool) (s : Store) (text : String)
          → is_empty (strip message) ≡ false
          → (llm.generate (asked s) s).0 ≡ ok text
          → chat service session_id message audio voice s
            ≡ answer service session_id message audio voice text (replied s)
      unfolding chat memory_repository
      chat-answer audio s text b g = rw (b, g, chat) refl

      -- Over the in-memory store, with a speech client that leaves the store alone: a request that
      -- fails has stored nothing, or has stored its turn and then failed in the speech, and such a
      -- turn stays in the history.
      pub chat_failed :
          (audio : Bool) (s : Store) {e : Exn}
          → (chat service session_id message audio voice s).0 ≡ raised e
          → IsLeftBy audio e s (chat service session_id message audio voice s).1
      unfolding chat memory_repository
      chat_failed audio s h = elim (Bool-cases (is_empty (strip message))) [
        | inl b ↦ rw (b, chat) (inl refl)
        | inr b ↦ elim (Result-cases (llm.generate (asked s) s).0) [
          | inl (text, g) ↦
              let e = chat-answer audio s text b g in
              rw e (answer_failed audio text s g (rw e at h))
          | inr (x, g) ↦ rw (b, g, chat) (inr (inl refl))
        ]
      ]

      chat-ok :
          (audio : Bool) (s : Store) {r : ChatResult}
          → (chat service session_id message audio voice s).0 ≡ ok r
          → ((chat service session_id message audio voice s).1 ≡ stored r.text (replied s))
            × ((llm.generate (asked s) s).0 ≡ ok r.text)
      unfolding chat memory_repository
      chat-ok audio s h = elim (Bool-cases (is_empty (strip message))) [
        | inl b ↦ cc (rw (b, chat) at h)
        | inr b ↦ elim (Result-cases (llm.generate (asked s) s).0) [
          | inr (x, g) ↦ cc (rw (b, g, chat) at h)
          | inl (text, g) ↦
              let a = answer-ok audio text (replied s) (rw (b, g, chat) at h) in
              rw (b, g, chat) (a.0, ap ok a.1)
        ]
      ]

      -- Over the in-memory store, with a speech client that leaves the store alone: a request that
      -- succeeds answers with the text of the LLM. The session's history is then the last `2 * max_turns` messages of what it
      -- was when the LLM had replied, with the user's message and that text behind it, so that what
      -- other requests stored in between is kept; no other session changes.
      pub history_of-chat :
          (audio : Bool) (s : Store) {r : ChatResult} (j : String)
          → (chat service session_id message audio voice s).0 ≡ ok r
          → ((llm.generate (asked s) s).0 ≡ ok r.text)
            × (history_of j (chat service session_id message audio voice s).1 ≡ (
                if session_id == j
                then keep
                    (pos_part max_turns * 2)
                    (history_of session_id (replied s) ++ turn r.text)
                else history_of j (replied s)))
      history_of-chat audio s j h =
          let c = chat-ok audio s h in
          (c.1, ap (history_of j) c.0 ∙ history_of-stored j _ (replied s))
