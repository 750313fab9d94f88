-- ===== src/Bootstrap/Views.antt =====
-- A component works on its own state. In the process it works on its part of the state of all: a view
-- of that part makes its calls calls on the whole.
use chatting.Common.{none, some, map}
use chatting.Exec.{Exec}
use chatting.Chat.Ports.{Chunks, LlmClient, TtsClient}
use chatting.Session.{SessionRepository}
use chatting.RateLimit.{RateLimiter}

pub record View (W S : Type 0) : Type 0 where
  pub part : W → S
  pub with_part : S → W → W

module _ {W S : Type 0} (view : View W S) where
  open view use {part, with_part}

  abbrev pub seen : {A : Type 0} → Exec S A → Exec W A
  seen m w = let (r, s) = m (part w) in (r, with_part s w)

  abbrev chunks_seen : W → Chunks S → Chunks W
  chunks_seen w c = record {
    yielded = map (λ (text, s). (text, with_part s w)) c.yielded;
    end = c.end;
    last = with_part c.last w;
  }

  abbrev pub repository_on : SessionRepository S → SessionRepository W
  repository_on repo = record {
    get_history = λ k. seen (repo.get_history k);
    append_messages =
        λ k messages max_messages. seen (repo.append_messages k messages max_messages);
    set_history = λ k messages. seen (repo.set_history k messages);
    ping = seen repo.ping;
    close = seen repo.close;
  }

  abbrev pub limiter_on : RateLimiter S → RateLimiter W
  limiter_on limiter = record {
    consume =
        λ tenant_id route limit window_sec. seen (limiter.consume tenant_id route limit window_sec);
    ping = seen limiter.ping;
    close = seen limiter.close;
  }

  abbrev pub llm_on : LlmClient S → LlmClient W
  llm_on client = record {
    generate = λ messages. seen (client.generate messages);
    generate_stream = elim client.generate_stream [
      | none ↦ none
      | some stream ↦ some (λ messages w. chunks_seen w (stream messages (part w)))
    ];
    ping = seen client.ping;
    close = seen client.close;
  }

  abbrev pub tts_on : TtsClient S → TtsClient W
  tts_on client = record {
    synthesize = λ text voice. seen (client.synthesize text voice);
    ping = seen client.ping;
    close = seen client.close;
  }
