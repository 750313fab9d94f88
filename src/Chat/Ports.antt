-- ===== src/Chat/Ports.antt =====
-- app/ports/outbound/llm_client.py and tts_client.py, over a state `S`.
use chatting.Common.{String, Bool, Option, List}
use chatting.Exec.{Exec, Result}
use chatting.Message.{ChatMessage}

-- The chunks that an async generator yields, each with the state after it, then how it ends: by
-- itself or by an exception. What other tasks do while it waits is part of the states.
pub record Chunks (S : Type 0) : Type 0 where
  pub yielded : List (String × S)
  pub end : Result (Unit {0})
  pub last : S

-- `generate_stream` is looked up by `getattr`: a client may lack it.
pub record LlmClient (S : Type 0) : Type 0 where
  pub generate : List ChatMessage → Exec S String
  pub generate_stream : Option (List ChatMessage → S → Chunks S)
  pub ping : Exec S Bool
  pub close : Exec S (Unit {0})

-- The optional arguments of `synthesize`.
pub record Voice : Type 0 where
  pub voice_id : Option String
  pub speaker : Option String
  pub language : Option String
  pub reference_audio_url : Option String

pub record TtsClient (S : Type 0) : Type 0 where
  pub synthesize : String → Voice → Exec S String
  pub ping : Exec S Bool
  pub close : Exec S (Unit {0})
