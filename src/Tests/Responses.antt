-- ===== src/Tests/Responses.antt =====
-- Responses to exceptions and to readiness requests, and their theorems there.
use chatting.Common.{nat_eq, if◌then◌else◌, ℕ, ◌≤◌, ◌≡◌, ◌↔◌, refl, true, false, List, [], ◌∷◌}
use chatting.Errors.{Exn, new, is_instance, is_subclass, base_class, session_store_error}
use chatting.Exec.{pure, raise}
use chatting.App.{Context, handle, status_of}
use chatting.App.Status.{IsServerFault, handle-fault, llm_generate-status}
use chatting.Health.{Dependencies, Probing, probe_dependency, probe_all, report, ready, to_probe}
use chatting.Health.Report.{IsFaithful, ArePinged, ready-IsFaithful}
use chatting.Chat.{StreamEvent, start, token, done}
use chatting.Routes.{
  Moment, waited_out, closed_at_yield, arrives, stream_timeout, deliver, pump, event_generator,
}
use chatting.Tests.Retries.{millis}
use chatting.Tests.Providers.{runtime, busy, asked, fresh, refused, busy_runs}

abbrev ctx : Context
ctx = record { request_id = "r"; trace_id = "t" }

abbrev no_store : Exn
no_store = new session_store_error "pool exhausted"

handle_run : (handle ctx no_store).status_code ≡ 503
unfolding handle status_of is_instance is_subclass base_class
handle_run = refl

handle-fault_example : (500 ≤ (handle ctx no_store).status_code) ↔ IsServerFault no_store
handle-fault_example = handle-fault ctx no_store refl

llm_generate-status_example : (handle ctx refused).status_code ≡ 503
llm_generate-status_example =
    llm_generate-status millis runtime ctx busy asked fresh refused busy_runs

-- The LLM is up, speech is down, and the store raises.
abbrev dependencies : Dependencies ℕ
dependencies = record {
  bootstrap_complete = true;
  rate_limit_enabled = false;
  llm_ping = pure true;
  tts_ping = pure false;
  session_ping = raise no_store;
  rate_limiter_ping = pure true;
}

abbrev probing : Probing ℕ
probing = record { state = 0; last_success = []; counted = [] }

ready_run : (ready (λ s. "now") dependencies probing).0.status ≡ "degraded"
unfolding ready probe_all probe_dependency report
ready_run = refl

ready-IsFaithful_example :
    IsFaithful (ready (λ s. "now") dependencies probing).0
    × (true ≡ true
        → ArePinged
            (to_probe dependencies)
            0
            (ready (λ s. "now") dependencies probing).0.dependencies)
    × (true ≡ false → (ready (λ s. "now") dependencies probing).1 ≡ probing)
ready-IsFaithful_example = ready-IsFaithful (λ s. "now") dependencies probing

abbrev events : List StreamEvent
events = start "r" "t" "s" ∷ token "hi" 1 ∷ done ∷ []

-- The third event does not come in time.
abbrev moments : ℕ → Moment
moments k = if nat_eq k 2 then waited_out else arrives

stream_run :
    (event_generator moments events).sent ≡ start "r" "t" "s" ∷ token "hi" 1 ∷ stream_timeout ∷ []
unfolding event_generator pump deliver
stream_run = refl

-- The generator is closed at its second yield: the rest is not sent, and the label says success.
closed_run :
    ((event_generator (λ k. if nat_eq k 1 then closed_at_yield else arrives) events).sent
      ≡ start "r" "t" "s" ∷ token "hi" 1 ∷ [])
    × ((event_generator (λ k. if nat_eq k 1 then closed_at_yield else arrives) events).result
        ≡ "success")
unfolding event_generator pump deliver
closed_run = (refl, refl)
