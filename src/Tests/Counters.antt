-- ===== src/Tests/Counters.antt =====
-- A registry in memory, with the requests and the streams that it counts.
use chatting.Common.{ℕ, ◌≡◌, refl, String, ◌&&◌, List, [], ◌∷◌, ◌==◌, if◌then◌else◌, ℤ, pos, ◌+ℤ◌}
use chatting.Errors.{new_other}
use chatting.Exec.{Exec, raised, pure}
use chatting.Chat.{StreamEvent, token, done}
use chatting.Metrics.{Prometheus, PrometheusLaws, same_labels, enter, dispatch}
use chatting.Metrics.Balance.{in_progress, request_total, dispatch-balanced}
use chatting.Routes.{arrives}
use chatting.Routes.Counted.{active, chat_stream, chat_stream-active}

abbrev pub Values : Type 0
Values = String → List String → ℤ

abbrev pub registry : Prometheus Values
registry = record {
  value = λ s. s;
  add = λ name labels n s other labels'.
      if name == other && same_labels labels labels' then s other labels' +ℤ n else s other labels';
  observe = λ name labels s. s;
}

registry_laws : PrometheusLaws registry
registry_laws = record {
  value-add = λ name other labels labels' n s. refl;
  value-observe = λ name other labels labels' s. refl;
}

abbrev pub zeros : Values
zeros name labels = pos 0

-- A request whose handler raises.
abbrev crashing : Exec Values ℕ
crashing s = (raised (new_other "RuntimeError" "crash"), s)

dispatch-balanced_example :
    ((dispatch registry (λ n. n) "POST" "/chat" crashing zeros).0
      ≡ raised (new_other "RuntimeError" "crash"))
    × (in_progress registry registry_laws
          (dispatch registry (λ n. n) "POST" "/chat" crashing zeros).1
        ≡ pos 0)
    × (request_total registry registry_laws "POST" "/chat" 500
          (dispatch registry (λ n. n) "POST" "/chat" crashing zeros).1
        ≡ pos 1)
unfolding enter
dispatch-balanced_example =
    dispatch-balanced registry registry_laws (λ n. n) "POST" "/chat" crashing zeros refl

-- A stream that ends well.
abbrev events : List StreamEvent
events = token "a" 1 ∷ done ∷ []

chat_stream-active_example :
    active registry registry_laws (chat_stream registry (λ k. arrives) events (pure tt) zeros).1
    ≡ pos 0
unfolding chat_stream
chat_stream-active_example =
    chat_stream-active registry registry_laws (λ k. arrives) events (pure tt) zeros (λ t. refl)
