-- ===== src/Session/Redis.antt =====
-- app/adapters/outbound/redis_session_repository.py, over a Redis server. pydantic's JSON of a
-- message is an argument, `MessageJson`.
pub mod Laws
use chatting.Common.{
  String, Bool, true, false, Option, none, some, List, [], ◌∷◌, map, if◌then◌else◌, ℤ, pos, negsuc,
  leb_ℤ, ◌-ℤ◌,
}
use chatting.Common.Text.{◌<>◌}
use chatting.Errors.{Exn, new, session_store_error}
use chatting.Exec.{Exec, Result, ok, raised, pure, raise, catch, ◌>>=◌}
use chatting.Message.{ChatMessage}
use chatting.Session.{SessionRepository}
use chatting.Redis.{RedisServer}

-- `model_dump_json` and `model_validate_json`
pub record MessageJson : Type 0 where
  pub encode : ChatMessage → String
  pub decode : String → Result ChatMessage

-- `f"chat:session:{session_id}"`
abbrev pub session_key : String → String
session_key session_id = "chat:session:" <> session_id

abbrev pub store_failed : String → Exn
store_failed message = new session_store_error message

-- `bool(await probe)`, where an exception is no answer
abbrev pub answered : Result Bool → Bool
answered (ok up) = up
answered (raised e) = false

-- `[ChatMessage.model_validate_json(item) for item in values]`
unfoldable pub decode_all : MessageJson → List String → Result (List ChatMessage)
decode_all json [] = ok []
decode_all json (item ∷ values) =
    let rest = decode_all json values in
    elim (json.decode item) [
      | raised e ↦ raised e
      | ok m ↦ elim rest [ raised e ↦ raised e | ok messages ↦ ok (m ∷ messages) ]
    ]

module _ {S : Type 0} (server : RedisServer S) where
  -- `if max_messages is not None: ...`
  unfoldable pub trim : String → Option ℤ → S → S
  trim key none s = s
  trim key (some max_messages) s =
      if leb_ℤ max_messages (pos 0)
      then server.delete key s
      else server.ltrim key (pos 0 -ℤ max_messages) (negsuc 0) s

  -- RPUSH of the values, of which redis wants one at least.
  abbrev pub push_all : String → List String → S → S
  push_all key [] s = s
  push_all key (value ∷ values) s = server.rpush key (value ∷ values) s

  -- The transaction of `append_messages`.
  unfoldable pub append_work : String → List String → Option ℤ → ℤ → S → Unit {0} × S
  append_work key encoded max_messages ttl_sec s =
      (tt, server.expire key ttl_sec (trim key max_messages (push_all key encoded s)))

  -- The transaction of `set_history`.
  unfoldable pub set_work : String → List String → ℤ → S → Unit {0} × S
  set_work key [] ttl_sec s = (tt, server.delete key s)
  set_work key (value ∷ values) ttl_sec s =
      (tt, server.expire key ttl_sec (server.rpush key (value ∷ values) (server.delete key s)))

  abbrev pub read_work : String → S → List String × S
  read_work key s = (server.lrange key (pos 0) (negsuc 0) s, s)

  -- A result of the adapter's own as a call that raises.
  abbrev from_result : {A : Type 0} → Result A → Exec S A
  from_result r s = (r, s)

  unfoldable pub redis_get_history : MessageJson → String → Exec S (List ChatMessage)
  redis_get_history json session_id =
      catch
        (server.submit (read_work (session_key session_id)) >>= λ values.
          from_result (decode_all json values))
        (λ e. raise (store_failed "failed to load session history"))

  unfoldable pub redis_append_messages :
      MessageJson → ℤ → String → List ChatMessage → Option ℤ → Exec S (Unit {0})
  redis_append_messages json ttl_sec session_id [] max_messages = pure tt
  redis_append_messages json ttl_sec session_id (m ∷ messages) max_messages =
      catch
        (server.submit (
          append_work (session_key session_id) (map json.encode (m ∷ messages)) max_messages
            ttl_sec))
        (λ e. raise (store_failed "failed to append session history"))

  unfoldable pub redis_set_history : MessageJson → ℤ → String → List ChatMessage → Exec S (Unit {0})
  redis_set_history json ttl_sec session_id messages =
      catch (server.submit (set_work (session_key session_id) (map json.encode messages) ttl_sec))
        (λ e. raise (store_failed "failed to set session history"))

  unfoldable pub redis_ping : Exec S Bool
  redis_ping s = let (r, s') = server.ping s in (ok (answered r), s')

  unfoldable pub redis_repository : MessageJson → ℤ → SessionRepository S
  redis_repository json ttl_sec = record {
    get_history = redis_get_history json;
    append_messages = redis_append_messages json ttl_sec;
    set_history = redis_set_history json ttl_sec;
    ping = redis_ping;
    close = server.aclose;
  }
