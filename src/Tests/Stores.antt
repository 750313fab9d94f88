-- ===== src/Tests/Stores.antt =====
-- A Redis server in memory, and the adapters' theorems over it.
use Prim.Native.Char.{Char, char, code}
use Prim.Native.String as Native
use chatting.Common.{
  ℕ, suc, ◌+◌, ◌≡◌, refl, String, true, List, [], ◌++◌, ◌==◌, nat_eq, if◌then◌else◌, ℤ, pos, negsuc,
}
use chatting.Common.Window.{keep}
use chatting.Errors.{new_other}
use chatting.Exec.{Result, ok, raised, ok-injective}
use chatting.Message.{ChatMessage}
use chatting.RateLimit.Memory.{key, count_of, consume}
use chatting.RateLimit.Redis.{prefixed_key, consume_script, redis_consume}
use chatting.RateLimit.Redis.Agrees.{Agree, on_redis, in_memory, consume-agrees}
use chatting.Session.Redis.{MessageJson}
use chatting.Redis.{RedisServer, SubmitLaws, ListLaws, CounterLaws}

-- Lists and counters by key. No key expires and every piece of work is done.
pub record Keys : Type 0 where
  lists : String → List String
  counts : String → ℕ

abbrev update {ℓ} : {A : Type ℓ} → String → A → (String → A) → String → A
update key a f k = if key == k then a else f k

abbrev cut : ℤ → List String → List String
cut (pos n) values = values
cut (negsuc n) values = keep (suc n) values

-- The ranges are those that the adapters ask for.
abbrev pub server : RedisServer Keys
server = record {
  lrange = λ key first last s. s.lists key;
  rpush = λ key values s. record s { lists = update key (s.lists key ++ values) s.lists };
  ltrim = λ key first last s. record s { lists = update key (cut first (s.lists key)) s.lists };
  delete = λ key s. record s { lists = update key [] s.lists };
  expire = λ key ttl s. s;
  incr = λ key s. (s.counts key + 1, record s { counts = update key (s.counts key + 1) s.counts });
  submit = λ work s. (ok (work s).0, (work s).1);
  ping = λ s. (ok true, s);
  aclose = λ s. (ok tt, s);
}

server_submits : SubmitLaws server
server_submits = record {
  submit_done = λ work s a e. (ok-injective e, refl);
  submit_failed = λ work s e h. cc;
}

pub server_lists : ListLaws server
server_lists = record {
  submits = server_submits;
  list_at-rpush = λ key other value values s. refl;
  list_at-ltrim = λ key other n s. refl;
  list_at-delete = λ key other s. refl;
  list_at-expire = λ key other n s. refl;
}

server_counters : CounterLaws server (λ s key. s.counts key)
server_counters = record {
  submits = server_submits;
  counted = λ key s. refl;
  count_at-incr = λ key other s. refl;
  count_at-expire = λ key other n s. refl;
}

-- A text of a message: each character of the role behind a `+`, a `.`, then the content.
abbrev encode_text : String → String → String
encode_text Native.[] content = Native.◌∷◌ (char 46 tt) content
encode_text (Native.◌∷◌ c role) content =
    Native.◌∷◌ (char 43 tt) (Native.◌∷◌ c (encode_text role content))

abbrev with_role : Char → Result ChatMessage → Result ChatMessage
with_role c (raised e) = raised e
with_role c (ok m) = ok (record m { role = Native.◌∷◌ c m.role })

abbrev decode_text : String → Result ChatMessage
decode_text Native.[] = raised (new_other "ValidationError" "")
decode_text (Native.◌∷◌ mark Native.[]) = ok (record { role = ""; content = "" })
decode_text (Native.◌∷◌ mark (Native.◌∷◌ c text)) =
    let rest = decode_text text in
    if nat_eq (code mark) 46
    then ok (record { role = ""; content = Native.◌∷◌ c text })
    else with_role c rest

pub decode_text-encode_text :
    (role content : String)
    → decode_text (encode_text role content) ≡ ok (record { role = role; content = content })
decode_text-encode_text Native.[] Native.[] = refl
decode_text-encode_text Native.[] (Native.◌∷◌ c content) = refl
decode_text-encode_text (Native.◌∷◌ c role) content = rw (decode_text-encode_text role content)

abbrev pub json : MessageJson
json = record { encode = λ m. encode_text m.role m.content; decode = decode_text }

-- No message is stored, and no counter counts.
abbrev pub nothing : Keys
nothing = record { lists = λ key. []; counts = λ key. 0 }

consume-agrees_example :
    ((in_memory server
        (λ s key. s.counts key)
        server_counters
        "rate-limit"
        "t"
        "r"
        (pos 1)
        60
        7
        []).0
      ≡ ok (record { allowed = true; limit = pos 1; remaining = pos 0; reset_at_epoch_sec = 60 }))
    × Agree server
        (λ s key. s.counts key)
        server_counters
        "rate-limit"
        (on_redis server
          (λ s key. s.counts key)
          server_counters
          "rate-limit"
          "t"
          "r"
          (pos 1)
          60
          7
          nothing).1.server_state
        (in_memory server
          (λ s key. s.counts key)
          server_counters
          "rate-limit"
          "t"
          "r"
          (pos 1)
          60
          7
          []).1.counters
unfolding redis_consume consume prefixed_key key count_of consume_script
consume-agrees_example =
    consume-agrees server (λ s key. s.counts key) server_counters "rate-limit" "t" "r" (pos 1) 60 7
      nothing [] _ (λ k. refl) refl
