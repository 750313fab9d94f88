-- ===== src/Session/Redis/Laws.antt =====
-- The Redis repository keeps the port's promises, over a server that keeps its documented laws.
use chatting.Common.{
  ℕ, zero, suc, ◌≡◌, ◌⊎◌, inl, inr, refl, sym, ap, ◌∙◌, String, Bool, true, false, some, List, [],
  ◌∷◌, ◌++◌, map, arith, ◌==◌, eq_iff, eq_refl, if◌then◌else◌, Bool-cases, ℤ, pos, negsuc, pos_part,
  ◌-ℤ◌, leb_ℤ,
}
use mathlib.Core.List.{map-append}
use text.Mathlib.TextLemmas.{append_cancel_left}
use chatting.Common.Window.{keep, keep_zero, map-keep}
use chatting.Errors.{Exn}
use chatting.Exec.{ok, raised, Result-cases, ok-injective}
use chatting.Message.{ChatMessage}
use chatting.Session.{SessionRepository, bounded}
use chatting.Session.Contract.{KeepsMessages}
use chatting.Redis.{RedisServer, ListLaws, list_at}
use chatting.Session.Redis.{
  MessageJson, read_work, session_key, store_failed, decode_all, trim, append_work,
  redis_get_history, redis_append_messages, redis_repository,
}

-- Two sessions have two keys.
session_key-eq : (k j : String) → (session_key k == session_key j) ≡ (k == j)
session_key-eq k j = elim (Bool-cases (k == j)) [
  | inl same ↦
      rw same ((eq_iff (session_key k) (session_key j)).1 (ap session_key ((eq_iff k j).0 same)))
  | inr differ ↦ elim (Bool-cases (session_key k == session_key j)) [
    | inl e ↦
        let same : (k == j) ≡ true =
          (eq_iff k j).1 (
            append_cancel_left "chat:session:" k j
              ((eq_iff (session_key k) (session_key j)).0 e)) in
        e ∙ sym same
    | inr e ↦ e ∙ sym differ
  ]
]

pushed :
    {A : Type 0} (same : Bool) (x y z : A)
    → (if same then x else (if same then y else z)) ≡ (if same then x else z)
pushed true x y z = refl
pushed false x y z = refl

-- The two branches of `trim`.
trim_pos : (n : ℕ) → (leb_ℤ (pos (suc n)) (pos 0) ≡ false) × (pos 0 -ℤ pos (suc n) ≡ negsuc n)
trim_pos n = ground arith

trim_neg : (n : ℕ) → leb_ℤ (negsuc n) (pos 0) ≡ true
trim_neg n = ground arith

module _ {S : Type 0} (server : RedisServer S) (laws : ListLaws server) where
  list_at-trim :
      (key other : String) (n : ℤ) (s : S)
      → list_at server (trim server key (some n) s) other ≡ (
          if key == other then keep (pos_part n) (list_at server s key) else list_at server s other)
  unfolding trim
  list_at-trim key other (pos zero) s = laws.list_at-delete key other s ∙ rw keep_zero
  list_at-trim key other (pos (suc n)) s =
      rw ((trim_pos n).0, (trim_pos n).1) (laws.list_at-ltrim key other n s)
  list_at-trim key other (negsuc n) s =
      rw (trim_neg n) (laws.list_at-delete key other s ∙ rw keep_zero)

  module _ (ttl : ℕ) where
    list_at-append_work :
        (key other value : String) (values : List String) (n : ℤ) (s : S)
        → list_at server
            (append_work server key (value ∷ values) (some n) (pos (suc ttl)) s).1
            other
          ≡ (if key == other
              then keep (pos_part n) (list_at server s key ++ (value ∷ values))
              else list_at server s other)
    unfolding append_work
    list_at-append_work key other value values n s =
        laws.list_at-expire key other ttl _
        ∙ list_at-trim key other n (server.rpush key (value ∷ values) s)
        ∙ rw
            (
              laws.list_at-rpush key key value values s,
              laws.list_at-rpush key other value values s,
              eq_refl key,
            )
            (pushed (key == other) _ _ _)

  module _ (json : MessageJson) (codec : (m : ChatMessage) → json.decode (json.encode m) ≡ ok m)
      (ttl : ℕ) where
    -- The list of the session's key is the JSON of these messages.
    abbrev pub RedisHolds : S → String → List ChatMessage → Type 0
    RedisHolds s k xs = list_at server s (session_key k) ≡ map json.encode xs

    abbrev repo : SessionRepository S
    repo = redis_repository server json (pos (suc ttl))

    abbrev work : String → ChatMessage → List ChatMessage → ℤ → S → Unit {0} × S
    work k m messages n s =
        append_work server (session_key k) (map json.encode (m ∷ messages)) (some n) (pos (suc ttl))
          s

    -- A state that the transaction left.
    made-RedisHolds :
        (s t : S) (k : String) (m : ChatMessage) (messages : List ChatMessage) (n : ℤ)
        (xs : List ChatMessage)
        → t ≡ (work k m messages n s).1
        → RedisHolds s k xs
        → RedisHolds t k (bounded (some n) (xs ++ (m ∷ messages)))
    made-RedisHolds s t k m messages n xs e h =
        ap (λ u. list_at server u (session_key k)) e
        ∙ list_at-append_work ttl (session_key k) (session_key k) (json.encode m)
            (map json.encode messages) n s
        ∙ rw (eq_refl (session_key k), h, ← map-append json.encode xs (m ∷ messages))
            (sym (map-keep json.encode (pos_part n) (xs ++ (m ∷ messages))))

    other-RedisHolds :
        (s t : S) (k j : String) (m : ChatMessage) (messages : List ChatMessage) (n : ℤ)
        (ys : List ChatMessage)
        → t ≡ (work k m messages n s).1
        → (k == j) ≡ false
        → RedisHolds s j ys
        → RedisHolds t j ys
    other-RedisHolds s t k j m messages n ys e differ h =
        ap (λ u. list_at server u (session_key j)) e
        ∙ list_at-append_work ttl (session_key k) (session_key j) (json.encode m)
            (map json.encode messages) n s
        ∙ rw (session_key-eq k j, differ) h

    -- How an append ends is how its transaction does.
    append_ends :
        (s : S) (k : String) (m : ChatMessage) (messages : List ChatMessage) (n : ℤ)
        → (((repo.append_messages k (m ∷ messages) (some n) s).0 ≡ ok tt)
            × ((repo.append_messages k (m ∷ messages) (some n) s).1 ≡ (work k m messages n s).1))
          ⊎ ((e : Exn) × ((repo.append_messages k (m ∷ messages) (some n) s).0 ≡ raised e)
              × (((repo.append_messages k (m ∷ messages) (some n) s).1 ≡ s)
                  ⊎ ((repo.append_messages k (m ∷ messages) (some n) s).1
                      ≡ (work k m messages n s).1)))
    unfolding redis_repository redis_append_messages
    append_ends s k m messages n = elim (Result-cases (server.submit (work k m messages n) s).0) [
      | inl (u, e) ↦ inl (
          rw (e, redis_append_messages)
            (refl, (laws.submits.submit_done (work k m messages n) s u e).1))
      | inr (x, e) ↦ inr (
        store_failed "failed to append session history",
        rw (e, redis_append_messages),
        rw (e, redis_append_messages) (laws.submits.submit_failed (work k m messages n) s x e),
      )
    ]

    decode_all-map : (xs : List ChatMessage) → decode_all json (map json.encode xs) ≡ ok xs
    unfolding decode_all
    decode_all-map [] = refl
    decode_all-map (m ∷ xs) = rw (codec m, decode_all-map xs)

    leaves-RedisHolds :
        (s : S) (k j : String) (messages : List ChatMessage) (n : ℤ) (xs : List ChatMessage)
        → RedisHolds s j xs
        → (k == j) ≡ false
        → RedisHolds (repo.append_messages k messages (some n) s).1 j xs
    unfolding redis_repository redis_append_messages
    leaves-RedisHolds s k j [] n xs h differ = h
    leaves-RedisHolds s k j (m ∷ messages) n xs h differ = elim (append_ends s k m messages n) [
      | inl (r, e) ↦ other-RedisHolds s _ k j m messages n xs e differ h
      | inr (x, r, inl e) ↦ ap (λ u. list_at server u (session_key j)) e ∙ h
      | inr (x, r, inr e) ↦ other-RedisHolds s _ k j m messages n xs e differ h
    ]

    appends-RedisHolds :
        (s : S) (k : String) (m : ChatMessage) (messages : List ChatMessage) (n : ℤ)
        (xs : List ChatMessage)
        → RedisHolds s k xs
        → (repo.append_messages k (m ∷ messages) (some n) s).0 ≡ ok tt
        → RedisHolds
            (repo.append_messages k (m ∷ messages) (some n) s).1
            k
            (bounded (some n) (xs ++ (m ∷ messages)))
    appends-RedisHolds s k m messages n xs h r = elim (append_ends s k m messages n) [
      | inl (_, e) ↦ made-RedisHolds s _ k m messages n xs e h
      | inr (x, q, e) ↦ cc
    ]

    fails-RedisHolds :
        (s : S) (k : String) (m : ChatMessage) (messages : List ChatMessage) (n : ℤ)
        (xs : List ChatMessage)
        → RedisHolds s k xs
        → RedisHolds (repo.append_messages k (m ∷ messages) (some n) s).1 k xs
          ⊎ RedisHolds
              (repo.append_messages k (m ∷ messages) (some n) s).1
              k
              (bounded (some n) (xs ++ (m ∷ messages)))
    fails-RedisHolds s k m messages n xs h = elim (append_ends s k m messages n) [
      | inl (_, e) ↦ inr (made-RedisHolds s _ k m messages n xs e h)
      | inr (x, q, inl e) ↦ inl (ap (λ u. list_at server u (session_key k)) e ∙ h)
      | inr (x, q, inr e) ↦ inr (made-RedisHolds s _ k m messages n xs e h)
    ]

    reads-RedisHolds :
        (s : S) (k : String) (xs ys : List ChatMessage)
        → RedisHolds s k xs
        → (repo.get_history k s).0 ≡ ok ys
        → ys ≡ xs
    unfolding redis_repository redis_get_history
    reads-RedisHolds s k xs ys h r =
        elim (Result-cases (server.submit (read_work server (session_key k)) s).0) [
          | inl (values, e) ↦
              let found : values ≡ map json.encode xs =
                sym (laws.submits.submit_done (read_work server (session_key k)) s values e).0
                ∙ h in
              sym (ok-injective (rw (e, found, decode_all-map xs, redis_get_history) at r))
          | inr (x, e) ↦ cc (rw (e, redis_get_history) at r)
        ]

    pub redis-KeepsMessages : KeepsMessages repo RedisHolds (λ s k. Unit)
    redis-KeepsMessages = record {
      appends = appends-RedisHolds;
      fails = λ s k m messages n xs e h r. fails-RedisHolds s k m messages n xs h;
      leaves = λ s k j messages n xs ys h g differ. leaves-RedisHolds s k j messages n xs g differ;
      reads = λ s k xs ys h l r. reads-RedisHolds s k xs ys h r;
    }
