-- ===== src/Bootstrap/Backends.antt =====
-- Whichever session store the settings choose keeps the port's promises on the state of the process.
use chatting.Common.{
  ℤ, ℕ, suc, ◌≡◌, refl, sym, String, Bool, true, false, List, [], ◌==◌, if◌then◌else◌, pos,
}
use mathlib.Core.Path.{subst}
use chatting.Errors.{Exn}
use chatting.Exec.{Result, ok, raised, ok-injective}
use chatting.Message.{ChatMessage}
use chatting.Retry.{Float}
use chatting.Settings.{Settings}
use chatting.Redis.{ListLaws}
use chatting.Session.{SessionRepository}
use chatting.Session.Contract.{KeepsMessages, Append, append_each, AreTaken, append_each-keeps}
use chatting.Session.Memory.{history_of, memory_repository}
use chatting.Session.Memory.Laws.{memory-KeepsMessages}
use chatting.Session.Redis.{redis_repository}
use chatting.Session.Redis.Laws.{RedisHolds, redis-KeepsMessages}
use chatting.Session.Postgres.{Pool, postgres_repository}
use chatting.Session.Postgres.Laws.{PoolLaws, PostgresHolds, PostgresLive, postgres-KeepsMessages}
use chatting.Bootstrap.{World, Libraries, store_view, redis_view, postgres_view, build_session_repo}
use chatting.Bootstrap.Views.{View, repository_on}

-- A repository on a view of its state keeps what it keeps on the state.
KeepsMessages-on :
    {W S : Type 0} (view : View W S)
    → ((s : S) (w : W) → view.part (view.with_part s w) ≡ s)
    → (repo : SessionRepository S) (Holds : S → String → List ChatMessage → Type 0)
      (Live : S → String → Type 0)
    → KeepsMessages repo Holds Live
    → KeepsMessages
        (repository_on view repo)
        (λ w k xs. Holds (view.part w) k xs)
        (λ w k. Live (view.part w) k)
KeepsMessages-on view law repo Holds Live contract = record {
  appends =
      λ w k m messages n xs h r. rw law (contract.appends (view.part w) k m messages n xs h r);
  fails =
      λ w k m messages n xs e h r. rw law (contract.fails (view.part w) k m messages n xs e h r);
  leaves = λ w k j messages n xs ys own h differ.
      rw law (contract.leaves (view.part w) k j messages n xs ys own h differ);
  reads = λ w k xs ys h live r. contract.reads (view.part w) k xs ys h live r;
}

module _ {F : Float} {R P H : Type 0} (libraries : Libraries F R P H) (settings : Settings F) where
  open libraries use {from_url, pool_of, json}
  open settings use {session_backend}

  abbrev pub pool : Pool P
  pool =
      pool_of settings.postgres_dsn settings.postgres_min_pool_size settings.postgres_max_pool_size

  module _ (redis_laws : ListLaws (from_url settings.redis_url)) (pool_laws : PoolLaws pool)
      (codec : (m : ChatMessage) → json.decode (json.encode m) ≡ ok m) (ttl : ℕ) where
    -- Which messages the store has for a session, by the tests for "memory" and "redis", and that
    -- the session has not expired.
    abbrev pub HoldsIf : Bool → Bool → World R P H → String → List ChatMessage → Type 0
    HoldsIf true is_redis w k xs = history_of k w.store ≡ xs
    HoldsIf false true w k xs =
        RedisHolds (from_url settings.redis_url) redis_laws json codec ttl w.redis k xs
    HoldsIf false false w k xs = PostgresHolds pool pool_laws w.postgres k xs

    abbrev pub LiveIf : Bool → Bool → World R P H → String → Type 0
    LiveIf false false w k = PostgresLive pool pool_laws w.postgres k
    LiveIf _ _ w k = Unit

    abbrev pub BuiltHolds : World R P H → String → List ChatMessage → Type 0
    BuiltHolds = HoldsIf (session_backend == "memory") (session_backend == "redis")

    abbrev pub BuiltLive : World R P H → String → Type 0
    BuiltLive = LiveIf (session_backend == "memory") (session_backend == "redis")

    abbrev memory_built : SessionRepository (World R P H)
    memory_built = repository_on (store_view libraries) memory_repository

    abbrev redis_built : SessionRepository (World R P H)
    redis_built =
        repository_on (redis_view libraries)
          (redis_repository (from_url settings.redis_url) json settings.session_ttl_sec)

    abbrev postgres_built : SessionRepository (World R P H)
    postgres_built =
        repository_on (postgres_view libraries)
          (postgres_repository pool settings.session_expiration_sec settings.max_history_turns)

    chosen-KeepsMessages :
        (is_memory is_redis is_postgres : Bool) (repo : SessionRepository (World R P H))
        (refused : Result (SessionRepository (World R P H))) (e : Exn)
        → refused ≡ raised e
        → settings.session_ttl_sec ≡ pos (suc ttl)
        → (if is_memory
            then ok memory_built
            else if is_redis
            then ok redis_built
            else if is_postgres
            then ok postgres_built
            else refused)
          ≡ ok repo
        → KeepsMessages repo (HoldsIf is_memory is_redis) (LiveIf is_memory is_redis)
    chosen-KeepsMessages true is_redis is_postgres repo refused e ends positive built =
        subst (λ r. KeepsMessages r (HoldsIf true is_redis) (LiveIf true is_redis))
          (ok-injective built)
          (KeepsMessages-on (store_view libraries) (λ s w. refl) memory_repository _ _
            memory-KeepsMessages)
    chosen-KeepsMessages false true is_postgres repo refused e ends positive built =
        subst (λ r. KeepsMessages r (HoldsIf false true) (LiveIf false true)) (ok-injective built)
          (subst
            (λ n.
              KeepsMessages
                (repository_on (redis_view libraries)
                  (redis_repository (from_url settings.redis_url) json n))
                (HoldsIf false true) (LiveIf false true))
            (sym positive)
            (KeepsMessages-on (redis_view libraries) (λ s w. refl) _ _ _
              (redis-KeepsMessages (from_url settings.redis_url) redis_laws json codec ttl)))
    chosen-KeepsMessages false false true repo refused e ends positive built =
        subst (λ r. KeepsMessages r (HoldsIf false false) (LiveIf false false)) (ok-injective built)
          (KeepsMessages-on (postgres_view libraries) (λ s w. refl) _ _ _
            (postgres-KeepsMessages pool pool_laws settings.session_expiration_sec
              settings.max_history_turns))
    chosen-KeepsMessages false false false repo refused e ends positive built = cc

    pub build_session_repo-KeepsMessages :
        (repo : SessionRepository (World R P H))
        → settings.session_ttl_sec ≡ pos (suc ttl)
        → build_session_repo libraries settings ≡ ok repo
        → KeepsMessages repo BuiltHolds BuiltLive
    unfolding build_session_repo
    build_session_repo-KeepsMessages repo positive built =
        chosen-KeepsMessages (session_backend == "memory") (session_backend == "redis")
          (session_backend == "postgres") repo _ _ refl positive built

    -- Over the store that the settings choose, whatever order the appends of concurrent requests ran in
    -- and whichever of them failed, from a state where no session has messages: there is one choice of
    -- appends, which has each that was answered with success and of the failed ones any, such that
    -- every session holds the most recent of all its messages of that choice, in that order, and no
    -- others. The time to live is positive, the servers keep their documented laws and the JSON of a
    -- message reads back.
    pub append_each-built :
        (repo : SessionRepository (World R P H)) (n : ℤ) (appends : List Append) (w : World R P H)
        → (positive : settings.session_ttl_sec ≡ pos (suc ttl))
        → (built : build_session_repo libraries settings ≡ ok repo)
        → ((j : String) → BuiltHolds w j [])
        → AreTaken repo
            (build_session_repo-KeepsMessages repo positive built)
            n
            (λ j. [])
            (append_each repo n appends w)
    append_each-built repo n appends w positive built fresh =
        append_each-keeps repo (build_session_repo-KeepsMessages repo positive built) n appends w
          fresh
