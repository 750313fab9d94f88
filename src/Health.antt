-- ===== src/Health.antt =====
-- app/api/routes/health.py: the readiness of the service. The latencies and the logger's calls are
-- left out; `now` is the text of the current time, and the `/metrics` route is the library's.
pub mod Report
use chatting.Common.{
  ℕ, String, Bool, true, false, ◌&&◌, ◌||◌, Option, none, some, List, [], ◌∷◌, ◌++◌, ◌==◌,
  if◌then◌else◌,
}
use chatting.Common.Dict.{Dict, lookup, insert}
use chatting.Exec.{Exec, Result, ok, raised}

-- What `/ready` says of one dependency. The time of the last success is said of two of them only,
-- and may be `None`.
pub record Probe : Type 0 where
  pub status : String
  pub reason : Option String
  pub last_success_ts : Option (Option String)

-- The state of the dependencies, `app.state.readiness_last_success`, and the counted probes.
pub record Probing (S : Type 0) : Type 0 where
  pub state : S
  pub last_success : Dict String
  pub counted : List (String × String)

-- `bool(await probe_coro())`, where an exception is a failure
abbrev pub is_up : Result Bool → Bool
is_up (ok up) = up
is_up (raised e) = false

abbrev pub reason_for : Result Bool → Option String
reason_for (ok true) = none
reason_for (ok false) = some "health probe returned false"
reason_for (raised e) = some "health probe raised exception"

abbrev pub ok_or_fail : Bool → String
ok_or_fail up = if up then "ok" else "fail"

-- `key in {"llm", "tts"}`
abbrev pub last_for : String → Dict String → Option (Option String)
last_for key cache = if key == "llm" || key == "tts" then some (lookup key cache) else none

abbrev pub cached : Bool → String → String → Dict String → Dict String
cached up key now cache = if up then insert key now cache else cache

-- The settings and the pings that `ready` reads.
pub record Dependencies (S : Type 0) : Type 0 where
  pub bootstrap_complete : Bool
  pub rate_limit_enabled : Bool
  pub llm_ping : Exec S Bool
  pub tts_ping : Exec S Bool
  pub session_ping : Exec S Bool
  pub rate_limiter_ping : Exec S Bool

pub record Readiness : Type 0 where
  pub http_code : ℕ
  pub status : String
  pub dependencies : List (String × Probe)

-- What `_probe_dependency` returns, with its key.
abbrev pub Probed : Type 0
Probed = String × Bool × Probe

abbrev pub all_up : List Probed → Bool
all_up [] = true
all_up ((_, up, _) ∷ probes) = up && all_up probes

abbrev pub any_up : List Probed → Bool
any_up [] = false
any_up ((_, up, _) ∷ probes) = up || any_up probes

abbrev pub listed : List Probed → List (String × Probe)
listed [] = []
listed ((key, _, probe) ∷ probes) = (key, probe) ∷ listed probes

-- The overall status, from `if all(oks)` on.
abbrev pub graded : (all any : Bool) → List (String × Probe) → Readiness
graded all any dependencies =
    if all
    then (record { http_code = 200; status = "ok"; dependencies = dependencies })
    else if any
    then (record { http_code = 200; status = "degraded"; dependencies = dependencies })
    else (record { http_code = 503; status = "fail"; dependencies = dependencies })

unfoldable pub report : List Probed → Readiness
report probes = graded (all_up probes) (any_up probes) (listed probes)

-- A dependency before the bootstrap is complete.
abbrev pub not_yet : Option (Option String) → Probe
not_yet last = record {
  status = "fail";
  reason = some "bootstrap incomplete";
  last_success_ts = last;
}

abbrev pub incomplete : Readiness
incomplete = record {
  http_code = 503;
  status = "fail";
  dependencies =
      ("llm", not_yet (some none))
      ∷ ("tts", not_yet (some none))
      ∷ ("session_store", not_yet none)
      ∷ [];
}

module _ {S : Type 0} where
  abbrev pub to_probe : Dependencies S → List (String × Exec S Bool)
  to_probe d =
      ("llm", d.llm_ping)
      ∷ ("tts", d.tts_ping)
      ∷ ("session_store", d.session_ping)
      ∷ (if d.rate_limit_enabled then ("rate_limiter", d.rate_limiter_ping) ∷ [] else [])

module _ {S : Type 0} (now : S → String) where
  unfoldable pub probe_dependency : String → Exec S Bool → Probing S → Probed × Probing S
  probe_dependency key probe p =
      let (r, s) = probe p.state in
      let cache = cached (is_up r) key (now s) p.last_success in
      (
        (
          key,
          is_up r,
          record {
            status = ok_or_fail (is_up r);
            reason = reason_for r;
            last_success_ts = last_for key cache;
          },
        ),
        record {
          state = s;
          last_success = cache;
          counted = p.counted ++ ((key, if is_up r then "success" else "failure") ∷ []);
        },
      )

  -- The probes are made one after another, in this order.
  unfoldable pub probe_all : List (String × Exec S Bool) → Probing S → List Probed × Probing S
  probe_all [] p = ([], p)
  probe_all ((key, probe) ∷ probes) p =
      let (first, p₁) = probe_dependency key probe p in
      let (others, p₂) = probe_all probes p₁ in (first ∷ others, p₂)

  unfoldable pub ready : Dependencies S → Probing S → Readiness × Probing S
  ready d p =
      let (probes, p') = probe_all (to_probe d) p in
      if d.bootstrap_complete then (report probes, p') else (incomplete, p)
