-- ===== src/Health/Report.antt =====
-- What the readiness says about the dependencies that it lists.
use chatting.Common.{
  apart, ◌≡◌, ◌↔◌, ◌⊎◌, refl, arith, String, Bool, true, false, ◌&&◌, ◌||◌, List, [], ◌∷◌, if_intro,
  some, none,
}
use chatting.Exec.{Exec, Result, ok, raised}
use chatting.Health.{
  Probe, Probing, Readiness, Dependencies, Probed, all_up, any_up, listed, graded, report, not_yet,
  incomplete, is_up, ok_or_fail, probe_dependency, probe_all, to_probe, ready,
}

-- A dependency is listed with the status "ok".
abbrev IsUp : Probe → Type 0
IsUp probe = probe.status ≡ "ok"

abbrev pub AllUp : List (String × Probe) → Type 0
AllUp [] = Unit
AllUp ((_, probe) ∷ probes) = IsUp probe × AllUp probes

abbrev pub AnyUp : List (String × Probe) → Type 0
AnyUp [] = ⊥
AnyUp ((_, probe) ∷ probes) = IsUp probe ⊎ AnyUp probes

-- The flag of each probe says the same as its status.
abbrev Agree : List Probed → Type 0
Agree [] = Unit
Agree ((_, up, probe) ∷ probes) = (probe.status ≡ ok_or_fail up) × Agree probes

probe_all-Agree :
    {S : Type 0} (now : S → String) (probes : List (String × Exec S Bool)) (p : Probing S)
    → Agree (probe_all now probes p).0
unfolding probe_all probe_dependency
probe_all-Agree now [] p = tt
probe_all-Agree now ((key, probe) ∷ probes) p = (refl, probe_all-Agree now probes _)

-- The listed dependencies are those of the pings, in their order, each with the status "ok" exactly
-- where its ping, run in the state that the pings before it left, returned true.
abbrev pub ArePinged :
    {S : Type 0} → List (String × Exec S Bool) → S → List (String × Probe) → Type 0
ArePinged [] s [] = Unit
ArePinged ((key, ping) ∷ pings) s ((name, probe) ∷ shown) =
    (name ≡ key) × (IsUp probe ↔ ((ping s).0 ≡ ok true)) × ArePinged pings (ping s).1 shown
ArePinged _ s _ = ⊥

is_up-ok : (r : Result Bool) → (ok_or_fail (is_up r) ≡ "ok") ↔ (r ≡ ok true)
is_up-ok (ok true) = (λ h. refl, λ h. refl)
is_up-ok (ok false) = (λ h. absurd (apart "fail" "ok" refl h), λ h. cc)
is_up-ok (raised e) = (λ h. absurd (apart "fail" "ok" refl h), λ h. cc)

probe_all-ArePinged :
    {S : Type 0} (now : S → String) (probes : List (String × Exec S Bool)) (p : Probing S)
    → ArePinged probes p.state (listed (probe_all now probes p).0)
unfolding probe_all probe_dependency
probe_all-ArePinged now [] p = tt
probe_all-ArePinged now ((key, probe) ∷ probes) p =
    (refl, is_up-ok (probe p.state).0, probe_all-ArePinged now probes _)

all_step :
    {R : Type 0} (status : String) (up rest : Bool)
    → status ≡ ok_or_fail up
    → (rest ≡ true) ↔ R
    → ((up && rest) ≡ true) ↔ ((status ≡ "ok") × R)
all_step status true rest h r = ground arith
all_step status false rest h r = ground (arith, apart "fail" "ok" refl)

any_step :
    {R : Type 0} (status : String) (up rest : Bool)
    → status ≡ ok_or_fail up
    → (rest ≡ true) ↔ R
    → ((up || rest) ≡ true) ↔ ((status ≡ "ok") ⊎ R)
any_step status true rest h r = ground arith
any_step status false rest h r = ground (arith, apart "fail" "ok" refl)

all_up-AllUp :
    (probes : List Probed) → Agree probes → (all_up probes ≡ true) ↔ AllUp (listed probes)
all_up-AllUp [] h = ground arith
all_up-AllUp ((key, up, probe) ∷ probes) h =
    all_step probe.status up _ h.0 (all_up-AllUp probes h.1)

any_up-AnyUp :
    (probes : List Probed) → Agree probes → (any_up probes ≡ true) ↔ AnyUp (listed probes)
any_up-AnyUp [] h = ground arith
any_up-AnyUp ((key, up, probe) ∷ probes) h =
    any_step probe.status up _ h.0 (any_up-AnyUp probes h.1)

all→any :
    (first : Probed) (probes : List Probed)
    → all_up (first ∷ probes) ≡ true
    → any_up (first ∷ probes) ≡ true
all→any (key, up, probe) probes h = ground arith

-- The status code and the overall status go by the dependencies that are listed.
abbrev pub IsFaithful : Readiness → Type 0
IsFaithful r =
    ((r.http_code ≡ 200) ↔ AnyUp r.dependencies)
    × ((r.status ≡ "ok") ↔ AllUp r.dependencies)
    × ((r.status ≡ "fail") ↔ (r.http_code ≡ 503))

-- The status codes, over what the listed dependencies amount to.
graded_code :
    {X Y : Type 0} (all any : Bool) (shown : List (String × Probe))
    → (any ≡ true) ↔ X
    → (all ≡ true) ↔ Y
    → (all ≡ true → any ≡ true)
    → (((graded all any shown).http_code ≡ 200) ↔ X)
      × (((graded all any shown).status ≡ "ok") ↔ Y)
      × (((graded all any shown).status ≡ "fail") ↔ ((graded all any shown).http_code ≡ 503))
graded_code true true shown x y h = ground (arith, apart "ok" "fail" refl)
graded_code true false shown x y h = ground (arith, apart "ok" "fail" refl)
graded_code false true shown x y h =
    ground (arith, apart "degraded" "ok" refl, apart "degraded" "fail" refl)
graded_code false false shown x y h = ground (arith, apart "fail" "ok" refl)

graded-dependencies :
    (all any : Bool) (shown : List (String × Probe)) → (graded all any shown).dependencies ≡ shown
graded-dependencies true any shown = refl
graded-dependencies false true shown = refl
graded-dependencies false false shown = refl

report-IsFaithful :
    (first : Probed) (probes : List Probed)
    → Agree (first ∷ probes)
    → IsFaithful (report (first ∷ probes))
unfolding report
report-IsFaithful first probes h =
    rw
      (graded-dependencies (all_up (first ∷ probes)) (any_up (first ∷ probes))
        (listed (first ∷ probes)))
      (graded_code (all_up (first ∷ probes)) (any_up (first ∷ probes)) (listed (first ∷ probes))
        (any_up-AnyUp (first ∷ probes) h) (all_up-AllUp (first ∷ probes) h) (all→any first probes))

report-dependencies : (probes : List Probed) → (report probes).dependencies ≡ listed probes
unfolding report
report-dependencies probes = graded-dependencies (all_up probes) (any_up probes) (listed probes)

probed-IsFaithful :
    {S : Type 0} (now : S → String) (d : Dependencies S) (p : Probing S)
    → IsFaithful (report (probe_all now (to_probe d) p).0)
unfolding probe_all
probed-IsFaithful now d p = report-IsFaithful _ _ (probe_all-Agree now (to_probe d) p)

incomplete-IsFaithful : IsFaithful incomplete
unfolding report
incomplete-IsFaithful =
    report-IsFaithful ("llm", false, not_yet (some none))
      (("tts", false, not_yet (some none)) ∷ ("session_store", false, not_yet none) ∷ [])
      (refl, (refl, (refl, tt)))

-- `/ready` answers 200 exactly where some dependency that it lists has the status "ok", gives the
-- overall status "ok" exactly where all of them have, and "fail" exactly where it answers 503. When
-- the bootstrap is complete the listed dependencies are the probed ones, and each has the status
-- "ok" exactly where its ping returned true; before that nothing is probed.
pub ready-IsFaithful :
    {S : Type 0} (now : S → String) (d : Dependencies S) (p : Probing S)
    → IsFaithful (ready now d p).0
      × (d.bootstrap_complete ≡ true
          → ArePinged (to_probe d) p.state (ready now d p).0.dependencies)
      × (d.bootstrap_complete ≡ false → (ready now d p).1 ≡ p)
unfolding ready
ready-IsFaithful {S} now d p =
    if_intro
      (λ (r : Readiness × Probing S).
        IsFaithful r.0
        × (d.bootstrap_complete ≡ true → ArePinged (to_probe d) p.state r.0.dependencies)
        × (d.bootstrap_complete ≡ false → r.1 ≡ p))
      d.bootstrap_complete _ _
      (λ t. (
        probed-IsFaithful now d p,
        λ complete.
            rw (report-dependencies (probe_all now (to_probe d) p).0)
              (probe_all-ArePinged now (to_probe d) p),
        λ f. ground arith,
      ))
      (λ f. (incomplete-IsFaithful, λ complete. cc, λ incomplete. refl))
