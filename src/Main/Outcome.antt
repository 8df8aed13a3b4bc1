-- ===== src/Main/Outcome.antt =====
-- main.go: when run ends without an error, and what it leaves.
use spf5000es_server.Prelude.{
  ◌≡◌, refl, sym, ap, true, Option, none, some, List, [], ◌∷◌, ◌++◌, ◌↔◌, inl, inr, All, Bool-cases,
  Option-cases,
}
use mathlib.Core.Path.{subst}
use spf5000es_server.Error.{Error, Result, ok, err}
use spf5000es_server.Config.{AppConfig}
use spf5000es_server.Main.{
  is_canceled, joined, collect_errors, run_service_loops, Parts, Asked, mqtt_stopped,
  inverter_closed, run_body, clean_up, run,
}

-- A loop that ended without an error, or because the context was done.
abbrev pub Peaceful : Option Error → Type 0
Peaceful none = Unit {0}
Peaceful (some e) = is_canceled e ≡ true

some-none : (e : Error) → some e ≡ none → ⊥
some-none e h = cc

collect_errors-some :
    (e : Error) (ended : List (Option Error)) → collect_errors (some e) ended ≡ none → ⊥
unfolding collect_errors
collect_errors-some e [] h = some-none e h
collect_errors-some e (none ∷ ended) h = collect_errors-some e ended h
collect_errors-some e (some x ∷ ended) h = elim (Bool-cases (is_canceled x)) [
  | inl over ↦ collect_errors-some e ended (rw over at h)
  | inr failed ↦ collect_errors-some (joined (some e) x) ended (rw failed at h)
]

collect_errors-Peaceful :
    (ended : List (Option Error)) → collect_errors none ended ≡ none → All Peaceful ended
unfolding collect_errors
collect_errors-Peaceful [] h = tt
collect_errors-Peaceful (none ∷ ended) h = (tt, collect_errors-Peaceful ended h)
collect_errors-Peaceful (some x ∷ ended) h = elim (Bool-cases (is_canceled x)) [
  | inl over ↦ (over, collect_errors-Peaceful ended (rw over at h))
  | inr failed ↦ absurd (collect_errors-some x ended (rw failed at h))
]

Peaceful-collect_errors :
    (ended : List (Option Error)) → All Peaceful ended → collect_errors none ended ≡ none
unfolding collect_errors
Peaceful-collect_errors [] h = refl
Peaceful-collect_errors (none ∷ ended) (h, hs) = Peaceful-collect_errors ended hs
Peaceful-collect_errors (some x ∷ ended) (h, hs) = rw h (Peaceful-collect_errors ended hs)

-- The parts whose answers make the body of run end without an error.
abbrev pub Smooth : Parts → Type 0
Smooth parts =
    (parts.connect ≡ none)
    × (parts.start_polling ≡ none)
    × (parts.start_mqtt ≡ none)
    × All Peaceful parts.loops

run_body-Smooth : (parts : Parts) → (run_body parts).0 ≡ none → Smooth parts
unfolding run_body run_service_loops
run_body-Smooth parts h = elim (Option-cases parts.connect) [
  | inr (e, c) ↦ absurd (some-none e (rw (c, run_body) at h))
  | inl c ↦ elim (Option-cases parts.start_polling) [
    | inr (e, p) ↦ absurd (some-none e (rw (c, p, run_body) at h))
    | inl p ↦ elim (Option-cases parts.start_mqtt) [
      | inr (e, m) ↦ absurd (some-none e (rw (c, p, m, run_body) at h))
      | inl m ↦ (c, p, m, collect_errors-Peaceful parts.loops (rw (c, p, m, run_body) at h))
    ]
  ]
]

Smooth-run_body : (parts : Parts) → Smooth parts → (run_body parts).0 ≡ none
unfolding run_body run_service_loops
Smooth-run_body parts (c, p, m, l) = rw (c, p, m, run_body) (Peaceful-collect_errors parts.loops l)

-- What is left after the deferred function.
abbrev Cleaned : Option Error → Option Error × List Asked → Option Error × List Asked → Type 0
Cleaned close body result =
    ((result.0 ≡ none) ↔ ((body.0 ≡ none) × (close ≡ none)))
    × (result.1 ≡ body.1 ++ mqtt_stopped ∷ inverter_closed ∷ [])

clean_up-Cleaned :
    (close : Option Error) (body : Option Error × List Asked)
    → Cleaned close body (clean_up close body)
clean_up-Cleaned none body = ((λ h. (h, refl), λ h. h.0), refl)
clean_up-Cleaned (some e) body =
    ((λ h. absurd (some-none _ h), λ h. absurd (some-none e h.1)), refl)

run-clean_up :
    (parts : Parts) (config : AppConfig)
    → parts.read_config ≡ ok config
    → run parts ≡ clean_up parts.close (run_body parts)
unfolding run
run-clean_up parts config read =
    ap
      (λ (r : Result AppConfig). elim r as (λ _. Option Error × List Asked) [
        | err e ↦ (some e, [])
        | ok config ↦ clean_up parts.close (run_body parts)
      ])
      read

-- Where readConfig accepts the configuration, run ends without an error exactly when Connect, the
-- two Starts and Close give none and each service loop ended without one or with the context
-- canceled; and whatever the parts answer, the last that run asks is that MQTT be stopped and then
-- the inverter closed.
pub run-Smooth :
    (parts : Parts) (config : AppConfig)
    → parts.read_config ≡ ok config
    → (((run parts).0 ≡ none) ↔ (Smooth parts × (parts.close ≡ none)))
      × ((run parts).1 ≡ (run_body parts).1 ++ mqtt_stopped ∷ inverter_closed ∷ [])
run-Smooth parts config read =
    let ((forth, back), asked) =
      subst (Cleaned parts.close (run_body parts)) (sym (run-clean_up parts config read))
        (clean_up-Cleaned parts.close (run_body parts)) in
    (
      (
        λ h. let (body, close) = forth h in (run_body-Smooth parts body, close),
        λ h. back (Smooth-run_body parts h.0, h.1),
      ),
      asked,
    )
