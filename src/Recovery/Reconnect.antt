-- ===== src/Recovery/Reconnect.antt =====
-- recovery.go: the rounds of the reconnect loop.
use spf5000es_server.Prelude.{
  ℕ, zero, suc, ◌+◌, ◌≤◌, ◌≡◌, ◌≢◌, refl, false, Option, none, some, [], ◌∷◌, ℤ, ◌≤ℤ◌, leb_ℤ,
  leb→le, arith, inl, inr, Bool-cases, Option-cases,
}
use spf5000es_server.Error.{Error, Result, ok, err, is_fatal_modbus, Result-cases}
use spf5000es_server.Recovery.{
  RecoveryConfig, closed, connected, operated, reset, slept, notified, History, Surroundings,
  reconnect_loop, doubled, min_ℤ,
}
use spf5000es_server.Recovery

-- How often the reconnect loop called Connect.
unfoldable pub connects : History → ℕ
connects [] = 0
connects (connected ∷ h) = suc (connects h)
connects (_ ∷ h) = connects h

-- How often the operation was run.
unfoldable pub operations : History → ℕ
operations [] = 0
operations (operated ∷ h) = suc (operations h)
operations (_ ∷ h) = operations h

-- From one history to a later one, at most so many reconnects, each with a run of the operation at most.
abbrev pub Within : ℕ → History → History → Type 0
Within n h h' =
    (connects h' ≤ connects h + n) × (operations h' + connects h ≤ operations h + connects h')

-- How often the privileged reset was asked for.
unfoldable pub resets : History → ℕ
resets [] = 0
resets (reset ∷ h) = suc (resets h)
resets (_ ∷ h) = resets h

-- Every delay that was slept is at most a bound.
abbrev pub SleepsWithin : ℤ → History → Type 0
SleepsWithin bound [] = Unit
SleepsWithin bound (slept d ∷ h) = (d ≤ℤ bound) × SleepsWithin bound h
SleepsWithin bound (closed ∷ h) = SleepsWithin bound h
SleepsWithin bound (connected ∷ h) = SleepsWithin bound h
SleepsWithin bound (operated ∷ h) = SleepsWithin bound h
SleepsWithin bound (reset ∷ h) = SleepsWithin bound h
SleepsWithin bound (notified b ∷ h) = SleepsWithin bound h

-- The history of a round: up to the delay, up to Connect, and up to the validation.
abbrev waited : ℤ → History → History
waited delay h = slept delay ∷ closed ∷ h

abbrev tried : ℤ → History → History
tried delay h = connected ∷ waited delay h

abbrev validated : ℤ → History → History
validated delay h = operated ∷ tried delay h

min_ℤ-le : (a b : ℤ) → min_ℤ a b ≤ℤ b
min_ℤ-le a b = elim (Bool-cases (leb_ℤ a b)) [
  | inl e ↦ rw e (leb→le _ _ e)
  | inr e ↦ rw e (omega arith)
]

module _ {A : Type 0} (env : Surroundings A) (config : RecoveryConfig) where
  abbrev loop : ℕ → ℤ → Option Error → History → Result (Option A) × History
  loop = reconnect_loop env config

  abbrev longer : ℤ → ℤ
  longer = Recovery.longer env config

  -- How a round of the loop ends.
  data Round (n : ℕ) (delay : ℤ) (last : Option Error) (h : History) : Type 0 where
    interrupted :
        (e : Error) → loop (suc n) delay last h ≡ (err e, waited delay h) → Round n delay last h
    refused :
        (e : Error)
        → is_fatal_modbus e ≡ false
        → loop (suc n) delay last h ≡ (err e, validated delay h)
        → Round n delay last h
    answered :
        (a : A)
        → env.operation (tried delay h) ≡ ok a
        → loop (suc n) delay last h ≡ (ok (some a), validated delay h)
        → Round n delay last h
    unconnected :
        (e : Error)
        → loop (suc n) delay last h ≡ loop n (longer delay) (some e) (tried delay h)
        → Round n delay last h
    failed :
        (e : Error)
        → loop (suc n) delay last h ≡ loop n (longer delay) (some e) (validated delay h)
        → Round n delay last h

  validation_round :
      (n : ℕ) (delay : ℤ) (last : Option Error) (h : History)
      → env.sleep delay (closed ∷ h) ≡ none
      → env.connect (waited delay h) ≡ none
      → Round n delay last h
  unfolding reconnect_loop
  validation_round n delay last h awake up = elim (Result-cases (env.operation (tried delay h))) [
    | inl (a, e) ↦ answered a e (rw (awake, reconnect_loop) (rw up (rw e)))
    | inr (x, e) ↦ elim (Bool-cases (is_fatal_modbus x)) [
      | inl fatal ↦ failed x (rw (awake, reconnect_loop) (rw up (rw e (rw fatal))))
      | inr mild ↦ refused x mild (rw (awake, reconnect_loop) (rw up (rw e (rw mild))))
    ]
  ]

  round : (n : ℕ) (delay : ℤ) (last : Option Error) (h : History) → Round n delay last h
  unfolding reconnect_loop
  round n delay last h = elim (Option-cases (env.sleep delay (closed ∷ h))) [
    | inr (x, e) ↦ interrupted x (rw (e, reconnect_loop))
    | inl awake ↦ elim (Option-cases (env.connect (waited delay h))) [
      | inr (x, e) ↦ unconnected x (rw (awake, reconnect_loop) (rw e))
      | inl up ↦ validation_round n delay last h awake up
    ]
  ]

  pub reconnect_loop-Within :
      (attempts : ℕ) (delay : ℤ) (last : Option Error) (h : History)
      → Within attempts h (loop attempts delay last h).1
  unfolding connects operations
  reconnect_loop-Within zero delay last h = unfold reconnect_loop in (omega arith, omega arith)
  reconnect_loop-Within (suc n) delay last h = elim (round n delay last h) [
    | interrupted e p ↦ rw p (omega arith, omega arith)
    | refused e mild p ↦ rw p (omega arith, omega arith)
    | answered a e p ↦ rw p (omega arith, omega arith)
    | unconnected e p ↦
        let (c, o) = reconnect_loop-Within n (longer delay) (some e) (tried delay h) in
        rw p (omega (arith, c), omega (arith, o))
    | failed e p ↦
        let (c, o) = reconnect_loop-Within n (longer delay) (some e) (validated delay h) in
        rw p (omega (arith, c), omega (arith, o))
  ]

  -- The loop itself never asks for a reset.
  pub resets-reconnect_loop :
      (attempts : ℕ) (delay : ℤ) (last : Option Error) (h : History)
      → resets (loop attempts delay last h).1 ≡ resets h
  unfolding resets
  resets-reconnect_loop zero delay last h = unfold reconnect_loop in refl
  resets-reconnect_loop (suc n) delay last h = elim (round n delay last h) [
    | interrupted e p ↦ rw p refl
    | refused e mild p ↦ rw p refl
    | answered a e p ↦ rw p refl
    | unconnected e p ↦ rw p (resets-reconnect_loop n (longer delay) (some e) (tried delay h))
    | failed e p ↦ rw p (resets-reconnect_loop n (longer delay) (some e) (validated delay h))
  ]

  longer-within : (delay : ℤ) → longer delay ≤ℤ config.max_backoff
  longer-within delay = min_ℤ-le (doubled delay) config.max_backoff

  -- From a delay within the maximum, and a history whose delays are within it, the reconnect loop
  -- never sleeps longer than the maximum.
  SleepsWithin-reconnect_loop :
      (attempts : ℕ) (delay : ℤ) (last : Option Error) (h : History)
      → delay ≤ℤ config.max_backoff
      → SleepsWithin config.max_backoff h
      → SleepsWithin config.max_backoff (loop attempts delay last h).1
  SleepsWithin-reconnect_loop zero delay last h hd hs = unfold reconnect_loop in hs
  SleepsWithin-reconnect_loop (suc n) delay last h hd hs = elim (round n delay last h) [
    | interrupted e p ↦ rw p (hd, hs)
    | refused e mild p ↦ rw p (hd, hs)
    | answered a e p ↦ rw p (hd, hs)
    | unconnected e p ↦ rw p (
        SleepsWithin-reconnect_loop n (longer delay) (some e) (tried delay h) (longer-within delay)
          (hd, hs))
    | failed e p ↦ rw p (
        SleepsWithin-reconnect_loop n (longer delay) (some e) (validated delay h)
          (longer-within delay) (hd, hs))
  ]

  -- What a result of the loop rests on: the operation's last answer.
  abbrev pub Answered : Result (Option A) × History → Type 0
  Answered (ok (some a), operated ∷ h) = env.operation h ≡ ok a
  Answered (ok _, _) = ⊥
  Answered (err e, h) = Unit

  -- With an attempt or more the loop succeeds only with an answer that the operation gave last.
  pub reconnect_loop-Answered :
      (attempts : ℕ) (delay : ℤ) (last : Option Error) (h : History)
      → (attempts ≡ zero → last ≢ none)
      → Answered (loop attempts delay last h)
  reconnect_loop-Answered zero delay none h tried_once = absurd (tried_once refl refl)
  reconnect_loop-Answered zero delay (some e) h tried_once = unfold reconnect_loop in tt
  reconnect_loop-Answered (suc n) delay last h tried_once = elim (round n delay last h) [
    | interrupted e p ↦ rw p tt
    | refused e mild p ↦ rw p tt
    | answered a e p ↦ rw p e
    | unconnected e p ↦
        rw p (reconnect_loop-Answered n (longer delay) (some e) (tried delay h) (λ _ q. cc))
    | failed e p ↦
        rw p (reconnect_loop-Answered n (longer delay) (some e) (validated delay h) (λ _ q. cc))
  ]
