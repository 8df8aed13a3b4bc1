-- ===== src/Polling/Queue.antt =====
-- polling.go: the command queue, the errors of drainCommands, and the earliest deadline.
use mathlib.Core.Path.{subst}
use spf5000es_server.Prelude.{
  ℕ, ◌≤◌, ◌≡◌, refl, Bool, false, Option, none, some, List, [], ◌∷◌, ◌++◌, length, length-append,
  ltb, String, lookup, arith, ap, sym, Bool-cases, ◌⊎◌, inl, inr,
}
use spf5000es_server.Error.{Error, Result, ok, err, is_config_command, Result-cases}
use spf5000es_server.Value.{Value}
use spf5000es_server.Exec.{Exec}
use spf5000es_server.Polling.{
  ConfigWriteCommand, PollingService, poll_command_queue_size, queue_config_write, is_pending,
  note_written, drain_command, drain_batch, drain_commands, take_latest, earliest_from,
  earliest_deadline,
}

-- From a queue within its size, the queue stays within it; a command is put at its end, or the
-- queue was full and nothing changes.
pub queue_config_write-bounded :
    {W : Type 0} (key : String) (value : Value) (s : PollingService W)
    → length s.commands ≤ poll_command_queue_size
    → let (r, s') = queue_config_write key value s in
      (length s'.commands ≤ poll_command_queue_size)
      × (((r ≡ ok tt) × (s'.commands ≡ s.commands ++ record { key = key; value = value } ∷ []))
          ⊎ ((length s.commands ≡ poll_command_queue_size) × (s' ≡ s)))
unfolding queue_config_write
queue_config_write-bounded key value s h =
    let new : List ConfigWriteCommand = record { key = key; value = value } ∷ [] in
    elim (Bool-cases (ltb (length s.commands) poll_command_queue_size)) [
      | inl room ↦ rw room (rw (length-append s.commands new) (ground arith), inl (refl, refl))
      | inr full ↦ rw full (h, inr (ground arith, refl))
    ]

module _ {W : Type 0} (write_config : String → Value → Exec W Value) where
  note_written-errors :
      (command : ConfigWriteCommand) (wrote : Bool) (r : Result Value) (s : PollingService W)
      (e : Error)
      → (note_written write_config command wrote r s).0 ≡ err e
      → is_config_command e ≡ false
  unfolding is_config_command
  note_written-errors command wrote (ok v) s e h = cc
  note_written-errors command wrote (err x) s e h = ground arith

  drain_command-errors :
      (command : ConfigWriteCommand) (wrote : Bool) (s : PollingService W) (e : Error)
      → (drain_command write_config command wrote s).0 ≡ err e
      → is_config_command e ≡ false
  unfolding drain_command
  drain_command-errors command wrote s e h =
      elim (Bool-cases (is_pending (lookup command.key s.pending_writes) command.value)) [
        | inl skip ↦ ground (arith, rw (skip, drain_command) at h)
        | inr go ↦ note_written-errors command wrote _ _ e (rw (go, drain_command) at h)
      ]

  drain_batch-errors :
      (commands : List ConfigWriteCommand) (wrote : Bool) (s : PollingService W) (e : Error)
      → (drain_batch write_config commands wrote s).0 ≡ err e
      → is_config_command e ≡ false
  unfolding drain_batch
  drain_batch-errors [] wrote s e h = cc
  drain_batch-errors (c ∷ cs) wrote s e h =
      elim (Result-cases (drain_command write_config c wrote s).0) [
        | inl (wrote', a) ↦
            drain_batch-errors cs wrote' (drain_command write_config c wrote s).1 e
              (rw (a, drain_batch) at h)
        | inr (x, a) ↦ ground (arith, rw (a, drain_batch) at h, drain_command-errors c wrote s x a)
      ]

  -- No error of drainCommands is a command error, so polling does not end because of a rejected
  -- command.
  pub drain_commands-errors :
      (s : PollingService W) (e : Error)
      → (drain_commands write_config s).0 ≡ err e
      → is_config_command e ≡ false
  unfolding drain_commands
  drain_commands-errors s e h =
      drain_batch-errors (take_latest s.commands) false (record s { commands = [] }) e h

-- No deadline that is set is earlier.
abbrev pub NotAfter : Option ℕ → List (Option ℕ) → Type 0
NotAfter earliest [] = Unit
NotAfter earliest (none ∷ deadlines) = NotAfter earliest deadlines
NotAfter none (some d ∷ deadlines) = ⊥
NotAfter (some e) (some d ∷ deadlines) = (e ≤ d) × NotAfter (some e) deadlines

-- The deadline is one of the list.
abbrev pub Among : Option ℕ → List (Option ℕ) → Type 0
Among earliest [] = ⊥
Among earliest (d ∷ deadlines) = (d ≡ earliest) ⊎ Among earliest deadlines

earliest_from-le :
    (e : ℕ) (deadlines : List (Option ℕ))
    → (d : ℕ) × (earliest_from (some e) deadlines ≡ some d)
      × (d ≤ e)
      × NotAfter (some d) deadlines
      × ((d ≡ e) ⊎ Among (some d) deadlines)
unfolding earliest_from
earliest_from-le e [] = (e, refl, omega arith, tt, inl refl)
earliest_from-le e (none ∷ ds) =
    let (d, is, le, all, among) = earliest_from-le e ds in
    (d, is, le, all, elim among [ inl same ↦ inl same | inr later ↦ inr (inr later) ])
earliest_from-le e (some x ∷ ds) = elim (Bool-cases (ltb x e)) [
  | inl less ↦
      let (d, is, le, all, among) = earliest_from-le x ds in
      rw less (
        d,
        is,
        ground arith,
        (le, all),
        elim among [ inl same ↦ inr (inl (ap some (sym same))) | inr later ↦ inr (inr later) ],
      )
  | inr more ↦
      let (d, is, le, all, among) = earliest_from-le e ds in
      rw more (
        d,
        is,
        le,
        (ground arith, all),
        elim among [ inl same ↦ inl same | inr later ↦ inr (inr later) ],
      )
]

-- No deadline that is set is earlier than the one that earliestDeadline gives, and that is one of
-- its arguments or the zero time, which it gives only where none is set.
earliest_deadline-NotAfter :
    (deadlines : List (Option ℕ))
    → NotAfter (earliest_deadline deadlines) deadlines
      × ((earliest_deadline deadlines ≡ none) ⊎ Among (earliest_deadline deadlines) deadlines)
unfolding earliest_deadline earliest_from
earliest_deadline-NotAfter [] = (tt, inl refl)
earliest_deadline-NotAfter (none ∷ ds) =
    let (all, among) = earliest_deadline-NotAfter ds in
    (all, elim among [ inl unset ↦ inl unset | inr later ↦ inr (inr later) ])
earliest_deadline-NotAfter (some x ∷ ds) =
    let (d, is, le, all, among) = earliest_from-le x ds in
    subst (λ o. NotAfter o (some x ∷ ds) × ((o ≡ none) ⊎ Among o (some x ∷ ds))) (sym is)
      ((le, all), inr (elim among [ inl same ↦ inl (ap some (sym same)) | inr later ↦ inr later ]))
