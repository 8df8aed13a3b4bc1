-- ===== src/Polling.antt =====
-- polling.go: the queue of config commands and what PollingService makes of it, and the deadlines.
-- Channels are the lists of what they hold. The zero time is `none`.
pub mod Batch
pub mod Queue
pub mod Run
pub mod Service
use spf5000es_server.Prelude.{
  ℕ, ◌+◌, ◌^◌, ◌%◌, Bool, true, false, not, ◌&&◌, Option, none, some, List, [], ◌∷◌, ◌++◌, map,
  length, ltb, if◌then◌else◌, String, lookup, insert, eqb_ℤ, ◌==◌, eq_text,
}
use spf5000es_server.Error.{Error, Result, ok, err, message, wrap, is_config_command}
use spf5000es_server.Float.{Float64, nan, inf, finite}
use spf5000es_server.Value.{Value, nil, int, int64, uint16, float32, float64, bool, string}
use spf5000es_server.Exec.{Exec, pure, raise}

-- configWriteCommand
pub record ConfigWriteCommand : Type 0 where
  pub key : String
  pub value : Value

-- pollCommandQueueSize
abbrev pub poll_command_queue_size : ℕ
poll_command_queue_size = 32

-- PollingService, beside what the inverter, the sink and the watchdog keep.
pub record PollingService (W : Type 0) : Type 0 where
  pub commands : List ConfigWriteCommand
  pub pending_writes : List (String × Value)
  pub time_sync_requested : Bool
  pub wake : Bool
  pub polling_enabled : Bool
  pub polling_version : ℕ
  pub observed_version : ℕ
  pub started : Bool
  pub config_deadline : Option ℕ
  pub status_deadline : Option ℕ
  pub watchdog_deadline : Option ℕ
  pub time_sync_deadline : Option ℕ
  pub world : W

-- == of float64
unfoldable pub float_eq : Float64 → Float64 → Bool
float_eq (finite a) (finite b) = eqb_ℤ a b
float_eq (inf true) (inf b) = b
float_eq (inf false) (inf b) = not b
float_eq _ _ = false

abbrev pub bool_eq : Bool → Bool → Bool
bool_eq true b = b
bool_eq false b = not b

-- reflect.DeepEqual of dynamic values that are scalars: the type is compared with the value.
unfoldable pub deep_equal : Value → Value → Bool
unfolding float_eq
deep_equal nil nil = true
deep_equal (int a) (int b) = eqb_ℤ a b
deep_equal (int64 a) (int64 b) = eqb_ℤ a b
deep_equal (uint16 a) (uint16 b) = a == b
deep_equal (float32 a) (float32 b) = float_eq a b
deep_equal (float64 a) (float64 b) = float_eq a b
deep_equal (bool a) (bool b) = bool_eq a b
deep_equal (string a) (string b) = eq_text a b
deep_equal _ _ = false

-- The first loop of takeLatestConfigCommands: commandOrder and latestCommands.
unfoldable pub collect :
    List ConfigWriteCommand
    → List String
    → List (String × ConfigWriteCommand)
    → List String × List (String × ConfigWriteCommand)
collect [] order latest = (order, latest)
collect (command ∷ commands) order latest =
    collect commands
      (elim (lookup command.key latest) [ none ↦ order ++ command.key ∷ [] | some earlier ↦ order ])
      (insert command.key command latest)

-- latestCommands[key], the zero command where it is missing.
abbrev pub or_zero : Option ConfigWriteCommand → ConfigWriteCommand
or_zero none = record { key = ""; value = nil }
or_zero (some command) = command

-- takeLatestConfigCommands, on the commands that the channel holds.
unfoldable pub take_latest : List ConfigWriteCommand → List ConfigWriteCommand
unfolding collect
take_latest commands =
    let (order, latest) = collect commands [] [] in map (λ key. or_zero (lookup key latest)) order

-- The test for a value that is written and waits for its read-back.
abbrev pub is_pending : Option Value → Value → Bool
is_pending none value = false
is_pending (some pending) value = deep_equal pending value

module _ {W : Type 0} where
  -- SetPollingEnabled
  unfoldable pub set_polling_enabled : Bool → PollingService W → PollingService W
  set_polling_enabled enabled s = record s {
    polling_enabled = enabled;
    polling_version =
        if enabled && not s.polling_enabled
        then (s.polling_version + 1) % 2 ^ 64
        else s.polling_version;
    wake = true;
  }

  -- RequestTimeSync: the channel holds one request.
  unfoldable pub request_time_sync : PollingService W → PollingService W
  request_time_sync s = record s { time_sync_requested = true; wake = true }

  -- QueueConfigWrite
  unfoldable pub queue_config_write : String → Value → Exec (PollingService W) (Unit {0})
  queue_config_write key value s =
      if ltb (length s.commands) poll_command_queue_size
      then (
        ok tt,
        record s { commands = s.commands ++ record { key = key; value = value } ∷ []; wake = true },
      )
      else (err (message "inverter command queue is full"), s)

module _ {W : Type 0} (write_config : String → Value → Exec W Value) where
  -- What drainCommands does with an answer of WriteConfig, and whether a command was written.
  abbrev pub note_written : ConfigWriteCommand → Bool → Result Value → Exec (PollingService W) Bool
  note_written command wrote (ok value) s =
      (ok true, record s { pending_writes = insert command.key command.value s.pending_writes })
  note_written command wrote (err e) s =
      if is_config_command e then (ok wrote, s) else (err (wrap "inverter task config_write" e), s)

  -- A round of drainCommands' loop.
  unfoldable pub drain_command : ConfigWriteCommand → Bool → Exec (PollingService W) Bool
  unfolding deep_equal
  drain_command command wrote s =
      if is_pending (lookup command.key s.pending_writes) command.value
      then (ok wrote, s)
      else (let (answer, w) = write_config command.key command.value s.world in
          note_written command wrote answer (record s { world = w }))

  unfoldable pub drain_batch : List ConfigWriteCommand → Bool → Exec (PollingService W) Bool
  unfolding drain_command
  drain_batch [] wrote s = (ok wrote, s)
  drain_batch (command ∷ commands) wrote s =
      let (r, s') = drain_command command wrote s in
      elim r [ ok wrote' ↦ drain_batch commands wrote' s' | err e ↦ (err e, s') ]

  -- drainCommands: the channel is emptied first.
  unfoldable pub drain_commands : Exec (PollingService W) Bool
  unfolding take_latest drain_batch
  drain_commands s = drain_batch (take_latest s.commands) false (record s { commands = [] })

-- earliestDeadline: the loop with the earliest one so far.
unfoldable pub earliest_from : Option ℕ → List (Option ℕ) → Option ℕ
earliest_from earliest [] = earliest
earliest_from earliest (none ∷ deadlines) = earliest_from earliest deadlines
earliest_from none (some deadline ∷ deadlines) = earliest_from (some deadline) deadlines
earliest_from (some earliest) (some deadline ∷ deadlines) =
    earliest_from (some (if ltb deadline earliest then deadline else earliest)) deadlines

unfoldable pub earliest_deadline : List (Option ℕ) → Option ℕ
unfolding earliest_from
earliest_deadline deadlines = earliest_from none deadlines
