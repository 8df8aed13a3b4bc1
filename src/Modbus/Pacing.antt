-- ===== src/Modbus/Pacing.antt =====
-- modbus_client.go: the wait between writes of registers.
use spf5000es_server.Prelude.{ℕ, ◌+◌, ◌-◌, ◌≤◌, ◌≡◌, refl, List, arith, some, ◌⊎◌, inl, inr}
use spf5000es_server.Error.{Error, ok, err, Result-cases}
use spf5000es_server.Exec.{Exec, ◌>>=◌}
use spf5000es_server.Modbus.{
  Bus, ModbusClient, register_write_interval, await_turn, send, write_registers,
}

module _ {W : Type 0} (bus : Bus W) where
  -- A timer fires no earlier than it was set to.
  abbrev pub TimerWaits : Type 0
  TimerWaits =
      (delay : ℕ) (w : W)
      → (bus.sleep delay w).0 ≡ ok tt
      → bus.now w + delay ≤ bus.now (bus.sleep delay w).1

  -- After the wait the interval since the last write is over.
  await_turn-over :
      (last : ℕ) (w : W)
      → TimerWaits
      → (await_turn bus (some last) w).0 ≡ ok tt
      → last + register_write_interval ≤ bus.now (await_turn bus (some last) w).1
  unfolding await_turn
  await_turn-over last w timer h =
      ground (arith, timer (last + register_write_interval - bus.now w) w)

-- What WriteRegisters does once its turn has come.
abbrev pub after_wait :
    {W : Type 0} → Bus W → ℕ → Exec (ModbusClient W) (List ℕ) → Exec (ModbusClient W) (Unit {0})
after_wait bus start values = do register_values ← values; send bus start register_values

abbrev pub client_at : {W : Type 0} → ℕ → W → ModbusClient W
client_at last w = record { last_register_write = some last; world = w }

module _ {W : Type 0} (bus : Bus W) (start : ℕ) (values : Exec (ModbusClient W) (List ℕ)) (last : ℕ)
    (w : W) where
  -- With a timer that does not fire early, after an earlier write WriteRegisters either gives up
  -- in the wait, with its error and without a request, or goes on at a time when the interval
  -- since that write is over.
  pub write_registers-paced :
      TimerWaits bus
      → let (turn, w') = await_turn bus (some last) w in
        ((e : Error) × (turn ≡ err e)
          × (write_registers bus start values (client_at last w) ≡ (err e, client_at last w')))
        ⊎ ((last + register_write_interval ≤ bus.now w')
            × (write_registers bus start values (client_at last w)
                ≡ after_wait bus start values (client_at last w')))
  unfolding write_registers
  write_registers-paced timer = elim (Result-cases (await_turn bus (some last) w).0) [
    | inl (a, e) ↦ inr (await_turn-over bus last w timer e, rw (e, write_registers))
    | inr (x, e) ↦ inl (x, e, rw (e, write_registers))
  ]

-- A request is noted at the time when it was answered, also one that failed.
pub send-notes_time :
    {W : Type 0} (bus : Bus W) (start : ℕ) (values : List ℕ) (c : ModbusClient W)
    → let c' = (send bus start values c).1 in c'.last_register_write ≡ some (bus.now c'.world)
unfolding send
send-notes_time bus start values c = refl
