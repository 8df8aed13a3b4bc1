-- ===== src/Modbus.antt =====
-- modbus_client.go: the client over the modbus package. The package, the clock and the context are
-- an interface; every method holds the client's lock, so it is one step.
pub mod Bytes
pub mod Pacing
use spf5000es_server.Prelude.{
  ℕ, ◌+◌, ◌-◌, ◌*◌, ◌/◌, ◌%◌, ◌^◌, Bool, true, false, ◌||◌, Option, none, some, List, [], ◌∷◌, ltb,
  leb, ◌==◌, if◌then◌else◌, length,
}
use spf5000es_server.Error.{Error, Result, ok, err, fatal_modbus, is_fatal_modbus}
use spf5000es_server.Exec.{Exec, pure, lift, ◌>>=◌, ◌>>◌}

-- The RTU handler and client of grid-x/modbus (responses are bytes, requests take uint16s), and
-- time.Now, the timer of sleepContext and ctx.Err(), all for one context. Times are nanoseconds.
pub record Bus (W : Type 0) : Type 0 where
  pub connect : Exec W (Unit {0})
  pub close : Exec W (Unit {0})
  pub read_input : ℕ → ℕ → Exec W (List ℕ)
  pub read_holding : ℕ → ℕ → Exec W (List ℕ)
  pub write_single : ℕ → ℕ → Exec W (List ℕ)
  pub write_multiple : ℕ → ℕ → List ℕ → Exec W (List ℕ)
  pub now : W → ℕ
  pub sleep : ℕ → Exec W (Unit {0})
  pub ctx_err : W → Option Error

-- registerWriteInterval
abbrev pub register_write_interval : ℕ
register_write_interval = 850 * 10 ^ 6

-- fatalModbusErrorFor, on an error
unfoldable pub fatal_modbus_error_for : Error → Error
fatal_modbus_error_for e = if is_fatal_modbus e then e else fatal_modbus e

-- registersToBytes
unfoldable pub registers_to_bytes : List ℕ → List ℕ
registers_to_bytes [] = []
registers_to_bytes (w ∷ words) = w / 256 % 256 ∷ w % 256 ∷ registers_to_bytes words

-- bytesToRegisters; an odd byte at the end is left out.
unfoldable pub bytes_to_registers : List ℕ → List ℕ
bytes_to_registers [] = []
bytes_to_registers (a ∷ []) = []
bytes_to_registers (a ∷ b ∷ bytes) = (a * 256 + b) ∷ bytes_to_registers bytes

-- ModbusClient: lastRegisterWrite, `none` for the zero time, beside what the bus keeps.
pub record ModbusClient (W : Type 0) : Type 0 where
  pub last_register_write : Option ℕ
  pub world : W

abbrev pub discard : {A : Type 0} → Result A → Result (Unit {0})
discard (ok a) = ok tt
discard (err e) = err e

-- What execute makes of the operation's answer, with what ctx.Err() says after it.
abbrev pub classify : {A : Type 0} → Option Error → Result A → Result A
classify ctx (ok a) = ok a
classify (some e) (err x) = err e
classify none (err x) = err (fatal_modbus_error_for x)

abbrev pub close_result : Result (Unit {0}) → Result (Unit {0})
close_result (ok a) = ok a
close_result (err e) = err (fatal_modbus_error_for e)

-- A call of the bus.
abbrev pub on_bus : {W A : Type 0} → Exec W A → Exec (ModbusClient W) A
on_bus m c = let (r, w) = m c.world in (r, record c { world = w })

module _ {W : Type 0} (bus : Bus W) where
  -- execute
  unfoldable pub execute : {A : Type 0} → Exec W A → Exec (ModbusClient W) A
  execute operation c =
      let (r, w) = operation c.world in (classify (bus.ctx_err w) r, record c { world = w })

  -- Connect
  unfoldable pub connect : Exec (ModbusClient W) (Unit {0})
  unfolding execute
  connect = execute bus.connect

  -- Close
  unfoldable pub close : Exec (ModbusClient W) (Unit {0})
  close c = let (r, c') = on_bus bus.close c in (close_result r, c')

  -- ReadInputRegisters and ReadHoldingRegisters
  unfoldable pub read_input_registers : ℕ → ℕ → Exec (ModbusClient W) (List ℕ)
  unfolding execute
  read_input_registers start count = do
    result ← execute (bus.read_input (start % 2 ^ 16) (count % 2 ^ 16))
    pure (bytes_to_registers result)

  unfoldable pub read_holding_registers : ℕ → ℕ → Exec (ModbusClient W) (List ℕ)
  unfolding execute
  read_holding_registers start count = do
    result ← execute (bus.read_holding (start % 2 ^ 16) (count % 2 ^ 16))
    pure (bytes_to_registers result)

  -- sleepContext
  unfoldable pub sleep_context : ℕ → Exec W (Unit {0})
  sleep_context delay w = if delay == 0 then (ok tt, w) else bus.sleep delay w

  -- The wait before a write: `registerWriteInterval - time.Since(lastRegisterWrite)`, none if that is
  -- not positive.
  unfoldable pub await_turn : Option ℕ → Exec W (Unit {0})
  unfolding sleep_context
  await_turn none w = (ok tt, w)
  await_turn (some last) w = sleep_context (last + register_write_interval - bus.now w) w

  -- The request of WriteRegisters.
  unfoldable pub write_request : ℕ → List ℕ → Exec W (List ℕ)
  unfolding registers_to_bytes
  write_request start (v ∷ []) = bus.write_single (start % 2 ^ 16) v
  write_request start values =
      bus.write_multiple (start % 2 ^ 16) (length values % 2 ^ 16) (registers_to_bytes values)

  -- The request is made, and the time noted whether it succeeded or not.
  unfoldable pub send : ℕ → List ℕ → Exec (ModbusClient W) (Unit {0})
  unfolding execute write_request
  send start values c =
      let (r, c') = execute (write_request start values) c in
      (discard r, record c' { last_register_write = some (bus.now c'.world) })

  -- WriteRegisters: the values are asked for after the wait.
  unfoldable pub write_registers :
      ℕ → Exec (ModbusClient W) (List ℕ) → Exec (ModbusClient W) (Unit {0})
  unfolding await_turn send
  write_registers start values c =
      (do
        on_bus (await_turn c.last_register_write)
        register_values ← values
        send start register_values)
        c

-- The methods of *ModbusClient that Inverter calls.
pub record Client (W : Type 0) : Type 0 where
  pub connect : Exec W (Unit {0})
  pub close : Exec W (Unit {0})
  pub read_input_registers : ℕ → ℕ → Exec W (List ℕ)
  pub read_holding_registers : ℕ → ℕ → Exec W (List ℕ)
  pub write_registers : ℕ → Exec W (List ℕ) → Exec W (Unit {0})

abbrev pub modbus_client : {W : Type 0} → Bus W → Client (ModbusClient W)
modbus_client bus = record {
  connect = connect bus;
  close = close bus;
  read_input_registers = read_input_registers bus;
  read_holding_registers = read_holding_registers bus;
  write_registers = write_registers bus;
}
