-- ===== src/Witnesses.antt =====
-- inverter.go on concrete data: an inverter whose registers hold their own numbers.
pub mod Wire
pub mod Recovering
pub mod Polls
pub mod Broker
pub mod Connections
pub mod Settings
pub mod Together
use spf5000es_server.Prelude.{
  ℕ, zero, suc, ◌+◌, ◌-◌, ◌*◌, ◌/◌, ◌%◌, ◌^◌, ◌≤◌, ◌<◌, ◌≡◌, ◌≢◌, refl, Bool, true, false, Option,
  none, some, List, [], ◌∷◌, ◌↔◌, ◌⊎◌, All, arith, ℤ, pos, negsuc, length, take, drop, get_or,
  codes, Text, if◌then◌else◌, abs, eq_string, min, ◌==◌,
}
use spf5000es_server.Error.{
  Error, Result, ok, err, message, fatal_modbus, config_command, wrap, is_config_command,
  is_fatal_modbus,
}
use spf5000es_server.Exec.{Exec, pure, raise}
use spf5000es_server.Float.{of_int, div}
use spf5000es_server.Value.{Value, int64, float64, string, ParseFloat, as_int64}
use spf5000es_server.Modbus.{
  Bus, ModbusClient, Client, register_write_interval, await_turn, write_registers, execute,
  registers_to_bytes, bytes_to_registers, sleep_context,
}
use spf5000es_server.Modbus.Bytes.{execute-errors}
use spf5000es_server.Modbus.Pacing.{TimerWaits, write_registers-paced, client_at, after_wait}
use spf5000es_server.Register.{
  RegisterDef, register, register_uint, register_int, register_char, raw_integer, raw_text,
  WriteValue, raw_as_float64,
}
use spf5000es_server.Register.Codecs.{scaled, scale_write, identity}
use spf5000es_server.Register.Holdings.{holding_registers}
use spf5000es_server.Register.Windows.{
  build_register_window, build_register_windows, find_register, grow, split_window,
}
use spf5000es_server.Register.Windows.Tiling.{
  Tiles, Covers, IsNonempty, build_register_window-Covers, build_register_windows-Tiles,
}
use spf5000es_server.Inverter.{
  decode_register_value, encode_raw_value, split_words, join_words, fits, pack_bytes, decode_words,
  decode_register_string, byte_at, string_length, string_bytes,
}
use spf5000es_server.Utf8.{valid_string}
use spf5000es_server.Inverter.RoundTrip.{
  at_zero, decode-encode_number, decode-encode_text, decode_register_value-valid,
}
use spf5000es_server.Inverter.Device.{
  Inverter, PendingReadback, readback, verified, Clock, write_config, prepare_write, prepare_for,
  acknowledge, read_register_windows,
}
use spf5000es_server.Inverter.Device.Buffer.{segment}
use spf5000es_server.Inverter.Device.Reading.{DecodesFrom, read_table-DecodesFrom}
use spf5000es_server.Inverter.Device.Commands.{
  write_config-acknowledges, write_config-refused, shown-written,
}
use spf5000es_server.Recovery.{
  RecoveryConfig, Event, closed, connected, operated, reset, slept, notified, History, Surroundings,
  RecoveringInverter, execute_with_recovery, reconnect_loop,
}
use spf5000es_server.Recovery.Reconnect.{connects, resets}
use spf5000es_server.Recovery.Reset.{
  ResetsRightly, execute_with_recovery-ResetsRightly, execute_with_recovery-Bounded,
}
use spf5000es_server.Recovery.Success.{Validated, execute_with_recovery-Validated}

abbrev pub no_float : ParseFloat
no_float s = err (message "not a number")

-- A device of registers that hold their numbers.
abbrev pub own_number : ℕ → ℕ
own_number i = i

abbrev pub desk_read : ℕ → ℕ → Exec ℕ (List ℕ)
desk_read start count w = (ok (segment own_number start count), suc w)

abbrev desk_write : ℕ → Exec ℕ (List ℕ) → Exec ℕ (Unit {0})
desk_write start values w = (ok tt, (values w).1)

abbrev pub desk_client : Client ℕ
desk_client = record {
  connect = pure tt;
  close = pure tt;
  read_input_registers = desk_read;
  read_holding_registers = desk_read;
  write_registers = desk_write;
}

abbrev pub desk_clock : Clock ℕ
desk_clock = record { nanosecond = λ w. 0; date = λ w. []; sleep = λ d w. (ok tt, w + d) }

abbrev pub desk_inverter : Inverter ℕ
desk_inverter = record { pending_readbacks = []; readback_log = []; world = 0 }

abbrev pub bulk_charge_volt : RegisterDef
bulk_charge_volt =
    register "BulkChargeVolt" 35 1 register_uint (scaled no_float 10)
      (some (scale_write no_float 10))

abbrev pub bulk_value : Value
bulk_value = float64 (div (of_int (pos 564)) 10)

bulk_found : find_register "BulkChargeVolt" (holding_registers no_float) ≡ some bulk_charge_volt
unfolding find_register holding_registers
bulk_found = refl

bulk_shows : scaled no_float 10 (raw_integer (pos 564)) ≡ ok bulk_value
unfolding scaled raw_as_float64
bulk_shows = refl

write_config-acknowledges_example :
    (write_config desk_client desk_clock no_float "BulkChargeVolt" bulk_value desk_inverter).0
    ≡ ok bulk_value
write_config-acknowledges_example =
    write_config-acknowledges desk_client desk_clock no_float "BulkChargeVolt" bulk_charge_volt
      (scale_write no_float 10) 564 bulk_value desk_inverter bulk_found refl refl refl (omega arith)
      bulk_shows (λ words. refl)

shown-written_example :
    (m : ℕ) × (m < 2 ^ 16)
    × (scale_write no_float 10 bulk_value ≡ ok (int64 (pos m)))
    × (scaled no_float 10 (raw_integer (pos m)) ≡ ok bulk_value)
shown-written_example =
    shown-written no_float "BulkChargeVolt" bulk_charge_volt (scale_write no_float 10) 564
      bulk_value bulk_found refl refl (omega arith) bulk_shows

abbrev no_key : Error
no_key = config_command (message "invalid key")

no_such_key : prepare_write no_float "Nothing" (int64 (pos 1)) ≡ err no_key
unfolding prepare_write find_register holding_registers
no_such_key = refl

write_config-refused_example :
    (write_config desk_client desk_clock no_float "Nothing" (int64 (pos 1)) desk_inverter
      ≡ (err no_key, desk_inverter))
    × (is_config_command no_key ≡ true)
write_config-refused_example =
    write_config-refused desk_client desk_clock no_float "Nothing" (int64 (pos 1)) no_key
      desk_inverter no_such_key

abbrev two_volts : PendingReadback
two_volts = record { start = 1; expected_values = 564 ∷ 540 ∷ [] }

abbrev pub serial_number : RegisterDef
serial_number = register "SerialNumber" 23 5 register_char identity none

abbrev pub small_table : List RegisterDef
small_table = bulk_charge_volt ∷ serial_number ∷ []

read_table-DecodesFrom_example :
    (buffer : List ℕ) × ((read_register_windows desk_read
        (build_register_windows small_table 4)
        0).0
      ≡ ok buffer)
    × All (DecodesFrom own_number buffer) small_table
read_table-DecodesFrom_example =
    read_table-DecodesFrom own_number desk_read small_table 4 0 (λ start count w. refl)
      (omega arith) (λ h. cc) (omega arith, (omega arith, tt))

build_register_window-Covers_example : All (Covers (build_register_window small_table)) small_table
build_register_window-Covers_example =
    build_register_window-Covers small_table (omega arith, (omega arith, tt))

build_register_windows-Tiles_example :
    let window = build_register_window small_table in
    Tiles 4 window.start (window.start + window.count) (build_register_windows small_table 4)
build_register_windows-Tiles_example = build_register_windows-Tiles small_table 4 (omega arith)
