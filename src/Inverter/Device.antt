-- ===== src/Inverter/Device.antt =====
-- inverter.go: the methods of Inverter over a Modbus client. Each holds the inverter's lock, so it
-- is one step. A nil map of pending read-backs is an empty one.
pub mod Buffer
pub mod Reading
pub mod Commands
use spf5000es_server.Prelude.{
  ℕ, zero, suc, ◌+◌, ◌-◌, ◌*◌, ◌^◌, ◌%◌, Bool, true, false, ◌&&◌, Option, none, some, List, [], ◌∷◌,
  ◌++◌, ltb, leb, ◌==◌, if◌then◌else◌, length, take, drop, replicate, String, lookup, insert,
  eq_text,
}
use spf5000es_server.Error.{Error, Result, ok, err, message, wrap, config_command, map_err}
use spf5000es_server.Error
use spf5000es_server.Exec.{Exec, pure, raise, lift, ◌>>=◌, ◌>>◌}
use spf5000es_server.Value.{Value, Config, ParseFloat}
use spf5000es_server.Modbus.{Client}
use spf5000es_server.Register.{RegisterDef, RawRegisterValue, WriteValue}
use spf5000es_server.Register.Windows.{
  RegisterWindow, build_register_window, build_register_windows, max_holding_read_registers,
  find_register,
}
use spf5000es_server.Register.Inputs.{input_registers}
use spf5000es_server.Register.Holdings.{holding_registers}
use spf5000es_server.Inverter.{decode_register_value, encode_raw_value}

-- pendingReadback
pub record PendingReadback : Type 0 where
  pub start : ℕ
  pub expected_values : List ℕ

-- What the log says of a write at the next read-back.
pub data Readback : Type 0 where
  not_verifiable verified not_visible : Readback

-- Inverter, with what its client keeps, and what it has logged of read-backs.
pub record Inverter (W : Type 0) : Type 0 where
  pub pending_readbacks : List (String × PendingReadback)
  pub readback_log : List (String × Readback)
  pub world : W

-- A call of the client.
abbrev pub on_client : {W A : Type 0} → Exec W A → Exec (Inverter W) A
on_client m i = let (r, w) = m i.world in (r, record i { world = w })

abbrev pub wrong_count : Error
wrong_count = message "read registers, got another number"

-- copy(registers[start:], values)
unfoldable pub overlay : List ℕ → List ℕ → List ℕ
overlay [] registers = registers
overlay (v ∷ values) [] = []
overlay (v ∷ values) (r ∷ registers) = v ∷ overlay values registers

unfoldable pub copy_at : ℕ → List ℕ → List ℕ → List ℕ
unfolding overlay
copy_at zero values registers = overlay values registers
copy_at (suc start) values [] = []
copy_at (suc start) values (r ∷ registers) = r ∷ copy_at start values registers

-- The reader of a window and the test of the answer's length.
unfoldable pub read_counted :
    {W : Type 0} → (ℕ → ℕ → Exec W (List ℕ)) → RegisterWindow → Exec W (List ℕ)
read_counted reader window = do
  values ← reader window.start window.count
  if length values == window.count then pure values else raise wrong_count

-- readRegisterWindow
unfoldable pub read_register_window :
    {W : Type 0} → (ℕ → ℕ → Exec W (List ℕ)) → RegisterWindow → Exec W (List ℕ)
unfolding read_counted
read_register_window reader window = do
  values ← read_counted reader window
  if window.start == 0 then pure values else pure (replicate window.start 0 ++ values)

-- equalRegisters
unfoldable pub equal_registers : List ℕ → List ℕ → Bool
equal_registers left right = eq_text left right

unfoldable pub readback : List ℕ → PendingReadback → Readback
unfolding equal_registers
readback registers pending =
    let count = length pending.expected_values in
    if ltb (length registers) (pending.start + count)
    then not_verifiable
    else if equal_registers (take count (drop pending.start registers)) pending.expected_values
    then verified
    else not_visible

-- reconcilePendingReadback: what it logs of each key.
unfoldable pub reconcile : List ℕ → List (String × PendingReadback) → List (String × Readback)
unfolding readback
reconcile registers [] = []
reconcile registers ((key, pending) ∷ rest) =
    (key, readback registers pending) ∷ reconcile registers rest

-- The largest end of a window.
unfoldable pub max_end : ℕ → List RegisterWindow → ℕ
max_end end [] = end
max_end end (w ∷ windows) =
    max_end (if ltb end (w.start + w.count) then w.start + w.count else end) windows

-- The loop of readRegisterWindows over its buffer.
unfoldable pub fill_windows :
    {W : Type 0} → (ℕ → ℕ → Exec W (List ℕ)) → List RegisterWindow → List ℕ → Exec W (List ℕ)
unfolding read_counted copy_at
fill_windows reader [] registers = pure registers
fill_windows reader (window ∷ windows) registers = do
  values ← read_counted reader window
  fill_windows reader windows (copy_at window.start values registers)

-- readRegisterWindows
unfoldable pub read_register_windows :
    {W : Type 0} → (ℕ → ℕ → Exec W (List ℕ)) → List RegisterWindow → Exec W (List ℕ)
unfolding fill_windows max_end
read_register_windows reader windows = fill_windows reader windows (replicate (max_end 0 windows) 0)

-- The body of decodeRegisterTable's loop.
unfoldable pub decode_entry : List ℕ → RegisterDef → Result Value
decode_entry registers d =
    map_err (wrap "decode register") (Error.◌>>=◌ (decode_register_value registers d) d.read)

unfoldable pub decode_table_from : List ℕ → List RegisterDef → Config → Result Config
unfolding decode_entry
decode_table_from registers [] info = ok info
decode_table_from registers (d ∷ definitions) info =
    Error.◌>>=◌ (decode_entry registers d)
      (λ value. decode_table_from registers definitions (insert d.key value info))

-- decodeRegisterTable
unfoldable pub decode_register_table : List ℕ → List RegisterDef → Result Config
unfolding decode_table_from
decode_register_table registers definitions = decode_table_from registers definitions []

-- time.Now() with its nanoseconds within the second and its calendar fields year, month, day, hour,
-- minute and second in the local zone; and the timer of sleepContext.
pub record Clock (W : Type 0) : Type 0 where
  pub nanosecond : W → ℕ
  pub date : W → List ℕ
  pub sleep : ℕ → Exec W (Unit {0})

abbrev second : ℕ
second = 10 ^ 9

-- The values that SyncTime writes: at the start of a second.
unfoldable pub sync_values : {W : Type 0} → Clock W → Exec W (List ℕ)
sync_values clock w =
    let wait = second - clock.nanosecond w in
    (if ltb 0 wait && ltb wait second
        then (do clock.sleep wait; λ w'. (ok (clock.date w'), w'))
        else pure (clock.date w))
      w

abbrev pub log_readback : {W : Type 0} → List ℕ → Exec (Inverter W) (Unit {0})
log_readback registers i =
    (ok tt, record i { readback_log = i.readback_log ++ reconcile registers i.pending_readbacks })

abbrev pub writer : RegisterDef → Result WriteValue
writer d = elim d.write [
  | none ↦ err (config_command (message "register is not writeable"))
  | some write ↦ ok write
]

abbrev pub invalid_value : Error → Error
invalid_value e = config_command (wrap "invalid value" e)

abbrev pub note_pending :
    {W : Type 0} → String → RegisterDef → List ℕ → Exec (Inverter W) (Unit {0})
note_pending key d values i = (
  ok tt,
  record i {
    pending_readbacks =
        insert key (record { start = d.start; expected_values = values }) i.pending_readbacks;
  },
)

-- The checks of WriteConfig on a definition: the words to write.
unfoldable pub prepare_for : ParseFloat → Value → RegisterDef → Result (RegisterDef × List ℕ)
prepare_for parse_float value d = Error.◌>>=◌ (writer d) λ write.
    Error.◌>>=◌ (map_err invalid_value (write value)) λ processed.
      Error.◌>>=◌ (map_err invalid_value (encode_raw_value parse_float processed d))
        λ values. ok (d, values)

-- All the checks of WriteConfig before it writes.
unfoldable pub prepare_write : ParseFloat → String → Value → Result (RegisterDef × List ℕ)
unfolding prepare_for
prepare_write parse_float key value = elim (find_register key (holding_registers parse_float)) [
  | none ↦ err (config_command (message "invalid key"))
  | some d ↦ prepare_for parse_float value d
]

-- What WriteConfig makes of the written words: the acknowledged value.
unfoldable pub acknowledge : RegisterDef → List ℕ → Result Value
acknowledge d values =
    Error.◌>>=◌
      (map_err (wrap "decode written register")
        (decode_register_value values (record d { start = 0 })))
      λ raw. map_err (wrap "decode written value") (d.read raw)

module _ {W : Type 0} (client : Client W) (clock : Clock W) (parse_float : ParseFloat) where
  -- SyncTime
  unfoldable pub sync_time : Exec (Inverter W) (Unit {0})
  unfolding sync_values
  sync_time = on_client (client.write_registers 45 (sync_values clock))

  -- ReadStatus
  unfoldable pub read_status : Exec (Inverter W) Config
  unfolding read_register_window decode_register_table
  read_status = do
    registers ← on_client (
        read_register_window client.read_input_registers
          (build_register_window (input_registers parse_float)))
    lift (decode_register_table registers (input_registers parse_float))

  unfoldable pub read_config_body : Exec (Inverter W) Config
  unfolding read_register_windows decode_register_table reconcile
  read_config_body = do
    registers ← on_client (
        read_register_windows client.read_holding_registers
          (build_register_windows (holding_registers parse_float) max_holding_read_registers))
    info ← lift (decode_register_table registers (holding_registers parse_float))
    log_readback registers
    pure info

  -- ReadConfig: the pending read-backs are cleared on every path.
  unfoldable pub read_config : Exec (Inverter W) Config
  unfolding read_config_body
  read_config i = let (r, i') = read_config_body i in (r, record i' { pending_readbacks = [] })

  -- WriteConfig
  unfoldable pub write_config : String → Value → Exec (Inverter W) Value
  unfolding prepare_write acknowledge
  write_config key value = do
    (d, values) ← lift (prepare_write parse_float key value)
    on_client (client.write_registers d.start (pure values))
    note_pending key d values
    lift (acknowledge d values)
