-- ===== src/Inverter/Device/Commands.antt =====
-- inverter.go: WriteConfig and the read-back of what it wrote.
use spf5000es_server.Prelude.{
  ℕ, ◌+◌, ◌≤◌, ◌≡◌, ◌∙◌, true, inl, inr, some, List, [], ◌∷◌, length, take, drop, String, arith,
  ◌↔◌, eq_text, eq_text→eq, eq_text_refl, pos, Option-cases,
}
use mathlib.Core.Path.{subst}
use spf5000es_server.Error.{Error, ok, err, is_config_command}
use spf5000es_server.Exec.{pure}
use spf5000es_server.Value.{Value, int64, ParseFloat, as_int64}
use spf5000es_server.Modbus.{Client}
use spf5000es_server.Register.{
  RegisterDef, RegisterType, register_uint, register_int, register_char, raw_integer, WriteValue,
}
use spf5000es_server.Register.Codecs.WriteBack.{WritesBack, IsWord}
use spf5000es_server.Register.Windows.{find_register}
use spf5000es_server.Register.Windows.Finding.{find_register-All}
use spf5000es_server.Register.Holdings.{holding_registers}
use spf5000es_server.Register.Holdings.WriteBack.{ShowsWritable, holding_registers-WritesBack}
use spf5000es_server.Inverter.{
  decode_words, decode_register_value, encode_raw_value, encode_kind, fits, split_words, join_words,
}
use spf5000es_server.Inverter.RoundTrip.{at_zero, decode_whole}
use spf5000es_server.Inverter.Device.{
  Inverter, verified, PendingReadback, readback, equal_registers, Clock, prepare_for, prepare_write,
  acknowledge, write_config,
}

-- A pending write is verified exactly when the buffer holds its words at its place.
readback-verified :
    (registers : List ℕ) (pending : PendingReadback)
    → let expected = pending.expected_values in
      (readback registers pending ≡ verified) ↔ (
        (pending.start + length expected ≤ length registers)
        × (take (length expected) (drop pending.start registers) ≡ expected))
unfolding readback equal_registers
readback-verified registers pending =
    let expected = pending.expected_values in
    let found = take (length expected) (drop pending.start registers) in
    (
      (λ h. (ground arith, eq_text→eq found expected (ground arith))),
      (λ (room, same).
          let e : eq_text found expected ≡ true = rw same (eq_text_refl expected) in
          ground (arith, e)),
    )

-- Every error of the checks is a command error, so the command is dropped and polling goes on.
prepared-config_command :
    (parse_float : ParseFloat) (d : RegisterDef) (value : Value) (e : Error)
    → prepare_for parse_float value d ≡ err e
    → is_config_command e ≡ true
unfolding prepare_for is_config_command
prepared-config_command parse_float d value e h = ground arith

pub prepare_write-config_command :
    (parse_float : ParseFloat) (key : String) (value : Value) (e : Error)
    → prepare_write parse_float key value ≡ err e
    → is_config_command e ≡ true
unfolding prepare_write is_config_command
prepare_write-config_command parse_float key value e h =
    elim (Option-cases (find_register key (holding_registers parse_float))) [
      | inl missing ↦ ground (arith, rw (missing, prepare_write) at h)
      | inr (d, is) ↦ prepared-config_command parse_float d value e (rw (is, prepare_write) at h)
    ]

module _ {W : Type 0} (client : Client W) (clock : Clock W) (parse_float : ParseFloat) where
  -- A command that the checks refuse is answered with a command error, and neither the device nor
  -- the pending read-backs change.
  pub write_config-refused :
      (key : String) (value : Value) (e : Error) (i : Inverter W)
      → prepare_write parse_float key value ≡ err e
      → (write_config client clock parse_float key value i ≡ (err e, i))
        × (is_config_command e ≡ true)
  unfolding write_config
  write_config-refused key value e i h =
      (rw (h, write_config), prepare_write-config_command parse_float key value e h)

-- A value that a numeric register of the table shows for a word is written as a word for which the
-- register shows that same value, where the register has a Write function.
pub shown-written :
    (parse_float : ParseFloat) (key : String) (d : RegisterDef) (write : WriteValue) (n : ℕ)
    (v : Value)
    → find_register key (holding_registers parse_float) ≡ some d
    → d.kind ≡ register_uint
    → d.write ≡ some write
    → IsWord n
    → d.read (raw_integer (pos n)) ≡ ok v
    → (m : ℕ) × IsWord m × (write v ≡ ok (int64 (pos m))) × (d.read (raw_integer (pos m)) ≡ ok v)
shown-written parse_float key d write n v found kind is hn shows =
    let back =
      find_register-All ShowsWritable key (holding_registers parse_float) d
        (holding_registers-WritesBack parse_float) found kind in
    subst (WritesBack d.read) is back n v hn shows

encode_kind-one :
    (parse_float : ParseFloat) (kind : RegisterType) (n m : ℕ)
    → kind ≡ register_uint
    → n ≡ 1
    → IsWord m
    → encode_kind kind parse_float n (int64 (pos m)) ≡ ok (m ∷ [])
unfolding fits split_words as_int64
encode_kind-one parse_float register_uint n m kind one h = rw one (ground arith)
encode_kind-one parse_float register_int n m kind one h = cc
encode_kind-one parse_float register_char n m kind one h = cc

decode_words-one :
    (kind : RegisterType) (m : ℕ)
    → kind ≡ register_uint
    → IsWord m
    → decode_words kind (m ∷ []) ≡ ok (raw_integer (pos m))
unfolding decode_words join_words
decode_words-one register_uint m kind h = ground arith
decode_words-one register_int m kind h = cc
decode_words-one register_char m kind h = cc

-- The words that WriteConfig writes for a value that the register showed for a word.
pub prepare_for-shown :
    (parse_float : ParseFloat) (d : RegisterDef) (write : WriteValue) (n : ℕ) (v : Value)
    → d.kind ≡ register_uint
    → d.length ≡ 1
    → d.write ≡ some write
    → WritesBack d.read (some write)
    → IsWord n
    → d.read (raw_integer (pos n)) ≡ ok v
    → (m : ℕ) × (prepare_for parse_float v d ≡ ok (d, m ∷ [])) × (acknowledge d (m ∷ []) ≡ ok v)
unfolding prepare_for acknowledge
prepare_for-shown parse_float d write n v kind one is back hn shows =
    let (m, hm, written, reads) = back n v hn shows in
    let encoded : encode_raw_value parse_float (int64 (pos m)) d ≡ ok (m ∷ []) =
      unfold encode_raw_value in encode_kind-one parse_float d.kind d.length m kind one hm in
    let decoded : decode_register_value (m ∷ []) (at_zero d) ≡ ok (raw_integer (pos m)) =
      decode_whole d (m ∷ []) (omega arith) (omega arith) ∙ decode_words-one d.kind m kind hm in
    (m, ground arith, ground arith)

module _ {W : Type 0} (client : Client W) (clock : Clock W) (parse_float : ParseFloat) where
  write_config-written :
      (key : String) (value : Value) (d : RegisterDef) (words : List ℕ) (i : Inverter W)
      → prepare_write parse_float key value ≡ ok (d, words)
      → (client.write_registers d.start (pure words) i.world).0 ≡ ok tt
      → (write_config client clock parse_float key value i).0 ≡ acknowledge d words
  unfolding write_config
  write_config-written key value d words i prepared sent = rw (prepared, write_config, sent)

  -- Where the Modbus write succeeds, WriteConfig of a value that a one-word unsigned register of
  -- the table, with a Write function, shows for a word is acknowledged with that same value.
  pub write_config-acknowledges :
      (key : String) (d : RegisterDef) (write : WriteValue) (n : ℕ) (v : Value) (i : Inverter W)
      → find_register key (holding_registers parse_float) ≡ some d
      → d.kind ≡ register_uint
      → d.length ≡ 1
      → d.write ≡ some write
      → IsWord n
      → d.read (raw_integer (pos n)) ≡ ok v
      → ((words : List ℕ) → (client.write_registers d.start (pure words) i.world).0 ≡ ok tt)
      → (write_config client clock parse_float key v i).0 ≡ ok v
  unfolding write_config
  write_config-acknowledges key d write n v i found kind one is hn shows sent =
      let back =
        find_register-All ShowsWritable key (holding_registers parse_float) d
          (holding_registers-WritesBack parse_float) found kind in
      let (m, prepared, acknowledged) =
        prepare_for-shown parse_float d write n v kind one is (subst (WritesBack d.read) is back) hn
          shows in
      write_config-written key v d (m ∷ []) i (rw (found, prepare_write) prepared) (sent (m ∷ []))
      ∙ acknowledged
