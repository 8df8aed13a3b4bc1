-- ===== src/Modbus/Bytes.antt =====
-- modbus_client.go: the big-endian bytes of registers, and how errors of the bus are classified.
use spf5000es_server.Prelude.{
  ℕ, ◌*◌, ◌^◌, ◌<◌, ◌≡◌, refl, List, [], ◌∷◌, All, arith, Option, none, some, true, ◌⊎◌, inl, inr,
  length,
}
use spf5000es_server.Error.{Error, Result, ok, err, is_fatal_modbus}
use spf5000es_server.Exec.{Exec}
use spf5000es_server.Modbus.{
  Bus, ModbusClient, registers_to_bytes, bytes_to_registers, execute, classify,
  fatal_modbus_error_for,
}

abbrev pub IsWord : ℕ → Type 0
IsWord w = w < 2 ^ 16

-- Registers below 2 ^ 16 are read back from their bytes.
bytes_to_registers-registers_to_bytes :
    (words : List ℕ) → All IsWord words → bytes_to_registers (registers_to_bytes words) ≡ words
unfolding bytes_to_registers registers_to_bytes
bytes_to_registers-registers_to_bytes [] h = refl
bytes_to_registers-registers_to_bytes (w ∷ words) h =
    ground (arith, bytes_to_registers-registers_to_bytes words h.1)

pub length-registers_to_bytes :
    (words : List ℕ) → length (registers_to_bytes words) ≡ 2 * length words
unfolding registers_to_bytes
length-registers_to_bytes [] = omega arith
length-registers_to_bytes (w ∷ words) = omega (arith, length-registers_to_bytes words)

fatal_modbus_error_for-fatal : (e : Error) → is_fatal_modbus (fatal_modbus_error_for e) ≡ true
unfolding fatal_modbus_error_for is_fatal_modbus
fatal_modbus_error_for-fatal e = ground arith

classify-errors :
    {A : Type 0} (ctx : Option Error) (r : Result A) (e : Error)
    → classify ctx r ≡ err e
    → (ctx ≡ some e) ⊎ ((ctx ≡ none) × (is_fatal_modbus e ≡ true))
classify-errors ctx (ok a) e h = cc
classify-errors (some x) (err y) e h = inl (cc)
classify-errors none (err y) e h = inr (refl, ground (arith, fatal_modbus_error_for-fatal y))

-- An error of a call of the bus is the context's where the context is done, and else a fatal
-- Modbus error.
pub execute-errors :
    {W A : Type 0} (bus : Bus W) (operation : Exec W A) (c : ModbusClient W) (e : Error)
    → (execute bus operation c).0 ≡ err e
    → (bus.ctx_err (operation c.world).1 ≡ some e)
      ⊎ ((bus.ctx_err (operation c.world).1 ≡ none) × (is_fatal_modbus e ≡ true))
unfolding execute
execute-errors bus operation c e h =
    classify-errors (bus.ctx_err (operation c.world).1) (operation c.world).0 e h
