-- ===== src/Error.antt =====
-- Go errors as values: the kinds that the program tells apart by `errors.As` and `errors.Is`,
-- and the ways in which it wraps and joins them. Texts of messages lose their formatted arguments.
-- modbus_client.go (fatalModbusError), inverter.go (configCommandError).
use spf5000es_server.Prelude.{◌≡◌, refl, ◌⊎◌, inl, inr, String, Bool, true, false, ◌||◌}

pub data Error : Type 0 where
  message : String → Error
  -- `context.Canceled` and `context.DeadlineExceeded`
  canceled deadline_exceeded : Error
  fatal_modbus config_command : Error → Error
  -- `fmt.Errorf("…: %w", err)`
  wrap : String → Error → Error
  -- `errors.Join`, and an `Errorf` with two parts
  join : Error → Error → Error

-- errors.As(err, &fatal) for *fatalModbusError
unfoldable pub is_fatal_modbus : Error → Bool
is_fatal_modbus (fatal_modbus e) = true
is_fatal_modbus (config_command e) = is_fatal_modbus e
is_fatal_modbus (wrap s e) = is_fatal_modbus e
is_fatal_modbus (join a b) = is_fatal_modbus a || is_fatal_modbus b
is_fatal_modbus _ = false

-- errors.As(err, &commandErr) for *configCommandError
unfoldable pub is_config_command : Error → Bool
is_config_command (config_command e) = true
is_config_command (fatal_modbus e) = is_config_command e
is_config_command (wrap s e) = is_config_command e
is_config_command (join a b) = is_config_command a || is_config_command b
is_config_command _ = false

-- A value or an error, Go's (T, error).
pub data Result {ℓ} (A : Type ℓ) : Type ℓ where
  ok : A → Result A
  err : Error → Result A

-- `if err != nil { return …, f(err) }`
abbrev pub map_err {ℓ} : {A : Type ℓ} → (Error → Error) → Result A → Result A
map_err f (err x) = err (f x)
map_err f (ok value) = ok value

-- `if err != nil { return …, err }`, and what follows it.
infixl 5 ◌>>=◌
abbrev pub ◌>>=◌ {ℓ κ} : {A : Type ℓ} {B : Type κ} → Result A → (next : A → Result B) → Result B
err x >>= next = err x
ok value >>= next = next value

pub Result-cases {ℓ} :
    {A : Type ℓ} (r : Result A) → ((a : A) × (r ≡ ok a)) ⊎ ((e : Error) × (r ≡ err e))
Result-cases (ok a) = inl (a, refl)
Result-cases (err e) = inr (e, refl)
