-- ===== src/Witnesses/Wire.antt =====
-- Codecs, the bus and the clock on concrete data.
use spf5000es_server.Prelude.{
  ℕ, ◌+◌, ◌*◌, ◌^◌, ◌≤◌, ◌<◌, ◌≡◌, refl, true, none, some, List, [], ◌∷◌, ◌⊎◌, arith, pos, negsuc,
  codes, abs,
}
use spf5000es_server.Error.{Error, ok, err, message, fatal_modbus, is_fatal_modbus}
use spf5000es_server.Exec.{pure, raise}
use spf5000es_server.Value.{int64, float64, string, ParseFloat, as_int64}
use spf5000es_server.Modbus.{
  fatal_modbus_error_for, Bus, register_write_interval, await_turn, write_registers, execute,
}
use spf5000es_server.Modbus.Bytes.{execute-errors}
use spf5000es_server.Modbus.Pacing.{write_registers-paced, client_at, after_wait}
use spf5000es_server.Register.{
  RegisterDef, register, register_int, register_char, raw_integer, raw_text,
}
use spf5000es_server.Register.Codecs.{identity}
use spf5000es_server.Float.{finite, ulp_of_one, signed, is_negative}
use spf5000es_server.Float.Wholes.{distance}
use spf5000es_server.Inverter.Scalars.{finite_scalar-Nearest}
use spf5000es_server.Inverter.{
  finite_scalar, decode_register_value, encode_raw_value, split_words, fits, pack_bytes,
}
use spf5000es_server.Utf8.{valid_string, rune_tail, to_valid_utf8}
use spf5000es_server.Inverter.RoundTrip.{
  at_zero, decode-encode_number, decode-encode_text, decode_register_value-valid,
}
use spf5000es_server.Watchdog.{ClockSample, check_all}
use spf5000es_server.Watchdog.Reports.{Reported, check_all-Reported}
use spf5000es_server.Witnesses.{no_float, serial_number}

abbrev signed_pair : RegisterDef
signed_pair = register "pair" 7 2 register_int identity none

minus_two : encode_raw_value no_float (int64 (negsuc 1)) signed_pair ≡ ok (65535 ∷ 65534 ∷ [])
unfolding encode_raw_value fits split_words as_int64
minus_two = refl

minus_two_int64 : as_int64 no_float (int64 (negsuc 1)) ≡ ok (negsuc 1)
unfolding as_int64
minus_two_int64 = refl

decode-encode_number_example :
    decode_register_value (65535 ∷ 65534 ∷ []) (at_zero signed_pair) ≡ ok (raw_integer (negsuc 1))
decode-encode_number_example =
    decode-encode_number no_float signed_pair (int64 (negsuc 1)) (negsuc 1) (65535 ∷ 65534 ∷ [])
      (λ h. cc) (omega arith, omega arith) (ground arith) minus_two_int64 minus_two

abbrev abc_words : List ℕ
abc_words = 16706 ∷ 17152 ∷ 0 ∷ 0 ∷ 0 ∷ []

abc_encoded : encode_raw_value no_float (string (codes "ABC")) serial_number ≡ ok abc_words
unfolding encode_raw_value pack_bytes
abc_encoded = refl

abc_valid : valid_string (codes "ABC") ≡ true
unfolding valid_string rune_tail
abc_valid = refl

decode-encode_text_example :
    decode_register_value abc_words (at_zero serial_number) ≡ ok (raw_text (codes "ABC"))
decode-encode_text_example =
    decode-encode_text no_float serial_number (codes "ABC") abc_words refl (omega arith)
      (omega arith, (omega arith, (omega arith, tt))) abc_valid (λ n h. ground arith) abc_encoded

abbrev broken : RegisterDef
broken = register "broken" 0 1 register_char identity none

broken_decoded : decode_register_value (65535 ∷ []) broken ≡ ok (raw_text (239 ∷ 191 ∷ 189 ∷ []))
unfolding decode_register_value valid_string rune_tail to_valid_utf8
broken_decoded = refl

decode_register_value-valid_example : valid_string (239 ∷ 191 ∷ 189 ∷ []) ≡ true
decode_register_value-valid_example =
    decode_register_value-valid (65535 ∷ []) broken (raw_text (239 ∷ 191 ∷ 189 ∷ [])) broken_decoded

-- A bus whose world is the time, on which every read is refused.
abbrev quiet_bus : Bus ℕ
quiet_bus = record {
  connect = pure tt;
  close = pure tt;
  read_input = λ start count. raise (message "timeout");
  read_holding = λ start count. raise (message "timeout");
  write_single = λ start v. pure [];
  write_multiple = λ start n bytes. pure [];
  now = λ w. w;
  sleep = λ d w. (ok tt, w + d);
  ctx_err = λ w. none;
}

abbrev timeout : Error
timeout = fatal_modbus (message "timeout")

refused_read :
    (execute quiet_bus {A = List ℕ} (raise (message "timeout")) (client_at 0 5)).0 ≡ err timeout
unfolding execute fatal_modbus_error_for is_fatal_modbus
refused_read = refl

execute-errors_example :
    (quiet_bus.ctx_err 5 ≡ some timeout)
    ⊎ ((quiet_bus.ctx_err 5 ≡ none) × (is_fatal_modbus timeout ≡ true))
execute-errors_example =
    execute-errors {A = List ℕ} quiet_bus (raise (message "timeout")) (client_at 0 5) timeout
      refused_read

write_registers-paced_example :
    let (turn, w') = await_turn quiet_bus (some 10) 20 in
    ((e : Error) × (turn ≡ err e)
      × (write_registers quiet_bus 1 (pure (3 ∷ [])) (client_at 10 20) ≡ (err e, client_at 10 w')))
    ⊎ ((10 + register_write_interval ≤ w')
        × (write_registers quiet_bus 1 (pure (3 ∷ [])) (client_at 10 20)
            ≡ after_wait quiet_bus 1 (pure (3 ∷ [])) (client_at 10 w')))
write_registers-paced_example =
    write_registers-paced quiet_bus 1 (pure (3 ∷ [])) 10 20 (λ delay w h. omega arith)

abbrev noon : ClockSample
noon = record { wall = pos 0; monotonic = pos 0; zone_name = "CET"; zone_offset = pos 3600 }

abbrev moved : ClockSample
moved = record noon { wall = pos (2 * 10 ^ 9); monotonic = pos (10 ^ 9) }

-- The wall clock runs a second ahead, and then the zone's offset changes.
abbrev samples : List ClockSample
samples =
    record noon { monotonic = pos 1; wall = pos 1 }
    ∷ moved
    ∷ record moved { zone_offset = pos 7200 }
    ∷ []

check_all-Reported_example : Reported noon samples (check_all noon samples)
check_all-Reported_example = check_all-Reported noon samples

-- Every text is 7 and a 2048th.
abbrev beside_seven : ParseFloat
beside_seven raw = ok (finite (pos (7 * ulp_of_one + 2 ^ 1063)))

finite_scalar-Nearest_example :
    let m = pos (7 * ulp_of_one + 2 ^ 1063) in
    ((n : ℕ) × (finite_scalar beside_seven (codes "7.0005") ≡ ok (int64 (signed (is_negative m) n)))
      × (999 * distance (abs m) (n * ulp_of_one) < ulp_of_one))
    ⊎ ((finite_scalar beside_seven (codes "7.0005") ≡ ok (float64 (finite m)))
        × ((n : ℕ) → ulp_of_one < 1001 * distance (abs m) (n * ulp_of_one)))
finite_scalar-Nearest_example =
    finite_scalar-Nearest beside_seven (codes "7.0005") (pos (7 * ulp_of_one + 2 ^ 1063)) refl
      (omega arith)
