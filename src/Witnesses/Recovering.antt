-- ===== src/Witnesses/Recovering.antt =====
-- recovery.go on concrete data: a device that answers again after a reset.
use spf5000es_server.Prelude.{ℕ, pos, ◌+◌, ◌*◌, ◌≤◌, true, false, none, [], ◌∷◌, arith, length}
use spf5000es_server.Error.{Error, Result, ok, err, message, fatal_modbus}
use spf5000es_server.Recovery.{
  RecoveryConfig, reset, History, Surroundings, RecoveringInverter, execute_with_recovery,
}
use spf5000es_server.Recovery.Reconnect.{connects, operations}
use spf5000es_server.Recovery.Reset.{
  ResetsRightly, execute_with_recovery-ResetsRightly, execute_with_recovery-Bounded,
}
use spf5000es_server.Recovery.Success.{Validated, execute_with_recovery-Validated}

abbrev down : Error
down = fatal_modbus (message "timeout")

-- The device answers once it has been reset.
abbrev answer : History → Result ℕ
answer [] = err down
answer (reset ∷ h) = ok 7
answer (_ ∷ h) = answer h

abbrev pub surroundings : Surroundings ℕ
surroundings = record {
  connect = λ h. none;
  operation = answer;
  sleep = λ d h. none;
  now = λ h. length h;
  request_reset = λ h. none;
  ctx_done = λ h. false;
}

abbrev two_attempts : RecoveryConfig
two_attempts = record {
  reconnect_attempts = 2;
  initial_backoff = pos 1;
  max_backoff = pos 5;
  reset_cooldown = 60;
}

abbrev pub fresh : RecoveringInverter
fresh = record { last_reset = none; has_sink = true; history = [] }

execute_with_recovery-Validated_example :
    Validated surroundings two_attempts (execute_with_recovery surroundings two_attempts fresh)
execute_with_recovery-Validated_example =
    execute_with_recovery-Validated surroundings two_attempts (λ h. omega arith) fresh

execute_with_recovery-ResetsRightly_example :
    ResetsRightly surroundings two_attempts fresh
      (execute_with_recovery surroundings two_attempts fresh).1
execute_with_recovery-ResetsRightly_example =
    execute_with_recovery-ResetsRightly surroundings two_attempts fresh

execute_with_recovery-Bounded_example :
    let after = (execute_with_recovery surroundings two_attempts fresh).1.history in
    (connects after ≤ connects [] + 2 * 2)
    × (operations after ≤ operations [] + 1 + 2 * 2)
    × (connects after + operations after ≤ connects [] + operations [] + 1 + 4 * 2)
execute_with_recovery-Bounded_example =
    execute_with_recovery-Bounded surroundings two_attempts fresh
