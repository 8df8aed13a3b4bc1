-- ===== src/Config/Recovers.antt =====
-- config.go, recovery.go: recovery under an accepted configuration.
use spf5000es_server.Prelude.{zero, ◌≡◌, ◌≢◌, Bool, ℤ, pos, ◌≤ℤ◌, pos_part, arith}
use spf5000es_server.Error.{Result, ok}
use spf5000es_server.Recovery.{Surroundings, RecoveringInverter, execute_with_recovery}
use spf5000es_server.Recovery.Success.{Validated, execute_with_recovery-Validated}
use spf5000es_server.Config.{AppConfig, recovery_config}
use spf5000es_server.Config.Ini.{IniFile, Parsers}
use spf5000es_server.Config.Read.{read_config}
use spf5000es_server.Config.Ranges.{read_config-InRange}

positive : (n : ℤ) → pos 1 ≤ℤ n → pos_part n ≢ zero
positive n h none = omega (arith, h, none)

-- Under the recovery settings of a configuration that readConfig accepts, a call with recovery
-- that succeeds has a value, and it is the operation's answer as the last thing asked before the
-- announcement, if there is one, of the recovery.
pub read_config-Validated :
    (parsers : Parsers) (prefix_first : Bool) (loaded : Result IniFile) (app : AppConfig)
    → read_config parsers prefix_first loaded ≡ ok app
    → {A : Type 0} (env : Surroundings A) (i : RecoveringInverter)
    → Validated env
        (recovery_config app.recovery)
        (execute_with_recovery env (recovery_config app.recovery) i)
read_config-Validated parsers prefix_first loaded app accepted {A} env i =
    let (_, _, _, _, _, _, attempts, _, _) =
      read_config-InRange parsers prefix_first loaded app accepted in
    execute_with_recovery-Validated env (recovery_config app.recovery)
      (positive app.recovery.reconnect_attempts attempts.0) i
