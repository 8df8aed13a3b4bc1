-- ===== src/Config/Log/Secrecy.antt =====
-- config.go: the password and the log.
use spf5000es_server.Prelude.{◌≡◌, refl, [], Text, eq_text}
use spf5000es_server.Config.{AppConfig}
use spf5000es_server.Config.Log.{configured, log_config}

-- The same configuration with another password.
abbrev pub with_password : Text → AppConfig → AppConfig
with_password password c = record c { mqtt = record c.mqtt { password = password } }

configured-same : (p q : Text) → eq_text p [] ≡ eq_text q [] → configured p ≡ configured q
configured-same p q h = rw h refl

-- What logConfig writes to the log is the same for two passwords of which both or neither is
-- empty.
pub log_config-with_password :
    (p q : Text) (c : AppConfig)
    → eq_text p [] ≡ eq_text q []
    → log_config (with_password p c) ≡ log_config (with_password q c)
unfolding log_config
log_config-with_password p q c h = rw (configured-same p q h) refl
