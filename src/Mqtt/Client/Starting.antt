-- ===== src/Mqtt/Client/Starting.antt =====
-- mqtt.go: mqttTLSConfig, Start and Stop. crypto/x509, crypto/tls, os and the client library are
-- arguments.
pub mod Secured
use spf5000es_server.Prelude.{
  ℕ, Bool, true, false, Option, none, some, List, [], ◌∷◌, Text, codes, eq_text, if◌then◌else◌,
}
use spf5000es_server.Error.{Error, Result, ok, err, message, wrap, map_err, ◌>>=◌}
use spf5000es_server.Exec.{Exec}
use spf5000es_server.Config.{MqttConfig}
use spf5000es_server.Mqtt.Service.{MqttService, started}

-- os.ReadFile, x509.SystemCertPool (nothing where it fails or has no pool), x509.NewCertPool,
-- AppendCertsFromPEM and tls.LoadX509KeyPair
pub record TlsLibrary (Pool Certificate : Type 0) : Type 0 where
  pub read_file : Text → Result Text
  pub system_cert_pool : Option Pool
  pub new_cert_pool : Pool
  pub append_certs_from_pem : Pool → Text → Bool × Pool
  pub load_x509_key_pair : Text → Text → Result Certificate

-- The fields of tls.Config that are set.
pub record TlsConfig (Pool Certificate : Type 0) : Type 0 where
  pub min_version : ℕ
  pub server_name : Text
  pub root_cas : Option Pool
  pub certificates : List Certificate

-- tls.VersionTLS12
abbrev pub version_tls12 : ℕ
version_tls12 = 771

abbrev pub pool_or : {Pool : Type 0} → Pool → Option Pool → Pool
pool_or fresh none = fresh
pool_or fresh (some pool) = pool

module _ {Pool Certificate : Type 0} (library : TlsLibrary Pool Certificate)
    (config : MqttConfig) where
  -- The certificates of the file in the roots.
  abbrev pub append_roots : Text → TlsConfig Pool Certificate → Result (TlsConfig Pool Certificate)
  append_roots contents tls =
      let (added, roots) =
        library.append_certs_from_pem (pool_or library.new_cert_pool library.system_cert_pool)
          contents in
      if added
      then ok (record tls { root_cas = some roots })
      else err (message "MQTT.TLS_CA_FILE contains no valid PEM certificates")

  abbrev pub with_roots : TlsConfig Pool Certificate → Result (TlsConfig Pool Certificate)
  with_roots tls =
      if eq_text config.tls_ca_file []
      then ok tls
      else (map_err (wrap "read MQTT TLS CA file") (library.read_file config.tls_ca_file)
          >>= λ contents. append_roots contents tls)

  abbrev pub with_certificate : TlsConfig Pool Certificate → Result (TlsConfig Pool Certificate)
  with_certificate tls =
      if eq_text config.tls_cert_file []
      then ok tls
      else (map_err (wrap "load MQTT TLS client certificate")
            (library.load_x509_key_pair config.tls_cert_file config.tls_key_file)
          >>= λ certificate. ok (record tls { certificates = certificate ∷ [] }))

  abbrev pub bare : TlsConfig Pool Certificate
  bare = record {
    min_version = version_tls12;
    server_name = config.tls_server_name;
    root_cas = none;
    certificates = [];
  }

  -- mqttTLSConfig
  unfoldable pub mqtt_tls_config : Result (TlsConfig Pool Certificate)
  mqtt_tls_config = with_roots bare >>= with_certificate

  -- The scheme of the server's URL, in NewMQTTService.
  abbrev pub scheme : Text
  scheme = if config.tls_enabled then codes "tls" else codes "mqtt"

  abbrev pub tls_of : Result (Option (TlsConfig Pool Certificate))
  tls_of = if config.tls_enabled then (mqtt_tls_config >>= λ tls. ok (some tls)) else ok none

  -- Start; `new_connection` is autopaho.NewConnection, of the scheme and the TLS configuration.
  unfoldable pub start_service :
      (Text → Option (TlsConfig Pool Certificate) → Result ℕ)
      → MqttService
      → Result (Unit {0}) × MqttService
  unfolding mqtt_tls_config
  start_service new_connection s =
      let connection =
        tls_of >>= λ tls. map_err (wrap "start MQTT client") (new_connection scheme tls) in
      elim connection [ ok client ↦ (ok tt, started client s) | err e ↦ (err e, s) ]

-- Stop: an error of Disconnect is only logged.
unfoldable pub stop_service : {W : Type 0} → (ℕ → Exec W (Unit {0})) → MqttService → W → W
stop_service disconnect s w = elim s.client [ none ↦ w | some client ↦ (disconnect client w).1 ]
