-- ===== src/Mqtt/Client/Starting/Secured.antt =====
-- mqtt.go: what a connection over TLS is started with.
use mathlib.Core.Path.{subst}
use spf5000es_server.Prelude.{
  ℕ, ◌≡◌, refl, sym, ap, Bool, true, false, ◌||◌, Option, none, some, List, [], ◌∷◌, Text, codes,
  eq_text, if◌then◌else◌, arith,
}
use spf5000es_server.Error.{Result, ok, err, wrap, map_err, ◌>>=◌}
use spf5000es_server.Config.{MqttConfig}
use spf5000es_server.Register.Limits.{is_some}
use spf5000es_server.Mqtt.Service.{MqttService, started}
use spf5000es_server.Mqtt.Client.Starting.{
  TlsLibrary, TlsConfig, pool_or, bare, version_tls12, append_roots, with_roots, with_certificate,
  mqtt_tls_config, start_service,
}

abbrev pub has_any : {A : Type 0} → List A → Bool
has_any [] = false
has_any (x ∷ xs) = true

-- At least TLS 1.2, for the configured name, with roots and a certificate where files of them are
-- configured.
abbrev pub IsSecured :
    {Pool Certificate : Type 0} → MqttConfig → TlsConfig Pool Certificate → Type 0
IsSecured config tls =
    (tls.min_version ≡ version_tls12)
    × (tls.server_name ≡ config.tls_server_name)
    × ((eq_text config.tls_ca_file [] || is_some tls.root_cas) ≡ true)
    × ((eq_text config.tls_cert_file [] || has_any tls.certificates) ≡ true)

-- What holds of a value that is not an error.
abbrev Succeeds : {A : Type 0} → (A → Type 0) → Result A → Type 0
Succeeds P (ok a) = P a
Succeeds P (err e) = Unit

Succeeds-bind :
    {A B : Type 0} (P : A → Type 0) (Q : B → Type 0) (r : Result A) (f : A → Result B)
    → Succeeds P r
    → ((a : A) → P a → Succeeds Q (f a))
    → Succeeds Q (r >>= f)
Succeeds-bind P Q (ok a) f h next = next a h
Succeeds-bind P Q (err e) f h next = tt

Succeeds-any : {A : Type 0} (r : Result A) → Succeeds (λ _. Unit {0}) r
Succeeds-any (ok a) = tt
Succeeds-any (err e) = tt

Succeeds-if :
    {A : Type 0} (P : A → Type 0) (test : Bool) (p q : Result A)
    → (test ≡ true → Succeeds P p)
    → Succeeds P q
    → Succeeds P (if test then p else q)
Succeeds-if P true p q h k = h refl
Succeeds-if P false p q h k = k

or_true : (a b : Bool) → b ≡ true → (a || b) ≡ true
or_true a b h = ground arith

module _ {Pool Certificate : Type 0} (library : TlsLibrary Pool Certificate)
    (config : MqttConfig) where
  abbrev HasRoots : TlsConfig Pool Certificate → Type 0
  HasRoots tls =
      (tls.min_version ≡ version_tls12)
      × (tls.server_name ≡ config.tls_server_name)
      × ((eq_text config.tls_ca_file [] || is_some tls.root_cas) ≡ true)

  append_roots-HasRoots :
      (contents : Text) (tls : TlsConfig Pool Certificate)
      → tls.min_version ≡ version_tls12
      → tls.server_name ≡ config.tls_server_name
      → Succeeds HasRoots (append_roots library config contents tls)
  append_roots-HasRoots contents tls version name =
      let (added, roots) =
        library.append_certs_from_pem (pool_or library.new_cert_pool library.system_cert_pool)
          contents in
      Succeeds-if HasRoots added (ok (record tls { root_cas = some roots })) _
        (λ valid. (version, name, or_true (eq_text config.tls_ca_file []) true refl)) tt

  with_certificate-IsSecured :
      (tls : TlsConfig Pool Certificate)
      → HasRoots tls
      → Succeeds (IsSecured config) (with_certificate library config tls)
  with_certificate-IsSecured tls (version, name, roots) =
      let pair =
        map_err (wrap "load MQTT TLS client certificate")
          (library.load_x509_key_pair config.tls_cert_file config.tls_key_file) in
      Succeeds-if (IsSecured config) (eq_text config.tls_cert_file []) _ _
        (λ none_given. (version, name, roots, ap (λ b. b || has_any tls.certificates) none_given))
        (Succeeds-bind (λ _. Unit {0}) (IsSecured config) pair _ (Succeeds-any pair)
          (λ certificate _.
            (version, name, roots, or_true (eq_text config.tls_cert_file []) true refl)))

  mqtt_tls_config-IsSecured : Succeeds (IsSecured config) (mqtt_tls_config library config)
  unfolding mqtt_tls_config
  mqtt_tls_config-IsSecured =
      let contents =
        map_err (wrap "read MQTT TLS CA file") (library.read_file config.tls_ca_file) in
      Succeeds-bind HasRoots (IsSecured config) (with_roots library config (bare library config))
        (with_certificate library config)
        (Succeeds-if HasRoots (eq_text config.tls_ca_file []) _ _
          (λ none_given. (refl, refl, ap (λ b. b || false) none_given))
          (Succeeds-bind (λ _. Unit {0}) HasRoots contents _ (Succeeds-any contents)
            (λ found _. append_roots-HasRoots found (bare library config) refl refl)))
        with_certificate-IsSecured

  -- The service that is left, and how its client was made.
  abbrev pub StartedSecurely :
      (Text → Option (TlsConfig Pool Certificate) → Result ℕ) → MqttService → Type 0
  StartedSecurely new_connection s =
      (client : ℕ) × (tls : TlsConfig Pool Certificate) × (s.client ≡ some client)
      × (new_connection (codes "tls") (some tls) ≡ ok client)
      × IsSecured config tls

  module _ (new_connection : Text → Option (TlsConfig Pool Certificate) → Result ℕ)
      (s : MqttService) where
    -- The end of Start.
    abbrev ended : Result ℕ → Result (Unit {0}) × MqttService
    ended connection = elim connection [
      | ok client ↦ (ok tt, started client s)
      | err e ↦ (err e, s)
    ]

    abbrev connected : Bool → Result (TlsConfig Pool Certificate) → Result ℕ
    connected enabled made =
        (if enabled then (made >>= λ tls. ok (some tls)) else ok none) >>= λ tls.
        map_err (wrap "start MQTT client")
          (new_connection (if enabled then codes "tls" else codes "mqtt") tls)

    ended-StartedSecurely :
        (tls : TlsConfig Pool Certificate) (r : Result ℕ)
        → new_connection (codes "tls") (some tls) ≡ r
        → IsSecured config tls
        → (ended (map_err (wrap "start MQTT client") r)).0 ≡ ok tt
        → StartedSecurely new_connection (ended (map_err (wrap "start MQTT client") r)).1
    unfolding started
    ended-StartedSecurely tls (ok client) made secured h = (client, tls, refl, made, secured)
    ended-StartedSecurely tls (err e) made secured h = cc

    connected-StartedSecurely :
        (made : Result (TlsConfig Pool Certificate))
        → Succeeds (IsSecured config) made
        → (ended (connected true made)).0 ≡ ok tt
        → StartedSecurely new_connection (ended (connected true made)).1
    connected-StartedSecurely (ok tls) secured h =
        ended-StartedSecurely tls (new_connection (codes "tls") (some tls)) refl secured h
    connected-StartedSecurely (err e) secured h = cc

    -- Where TLS is enabled and Start ends without an error, the service's client is the one that
    -- the client library made for the scheme of TLS and a TLS configuration of at least version
    -- 1.2, for the configured server name, with roots where an authority's file is configured and
    -- with a certificate where a file of one is.
    pub start_service-StartedSecurely :
        config.tls_enabled ≡ true
        → (start_service library config new_connection s).0 ≡ ok tt
        → StartedSecurely new_connection (start_service library config new_connection s).1
    unfolding start_service
    start_service-StartedSecurely enabled =
        let made = mqtt_tls_config library config in
        subst
          (λ b.
            (ended (connected b made)).0 ≡ ok tt
            → StartedSecurely new_connection (ended (connected b made)).1)
          (sym enabled) (connected-StartedSecurely made mqtt_tls_config-IsSecured)
