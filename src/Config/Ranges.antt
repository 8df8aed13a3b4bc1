-- ===== src/Config/Ranges.antt =====
-- config.go: what an accepted configuration is.
use spf5000es_server.Prelude.{
  ◌≡◌, ◌≢◌, eq_text, refl, sym, ap, ◌∙◌, Bool, true, false, List, [], ◌∷◌, All, Text, codes, String,
  ℤ, pos, ltb_ℤ, ◌≤ℤ◌, ◌-◌, ◌^◌, arith, if◌then◌else◌, any,
}
use mathlib.Core.Path.{subst}
use spf5000es_server.Error.{Error, Result, ok, err, wrap, map_err, ◌>>=◌}
use spf5000es_server.Config.{MqttConfig, LogLevel, AppConfig}
use spf5000es_server.Config.Ini.{
  IniFile, Parsers, value, validate_config_schema, validate_explicit_values,
}
use spf5000es_server.Config.Names.{
  is_invalid, validate_mqtt_topic, validate_mqtt_identifier, parse_log_level,
}
use spf5000es_server.Config.Read.{
  millis, seconds, outside, refusals, refuse_first, validate_topics, validate_app, read_settings,
  read_config, validate_names, with_level, accept, read_file,
}

err-ok {ℓ} : {A : Type ℓ} (e : Error) (a : A) → err e ≡ ok a → ⊥
err-ok e a h = cc

ok-ok {ℓ} : {A : Type ℓ} (a b : A) → ok a ≡ ok b → a ≡ b
ok-ok a b h = cc

-- What comes before a result, and gives it.
bind-ok {ℓ κ} :
    {A : Type ℓ} {B : Type κ} (r : Result A) (f : A → Result B) (b : B)
    → (r >>= f) ≡ ok b
    → (a : A) × (r ≡ ok a) × (f a ≡ ok b)
bind-ok (ok a) f b h = (a, refl, h)
bind-ok (err e) f b h = absurd (err-ok e b h)

abbrev Unrefused : Bool × String → Type 0
Unrefused condition = condition.0 ≡ false

refuse_first-All :
    (conditions : List (Bool × String)) → refuse_first conditions ≡ ok tt → All Unrefused conditions
unfolding refuse_first
refuse_first-All [] h = tt
refuse_first-All ((true, refusal) ∷ conditions) h = absurd (err-ok _ _ h)
refuse_first-All ((false, refusal) ∷ conditions) h = (refl, refuse_first-All conditions h)

abbrev pub Between : ℤ → ℤ → ℤ → Type 0
Between low high x = (low ≤ℤ x) × (x ≤ℤ high)

-- The bounds on the numbers of a configuration.
abbrev pub InRange : AppConfig → Type 0
InRange app =
    (millis 100 ≤ℤ app.modbus.timeout)
    × Between (seconds 1) (seconds 65535) app.mqtt.keepalive
    × Between (seconds 1) (seconds (2 ^ 32 - 2)) app.mqtt.will_delay
    × (millis 100 ≤ℤ app.mqtt.operation_timeout)
    × (seconds 1 ≤ℤ app.polling.config_interval)
    × (seconds 1 ≤ℤ app.polling.status_interval)
    × Between (pos 1) (pos 20) app.recovery.reconnect_attempts
    × (app.recovery.initial_backoff ≤ℤ app.recovery.max_backoff)
    × Between (pos 1) (pos 65535) app.mqtt.port

leb-of : (low x : ℤ) → ltb_ℤ x low ≡ false → low ≤ℤ x
leb-of low x h = ground arith

Between-of : (low high x : ℤ) → outside low high x ≡ false → Between low high x
Between-of low high x h = ground arith

refusals-InRange : (app : AppConfig) → All Unrefused (refusals app) → InRange app
unfolding refusals
refusals-InRange app
      (
        timeout,
        (
          keepalive,
          (
            keepalive',
            (will, (operation, (config, (status, (attempts, (backoff, (port, rest))))))),
          ),
        ),
      ) =
    let m = app.mqtt in
    (
      leb-of (millis 100) app.modbus.timeout timeout,
      (leb-of (seconds 1) m.keepalive keepalive, leb-of m.keepalive (seconds 65535) keepalive'),
      Between-of (seconds 1) (seconds (2 ^ 32 - 2)) m.will_delay will,
      leb-of (millis 100) m.operation_timeout operation,
      leb-of (seconds 1) app.polling.config_interval config,
      leb-of (seconds 1) app.polling.status_interval status,
      Between-of (pos 1) (pos 20) app.recovery.reconnect_attempts attempts,
      leb-of app.recovery.initial_backoff app.recovery.max_backoff backoff,
      Between-of (pos 1) (pos 65535) m.port port,
    )

-- What readConfig accepts has passed its checks.
read_config-validated :
    (parsers : Parsers) (prefix_first : Bool) (loaded : Result IniFile) (app : AppConfig)
    → read_config parsers prefix_first loaded ≡ ok app
    → (read : AppConfig) × (level : LogLevel) × (validate_app prefix_first read ≡ ok tt)
      × (record read { log_level = level } ≡ app)
unfolding read_config read_file accept with_level
read_config-validated parsers prefix_first loaded app h =
    let (file, _, h₁) =
      bind-ok (map_err (wrap "read config %q: %w") loaded) (read_file parsers prefix_first) app h in
    let accepted = accept prefix_first file in
    let (_, _, h₂) =
      bind-ok (validate_config_schema file)
        (λ _. validate_explicit_values file >>= λ _. read_settings parsers file >>= accepted) app
        h₁ in
    let (_, _, h₃) =
      bind-ok (validate_explicit_values file) (λ _. read_settings parsers file >>= accepted) app
        h₂ in
    let (read, _, h₄) = bind-ok (read_settings parsers file) accepted app h₃ in
    let (tt, passed, h₅) =
      bind-ok (validate_app prefix_first read) (λ _. with_level file read) app h₄ in
    let (level, _, h₆) =
      bind-ok (parse_log_level (value file "LOGGING" "LEVEL" (codes "INFO")))
        (λ level. ok (record read { log_level = level })) app h₅ in
    (read, level, passed, ok-ok (record read { log_level = level }) app h₆)

-- The two parts of the checks.
validate_app-parts :
    (prefix_first : Bool) (app : AppConfig)
    → validate_app prefix_first app ≡ ok tt
    → (refuse_first (refusals app) ≡ ok tt) × (validate_names prefix_first app.mqtt ≡ ok tt)
unfolding validate_app
validate_app-parts prefix_first app h =
    let (tt, first, second) =
      bind-ok (refuse_first (refusals app)) (λ _. validate_names prefix_first app.mqtt) tt h in
    (first, second)

validate_app-InRange :
    (prefix_first : Bool) (app : AppConfig) → validate_app prefix_first app ≡ ok tt → InRange app
validate_app-InRange prefix_first app h =
    refusals-InRange app (refuse_first-All (refusals app) (validate_app-parts prefix_first app h).0)

pub read_config-InRange :
    (parsers : Parsers) (prefix_first : Bool) (loaded : Result IniFile) (app : AppConfig)
    → read_config parsers prefix_first loaded ≡ ok app
    → InRange app
read_config-InRange parsers prefix_first loaded app h =
    let (read, level, passed, same) = read_config-validated parsers prefix_first loaded app h in
    subst InRange same (validate_app-InRange prefix_first read passed)

-- A name that the broker takes as a topic: not empty, and without wildcards and control characters.
abbrev pub ValidTopic : Text → Type 0
ValidTopic topic = (topic ≢ []) × (any is_invalid topic ≡ false)

true-false : true ≡ false → ⊥
true-false h = cc

both-passed :
    (b c : Bool) (x y : Error)
    → (if b then err x else if c then err y else ok (tt {0})) ≡ ok tt
    → (b ≡ false) × (c ≡ false)
both-passed true c x y h = absurd (err-ok x tt h)
both-passed false true x y h = absurd (err-ok y tt h)
both-passed false false x y h = (refl, refl)

validate_mqtt_topic-Valid : (topic : Text) → validate_mqtt_topic topic ≡ ok tt → ValidTopic topic
unfolding validate_mqtt_topic
validate_mqtt_topic-Valid topic h =
    let (filled, valid) = both-passed (eq_text topic []) (any is_invalid topic) _ _ h in
    (λ empty. true-false (sym (ap (λ t. eq_text t []) empty) ∙ filled), valid)

both-ok :
    (first second : Text)
    → (validate_mqtt_topic first >>= λ _. validate_mqtt_topic second) ≡ ok tt
    → ValidTopic first × ValidTopic second
both-ok first second h =
    let (tt, h₁, h₂) = bind-ok (validate_mqtt_topic first) (λ _. validate_mqtt_topic second) tt h in
    (validate_mqtt_topic-Valid first h₁, validate_mqtt_topic-Valid second h₂)

validate_topics-Valid :
    (prefix_first : Bool) (mqtt : MqttConfig)
    → validate_topics prefix_first mqtt ≡ ok tt
    → ValidTopic mqtt.topic_prefix × ValidTopic mqtt.ha_discovery_prefix
unfolding validate_topics
validate_topics-Valid true mqtt h = both-ok mqtt.topic_prefix mqtt.ha_discovery_prefix h
validate_topics-Valid false mqtt h =
    let (second, first) = both-ok mqtt.ha_discovery_prefix mqtt.topic_prefix h in (first, second)

validate_names-topics :
    (prefix_first : Bool) (mqtt : MqttConfig)
    → validate_names prefix_first mqtt ≡ ok tt
    → validate_topics prefix_first mqtt ≡ ok tt
unfolding validate_names
validate_names-topics prefix_first mqtt h =
    let (_, _, h₁) =
      bind-ok (validate_mqtt_identifier mqtt.client_id false)
        (λ _. validate_mqtt_identifier mqtt.ha_device_id true >>= λ _.
          validate_topics prefix_first mqtt)
        tt h in
    let (_, _, h₂) =
      bind-ok (validate_mqtt_identifier mqtt.ha_device_id true)
        (λ _. validate_topics prefix_first mqtt) tt h₁ in
    h₂

-- The numbers are in their bounds, and the two prefixes are topics.
abbrev pub Acceptable : AppConfig → Type 0
Acceptable app =
    InRange app × ValidTopic app.mqtt.topic_prefix × ValidTopic app.mqtt.ha_discovery_prefix

-- A configuration that readConfig accepts has its timeouts, keep-alive, will delay, intervals,
-- reconnect attempts and port in their bounds and a maximal backoff not below the initial one, and
-- its two topic prefixes are not empty and have no wildcard or control character.
pub read_config-Acceptable :
    (parsers : Parsers) (prefix_first : Bool) (loaded : Result IniFile) (app : AppConfig)
    → read_config parsers prefix_first loaded ≡ ok app
    → Acceptable app
read_config-Acceptable parsers prefix_first loaded app h =
    let (read, level, passed, same) = read_config-validated parsers prefix_first loaded app h in
    let topics = validate_topics-Valid prefix_first read.mqtt (
      validate_names-topics prefix_first read.mqtt
        (validate_app-parts prefix_first read passed).1) in
    subst Acceptable same (validate_app-InRange prefix_first read passed, topics.0, topics.1)
