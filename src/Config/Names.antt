-- ===== src/Config/Names.antt =====
-- config.go: identifiers, topics and the level of the log.
use spf5000es_server.Prelude.{
  ℕ, Bool, ◌&&◌, ◌||◌, [], ◌∷◌, Text, codes, eq_text, ltb, ◌==◌, any, if◌then◌else◌,
}
use spf5000es_server.Error.{Result, ok, err, message}
use spf5000es_server.Strings.{trim, trim_space, upper}
use spf5000es_server.Config.{LogLevel, level_debug, level_info, level_warn, level_error}

-- A control character or a wildcard: each is one byte.
abbrev pub is_invalid : ℕ → Bool
is_invalid c = c == 0 || ltb c 0x20 || c == 0x7f || c == b'+' || c == b'#'

-- validateMQTTIdentifier
unfoldable pub validate_mqtt_identifier : Text → Bool → Result (Unit {0})
validate_mqtt_identifier value path_safe =
    if eq_text value []
    then err (message "%s must not be empty")
    else if any (λ c. is_invalid c || path_safe && c == b'/') value
    then err (message "%s contains an invalid character")
    else ok tt

-- validateMQTTTopic
unfoldable pub validate_mqtt_topic : Text → Result (Unit {0})
validate_mqtt_topic topic =
    if eq_text topic []
    then err (message "%s must not be empty")
    else if any is_invalid topic
    then err (message "%s must be a valid MQTT topic without wildcards")
    else ok tt

-- normalizeTopic
unfoldable pub normalize_topic : Text → Text → Text
normalize_topic topic fallback =
    let trimmed = trim b'/' topic in if eq_text trimmed [] then fallback else trimmed

-- strings.ToUpper, for a comparison with ASCII letters other than S: U+0131 (dotless i) gives I.
unfoldable pub upper_case : Text → Text
upper_case [] = []
upper_case (a ∷ []) = upper a ∷ []
upper_case (a ∷ b ∷ s) =
    let one = upper a ∷ upper_case (b ∷ s) in
    let two = b'I' ∷ upper_case s in if a == 0xc4 && b == 0xb1 then two else one

-- parseLogLevel
unfoldable pub parse_log_level : Text → Result LogLevel
unfolding upper_case
parse_log_level raw =
    let level = upper_case (trim_space raw) in
    if eq_text level (codes "DEBUG")
    then ok level_debug
    else if eq_text level (codes "INFO")
    then ok level_info
    else if eq_text level (codes "WARN") || eq_text level (codes "WARNING")
    then ok level_warn
    else if eq_text level (codes "ERROR")
    then ok level_error
    else err (message "invalid logging level %q")
