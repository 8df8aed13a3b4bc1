-- ===== src/Mqtt/Topics.antt =====
-- mqtt.go: the names of topics. Keys of registers are ASCII, so their runes are their bytes.
pub mod Routing
use spf5000es_server.Prelude.{
  ℕ, ◌+◌, ◌-◌, Bool, true, false, ◌&&◌, ◌||◌, Option, none, some, List, [], ◌∷◌, ◌++◌, Text, String,
  codes, eq_text, length, ◌==◌, if◌then◌else◌,
}
use spf5000es_server.Strings.{
  is_upper, is_lower, is_digit, lower, has_prefix, has_suffix, slice, trim,
}
use spf5000es_server.Register.{RegisterDef}

-- The rune at the front, 0 past the end.
abbrev pub first : Text → ℕ
first [] = 0
first (c ∷ s) = c

-- An upper-case letter that begins a word, by its neighbours; `none` before the first rune.
abbrev pub begins_word : Option ℕ → ℕ → ℕ → Bool
begins_word none current next = false
begins_word (some previous) current next =
    is_upper current
    && (is_lower previous || is_digit previous || (is_upper previous && is_lower next))

-- The loop of slug.
unfoldable pub slug_runes : Option ℕ → Text → Text
slug_runes previous [] = []
slug_runes previous (c ∷ s) =
    let rest = lower c ∷ slug_runes (some c) s in
    if begins_word previous c (first s) then b'_' ∷ rest else rest

abbrev is_alphanumeric : ℕ → Bool
is_alphanumeric c = is_lower c || is_upper c || is_digit c

-- slugSeparators.ReplaceAllString(s, "_"); the flag is set inside a run of separators.
unfoldable pub replace_separators : Bool → Text → Text
replace_separators inside [] = []
replace_separators inside (c ∷ s) =
    let after = replace_separators false s in
    let within = replace_separators true s in
    if is_alphanumeric c then c ∷ after else if inside then within else b'_' ∷ within

-- slug
unfoldable pub slug : Text → Text
unfolding slug_runes replace_separators
slug value = trim b'_' (replace_separators false (slug_runes none value))

-- valueTopic
unfoldable pub value_topic : Text → Text → String → Text
unfolding slug
value_topic base namespace key =
    base ++ codes "/" ++ namespace ++ codes "/" ++ slug (codes key) ++ codes "/state"

-- The topics of NewMQTTService and of configDiscovery, from the base topic.
unfoldable pub base_topic : Text → Text
base_topic topic_prefix = trim b'/' topic_prefix

abbrev pub availability_topic : Text → Text
availability_topic base = base ++ codes "/availability"

abbrev pub time_sync_command : Text → Text
time_sync_command base = base ++ codes "/time_sync/set"

abbrev pub config_prefix : Text → Text
config_prefix base = base ++ codes "/config/"

abbrev pub config_filter : Text → Text
config_filter base = config_prefix base ++ codes "+/set"

unfoldable pub config_topic : Text → String → Text
unfolding slug
config_topic base key = base ++ codes "/config/" ++ slug (codes key) ++ codes "/state"

unfoldable pub command_topic : Text → String → Text
unfolding slug
command_topic base key = base ++ codes "/config/" ++ slug (codes key) ++ codes "/set"

-- slugToConfigKey[slug]: a later register of a slug hides an earlier one.
unfoldable pub config_key_of : Text → List RegisterDef → Option String
unfolding slug
config_key_of s [] = none
config_key_of s (d ∷ ds) = elim (config_key_of s ds) [
  | some key ↦ some key
  | none ↦ if eq_text (slug (codes d.key)) s then some d.key else none
]

-- Where handleCommand sends a topic; `panics` is the slice with its bounds out of order.
pub data Route : Type 0 where
  time_sync unrelated unknown_key panics : Route
  config_key : String → Route

abbrev pub route_level : Option Text → List RegisterDef → Route
route_level none registers = panics
route_level (some level) registers = elim (config_key_of level registers) [
  | none ↦ unknown_key
  | some key ↦ config_key key
]

unfoldable pub route : Text → List RegisterDef → Text → Route
unfolding config_key_of
route base registers topic =
    let prefix = config_prefix base in
    let suffix = codes "/set" in
    if eq_text topic (time_sync_command base)
    then time_sync
    else if has_prefix topic prefix && has_suffix topic suffix
    then route_level (slice (length prefix) (length topic - length suffix) topic) registers
    else unrelated
