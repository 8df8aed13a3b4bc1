-- ===== src/Mqtt/Service/Announced.antt =====
-- mqtt.go: the availability that publishUpdates announces at its end.
pub mod Noticed
use spf5000es_server.Prelude.{
  ℕ, ◌≡◌, refl, sym, ap, ◌∙◌, Bool, true, false, ◌&&◌, ◌||◌, ◌==◌, Option, none, some, List, [],
  ◌∷◌, ◌++◌, All, Text, codes, inl, inr, if◌then◌else◌, if_true, arith, Bool-cases, Option-cases,
  eq_text, lookup,
}
use mathlib.Core.Path.{subst}
use spf5000es_server.Value.{
  Value, nil, int, int64, uint16, float32, float64, bool, string, Config, ParseFloat,
}
use spf5000es_server.Config.{MqttConfig}
use spf5000es_server.Mqtt.Topics.{availability_topic}
use spf5000es_server.Mqtt.Service.{
  Payload, plain, Message, MqttService, publish, update_battery_type, availability_changed,
}
use spf5000es_server.Mqtt.Service.Publisher.{
  Formats, Action, send, learn_battery, remember, settle, discover, learn, send_values,
  publish_config, settle_initial, begin_updates, perform, perform_last, perform_all,
  publish_updates,
}

-- Connected to a client, with the initial state published and not announced as available.
abbrev Unannounced : ℕ → ℕ → MqttService → Type 0
Unannounced client id s =
    (s.connected ≡ true)
    × (s.client ≡ some client)
    × (s.connection_id ≡ id)
    × (s.initial_config_published ≡ true)
    × (s.initial_status_published ≡ true)
    × (s.online_published ≡ false)

-- The actions before the last one of publishUpdates.
abbrev IsPlain : Action → Type 0
IsPlain (send topic payload) = Unit {0}
IsPlain (learn_battery battery) = Unit {0}
IsPlain (remember values) = Unit {0}
IsPlain (settle id c st) = ⊥
IsPlain discover = ⊥

All-append {ℓ κ} :
    {A : Type ℓ} (P : A → Type κ) (xs ys : List A) → All P xs → All P ys → All P (xs ++ ys)
All-append P [] ys hx hy = hy
All-append P (x ∷ xs) ys hx hy = (hx.0, All-append P xs ys hx.1 hy)

abbrev online : ℕ → Text → Message
online client base = record {
  client = client;
  topic = availability_topic base;
  payload = plain (codes "online");
}

-- The last message is that the service is available.
abbrev pub EndsOnline : ℕ → Text → MqttService → Type 0
EndsOnline client base s =
    (earlier : List Message) × (s.published ≡ earlier ++ online client base ∷ [])

publish-Unannounced :
    (client id : ℕ) (topic : Text) (payload : Payload) (s : MqttService)
    → Unannounced client id s
    → Unannounced client id (publish topic payload s)
unfolding publish
publish-Unannounced client id topic payload s (up, is, i, a, b, o) =
    rw (is, publish) (up, is, i, a, b, o)

update_battery_type-Unannounced :
    (client id : ℕ) (battery : Text) (s : MqttService)
    → Unannounced client id s
    → Unannounced client id (update_battery_type battery s)
unfolding update_battery_type
update_battery_type-Unannounced client id battery s h =
    elim (Bool-cases (eq_text battery [] || eq_text battery s.battery_type)) [
      | inl e ↦ rw e h
      | inr e ↦ rw e h
    ]

publish-EndsOnline :
    (client : ℕ) (base : Text) (s : MqttService)
    → s.client ≡ some client
    → EndsOnline client base (publish (availability_topic base) (plain (codes "online")) s)
unfolding publish
publish-EndsOnline client base s is = rw (is, publish) (s.published, refl)

publish-client :
    (topic : Text) (payload : Payload) (s : MqttService)
    → (publish topic payload s).client ≡ s.client
unfolding publish
publish-client topic payload s = elim (Option-cases s.client) [
  | inl e ↦ rw e refl
  | inr (client, e) ↦ rw e refl
]

learn-IsPlain : (value : Option Value) → All IsPlain (learn value)
learn-IsPlain none = tt
learn-IsPlain (some nil) = tt
learn-IsPlain (some (int n)) = tt
learn-IsPlain (some (int64 n)) = tt
learn-IsPlain (some (uint16 n)) = tt
learn-IsPlain (some (float32 x)) = tt
learn-IsPlain (some (float64 x)) = tt
learn-IsPlain (some (bool b)) = tt
learn-IsPlain (some (string text)) = (tt, tt)

if-IsPlain :
    (b : Bool) (actions : List Action)
    → All IsPlain actions
    → All IsPlain (if b then actions else [])
if-IsPlain true actions h = h
if-IsPlain false actions h = tt
