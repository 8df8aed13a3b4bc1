-- ===== src/Mqtt/Service/Delivery.antt =====
-- mqtt.go: what a round of Run publishes.
use spf5000es_server.Prelude.{
  ℕ, ◌≡◌, refl, ap, ◌∙◌, Bool, true, false, none, some, List, [], ◌∷◌, ◌++◌, append_assoc,
  append-nil, sym, Text, codes, if◌then◌else◌, if_true, lookup,
}
use spf5000es_server.Value.{Config, ParseFloat}
use spf5000es_server.Config.{MqttConfig}
use spf5000es_server.Mqtt.Topics.{value_topic}
use spf5000es_server.Mqtt.Service.{Payload, plain, Message, MqttService, publish}
use spf5000es_server.Mqtt.Service.Publisher.{
  Formats, mqtt_value, Action, remember, settle, learn, send_values, publish_config, begin_updates,
  perform, perform_last, perform_all, publish_updates,
}
use spf5000es_server.Mqtt.Service.Growth.{Grows, perform_all-Grows}

-- The values as messages to a client, in the order of the map.
unfoldable pub messages : ℕ → Text → Text → Formats → Config → List Message
messages client base namespace formats [] = []
messages client base namespace formats ((key, value) ∷ values) =
    record {
      client = client;
      topic = value_topic base namespace key;
      payload = plain (mqtt_value formats value);
    }
    ∷ messages client base namespace formats values

abbrev pub if_dirty : Bool → List Message → List Message
if_dirty dirty sent = if dirty then sent else []

module _ (config : MqttConfig) (base : Text) (parse_float : ParseFloat) (formats : Formats) where
  -- A state in which more was published to its client.
  abbrev sent : List Message → MqttService → MqttService
  sent more s = record s { published = s.published ++ more }

  publish-sent :
      (client : ℕ) (topic : Text) (payload : Payload) (s : MqttService)
      → s.client ≡ some client
      → publish topic payload s
        ≡ sent (record { client = client; topic = topic; payload = payload } ∷ []) s
  unfolding publish
  publish-sent client topic payload s is =
      ap
        (λ c. elim c [
          | none ↦ s
          | some client ↦ sent (record { client = client; topic = topic; payload = payload } ∷ []) s
        ])
        is

  sent-all :
      (client : ℕ) (namespace : Text) (values : Config) (todo : List Action) (s : MqttService)
      → s.client ≡ some client
      → perform_all config base parse_float formats
          (send_values config base parse_float formats namespace values ++ todo)
          s
        ≡ perform_all config base parse_float formats todo
            (sent (messages client base namespace formats values) s)
  unfolding send_values messages perform_all perform publish perform_last
  sent-all client namespace [] todo s is =
      ap (perform_all config base parse_float formats todo)
        (ap (λ l. record s { published = l }) (sym (append-nil s.published)))
  sent-all client namespace ((key, value) ∷ values) todo s is =
      let first : Message = record {
        client = client;
        topic = value_topic base namespace key;
        payload = plain (mqtt_value formats value);
      } in
      let later = messages client base namespace formats values in
      ap
        (perform_all config base parse_float formats
          (send_values config base parse_float formats namespace values ++ todo))
        (publish-sent client _ _ s is)
      ∙ sent-all client namespace values todo (sent (first ∷ []) s) is
      ∙ ap (perform_all config base parse_float formats todo)
          (ap (λ l. record s { published = l }) (append_assoc s.published (first ∷ []) later))

  sent_if-all :
      (dirty : Bool) (client : ℕ) (namespace : Text) (values : Config) (todo : List Action)
      (s : MqttService)
      → s.client ≡ some client
      → perform_all config base parse_float formats
          ((if dirty then send_values config base parse_float formats namespace values else [])
            ++ todo)
          s
        ≡ perform_all config base parse_float formats todo
            (sent (if_dirty dirty (messages client base namespace formats values)) s)
  sent_if-all true client namespace values todo s is = sent-all client namespace values todo s is
  sent_if-all false client namespace values todo s is =
      ap (perform_all config base parse_float formats todo)
        (ap (λ l. record s { published = l }) (sym (append-nil s.published)))

  -- The sends of publishConfig come first.
  config-sends :
      (dirty : Bool) (values : Config) (todo : List Action)
      → (later : List Action) × ((if dirty
              then publish_config config base parse_float formats values
              else [])
            ++ todo
          ≡ (if dirty
              then send_values config base parse_float formats (codes "config") values
              else [])
            ++ later)
  unfolding publish_config
  config-sends true values todo =
      let sends = send_values config base parse_float formats (codes "config") values in
      let learned = learn (lookup "BatteryType" values) in
      (
        learned ++ remember values ∷ todo,
        append_assoc (sends ++ learned) (remember values ∷ []) todo
            ∙ append_assoc sends learned (remember values ∷ todo),
      )
  config-sends false values todo = (todo, refl)

  -- The state in which publishUpdates leaves its section.
  abbrev taken : MqttService → MqttService
  taken s = record s {
    pending_status = [];
    pending_config = [];
    status_dirty = false;
    config_dirty = false;
  }

  publish_updates-steps :
      (s : MqttService)
      → s.connected ≡ true
      → (later : List Action) × (publish_updates config base parse_float formats s
          ≡ perform_all config base parse_float formats
              ((if s.status_dirty
                  then send_values config base parse_float formats (codes "status") s.pending_status
                  else [])
                ++ ((if s.config_dirty
                      then send_values config base parse_float formats
                          (codes "config")
                          s.pending_config
                      else [])
                    ++ later))
              (taken s))
  unfolding publish_updates begin_updates
  publish_updates-steps s up =
      let status =
        if s.status_dirty
        then send_values config base parse_float formats (codes "status") s.pending_status
        else [] in
      let (later, same) =
        config-sends s.config_dirty s.pending_config
          (settle s.connection_id s.config_dirty s.status_dirty ∷ []) in
      (
        later,
        ap (λ (r : List Action × MqttService). perform_all config base parse_float formats r.0 r.1)
              (if_true _ _ up)
            ∙ ap (λ l. perform_all config base parse_float formats l (taken s))
                (append_assoc status
                    (if s.config_dirty
                      then publish_config config base parse_float formats s.pending_config
                      else [])
                    _
                  ∙ ap (λ l. status ++ l) same),
      )

  -- Where the service is connected and has a client, publishUpdates publishes to that client,
  -- after all that was published before, the pending status if it is dirty and then the pending
  -- config if it is dirty, each value of the maps in order, and then more.
  pub publish_updates-delivers :
      (client : ℕ) (s : MqttService)
      → s.connected ≡ true
      → s.client ≡ some client
      → Grows
          (s.published
            ++ if_dirty s.status_dirty
                (messages client base (codes "status") formats s.pending_status)
            ++ if_dirty s.config_dirty
                (messages client base (codes "config") formats s.pending_config))
          (publish_updates config base parse_float formats s).published
  publish_updates-delivers client s up is =
      let status =
        if_dirty s.status_dirty (messages client base (codes "status") formats s.pending_status) in
      let settings =
        if_dirty s.config_dirty (messages client base (codes "config") formats s.pending_config) in
      let (later, steps) = publish_updates-steps s up in
      let (more, grown) =
        perform_all-Grows config base parse_float formats later
          (sent settings (sent status (taken s))) in
      (
        more,
        ap (λ (t : MqttService). t.published)
              (steps
                ∙ sent_if-all s.status_dirty client (codes "status") s.pending_status _ (taken s) is
                ∙ sent_if-all s.config_dirty client (codes "config") s.pending_config later
                    (sent status (taken s)) is)
            ∙ grown,
      )
