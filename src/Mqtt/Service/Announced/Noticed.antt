-- ===== src/Mqtt/Service/Announced/Noticed.antt =====
-- mqtt.go: what publishUpdates announces after the notice that the inverter is unavailable.
use spf5000es_server.Prelude.{
  ℕ, ◌≡◌, refl, sym, ap, ◌∙◌, Bool, true, false, ◌&&◌, ◌||◌, ◌==◌, some, List, [], ◌∷◌, ◌++◌, All,
  Text, codes, if◌then◌else◌, if_true, arith, lookup,
}
use mathlib.Core.Path.{subst}
use spf5000es_server.Value.{Config, ParseFloat}
use spf5000es_server.Config.{MqttConfig}
use spf5000es_server.Mqtt.Topics.{availability_topic}
use spf5000es_server.Mqtt.Service.{
  plain, MqttService, publish, update_battery_type, availability_changed,
}
use spf5000es_server.Mqtt.Service.Publisher.{
  Formats, Action, send, learn_battery, remember, settle, discover, learn, send_values,
  publish_config, settle_initial, begin_updates, perform, perform_last, perform_all,
  publish_updates,
}
use spf5000es_server.Mqtt.Service.Announced.{
  publish-client, publish-EndsOnline, publish-Unannounced, Unannounced, IsPlain, All-append,
  EndsOnline, update_battery_type-Unannounced, learn-IsPlain, if-IsPlain,
}

module _ (config : MqttConfig) (base : Text) (parse_float : ParseFloat) (formats : Formats) where
  send_values-IsPlain :
      (namespace : Text) (values : Config)
      → All IsPlain (send_values config base parse_float formats namespace values)
  unfolding send_values
  send_values-IsPlain namespace [] = tt
  send_values-IsPlain namespace ((key, value) ∷ values) = (tt, send_values-IsPlain namespace values)

  publish_config-IsPlain :
      (values : Config) → All IsPlain (publish_config config base parse_float formats values)
  unfolding publish_config
  publish_config-IsPlain values =
      All-append IsPlain
        (send_values config base parse_float formats (codes "config") values
          ++ learn (lookup "BatteryType" values))
        (remember values ∷ [])
        (All-append IsPlain (send_values config base parse_float formats (codes "config") values)
          (learn (lookup "BatteryType" values)) (send_values-IsPlain (codes "config") values)
          (learn-IsPlain (lookup "BatteryType" values)))
        (tt, tt)

  module _ (client id : ℕ) where
    abbrev discovered : Bool → List Action
    discovered pending = if pending then discover ∷ [] else []

    announce-EndsOnline :
        (pending : Bool) (s : MqttService)
        → s.client ≡ some client
        → EndsOnline client base (
            perform_last config base parse_float formats
              (discovered pending ++ send (availability_topic base) (plain (codes "online")) ∷ [])
              s)
    unfolding perform_last perform
    announce-EndsOnline true s is = publish-EndsOnline client base _ (publish-client _ _ s ∙ is)
    announce-EndsOnline false s is = publish-EndsOnline client base s is

    -- The last action: what it publishes ends with the announcement.
    settle-EndsOnline :
        (c st : Bool) (s : MqttService)
        → Unannounced client id s
        → EndsOnline client base
            (perform_all config base parse_float formats (settle id c st ∷ []) s)
    unfolding perform_all perform settle_initial perform_last
    settle-EndsOnline c st s (up, is, i, a, b, o) =
        let announce = send (availability_topic base) (plain (codes "online")) ∷ [] in
        let settled : MqttService = record s {
          initial_config_published = s.initial_config_published || c;
          initial_status_published = s.initial_status_published || st;
          discovery_pending = false;
          online_published = true;
        } in
        let same : settle_initial config base parse_float formats id c st s
            ≡ (discovered s.discovery_pending ++ announce, settled) =
          if_true {c = s.connected && id == s.connection_id} _ _ (ground (arith, up, i))
          ∙ if_true {c = (s.initial_config_published || c) && (s.initial_status_published || st)} _
              _ (ground (arith, a, b))
          ∙ ap
              (λ (d : Bool).
                (discovered s.discovery_pending ++ (if d then [] else announce), settled))
              o in
        subst
          (λ (r : List Action × MqttService).
            EndsOnline client base (perform_last config base parse_float formats r.0 r.1))
          (sym same) (announce-EndsOnline s.discovery_pending settled is)

    perform_all-EndsOnline :
        (todo : List Action) (c st : Bool) (s : MqttService)
        → All IsPlain todo
        → Unannounced client id s
        → EndsOnline client base
            (perform_all config base parse_float formats (todo ++ settle id c st ∷ []) s)
    unfolding perform_all perform perform_last
    perform_all-EndsOnline [] c st s plains h = settle-EndsOnline c st s h
    perform_all-EndsOnline (send topic payload ∷ todo) c st s (_, plains) h =
        perform_all-EndsOnline todo c st (publish topic payload s) plains
          (publish-Unannounced client id topic payload s h)
    perform_all-EndsOnline (learn_battery battery ∷ todo) c st s (_, plains) h =
        perform_all-EndsOnline todo c st (update_battery_type battery s) plains
          (update_battery_type-Unannounced client id battery s h)
    perform_all-EndsOnline (remember values ∷ todo) c st s (_, plains) h =
        perform_all-EndsOnline todo c st (record s { last_published_config = values }) plains h
    perform_all-EndsOnline (settle i c' st' ∷ todo) c st s (bad, plains) h = absurd bad
    perform_all-EndsOnline (discover ∷ todo) c st s (bad, plains) h = absurd bad

module _ (config : MqttConfig) (base : Text) (parse_float : ParseFloat) (formats : Formats) where
  publish_updates-EndsOnline :
      (client : ℕ) (s : MqttService)
      → Unannounced client s.connection_id s
      → EndsOnline client base (publish_updates config base parse_float formats s)
  unfolding publish_updates begin_updates
  publish_updates-EndsOnline client s h =
      let status =
        if s.status_dirty
        then send_values config base parse_float formats (codes "status") s.pending_status
        else [] in
      let settings =
        if s.config_dirty
        then publish_config config base parse_float formats s.pending_config
        else [] in
      let begun = record s {
        pending_status = [];
        pending_config = [];
        status_dirty = false;
        config_dirty = false;
      } in
      subst
        (λ (r : List Action × MqttService).
          EndsOnline client base (perform_all config base parse_float formats r.0 r.1))
        (sym (if_true {c = s.connected} _ _ h.0))
        (perform_all-EndsOnline config base parse_float formats client s.connection_id
          (status ++ settings) s.config_dirty s.status_dirty begun
          (All-append IsPlain status settings
            (if-IsPlain s.status_dirty _ (
              send_values-IsPlain config base parse_float formats (codes "status")
                s.pending_status))
            (if-IsPlain s.config_dirty _
              (publish_config-IsPlain config base parse_float formats s.pending_config)))
          h)

  -- Where the service is connected, has a client, and its initial config and status count as
  -- published, the notice that the inverter is unavailable has offline published, and the
  -- publishUpdates that follows ends by publishing online as retained on the availability topic.
  pub availability_changed-EndsOnline :
      (client : ℕ) (s : MqttService)
      → s.connected ≡ true
      → s.client ≡ some client
      → s.initial_config_published ≡ true
      → s.initial_status_published ≡ true
      → ((availability_changed false s).0 ≡ some (codes "offline"))
        × EndsOnline client base
            (publish_updates config base parse_float formats (availability_changed false s).1)
  unfolding availability_changed
  availability_changed-EndsOnline client s up is a b = (
    if_true _ _ up,
    publish_updates-EndsOnline client (availability_changed false s).1 (up, is, refl, a, b, refl),
  )
