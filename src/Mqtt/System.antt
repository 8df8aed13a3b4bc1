-- ===== src/Mqtt/System.antt =====
-- mqtt.go: MQTTService among its goroutines: the client library that reports connections, a setup for
-- each connection, the sinks' callers and Run. Each section under the lock is one step.
pub mod Sections
pub mod Setups
pub mod Invariant
use spf5000es_server.Prelude.{
  ℕ, suc, ◌^◌, ◌%◌, ◌≡◌, Bool, true, false, not, Option, none, some, List, [], ◌∷◌, ◌++◌, Text,
  if◌then◌else◌, ◌==◌,
}
use spf5000es_server.Value.{Config, ParseFloat}
use spf5000es_server.Config.{MqttConfig}
use spf5000es_server.Mqtt.Topics.{availability_topic}
use spf5000es_server.Mqtt.Service.{
  plain, MqttService, new_service, connection_up, set_client, set_connected, on_connection_lost,
  status_updated, config_updated, request_update_publish, availability_changed, publish,
  take_updates, started,
}
use spf5000es_server.Mqtt.Service.Publisher.{Formats, Action, begin_updates, perform}

-- Where onConnect stands: before its first section, in the loop of subscribeCommands, before its last
-- section, and before requestUpdatePublish.
pub data Setup : Type 0 where
  absent : Setup
  entered subscribing subscribed requesting : (client id : ℕ) → Setup
  over : Setup

-- Where Run stands: at its loop's top, before publishUpdates, and in it.
pub data Publisher : Type 0 where
  idle : Publisher
  due : Publisher
  publishing : List Action → Publisher

-- `link_up` and `events` are what the client library has reported: whether the last report was of
-- a connection, and how many there were. The setup of the n-th report is `setups n`; `notices` are
-- the payloads that callers of InverterAvailabilityChanged have still to publish.
pub record System : Type 0 where
  pub service : MqttService
  pub link_up : Bool
  pub events : ℕ
  pub setups : ℕ → Setup
  pub publisher : Publisher
  pub notices : List Text

abbrev pub update : ℕ → Setup → (ℕ → Setup) → ℕ → Setup
update n p setups k = if k == n then p else setups k

-- The rest of onConnect after its first section.
abbrev pub after_client : ℕ → ℕ → Option MqttService → Setup
after_client client id (some s) = subscribing client id
after_client client id none = over

abbrev pub or_same : MqttService → Option MqttService → MqttService
or_same s (some s') = s'
or_same s none = s

-- The payload that is to be published.
abbrev pub noticed : Option Text → List Text → List Text
noticed (some payload) notices = payload ∷ notices
noticed none notices = notices

-- The loop of subscribeCommands ends for a connection that is over.
abbrev pub retried : ℕ → ℕ → MqttService → Setup
retried client id s = if id == s.connection_id then subscribing client id else over

-- The setup ends without a request where its connection is over.
abbrev pub finished : ℕ → ℕ → MqttService → Setup
finished client id s = if id == s.connection_id then requesting client id else over

unfoldable pub initial : System
initial = record {
  service = new_service;
  link_up = false;
  events = 0;
  setups = λ n. absent;
  publisher = idle;
  notices = [];
}

module _ (config : MqttConfig) (base : Text) (parse_float : ParseFloat) (formats : Formats) where
  -- The client library reports a connection and its loss in turns.
  pub data Step : System → System → Type 0 where
    start : (client : ℕ) (s : System) → Step s (record s { service = started client s.service })
    up :
        (client : ℕ) (s : System)
        → s.link_up ≡ false
        → Step s (record s {
          service = connection_up s.service;
          link_up = true;
          events = suc s.events;
          setups =
              update
                (suc s.events)
                (entered client (connection_up s.service).connection_id)
                s.setups;
        })
    lost :
        (s : System)
        → s.link_up ≡ true
        → Step s (record s {
          service = on_connection_lost s.service;
          link_up = false;
          events = suc s.events;
        })
    enter :
        (n client id : ℕ) (s : System)
        → s.setups n ≡ entered client id
        → Step s (record s {
          service = or_same s.service (set_client client id s.service);
          setups = update n (after_client client id (set_client client id s.service)) s.setups;
        })
    retry :
        (n client id : ℕ) (s : System)
        → s.setups n ≡ subscribing client id
        → Step s (record s { setups = update n (retried client id s.service) s.setups })
    subscribe :
        (n client id : ℕ) (s : System)
        → s.setups n ≡ subscribing client id
        → Step s (record s { setups = update n (subscribed client id) s.setups })
    finish :
        (n client id : ℕ) (s : System)
        → s.setups n ≡ subscribed client id
        → Step s (record s {
          service = set_connected id s.service;
          setups = update n (finished client id s.service) s.setups;
        })
    request :
        (n client id : ℕ) (s : System)
        → s.setups n ≡ requesting client id
        → Step s (record s {
          service = request_update_publish s.service;
          setups = update n over s.setups;
        })
    status :
        (values : Config) (s : System)
        → Step s (record s { service = status_updated values s.service })
    settings :
        (values : Config) (s : System)
        → Step s (record s { service = config_updated values s.service })
    changed :
        (available : Bool) (s : System)
        → Step s (record s {
          service = (availability_changed available s.service).1;
          notices = noticed (availability_changed available s.service).0 s.notices;
        })
    notify :
        (before after : List Text) (payload : Text) (s : System)
        → s.notices ≡ before ++ (payload ∷ after)
        → Step s (record s {
          service = publish (availability_topic base) (plain payload) s.service;
          notices = before ++ after;
        })
    take :
        (s : System)
        → s.publisher ≡ idle
        → Step s (record s {
          service = (take_updates s.service).1;
          publisher = if (take_updates s.service).0 then due else idle;
        })
    begin :
        (s : System)
        → s.publisher ≡ due
        → Step s (record s {
          service = (begin_updates config base parse_float formats s.service).1;
          publisher = publishing (begin_updates config base parse_float formats s.service).0;
        })
    act :
        (a : Action) (todo : List Action) (s : System)
        → s.publisher ≡ publishing (a ∷ todo)
        → Step s (record s {
          service = (perform config base parse_float formats a s.service).1;
          publisher = publishing ((perform config base parse_float formats a s.service).0 ++ todo);
        })
    end : (s : System) → s.publisher ≡ publishing [] → Step s (record s { publisher = idle })

  pub data Reach : System → Type 0 where
    here : Reach initial
    next : (s s' : System) → Reach s → Step s s' → Reach s'
