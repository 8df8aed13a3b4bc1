-- ===== src/Mqtt/System/Invariant.antt =====
-- mqtt.go: the connection that the service believes in, and the one that there is.
use spf5000es_server.Prelude.{
  ℕ, suc, ◌^◌, ◌%◌, ◌<◌, ◌≤◌, ◌≡◌, refl, sym, ap, ◌∙◌, true, false, Option, none, some, ◌++◌, Text,
  ◌==◌, arith, Bool-cases, ◌⊎◌, inl, inr,
}
use spf5000es_server.Value.{ParseFloat}
use spf5000es_server.Config.{MqttConfig}
use spf5000es_server.Mqtt.Service.{
  MqttService, next_id, connection_up, set_client, set_connected, on_connection_lost, started,
  status_updated, config_updated, request_update_publish,
}
use spf5000es_server.Mqtt.Service.Publisher.{Formats}
use spf5000es_server.Mqtt.System.{
  entered, subscribed, requesting, finished, request, over, System, update, after_client, or_same,
  retried, Step, start, up, lost, enter, retry, subscribe, finish, status, settings, changed,
  notify, take, begin, act, end, Reach, here, next,
}
use spf5000es_server.Mqtt.System.Setups.{
  id_of, Inv, same_or_not, some-none, some-some, update-at, update-off, initial-Inv, serve, present,
  move,
}
use spf5000es_server.Mqtt.System.Sections.{
  Keeps, publish-Keeps, take_updates-Keeps, availability_changed-Keeps, begin_updates-Keeps,
  perform-Keeps,
}

connection_up-Inv :
    (client : ℕ) (s : System)
    → Inv s
    → Inv (record s {
      service = connection_up s.service;
      link_up = true;
      events = suc s.events;
      setups =
          update (suc s.events) (entered client (connection_up s.service).connection_id) s.setups;
    })
unfolding connection_up
connection_up-Inv client s inv =
    let id : next_id s.service.connection_id ≡ suc s.events % 2 ^ 64 = omega (arith, inv.id) in
    record {
      id = id;
      later = λ k h.
          update-off (suc s.events) k _ s.setups (λ same. omega (arith, same))
          ∙ inv.later k (omega (arith, h));
      ids = λ k j h. elim (same_or_not k (suc s.events)) [
        | inl same ↦
            some-some j _ (sym h ∙ ap id_of (update-at (suc s.events) k _ s.setups same))
            ∙ id
            ∙ ap (λ n. n % 2 ^ 64) (sym same)
        | inr other ↦
            inv.ids k j (ap id_of (sym (update-off (suc s.events) k _ s.setups other)) ∙ h)
      ];
      current = λ j h. refl;
      linked = λ few h. refl;
      consistent = record {
        polling = inv.consistent.polling;
        unannounced = inv.consistent.unannounced;
      };
    }

connection_lost-Inv :
    (s : System)
    → Inv s
    → Inv (record s {
      service = on_connection_lost s.service;
      link_up = false;
      events = suc s.events;
    })
unfolding on_connection_lost
connection_lost-Inv s inv = record {
  id = omega (arith, inv.id);
  later = λ k h. inv.later k (omega (arith, h));
  ids = inv.ids;
  current = λ j h. absurd (some-none j (sym h ∙ ap id_of (inv.later (suc s.events) (omega arith))));
  linked = λ few h. cc;
  consistent = record { polling = refl; unannounced = λ h. (refl, refl, refl) };
}

set_client-Keeps : (client id : ℕ) (s : MqttService) → Keeps s (or_same s (set_client client id s))
unfolding set_client
set_client-Keeps client id s = elim (Bool-cases (id == s.connection_id)) [
  | inl e ↦ rw e (refl, refl, λ c. record { polling = c.polling; unannounced = c.unannounced })
  | inr e ↦ rw e (refl, refl, λ c. c)
]

after_client-id :
    (client id : ℕ) (r : Option MqttService)
    → (id_of (after_client client id r) ≡ some id) ⊎ (id_of (after_client client id r) ≡ none)
after_client-id client id none = inr refl
after_client-id client id (some s) = inl refl

retried-id :
    (client id : ℕ) (s : MqttService)
    → (id_of (retried client id s) ≡ some id) ⊎ (id_of (retried client id s) ≡ none)
retried-id client id s = elim (Bool-cases (id == s.connection_id)) [
  | inl e ↦ rw e (inl refl)
  | inr e ↦ rw e (inr refl)
]

-- The setup that ends with a connection is for the one that there is.
finish-link_up :
    (n client id : ℕ) (s : System)
    → s.setups n ≡ subscribed client id
    → s.events < 2 ^ 64
    → Inv s
    → id ≡ s.service.connection_id
    → s.link_up ≡ true
finish-link_up n client id s at few inv same =
    let of_n : id ≡ n % 2 ^ 64 = inv.ids n id (ap id_of at) in
    let within : n ≤ s.events = present s n id (ap id_of at) inv in
    let last : n ≡ s.events = omega (arith, of_n, within, same, few, inv.id) in
    inv.current id (ap (λ m. id_of (s.setups m)) (sym last) ∙ ap id_of at)

finish-Inv :
    (n client id : ℕ) (s : System)
    → s.setups n ≡ subscribed client id
    → Inv s
    → Inv (record s {
      service = set_connected id s.service;
      setups = update n (finished client id s.service) s.setups;
    })
unfolding set_connected
finish-Inv n client id s at inv = elim (Bool-cases (id == s.service.connection_id)) [
  | inr e ↦ rw e (move s n id over (ap id_of at) (inr refl) inv)
  | inl e ↦
      let moved = move s n id (requesting client id) (ap id_of at) (inl refl) inv in
      rw e (record {
        id = moved.id;
        later = moved.later;
        ids = moved.ids;
        current = moved.current;
        linked = λ few h. finish-link_up n client id s at few inv (ground (arith, e));
        consistent = record { polling = refl; unannounced = λ h. cc };
      })
]

module _ (config : MqttConfig) (base : Text) (parse_float : ParseFloat) (formats : Formats) where
  Step-Inv : {s t : System} → Step config base parse_float formats s t → Inv s → Inv t
  unfolding started status_updated config_updated request_update_publish
  Step-Inv (start client s) inv =
      serve s _ s.publisher s.notices
        (refl, refl, λ c. record { polling = c.polling; unannounced = c.unannounced }) inv
  Step-Inv (up client s was) inv = connection_up-Inv client s inv
  Step-Inv (lost s was) inv = connection_lost-Inv s inv
  Step-Inv (enter n client id s at) inv =
      let moved =
        move s n id (after_client client id (set_client client id s.service)) (ap id_of at)
          (after_client-id client id (set_client client id s.service)) inv in
      serve _ _ s.publisher s.notices (set_client-Keeps client id s.service) moved
  Step-Inv (retry n client id s at) inv =
      move s n id (retried client id s.service) (ap id_of at) (retried-id client id s.service) inv
  Step-Inv (subscribe n client id s at) inv =
      move s n id (subscribed client id) (ap id_of at) (inl refl) inv
  Step-Inv (finish n client id s at) inv = finish-Inv n client id s at inv
  Step-Inv (request n client id s at) inv =
      serve _ _ s.publisher s.notices
        (refl, refl, λ c. record { polling = c.polling; unannounced = c.unannounced })
        (move s n id over (ap id_of at) (inr refl) inv)
  Step-Inv (status values s) inv =
      serve s _ s.publisher s.notices
        (refl, refl, λ c. record { polling = c.polling; unannounced = c.unannounced }) inv
  Step-Inv (settings values s) inv =
      serve s _ s.publisher s.notices
        (refl, refl, λ c. record { polling = c.polling; unannounced = c.unannounced }) inv
  Step-Inv (changed available s) inv =
      serve s _ s.publisher _ (availability_changed-Keeps available s.service) inv
  Step-Inv (notify before after payload s at) inv =
      serve s _ s.publisher (before ++ after) (publish-Keeps _ _ s.service) inv
  Step-Inv (take s at) inv = serve s _ _ s.notices (take_updates-Keeps s.service) inv
  Step-Inv (begin s at) inv =
      serve s _ _ s.notices (begin_updates-Keeps config base parse_float formats s.service) inv
  Step-Inv (act a todo s at) inv =
      serve s _ _ s.notices (perform-Keeps config base parse_float formats a s.service) inv
  Step-Inv (end s at) inv = serve s s.service _ s.notices (refl, refl, λ c. c) inv

  Reach-Inv : {s : System} → Reach config base parse_float formats s → Inv s
  Reach-Inv here = initial-Inv
  Reach-Inv (next s s' reached step) = Step-Inv step (Reach-Inv reached)

  -- In every state that MQTTService and its goroutines reach, with fewer than 2 ^ 64 reports of a
  -- connection or a loss, the service is marked connected only while the last report was of a
  -- connection: a setup that finishes late never marks a lost connection as up.
  pub Reach-linked :
      (s : System)
      → Reach config base parse_float formats s
      → s.events < 2 ^ 64
      → s.service.connected ≡ true
      → s.link_up ≡ true
  Reach-linked s reached few = (Reach-Inv reached).linked few

  -- In every state that MQTTService and its goroutines reach, polling was last enabled or disabled
  -- as the service is marked connected or not.
  pub Reach-polling_enabled :
      (s : System)
      → Reach config base parse_float formats s
      → s.service.polling_enabled ≡ s.service.connected
  Reach-polling_enabled s reached = (Reach-Inv reached).consistent.polling

  -- In every state that MQTTService and its goroutines reach and that is not marked connected, no
  -- initial config or status and no availability counts as published.
  pub Reach-unannounced :
      (s : System)
      → Reach config base parse_float formats s
      → s.service.connected ≡ false
      → (s.service.initial_config_published ≡ false)
        × (s.service.initial_status_published ≡ false)
        × (s.service.online_published ≡ false)
  Reach-unannounced s reached down = (Reach-Inv reached).consistent.unannounced down
