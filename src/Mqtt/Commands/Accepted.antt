-- ===== src/Mqtt/Commands/Accepted.antt =====
-- mqtt.go: what handleCommand passes on.
use spf5000es_server.Prelude.{
  ◌<◌, ◌≡◌, refl, List, [], ◌∷◌, ◌++◌, Text, String, length, ◌⊎◌, inl, inr, ltb, arith, Bool-cases,
}
use spf5000es_server.Error.{ok, Result-cases}
use spf5000es_server.Value.{Value, Config, ParseFloat}
use spf5000es_server.Register.Holdings.{holding_registers}
use spf5000es_server.Register.Limits.{validate_writable_number_value}
use spf5000es_server.Polling.{
  ConfigWriteCommand, PollingService, queue_config_write, request_time_sync,
  poll_command_queue_size,
}
use spf5000es_server.Mqtt.Topics.{
  Route, time_sync, unrelated, unknown_key, panics, config_key, route,
}
use spf5000es_server.Mqtt.Commands.{
  DecodeJson, parse_mqtt_command_value, queue_parsed, handle_route, handle_command,
}

module _ (parse_float : ParseFloat) (decode_json : DecodeJson) (config : Config)
    (battery_type : Text) where
  -- The queue is as it was, or has at its end one command for the topic's register, whose value is
  -- that of the payload and passed the checks, and there was room for it.
  abbrev pub Queued : (r : Route) (payload : Text) (before after : List ConfigWriteCommand) → Type 0
  Queued r payload before after =
      (after ≡ before)
      ⊎ ((key : String) × (value : Value) × (r ≡ config_key key)
          × (parse_mqtt_command_value parse_float decode_json payload ≡ ok value)
          × (validate_writable_number_value parse_float key value config battery_type ≡ ok tt)
          × (length before < poll_command_queue_size)
          × (after ≡ before ++ record { key = key; value = value } ∷ []))

  module _ {W : Type 0} where
    queue_config_write-room :
        (key : String) (value : Value) (s : PollingService W)
        → let after = (queue_config_write key value s).1.commands in
          (after ≡ s.commands)
          ⊎ ((length s.commands < poll_command_queue_size)
              × (after ≡ s.commands ++ record { key = key; value = value } ∷ []))
    unfolding queue_config_write
    queue_config_write-room key value s =
        elim (Bool-cases (ltb (length s.commands) poll_command_queue_size)) [
          | inl room ↦ rw room (inr (ground arith, refl))
          | inr full ↦ rw full (inl refl)
        ]

    queue_parsed-Queued :
        (key : String) (payload : Text) (s : PollingService W)
        → Queued
            (config_key key)
            payload
            s.commands
            (queue_parsed parse_float decode_json config battery_type key
              (parse_mqtt_command_value parse_float decode_json payload)
              s).1.commands
    queue_parsed-Queued key payload s =
        elim (Result-cases (parse_mqtt_command_value parse_float decode_json payload)) [
          | inr (e, bad) ↦ rw bad (inl refl)
          | inl (value, parsed) ↦
              rw parsed
                (elim (Result-cases
                  (validate_writable_number_value parse_float key value config battery_type)) [
                    | inr (e, bad) ↦ rw bad (inl refl)
                    | inl (u, valid) ↦ rw valid (elim (queue_config_write-room key value s) [
                      | inl same ↦ inl same
                      | inr (room, longer) ↦ inr (key, value, refl, refl, valid, room, longer)
                    ])
                  ])
        ]

    handle_route-Queued :
        (r : Route) (payload : Text) (s : PollingService W)
        → Queued r payload s.commands
            (handle_route parse_float decode_json config battery_type payload r s).1.commands
    unfolding request_time_sync
    handle_route-Queued time_sync payload s = inl refl
    handle_route-Queued unrelated payload s = inl refl
    handle_route-Queued unknown_key payload s = inl refl
    handle_route-Queued panics payload s = inl refl
    handle_route-Queued (config_key key) payload s = queue_parsed-Queued key payload s

    -- handleCommand leaves the queue of config writes as it was, or puts one command at its end,
    -- for the register of the topic, whose value is that of the payload and passed the validation,
    -- where there was room.
    pub handle_command-Queued :
        (base topic payload : Text) (s : PollingService W)
        → Queued
            (route base (holding_registers parse_float) topic)
            payload
            s.commands
            (handle_command parse_float decode_json config battery_type base topic payload
              s).1.commands
    unfolding handle_command
    handle_command-Queued base topic payload s =
        handle_route-Queued (route base (holding_registers parse_float) topic) payload s
