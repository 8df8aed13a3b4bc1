-- ===== src/Mqtt/Service/Growth.antt =====
-- mqtt.go: the list of what was published, before and after an action.
use spf5000es_server.Prelude.{
  ℕ, ◌≡◌, refl, ap, ◌∙◌, Bool, ◌||◌, List, [], ◌∷◌, ◌++◌, append_assoc, append-nil, sym, Text, inl,
  inr, arith, Bool-cases, Option-cases, eq_text,
}
use spf5000es_server.Value.{ParseFloat}
use spf5000es_server.Config.{MqttConfig}
use spf5000es_server.Mqtt.Service.{Payload, Message, MqttService, publish, update_battery_type}
use spf5000es_server.Mqtt.Service.Publisher.{
  Formats, Action, send, learn_battery, remember, settle, discover, settle_initial, perform,
  perform_last, perform_all,
}

-- More was published, after what had been.
abbrev pub Grows : List Message → List Message → Type 0
Grows before after = (more : List Message) × (after ≡ before ++ more)

Grows-refl : (xs : List Message) → Grows xs xs
Grows-refl xs = ([], sym (append-nil xs))

Grows-trans : (xs ys zs : List Message) → Grows xs ys → Grows ys zs → Grows xs zs
Grows-trans xs ys zs (a, p) (b, q) = (a ++ b, q ∙ ap (λ l. l ++ b) p ∙ append_assoc xs a b)

module _ (config : MqttConfig) (base : Text) (parse_float : ParseFloat) (formats : Formats) where
  publish-Grows :
      (topic : Text) (payload : Payload) (s : MqttService)
      → Grows s.published (publish topic payload s).published
  unfolding publish
  publish-Grows topic payload s = elim (Option-cases s.client) [
    | inl e ↦ rw e (Grows-refl s.published)
    | inr (c, e) ↦ rw e (_, refl)
  ]

  settle_initial-published :
      (id : ℕ) (c st : Bool) (s : MqttService)
      → (settle_initial config base parse_float formats id c st s).1.published ≡ s.published
  unfolding settle_initial
  settle_initial-published id c st s = ground arith

  perform-Grows :
      (a : Action) (s : MqttService)
      → Grows s.published (perform config base parse_float formats a s).1.published
  unfolding perform update_battery_type
  perform-Grows (send topic payload) s = publish-Grows topic payload s
  perform-Grows (learn_battery battery) s =
      elim (Bool-cases (eq_text battery [] || eq_text battery s.battery_type)) [
        | inl e ↦ rw (e, update_battery_type) (Grows-refl s.published)
        | inr e ↦ rw (e, update_battery_type) (Grows-refl s.published)
      ]
  perform-Grows (remember values) s = Grows-refl s.published
  perform-Grows (settle id c st) s =
      ([], settle_initial-published id c st s ∙ sym (append-nil s.published))
  perform-Grows discover s = publish-Grows _ _ s

  perform_last-Grows :
      (todo : List Action) (s : MqttService)
      → Grows s.published (perform_last config base parse_float formats todo s).published
  unfolding perform_last
  perform_last-Grows [] s = Grows-refl s.published
  perform_last-Grows (a ∷ todo) s =
      Grows-trans _ _ _ (perform-Grows a s)
        (perform_last-Grows todo (perform config base parse_float formats a s).1)

  pub perform_all-Grows :
      (todo : List Action) (s : MqttService)
      → Grows s.published (perform_all config base parse_float formats todo s).published
  unfolding perform_all
  perform_all-Grows [] s = Grows-refl s.published
  perform_all-Grows (a ∷ todo) s =
      let (more, s') = perform config base parse_float formats a s in
      Grows-trans _ _ _ (perform-Grows a s) (
        Grows-trans _ _ _ (perform_last-Grows more s')
          (perform_all-Grows todo (perform_last config base parse_float formats more s')))
