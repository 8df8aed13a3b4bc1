-- ===== src/Mqtt/System/Setups.antt =====
-- mqtt.go: which setups are for which connection.
use spf5000es_server.Prelude.{
  ℕ, ◌^◌, ◌%◌, ◌<◌, ◌≤◌, ◌≡◌, refl, sym, ap, ◌∙◌, true, Option, none, some, List, Text, arith, ◌⊎◌,
  inl, inr, ◌≢◌,
}
use spf5000es_server.Mqtt.Service.{MqttService}
use spf5000es_server.Mqtt.System.{
  Setup, absent, entered, subscribing, subscribed, requesting, over, Publisher, System, update,
  initial,
}
use spf5000es_server.Mqtt.System.Sections.{Consistent, Keeps}

-- The connection that a setup is for.
abbrev pub id_of : Setup → Option ℕ
id_of absent = none
id_of (entered client id) = some id
id_of (subscribing client id) = some id
id_of (subscribed client id) = some id
id_of (requesting client id) = some id
id_of over = none

pub record Inv (s : System) : Type 0 where
  pub id : s.service.connection_id ≡ s.events % 2 ^ 64
  pub later : (n : ℕ) → s.events < n → s.setups n ≡ absent
  pub ids : (n i : ℕ) → id_of (s.setups n) ≡ some i → i ≡ n % 2 ^ 64
  pub current : (i : ℕ) → id_of (s.setups s.events) ≡ some i → s.link_up ≡ true
  pub linked : s.events < 2 ^ 64 → s.service.connected ≡ true → s.link_up ≡ true
  pub consistent : Consistent s.service

pub initial-Inv : Inv initial
unfolding initial
initial-Inv = record {
  id = refl;
  later = λ n h. refl;
  ids = λ n i h. cc;
  current = λ i h. cc;
  linked = λ few h. cc;
  consistent = record { polling = refl; unannounced = λ h. (refl, refl, refl) };
}

-- A section that keeps the connection, and whatever Run and the sinks' callers do.
pub serve :
    (s : System) (service : MqttService) (publisher : Publisher) (notices : List Text)
    → Keeps s.service service
    → Inv s
    → Inv (record s { service = service; publisher = publisher; notices = notices })
serve s service publisher notices (same, same_id, kept) inv = record {
  id = same_id ∙ inv.id;
  later = inv.later;
  ids = inv.ids;
  current = inv.current;
  linked = λ few h. inv.linked few (sym same ∙ h);
  consistent = kept inv.consistent;
}

pub same_or_not : (k n : ℕ) → (k ≡ n) ⊎ (k ≢ n)
same_or_not k n = ground arith

within_or_not : (n k : ℕ) → (n ≤ k) ⊎ (k < n)
within_or_not n k = ground arith

pub some-none : (n : ℕ) → some n ≡ none → ⊥
some-none n h = cc

pub some-some : (n k : ℕ) → some n ≡ some k → n ≡ k
some-some n k h = cc

pub update-at : (n k : ℕ) (p : Setup) (setups : ℕ → Setup) → k ≡ n → update n p setups k ≡ p
update-at n k p setups same = ground (arith, same)

pub update-off : (n k : ℕ) (p : Setup) (setups : ℕ → Setup) → k ≢ n → update n p setups k ≡ setups k
update-off n k p setups other = ground (arith, other)

-- A setup that is for a connection after the step was for it before.
update-back :
    (n i k j : ℕ) (p : Setup) (setups : ℕ → Setup)
    → id_of (setups n) ≡ some i
    → (id_of p ≡ some i) ⊎ (id_of p ≡ none)
    → id_of (update n p setups k) ≡ some j
    → id_of (setups k) ≡ some j
update-back n i k j p setups was now h = elim (same_or_not k n) [
  | inr other ↦ ap id_of (sym (update-off n k p setups other)) ∙ h
  | inl same ↦
      let before : id_of (setups k) ≡ some i = ap (λ m. id_of (setups m)) same ∙ was in
      let after : id_of p ≡ some j = ap id_of (sym (update-at n k p setups same)) ∙ h in
      elim now [
        | inl kept ↦ before ∙ sym kept ∙ after
        | inr ended ↦ absurd (some-none j (sym after ∙ ended))
      ]
]

-- The setups are those of the reports so far.
pub present : (s : System) (n i : ℕ) → id_of (s.setups n) ≡ some i → Inv s → n ≤ s.events
present s n i was inv = elim (within_or_not n s.events) [
  | inl within ↦ within
  | inr later ↦ absurd (some-none i (sym was ∙ ap id_of (inv.later n later)))
]

-- A setup of its connection goes on or ends.
pub move :
    (s : System) (n i : ℕ) (p : Setup)
    → id_of (s.setups n) ≡ some i
    → (id_of p ≡ some i) ⊎ (id_of p ≡ none)
    → Inv s
    → Inv (record s { setups = update n p s.setups })
move s n i p was now inv =
    let within = present s n i was inv in
    record {
      id = inv.id;
      later = λ k h. update-off n k p s.setups (λ same. omega (arith, within)) ∙ inv.later k h;
      ids = λ k j h. inv.ids k j (update-back n i k j p s.setups was now h);
      current = λ j h. inv.current j (update-back n i s.events j p s.setups was now h);
      linked = inv.linked;
      consistent = inv.consistent;
    }
