-- ===== src/Mqtt/Connection.antt =====
-- infracstructure/mqtt_client.py: which connections `start` tries, and what is left of the
-- subscriptions after the connection was lost.
use smart_locker_iot.Prelude.{
  String, true, ◌||◌, List, [], ◌∷◌, ◌++◌, ◌≡◌, refl, ◌∙◌, append-nil, append_assoc, Bool-cases,
  inl, inr, if◌then◌else◌,
}
use smart_locker_iot.Python.{num}
use smart_locker_iot.Settings.{Settings}
use smart_locker_iot.Mqtt.{
  Broker, MqttClient, Attempt, attempt, create, start, new_client, on_connect, on_disconnect,
  subscribe_all_lockers, subscribe_lockers, subscribe, open_topic, close_topic, setup_topic,
  clear_setup_topic, discovery_topic,
}

abbrev pub tls_attempt : Settings → Attempt
tls_attempt s = attempt s.mqtt_port_ssl (record (new_client s) { tls = true }) s

abbrev pub plain_attempt : Settings → Attempt
plain_attempt s = attempt (num s.mqtt_port) (new_client s) s

-- The first start connects with TLS if the broker takes that. If it does not, the same user and
-- password go to the plain port, whatever the settings say of TLS; and the loop runs if one of the two
-- connections was taken.
pub start-create :
    (b : Broker) (s : Settings)
    → let c = start b s (create s) in
      (c.attempts
        ≡ tls_attempt s ∷ (if b.accepts (tls_attempt s) then [] else plain_attempt s ∷ []))
      × (c.client.tls ≡ b.accepts (tls_attempt s))
      × (c.client.looping ≡ b.accepts (tls_attempt s) || b.accepts (plain_attempt s))
unfolding start create new_client
start-create b s = elim (Bool-cases (b.accepts (tls_attempt s))) [
  | inl e ↦ rw e (refl, refl, refl)
  | inr e ↦ rw e (elim (Bool-cases (b.accepts (plain_attempt s))) [
    | inl p ↦ rw p (refl, refl, refl)
    | inr p ↦ rw p (refl, refl, refl)
  ])
]

-- The topics of the gateway itself, and those of its cabinets.
abbrev pub own_topics : Broker → Settings → List String
own_topics b s = setup_topic b s ∷ clear_setup_topic b s ∷ discovery_topic b s ∷ []

unfoldable pub cabinet_topics : List String → List String
cabinet_topics [] = []
cabinet_topics (name ∷ names) = open_topic name ∷ close_topic name ∷ cabinet_topics names

topics-subscribe_all_lockers :
    (names : List String) (c : MqttClient)
    → c.connected ≡ true
    → (subscribe_all_lockers names c).topics ≡ c.topics ++ cabinet_topics names
unfolding subscribe_all_lockers subscribe_lockers subscribe cabinet_topics
topics-subscribe_all_lockers [] c on = rw append-nil
topics-subscribe_all_lockers (name ∷ names) c on = rw on (
    topics-subscribe_all_lockers names
      (record c { connected = true; topics = c.topics ++ open_topic name ∷ close_topic name ∷ [] })
      refl
    ∙ append_assoc c.topics (open_topic name ∷ close_topic name ∷ []) (cabinet_topics names))

-- With a broker that keeps no subscriptions of a client that connects again: once the cabinets were
-- subscribed the client has its own topics and theirs; after the connection was lost and found again
-- it has its own, and none of a cabinet.
pub on_connect-again :
    (b : Broker) (s : Settings) (names : List String) (c : MqttClient)
    → ((ts : List String) → b.kept ts ≡ [])
    → let before = subscribe_all_lockers names (on_connect b s 0 c) in
      let again = on_connect b s 0 (on_disconnect before) in
      (before.topics ≡ own_topics b s ++ cabinet_topics names)
      × (again.connected ≡ true)
      × (again.topics ≡ own_topics b s)
unfolding on_connect on_disconnect
on_connect-again b s names c clean = (
  topics-subscribe_all_lockers names (on_connect b s 0 c) refl ∙ rw clean refl,
  refl,
  rw clean refl,
)
