-- ===== src/Mqtt.antt =====
-- infracstructure/mqtt_client.py: the connection of the client to the broker, and what it is subscribed
-- to. The client of paho and the broker are not part of the repository.
pub mod Connection
use smart_locker_iot.Prelude.{
  ℕ, String, ◌<>◌, Bool, true, false, Option, none, some, List, [], ◌∷◌, ◌++◌, not, nat_beq,
  string_eq, ◌==◌, if◌then◌else◌,
}
use smart_locker_iot.Prelude.Dict
use smart_locker_iot.Python.{Value, num, truthy}
use smart_locker_iot.Settings.{Settings}

-- `mqtt.Client`: what was configured on it, and whether its loop runs.
pub record PahoClient : Type 0 where
  pub tls : Bool
  pub auth : Option (Value × Value)
  pub looping : Bool

-- A call of `connect`: the host, the port, and how the client is configured.
pub record Attempt : Type 0 where
  pub host : Value
  pub port : Value
  pub tls : Bool
  pub auth : Option (Value × Value)

-- `accepts`: `connect` returns, and does not raise. `kept`: what the broker keeps of the subscriptions
-- of a client that connects again.
pub record Broker : Type 0 where
  pub accepts : Attempt → Bool
  pub kept : List String → List String

-- `_connected`, `client`, the calls of `connect`, and the topics to which the broker has the client
-- subscribed.
pub record MqttClient : Type 0 where
  pub connected : Bool
  pub client : PahoClient
  pub attempts : List Attempt
  pub topics : List String

-- The client of `re_init`: with the credentials if there is a user's name.
unfoldable pub new_client : Settings → PahoClient
new_client s = record {
  tls = false;
  auth = (if truthy s.mqtt_username then some (s.mqtt_username, s.mqtt_password) else none);
  looping = false;
}

-- The old client is stopped, and what it raises is passed over.
unfoldable pub re_init : Settings → MqttClient → MqttClient
unfolding new_client
re_init s c = record c { client = new_client s }

-- MQTTClientWrapper(…)
unfoldable pub create : Settings → MqttClient
unfolding re_init
create s = record { connected = false; client = new_client s; attempts = []; topics = [] }

abbrev pub attempt : Value → PahoClient → Settings → Attempt
attempt port client s = record {
  host = s.mqtt_broker;
  port = port;
  tls = client.tls;
  auth = client.auth;
}

module _ (b : Broker) (s : Settings) where
  -- client.connect(…) and client.loop_start(): whether they returned.
  unfoldable pub connect : Value → MqttClient → Bool × MqttClient
  connect port c =
      let a = attempt port c.client s in
      let c' : MqttClient = record c { attempts = c.attempts ++ a ∷ [] } in
      if b.accepts a
      then (true, record c' { client = record c'.client { looping = true } })
      else (false, c')

  -- tls_set, which raises on a client that has TLS, and connect.
  unfoldable pub connect_tls : MqttClient → Bool × MqttClient
  unfolding connect
  connect_tls c =
      if c.client.tls
      then (false, c)
      else connect s.mqtt_port_ssl (record c { client = record c.client { tls = true } })

  -- `start`: MQTTS, and plain MQTT where that fails. No exception leaves it.
  unfoldable pub start : MqttClient → MqttClient
  unfolding connect_tls re_init
  start c =
      let (done, c') = connect_tls c in
      let plain = connect (num s.mqtt_port) (re_init s c') in if done then c' else plain.1

  abbrev pub setup_topic : String
  setup_topic = "iot/" <> (s.mac_address <> "/command/setup")

  abbrev pub clear_setup_topic : String
  clear_setup_topic = "iot/" <> (s.mac_address <> "/command/clear-setup")

  abbrev pub discovery_topic : String
  discovery_topic = "iot/" <> (s.mac_address <> "/discovery/start")

  -- The callback of a connection, with the broker's reason code. The broker begins with what it kept.
  unfoldable pub on_connect : ℕ → MqttClient → MqttClient
  on_connect reason_code c =
      let c' : MqttClient = record c { topics = b.kept c.topics } in
      if nat_beq reason_code 0
      then record c' {
        connected = true;
        topics = c'.topics ++ setup_topic ∷ clear_setup_topic ∷ discovery_topic ∷ [];
      }
      else c'

unfoldable pub on_disconnect : MqttClient → MqttClient
on_disconnect c = record c { connected = false }

unfoldable pub is_connected : MqttClient → Bool
is_connected c = c.connected

-- client.subscribe of filters that paho takes: without a connection it does nothing.
unfoldable pub subscribe : List String → MqttClient → MqttClient
subscribe topics c = if c.connected then record c { topics = c.topics ++ topics } else c

unfoldable pub without : String → List String → List String
without topic [] = []
without topic (t ∷ ts) = let rest = without topic ts in if t == topic then rest else t ∷ rest

unfoldable pub unsubscribe : String → MqttClient → MqttClient
unfolding without
unsubscribe topic c = record c { topics = without topic c.topics }

abbrev pub open_topic : String → String
open_topic cabinet_name = "cabinet/" <> (cabinet_name <> "/command/open")

abbrev pub close_topic : String → String
close_topic cabinet_name = "cabinet/" <> (cabinet_name <> "/command/close")

-- subscribe_locker_commands of a name; and of its close commands alone.
unfoldable pub subscribe_lockers : String → MqttClient → MqttClient
unfolding subscribe
subscribe_lockers cabinet_name = subscribe (open_topic cabinet_name ∷ close_topic cabinet_name ∷ [])

unfoldable pub subscribe_close_command : String → MqttClient → MqttClient
unfolding subscribe
subscribe_close_command cabinet_name = subscribe (close_topic cabinet_name ∷ [])

unfoldable pub subscribe_all_lockers : List String → MqttClient → MqttClient
unfolding subscribe_lockers
subscribe_all_lockers [] c = c
subscribe_all_lockers (name ∷ names) c = subscribe_all_lockers names (subscribe_lockers name c)

unfoldable pub stop : MqttClient → MqttClient
stop c = record c { client = record c.client { looping = false } }
