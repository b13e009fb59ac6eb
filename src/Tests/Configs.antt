-- ===== src/Tests/Configs.antt =====
-- The results at a posted configuration, at starts of the gateway, at the topics of a cabinet, and at the
-- simulator of a demonstration.
use smart_locker_iot.Prelude.{
  ◌==◌, string_eq, not, true, false, ◌||◌, ◌≡◌, refl, none, some, [], ◌∷◌, ◌++◌, if◌then◌else◌,
}
use smart_locker_iot.Prelude.Int.{pos}
use smart_locker_iot.Prelude.Texts.{join, same_codes, lower, split, starts}
use smart_locker_iot.Prelude.Texts.Laws.{free_of}
use smart_locker_iot.Python.Text.{hex_digit_upper, is_blank}
use smart_locker_iot.Python.{Fields, obj, find, serializable, num, str, null, bool, field, end, ok}
use smart_locker_iot.Python.Exec.{◌>>=◌}
use smart_locker_iot.Database.Tables.{Database}
use smart_locker_iot.CabinetState.{missing}
use smart_locker_iot.Serial.{simulation}
use smart_locker_iot.Settings.{Settings, read_settings}
use smart_locker_iot.ConfigApi.{Server, MqttConfigUpdate, serve, post_mqtt}
use smart_locker_iot.Boot.{boot, configure}
use smart_locker_iot.Boot.Configured.{Uses, configure-post_mqtt}
use smart_locker_iot.Boot.Recovered.{Raises, boot_raise}
use smart_locker_iot.Mqtt.{Broker, create, start, subscribe_all_lockers, on_connect, on_disconnect}
use smart_locker_iot.Mqtt.Connection.{
  tls_attempt, plain_attempt, start-create, own_topics, cabinet_topics, on_connect-again,
}
use smart_locker_iot.Serial.Listener.{lstrip, rstrip}
use smart_locker_iot.Simulator.{Simulator, on_message, reply_after_delay, resolve_broker, seeded}
use smart_locker_iot.Simulator.Replies.{
  reply_to, result_message, door_messages, on_message-reply_after_delay,
}
use smart_locker_iot.Locker.{read_named, answer, perform_open, perform_close}
use smart_locker_iot.Service.{route}
use smart_locker_iot.Service.Routing.{cabinet_topic, route-cabinet_topic}
use smart_locker_iot.Tests.{database, cabinet_state, database-HasCabinet}

abbrev pub settings : Settings
settings = record {
  mac_address = "AA:BB:CC:DD:EE:FF";
  mqtt_broker = str "localhost";
  mqtt_port = pos 1883;
  mqtt_port_ssl = num (pos 8883);
  mqtt_username = str "user";
  mqtt_password = str "secret";
  mqtt_keepalive = pos 60;
  mqtt_reconnect_interval = pos 5;
  mqtt_use_tls = bool true;
  serial_port = "AUTO";
  serial_baud_rate = pos 9600;
  total_slots = pos 24;
  max_cabinets = pos 1;
  servo_open_angle = pos 90;
  servo_close_angle = pos 0;
  sensor_debounce_ms = pos 200;
  backend_api_url = "";
  backend_health_url = "";
  firmware_version = "v1.0.0";
  database_path = "locker.db";
  postgres_host = "localhost";
  postgres_port = pos 5432;
  postgres_db = "iot_locker";
  postgres_user = "postgres";
  postgres_password = "postgres";
}

-- An environment that names only the user gives these settings.
read_settings_run :
    read_settings
      (λ name.
        if name == "MQTT_USERNAME"
        then some "user"
        else if name == "MQTT_PASSWORD"
        then some "secret"
        else none)
      187723572702975
    ≡ ok settings
unfolding read_settings join same_codes hex_digit_upper lower
read_settings_run = refl

abbrev server : Server
server = record {
  cabinets = record cabinet_state { db = some database };
  settings = settings;
  ip = "0.0.0.0";
}

abbrev update : MqttConfigUpdate
update = record {
  broker = "hive";
  port = pos 8884;
  username = some "u";
  password = none;
  use_tls = true;
}

configure-post_mqtt_example :
    (d : Database) × (t : Settings) × ((serve (post_mqtt update) server).1.cabinets.db ≡ some d)
    × (configure d settings ≡ ok t)
    × Uses update t
configure-post_mqtt_example =
    configure-post_mqtt update database server settings refl refl refl refl refl refl refl

boot_raise_example : Raises (boot settings missing true database)
boot_raise_example = boot_raise settings database database-HasCabinet

-- A broker that takes plain connections only, and forgets.
abbrev broker : Broker
broker = record { accepts = λ a. not a.tls; kept = λ ts. [] }

start-create_example :
    let c = start broker settings (create settings) in
    (c.attempts
      ≡ tls_attempt settings
        ∷ (if broker.accepts (tls_attempt settings) then [] else plain_attempt settings ∷ []))
    × (c.client.tls ≡ broker.accepts (tls_attempt settings))
    × (c.client.looping
        ≡ broker.accepts (tls_attempt settings) || broker.accepts (plain_attempt settings))
start-create_example = start-create broker settings

on_connect-again_example :
    let before =
      subscribe_all_lockers ("A" ∷ []) (on_connect broker settings 0 (create settings)) in
    let again = on_connect broker settings 0 (on_disconnect before) in
    (before.topics ≡ own_topics broker settings ++ cabinet_topics ("A" ∷ []))
    × (again.connected ≡ true)
    × (again.topics ≡ own_topics broker settings)
on_connect-again_example =
    on_connect-again broker settings ("A" ∷ []) (create settings) (λ ts. refl)

route-cabinet_topic_example :
    (route {P = simulation} (cabinet_topic "A" "/command/open") null
      ≡ (read_named null "A" >>= answer perform_open))
    × (route {P = simulation} (cabinet_topic "A" "/command/close") null
        ≡ (read_named null "A" >>= answer perform_close))
unfolding free_of
route-cabinet_topic_example = route-cabinet_topic {P = simulation} "A" null refl

abbrev open_message : Fields
open_message = field "commandId" (str "k") (field "box_id" (num (pos 3)) end)

abbrev simulator : Simulator
simulator = record {
  known = [];
  connected = true;
  force_fail = false;
  subscriptions = [];
  outbox = [];
  replies = [];
  closings = [];
  clock = λ n. "now";
  readings = 0;
}

on_message-reply_after_delay_example :
    let r = on_message (cabinet_topic "2" "/command/open") (some (obj open_message)) simulator in
    let reply = reply_to "2" open_message in
    (r.0 ≡ ok tt)
    × (r.1.replies ≡ simulator.replies ++ reply ∷ [])
    × ((reply_after_delay reply simulator).1.outbox
        ≡ simulator.outbox ++ result_message reply simulator ∷ door_messages reply simulator)
unfolding free_of serializable find
on_message-reply_after_delay_example =
    on_message-reply_after_delay "2" open_message simulator simulator refl refl refl

-- The broker of an address, and the default one.
resolve_broker_run :
    (resolve_broker (λ name. if name == "MQTT_BROKER_URL" then some "tcp://hive:1884" else none)
      ≡ ok ("hive", pos 1884))
    × (resolve_broker (λ name. none) ≡ ok ("broker.hivemq.com", pos 1883))
unfolding resolve_broker starts is_blank
resolve_broker_run = (refl, refl)

-- Seeded cabinets are known once and without their blanks.
seeded_run :
    let s =
      seeded
        (λ name.
          if name == "SIM_HEARTBEAT_CABINETS"
          then some "2, 3,,2"
          else if name == "SIM_FORCE_FAIL"
          then some "True"
          else none)
        (λ n. "now") in
    (s.known ≡ "2" ∷ "3" ∷ []) × (s.force_fail ≡ true)
unfolding seeded split lstrip rstrip is_blank same_codes lower
seeded_run = (refl, refl)
