-- ===== src/Settings.antt =====
-- config/settings.py: the settings, from the environment and then from the database.
use smart_locker_iot.Prelude.{
  ℕ, ◌/◌, ◌%◌, ◌^◌, String, ◌<>◌, Option, none, some, [], ◌∷◌, string_eq, if◌then◌else◌,
}
use smart_locker_iot.Prelude.Int.{ℤ, pos}
use smart_locker_iot.Prelude.Texts.{lower, same_codes, join}
use smart_locker_iot.Python.{
  Value, null, bool, num, str, obj, Fields, default, find, truthy, Result, ok, raise, value_error,
  ◌>>=◌,
}
use smart_locker_iot.Python.Text.{int, hex_digit_upper}
use smart_locker_iot.Database.Tables.{Database}
use smart_locker_iot.Database.Methods.{get_system_setting}

-- `os.getenv` of a name.
abbrev pub Environment : Type 0
Environment = String → Option String

-- The attributes of `Settings`. What `update_mqtt_config` overwrites is whatever the row holds.
pub record Settings : Type 0 where
  pub mac_address : String
  pub mqtt_broker : Value
  pub mqtt_port : ℤ
  pub mqtt_port_ssl : Value
  pub mqtt_username : Value
  pub mqtt_password : Value
  pub mqtt_keepalive : ℤ
  pub mqtt_reconnect_interval : ℤ
  pub mqtt_use_tls : Value
  pub serial_port : String
  pub serial_baud_rate : ℤ
  pub total_slots : ℤ
  pub max_cabinets : ℤ
  pub servo_open_angle : ℤ
  pub servo_close_angle : ℤ
  pub sensor_debounce_ms : ℤ
  pub backend_api_url : String
  pub backend_health_url : String
  pub firmware_version : String
  pub database_path : String
  pub postgres_host : String
  pub postgres_port : ℤ
  pub postgres_db : String
  pub postgres_user : String
  pub postgres_password : String

-- The byte of a number at a position, as two hexadecimal digits.
byte_text : ℕ → ℕ → String
byte_text node i =
    hex_digit_upper (node / 256 ^ i / 16 % 16) <> hex_digit_upper (node / 256 ^ i % 16)

-- `_get_mac_address`, of the 48 bits of `uuid.getnode()`.
unfoldable pub get_mac_address : ℕ → String
unfolding byte_text
get_mac_address node = join ":" (
    byte_text node 5
    ∷ byte_text node 4
    ∷ byte_text node 3
    ∷ byte_text node 2
    ∷ byte_text node 1
    ∷ byte_text node 0
    ∷ [])

module _ (env : Environment) where
  abbrev getenv : String → String → String
  getenv name d = elim (env name) [ none ↦ d | some v ↦ v ]

  -- int(os.getenv(name, d))
  abbrev int_env : String → ℕ → Result ℤ
  int_env name d = elim (env name) [ none ↦ ok (pos d) | some v ↦ int (str v) ]

  -- os.getenv(name) or d
  abbrev env_or : String → String → String
  env_or name d = if truthy (str (getenv name "")) then getenv name "" else d

  -- The body of the class: a text that is no number ends the import.
  unfoldable pub read_settings : ℕ → Result Settings
  unfolding get_mac_address
  read_settings node = do
    mqtt_port ← int_env "MQTT_PORT" 1883
    mqtt_port_ssl ← int_env "MQTT_PORT_SSL" 8883
    mqtt_keepalive ← int_env "MQTT_KEEPALIVE" 60
    mqtt_reconnect_interval ← int_env "MQTT_RECONNECT_INTERVAL" 5
    serial_baud_rate ← int_env "SERIAL_BAUD_RATE" 9600
    total_slots ← int_env "TOTAL_SLOTS" 24
    servo_open_angle ← int_env "SERVO_OPEN_ANGLE" 90
    servo_close_angle ← int_env "SERVO_CLOSE_ANGLE" 0
    sensor_debounce_ms ← int_env "SENSOR_DEBOUNCE_MS" 200
    postgres_port ← int_env "POSTGRES_PORT" 5432
    ok (record {
      mac_address = env_or "MAC_ADDRESS" (get_mac_address node);
      mqtt_broker = str (getenv "MQTT_BROKER" "localhost");
      mqtt_port = mqtt_port;
      mqtt_port_ssl = num mqtt_port_ssl;
      mqtt_username = str (getenv "MQTT_USERNAME" "");
      mqtt_password = str (getenv "MQTT_PASSWORD" "");
      mqtt_keepalive = mqtt_keepalive;
      mqtt_reconnect_interval = mqtt_reconnect_interval;
      mqtt_use_tls = bool (same_codes (lower (getenv "MQTT_USE_TLS" "true")) (lower "true"));
      serial_port = getenv "SERIAL_PORT" "AUTO";
      serial_baud_rate = serial_baud_rate;
      total_slots = total_slots;
      max_cabinets = pos 1;
      servo_open_angle = servo_open_angle;
      servo_close_angle = servo_close_angle;
      sensor_debounce_ms = sensor_debounce_ms;
      backend_api_url = getenv "BACKEND_API_URL" "";
      backend_health_url = getenv "BACKEND_HEALTH_URL" "";
      firmware_version = getenv "FIRMWARE_VERSION" "v1.0.0";
      database_path = getenv "DATABASE_PATH" "locker.db";
      postgres_host = getenv "POSTGRES_HOST" "localhost";
      postgres_port = postgres_port;
      postgres_db = getenv "POSTGRES_DB" "iot_locker";
      postgres_user = getenv "POSTGRES_USER" "postgres";
      postgres_password = getenv "POSTGRES_PASSWORD" "postgres";
    })

-- update_mqtt_config of a dict, which is skipped where it is empty.
unfoldable pub update_mqtt_config : Fields → Settings → Settings
update_mqtt_config db_config s =
    if truthy (obj db_config)
    then record s {
      mqtt_broker = default s.mqtt_broker (find "broker" db_config);
      mqtt_port_ssl = default s.mqtt_port_ssl (find "port" db_config);
      mqtt_username = default s.mqtt_username (find "username" db_config);
      mqtt_password = default s.mqtt_password (find "password" db_config);
      mqtt_use_tls = default s.mqtt_use_tls (find "useTls" db_config);
    }
    else s

-- What `int` makes of the stored value: a ValueError leaves the setting, another exception goes on.
abbrev pub with_max_cabinets : Result ℤ → Settings → Result Settings
with_max_cabinets (ok n) s = ok (record s { max_cabinets = n })
with_max_cabinets (raise value_error) s = ok s
with_max_cabinets (raise e) s = raise e

-- What is done with the stored text, `None` where there is none.
abbrev pub with_stored : Value → Settings → Result Settings
with_stored null s = ok s
with_stored v s = with_max_cabinets (int v) s

unfoldable pub update_system_config : Database → Settings → Result Settings
update_system_config db s = with_stored (get_system_setting "max_cabinets" null db) s
