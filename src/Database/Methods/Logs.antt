-- ===== src/Database/Methods/Logs.antt =====
-- The logs and the settings of infracstructure/database.py.
use smart_locker_iot.Prelude.{
  String, Bool, true, false, Option, none, some, List, [], ◌∷◌, ◌++◌, ◌||◌, ◌==◌, string_eq,
  if◌then◌else◌,
}
use mathlib.Core.List.{reverse}
use smart_locker_iot.Prelude.Dict
use smart_locker_iot.Prelude.Dict.{Dict}
use smart_locker_iot.Prelude.Lists.{take}
use smart_locker_iot.Prelude.Int.{ℤ, pos, negsuc}
use smart_locker_iot.Python.{Value, null, bool, num, str, obj, Fields, end, field}
use smart_locker_iot.Python.Text.{format}
use smart_locker_iot.Python.Exec.{Exec}
use smart_locker_iot.Database.Tables.{
  MqttLog, MqttConfig, LockerEvent, Database, Sql, done, refused, ◌>>=◌, bind, not_null, transact,
  query,
}
use smart_locker_iot.Database.Methods.Columns.{text_value, arg}

-- save_system_setting: the value is stored as its text.
unfoldable pub save_system_setting : String → Value → Exec Database (Unit {0})
unfolding format
save_system_setting key value = transact λ db. done (record db.tables {
  system_settings = Dict.insert key (some (format value)) db.tables.system_settings;
})

unfoldable pub get_system_setting : String → Value → Database → Value
get_system_setting key d db =
    query d db (elim (Dict.get key db.tables.system_settings) [ none ↦ d | some v ↦ text_value v ])

-- log_mqtt, for a payload that is a text
unfoldable pub log_mqtt : String → String → String → Exec Database (Unit {0})
log_mqtt topic payload direction = transact λ db.
    if direction == "IN" || direction == "OUT"
    then done (record db.tables {
      mqtt_logs =
          db.tables.mqtt_logs
          ++ record {
            topic = topic;
            payload = some payload;
            direction = direction;
            timestamp = db.now;
          }
            ∷ [];
    })
    else refused

-- The parameters of the one row of `mqtt_config`.
unfoldable pub mqtt_row : Fields → Database → Sql MqttConfig
mqtt_row fs db = do
  broker ← not_null (db.driver.text (arg "broker" null fs))
  port ← not_null (db.driver.integer (arg "port" null fs))
  username ← bind (db.driver.text (arg "username" null fs))
  password ← bind (db.driver.text (arg "password" null fs))
  use_tls ← bind (db.driver.boolean (arg "useTls" (bool true) fs))
  done (record {
    broker = broker;
    port = port;
    username = username;
    password = password;
    use_tls = use_tls;
  })

unfoldable pub save_mqtt_config : Fields → Exec Database (Unit {0})
save_mqtt_config fs =
    transact λ db. mqtt_row fs db >>= λ row. done (record db.tables { mqtt_config = some row })

-- bool(d["use_tls"])
abbrev is_on : Option Bool → Bool
is_on none = false
is_on (some b) = b

abbrev pub mqtt_fields : MqttConfig → Fields
mqtt_fields row = field "broker" (str row.broker) (
    field "port" (num row.port) (
      field "username" (text_value row.username) (
        field "password" (text_value row.password)
          (field "useTls" (bool (is_on row.use_tls)) end))))

-- get_mqtt_config: `None` is `null`.
unfoldable pub get_mqtt_config : Database → Value
get_mqtt_config db =
    query null db (elim db.tables.mqtt_config [ none ↦ null | some row ↦ obj (mqtt_fields row) ])

-- The arguments of `log_event`, each `null` for None.
pub record EventArgs : Type 0 where
  pub event_type : Value
  pub locker_id : Value
  pub slot_index : Value
  pub status : Value
  pub message : Value
  pub command_id : Value

unfoldable pub event_row : EventArgs → Database → Sql LockerEvent
event_row a db = do
  locker_id ← bind (db.driver.text a.locker_id)
  slot_index ← bind (db.driver.integer a.slot_index)
  event_type ← not_null (db.driver.text a.event_type)
  status ← bind (db.driver.text a.status)
  message ← bind (db.driver.text a.message)
  command_id ← bind (db.driver.text a.command_id)
  done (record {
    locker_id = locker_id;
    slot_index = slot_index;
    event_type = event_type;
    status = status;
    message = message;
    command_id = command_id;
    timestamp = db.now;
  })

unfoldable pub log_event : EventArgs → Exec Database (Unit {0})
log_event a = transact λ db. event_row a db >>= λ row.
    done (record db.tables { locker_events = db.tables.locker_events ++ row ∷ [] })

-- LIMIT: a negative one is an error of the server.
unfoldable pub limited : ℤ → List MqttLog → Option (List MqttLog)
limited (pos n) logs = some (take n logs)
limited (negsuc n) logs = none

unfoldable pub get_recent_logs : ℤ → Database → List MqttLog
unfolding limited
get_recent_logs limit db =
    query [] db (elim (limited limit (reverse db.tables.mqtt_logs)) [ none ↦ [] | some l ↦ l ])
