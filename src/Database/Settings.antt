-- ===== src/Database/Settings.antt =====
-- The settings of infracstructure/database.py: what is saved is read again.
use smart_locker_iot.Prelude.{String, Bool, true, ◌≡◌, ◌≢◌, arith, Option, some, string_eq}
use smart_locker_iot.Prelude.Dict
use smart_locker_iot.Prelude.Int.{ℤ}
use smart_locker_iot.Python.{Value, null, bool, obj, Fields, str}
use smart_locker_iot.Python.Text.{format}
use smart_locker_iot.Database.Tables.{Database, transact, ◌>>=◌}
use smart_locker_iot.Database.Methods.{
  save_system_setting, get_system_setting, mqtt_row, save_mqtt_config, get_mqtt_config, mqtt_fields,
  arg,
}

-- On a reachable server a setting is read back as the text of what was saved, and every other setting as
-- it was before.
pub get_system_setting-save_system_setting :
    (key : String) (value d : Value) (db : Database)
    → db.reachable ≡ true
    → (get_system_setting key d (save_system_setting key value db).1 ≡ str (format value))
      × ((other : String)
          → key ≢ other
          → get_system_setting other d (save_system_setting key value db).1
            ≡ get_system_setting other d db)
unfolding get_system_setting save_system_setting transact
get_system_setting-save_system_setting key value d db up =
    let settings = db.tables.system_settings in
    (
      ground (arith, up, Dict.get-insert_self key (some (format value)) settings),
      λ other ne.
          ground (arith, up, Dict.get-insert_ne key other (some (format value)) settings ne),
    )

-- On a reachable server that takes the values, the configuration is read back with the row's values, and a
-- `useTls` that is NULL as false.
pub get_mqtt_config-save_mqtt_config :
    (fs : Fields) (db : Database) (broker : String) (port : ℤ) (username password : Option String)
    (tls : Option Bool)
    → db.reachable ≡ true
    → db.driver.text (arg "broker" null fs) ≡ some (some broker)
    → db.driver.integer (arg "port" null fs) ≡ some (some port)
    → db.driver.text (arg "username" null fs) ≡ some username
    → db.driver.text (arg "password" null fs) ≡ some password
    → db.driver.boolean (arg "useTls" (bool true) fs) ≡ some tls
    → get_mqtt_config (save_mqtt_config fs db).1
      ≡ obj (
          mqtt_fields (record {
            broker = broker;
            port = port;
            username = username;
            password = password;
            use_tls = tls;
          }))
unfolding get_mqtt_config save_mqtt_config mqtt_row transact ◌>>=◌
get_mqtt_config-save_mqtt_config fs db broker port username password tls up b p u w t = ground arith
