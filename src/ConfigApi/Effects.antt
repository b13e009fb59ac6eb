-- ===== src/ConfigApi/Effects.antt =====
-- infracstructure/config_api.py with config/settings.py: what a request changes.
use smart_locker_iot.Prelude.{true, false, String, some, ◌≡◌, refl, ap, ◌∙◌, arith, string_eq}
use smart_locker_iot.Prelude.Int.{ℤ}
use smart_locker_iot.Python.{Value, null, num, str, Fields, field, end, ok}
use smart_locker_iot.Python.Text.{format, show_int, int}
use smart_locker_iot.Python.Text.Decimal.{int_of_text-show_int}
use smart_locker_iot.Python.Exec.{Exec, pure, continue, ◌>>=◌, ◌>>◌}
use smart_locker_iot.Database.Tables.{Database, transact, done, refused, broken, Sql}
use smart_locker_iot.Database.Tables as Sql
use smart_locker_iot.Database.Methods.{
  get_system_setting, save_system_setting, save_mqtt_config, mqtt_row,
}
use smart_locker_iot.Database.Settings.{get_system_setting-save_system_setting}
use smart_locker_iot.CabinetState.{with_db}
use smart_locker_iot.Settings.{Settings, update_system_config, with_stored, with_max_cabinets}
use smart_locker_iot.ConfigApi.{
  Server, MqttConfigUpdate, post_mqtt, post_system, success, serve, model_dump, reload_settings,
  on_state, save_settings, attempted, respond, post_system_config,
}

-- The server with this database.
abbrev pub with_database : Database → Server → Server
with_database db s = record s { cabinets = record s.cabinets { db = some db } }

abbrev pub with_limit : ℤ → Server → Server
with_limit n s = record s { settings = record s.settings { max_cabinets = n } }

save_system_setting_ok :
    (key : String) (value : Value) (db : Database) → (save_system_setting key value db).0 ≡ ok tt
unfolding save_system_setting transact
save_system_setting_ok key value db = ground arith

pub update_system_config_lem :
    (n : ℤ) (db : Database) (settings : Settings)
    → get_system_setting "max_cabinets" null db ≡ str (show_int n)
    → update_system_config db settings ≡ ok (record settings { max_cabinets = n })
unfolding update_system_config int
update_system_config_lem n db settings e =
    ap (λ v. with_stored v settings) e
    ∙ ap (λ r. with_max_cabinets r settings) (int_of_text-show_int n)

on_state_lem :
    (key : String) (value : Value) (db : Database) (s : Server)
    → s.cabinets.db ≡ some db
    → on_state (with_db (save_system_setting key value)) s
      ≡ (ok tt, with_database (save_system_setting key value db).1 s)
unfolding on_state with_db
on_state_lem key value db s there = rw (there, save_system_setting_ok key value db) refl

reload_settings_lem :
    (n : ℤ) (db : Database) (s : Server)
    → get_system_setting "max_cabinets" null db ≡ str (show_int n)
    → reload_settings (with_database db s) ≡ (ok tt, with_limit n (with_database db s))
unfolding reload_settings
reload_settings_lem n db s e = rw (update_system_config_lem n db s.settings e) refl

attempted_ok :
    (m : Exec Server (Unit {0})) (message : String) (s s' : Server)
    → m s ≡ (ok tt, s')
    → attempted m message s ≡ (success message, s')
unfolding attempted
attempted_ok m message s s' e = ap (respond message) e

save_settings_one :
    (key : String) (value : Value) (db : Database) (s : Server)
    → s.cabinets.db ≡ some db
    → save_settings (field key value end) s
      ≡ (ok tt, with_database (save_system_setting key value db).1 s)
unfolding save_settings ◌>>◌ ◌>>=◌
save_settings_one key value db s there =
    ap (λ r. continue r.0 (λ _. pure tt) r.1) (on_state_lem key value db s there)

post_system_config_lem :
    (config : Fields) (s s' s'' : Server)
    → save_settings config s ≡ (ok tt, s')
    → reload_settings s' ≡ (ok tt, s'')
    → post_system_config config s ≡ (ok tt, s'')
unfolding post_system_config ◌>>◌ ◌>>=◌
post_system_config_lem config s s' s'' saved reloaded =
    ap (λ r. continue r.0 (λ _. reload_settings) r.1) saved ∙ reloaded

save_mqtt_config_ok : (fs : Fields) (db : Database) → (save_mqtt_config fs db).0 ≡ ok tt
unfolding save_mqtt_config mqtt_row transact Sql.◌>>=◌
save_mqtt_config_ok fs db = ground arith

post_mqtt_lem :
    (fs : Fields) (db : Database) (s : Server)
    → s.cabinets.db ≡ some db
    → on_state (with_db (save_mqtt_config fs)) s
      ≡ (ok tt, with_database (save_mqtt_config fs db).1 s)
unfolding on_state with_db
post_mqtt_lem fs db s there = rw (there, save_mqtt_config_ok fs db) refl

-- On a reachable database a posted number of cabinets is the setting at once: it was stored as a text
-- and is read back. Nothing else of the server changes but the database's row.
pub serve-post_system :
    (n : ℤ) (db : Database) (s : Server)
    → s.cabinets.db ≡ some db
    → db.reachable ≡ true
    → serve (post_system (field "max_cabinets" (num n) end)) s ≡ (
      success "System config updated.",
      with_limit n (with_database (save_system_setting "max_cabinets" (num n) db).1 s),
    )
unfolding serve format
serve-post_system n db s there up =
    let saved : Database = (save_system_setting "max_cabinets" (num n) db).1 in
    let read : get_system_setting "max_cabinets" null saved ≡ str (show_int n) =
      (get_system_setting-save_system_setting "max_cabinets" (num n) null db up).0 in
    attempted_ok _ _ s _ (
      post_system_config_lem _ s _ _ (save_settings_one "max_cabinets" (num n) db s there)
        (reload_settings_lem n saved s read))

pub serve-post_mqtt_lem :
    (c : MqttConfigUpdate) (db : Database) (s : Server)
    → s.cabinets.db ≡ some db
    → serve (post_mqtt c) s ≡ (
      success "MQTT config updated. Please restart the service to apply.",
      with_database (save_mqtt_config (model_dump c) db).1 s,
    )
unfolding serve
serve-post_mqtt_lem c db s there = attempted_ok _ _ s _ (post_mqtt_lem (model_dump c) db s there)

-- A configuration of the broker is answered with success whatever becomes of it. Where the server of the
-- database cannot be reached, nothing is stored.
pub serve-post_mqtt :
    (c : MqttConfigUpdate) (db : Database) (s : Server)
    → s.cabinets.db ≡ some db
    → ((serve (post_mqtt c) s).0
        ≡ success "MQTT config updated. Please restart the service to apply.")
      × (db.reachable ≡ false → (serve (post_mqtt c) s).1.cabinets.db ≡ some db)
unfolding save_mqtt_config transact
serve-post_mqtt c db s there =
    let served = serve-post_mqtt_lem c db s there in
    (ap (λ r. r.0) served, λ down. ap (λ r. r.1.cabinets.db) served ∙ rw down refl)
