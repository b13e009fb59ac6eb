-- ===== src/Boot/Configured.antt =====
-- main.py with infracstructure/config_api.py: the configuration that was posted is the one that the next
-- start uses.
use smart_locker_iot.Prelude.{
  true, String, Bool-cases, Option-cases, ◌⊎◌, inl, inr, string_eq, none, some, ◌≡◌, refl, ap, ◌∙◌,
}
use smart_locker_iot.Python.{find, Value, bool, null, num, str, obj, ok, ◌>>=◌}
use smart_locker_iot.Python.Text.{int}
use smart_locker_iot.Database.Tables.{Database, MqttConfig}
use smart_locker_iot.Database.Methods.{
  get_system_setting, get_mqtt_config, mqtt_fields, save_mqtt_config, text_value,
}
use smart_locker_iot.Database.Settings.{get_mqtt_config-save_mqtt_config}
use smart_locker_iot.Settings.{Settings, update_system_config, with_stored, update_mqtt_config}
use smart_locker_iot.Prelude.Dict
use smart_locker_iot.Python.Text.Decimal.{int_of_text-cases}
use smart_locker_iot.ConfigApi.Effects.{serve-post_mqtt_lem}
use smart_locker_iot.ConfigApi.{Server, MqttConfigUpdate, serve, post_mqtt, model_dump}
use smart_locker_iot.Boot.{configure, with_mqtt_row}

-- The settings talk to the broker of the configuration.
abbrev pub Uses : MqttConfigUpdate → Settings → Type 0
Uses c s =
    (s.mqtt_broker ≡ str c.broker)
    × (s.mqtt_port_ssl ≡ num c.port)
    × (s.mqtt_username ≡ text_value c.username)
    × (s.mqtt_password ≡ text_value c.password)
    × (s.mqtt_use_tls ≡ bool c.use_tls)

-- The text of a setting, or none.
IsText : Value → Type 0
IsText v = (v ≡ null) ⊎ ((t : String) × (v ≡ str t))

get_system_setting-IsText : (key : String) (db : Database) → IsText (get_system_setting key null db)
unfolding get_system_setting IsText
get_system_setting-IsText key db = elim (Bool-cases db.reachable) [
  | inr e ↦ rw e (inl refl)
  | inl e ↦ rw e (elim (Option-cases (Dict.get key db.tables.system_settings)) [
    | inl n ↦ rw n (inl refl)
    | inr (none, h) ↦ rw h (inl refl)
    | inr (some t, h) ↦ rw h (inr (t, refl))
  ])
]

with_stored_ok : (v : Value) (s : Settings) → IsText v → (t : Settings) × (with_stored v s ≡ ok t)
unfolding IsText int
with_stored_ok v s (inl e) = rw e (s, refl)
with_stored_ok v s (inr (t, e)) = rw e (elim (int_of_text-cases t) [
  | inl (n, h) ↦ rw h (record s { max_cabinets = n }, refl)
  | inr h ↦ rw h (s, refl)
])

configure_lem :
    (db : Database) (s base : Settings) (row : Value)
    → update_system_config db s ≡ ok base
    → get_mqtt_config db ≡ row
    → configure db s ≡ ok (with_mqtt_row row base)
unfolding configure
configure_lem db s base row e r =
    ap (λ x. x >>= λ t. ok (with_mqtt_row (get_mqtt_config db) t)) e
    ∙ ap (λ v. ok (with_mqtt_row v base)) r

-- Where the driver takes a posted configuration as it is, the gateway that is started next uses it:
-- the start's settings are those that were posted.
pub configure-post_mqtt :
    (c : MqttConfigUpdate) (db : Database) (s : Server) (settings : Settings)
    → s.cabinets.db ≡ some db
    → db.reachable ≡ true
    → db.driver.text (str c.broker) ≡ some (some c.broker)
    → db.driver.integer (num c.port) ≡ some (some c.port)
    → db.driver.text (text_value c.username) ≡ some c.username
    → db.driver.text (text_value c.password) ≡ some c.password
    → db.driver.boolean (bool c.use_tls) ≡ some (some c.use_tls)
    → (d : Database) × (t : Settings) × ((serve (post_mqtt c) s).1.cabinets.db ≡ some d)
      × (configure d settings ≡ ok t)
      × Uses c t
unfolding update_system_config update_mqtt_config find
configure-post_mqtt c db s settings there up b p u w t =
    let saved : Database = (save_mqtt_config (model_dump c) db).1 in
    let row : MqttConfig = record {
      broker = c.broker;
      port = c.port;
      username = c.username;
      password = c.password;
      use_tls = some c.use_tls;
    } in
    let stored =
      get_mqtt_config-save_mqtt_config (model_dump c) db c.broker c.port c.username c.password
        (some c.use_tls) up b p u w t in
    let (base, e) = with_stored_ok _ settings (get_system_setting-IsText "max_cabinets" saved) in
    (
      saved,
      with_mqtt_row (obj (mqtt_fields row)) base,
      ap (λ r. r.1.cabinets.db) (serve-post_mqtt_lem c db s there),
      configure_lem saved settings base _ e stored,
      (refl, refl, refl, refl, refl),
    )
