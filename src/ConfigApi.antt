-- ===== src/ConfigApi.antt =====
-- infracstructure/config_api.py: the endpoints of the local configuration server. The database is the
-- one of the cabinet state: main.py hands the same object to both.
pub mod Effects
use smart_locker_iot.Prelude.{
  ℕ, String, ◌<>◌, Bool, true, false, Option, none, some, List, [], ◌∷◌, if◌then◌else◌,
}
use smart_locker_iot.Prelude.Int.{ℤ, pos}
use smart_locker_iot.Prelude.Lists.{length}
use smart_locker_iot.Python.{
  Value, null, bool, num, str, arr, Fields, field, end, items_of, truthy, Result, ok, raise,
}
use smart_locker_iot.Python.Exec.{Exec, pure, lift, gets, modify, ◌>>=◌, ◌>>◌}
use smart_locker_iot.Database.Tables.{Database, MqttLog}
use smart_locker_iot.Database.Methods.{
  get_recent_logs, get_mqtt_config, get_system_setting, save_mqtt_config, save_system_setting,
  text_value,
}
use smart_locker_iot.CabinetState.{CabinetState, all_cabinets, is_configured, with_db}
use smart_locker_iot.CabinetState as Cabinets
use smart_locker_iot.Gateway.{fields_of, dict}
use smart_locker_iot.Settings.{Settings, update_system_config}

-- `ip`: what `_get_local_ip` finds.
pub record Server : Type 0 where
  pub cabinets : CabinetState
  pub settings : Settings
  pub ip : String

-- The body of `POST /config/mqtt`.
pub record MqttConfigUpdate : Type 0 where
  pub broker : String
  pub port : ℤ
  pub username : Option String
  pub password : Option String
  pub use_tls : Bool

pub data Request : Type 0 where
  system_info system_state health get_mqtt get_system clear_setup : Request
  recent_logs : ℤ → Request
  post_mqtt : MqttConfigUpdate → Request
  post_system : Fields → Request
  open_otp : String → Request

-- A reply with status 200, or the HTTPException with status 500.
pub data Response : Type 0 where
  reply : Value → Response
  logs : List MqttLog → Response
  server_error : Response

-- config.model_dump()
abbrev pub model_dump : MqttConfigUpdate → Fields
model_dump c = fields_of (
    ("broker", str c.broker)
    ∷ ("port", num c.port)
    ∷ ("username", text_value c.username)
    ∷ ("password", text_value c.password)
    ∷ ("useTls", bool c.use_tls)
    ∷ [])

abbrev pub success : String → Response
success message = reply (dict (("status", str "success") ∷ ("message", str message) ∷ []))

abbrev default_mqtt : Value
default_mqtt = dict (
    ("broker", str "localhost")
    ∷ ("port", num (pos 1883))
    ∷ ("username", str "")
    ∷ ("password", str "")
    ∷ ("useTls", bool true)
    ∷ ("isDefault", bool true)
    ∷ [])

-- A query of the database.
abbrev pub from_db {ℓ} : {A : Type ℓ} → A → (Database → A) → Server → A
from_db d query s = elim s.cabinets.db [ none ↦ d | some db ↦ query db ]

-- A method of the cabinet state.
unfoldable pub on_state : Exec CabinetState (Unit {0}) → Exec Server (Unit {0})
on_state m s = let r = m s.cabinets in (r.0, record s { cabinets = r.1 })

-- try: m; return message / except Exception: raise HTTPException(500)
abbrev pub respond : String → Result (Unit {0}) × Server → Response × Server
respond message (ok _, s) = (success message, s)
respond message (raise e, s) = (server_error, s)

unfoldable pub attempted : Exec Server (Unit {0}) → String → Server → Response × Server
attempted m message s = respond message (m s)

-- for key, value in config.items()
unfoldable pub save_settings : Fields → Exec Server (Unit {0})
save_settings end = pure tt
save_settings (field key value fs) = do
  on_state (with_db (save_system_setting key value))
  save_settings fs

-- settings.update_system_config(db_manager)
abbrev updated : Result Settings → Exec Server (Unit {0})
updated (ok settings) s = (ok tt, record s { settings = settings })
updated (raise e) s = (raise e, s)

unfoldable pub reload_settings : Exec Server (Unit {0})
reload_settings s = updated (from_db (ok s.settings) (λ db. update_system_config db s.settings) s) s

unfoldable pub post_system_config : Fields → Exec Server (Unit {0})
post_system_config config = do save_settings config; reload_settings

unfoldable pub get_system_info : Server → Value
get_system_info s = dict (
    ("macAddress", str s.settings.mac_address)
    ∷ ("version", str s.settings.firmware_version)
    ∷ ("status", str "online")
    ∷ ("ipAddress", str s.ip)
    ∷ ("location", s.cabinets.location)
    ∷ ("cabinetCount", num (pos (length (all_cabinets s.cabinets))))
    ∷ [])

unfoldable pub get_system_state : Server → Value
get_system_state s = dict (
    ("location", s.cabinets.location)
    ∷ ("cabinets", arr (items_of (all_cabinets s.cabinets)))
    ∷ ("isConfigured", bool (is_configured s.cabinets))
    ∷ [])

unfoldable pub get_mqtt_reply : Server → Value
get_mqtt_reply s =
    let config = from_db null get_mqtt_config s in if truthy config then config else default_mqtt

unfoldable pub get_system_config : Server → Value
get_system_config s =
    let default = num s.settings.max_cabinets in
    dict (("max_cabinets", from_db default (get_system_setting "max_cabinets" default) s) ∷ [])

unfoldable pub serve : Request → Server → Response × Server
serve system_info s = (reply (get_system_info s), s)
serve system_state s = (reply (get_system_state s), s)
serve health s = (reply (dict (("status", str "ok") ∷ [])), s)
serve get_mqtt s = (reply (get_mqtt_reply s), s)
serve get_system s = (reply (get_system_config s), s)
serve (recent_logs limit) s = (logs (from_db [] (get_recent_logs limit) s), s)
serve (post_mqtt config) s =
    attempted (on_state (with_db (save_mqtt_config (model_dump config))))
      "MQTT config updated. Please restart the service to apply." s
serve (post_system config) s = attempted (post_system_config config) "System config updated." s
serve clear_setup s = attempted (on_state Cabinets.clear) "Cabinet setup cleared successfully." s
serve (open_otp otp) s = (
  reply (
      dict (
        ("success", bool true)
        ∷ ("message", str ("Giả lập mở tủ thành công với mã OTP: " <> otp))
        ∷ ("hardwareSimulated", bool true)
        ∷ [])),
  s,
)
