-- ===== src/Boot.antt =====
-- main.py, from the database to the services: the settings of the database, the cabinet state and the
-- heartbeat's interval.
pub mod Recovered
pub mod Configured
pub mod Shutdown
use smart_locker_iot.Prelude.{ℕ, String, Bool, Option, none, some, List, [], ◌∷◌, if◌then◌else◌}
use smart_locker_iot.Prelude.Int.{pos}
use smart_locker_iot.Python.{Value, num, obj, Fields, get, index, truthy, Result, ok, raise, ◌>>=◌}
use smart_locker_iot.Database.Tables.{Database}
use smart_locker_iot.Database.Methods.{get_mqtt_config}
use smart_locker_iot.CabinetState.{
  CabinetState, StateFile, create, is_configured, all_cabinets, heartbeat_interval,
}
use smart_locker_iot.Settings.{Settings, update_system_config, update_mqtt_config}

-- if mqtt_db_config: settings.update_mqtt_config(mqtt_db_config)
abbrev pub with_mqtt_row : Value → Settings → Settings
with_mqtt_row (obj fs) s = if truthy (obj fs) then update_mqtt_config fs s else s
with_mqtt_row v s = s

-- The settings that the database overrides.
unfoldable pub configure : Database → Settings → Result Settings
configure db s = do s' ← update_system_config db s; ok (with_mqtt_row (get_mqtt_config db) s')

-- The log line of each cabinet reads its name and its slave.
unfoldable pub log_cabinets : List Value → Result (Unit {0})
log_cabinets [] = ok tt
log_cabinets (cab ∷ cabs) = do
  name ← index "name" cab
  slave ← index "slaveId" cab
  log_cabinets cabs

unfoldable pub log_state : CabinetState → Result (Unit {0})
log_state s =
    if is_configured s
    then (get "name" s.location >>= λ name. log_cabinets (all_cabinets s))
    else ok tt

unfoldable pub first_beat : CabinetState → Result Value
first_beat s = if is_configured s then heartbeat_interval s else ok (num (pos 60))

-- What the services are built with.
pub record Started : Type 0 where
  pub settings : Settings
  pub cabinets : CabinetState
  pub interval : Value

unfoldable pub boot : Settings → StateFile → Bool → Database → Result Started
boot settings file writable db = do
  settings' ← configure db settings
  loaded ← (create file writable (some db)).0
  let cabinets : CabinetState = (create file writable (some db)).1
  logged ← log_state cabinets
  interval ← first_beat cabinets
  ok (record { settings = settings'; cabinets = cabinets; interval = interval })
