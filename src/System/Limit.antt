-- ===== src/System/Limit.antt =====
-- What a request for another number of cabinets changes: the scan of services/discovery_service.py, now
-- and after the next start.
use smart_locker_iot.Prelude.{◌<>◌, true, some, List, [], ◌∷◌, ◌++◌, ◌≡◌, refl, ap, ◌∙◌, arith}
use smart_locker_iot.Prelude.Int.{ℤ}
use smart_locker_iot.Python.{Value, null, num, str, obj, field, end, ok, dumps}
use smart_locker_iot.Database.Tables.{Database}
use smart_locker_iot.Database.Methods.{get_mqtt_config, get_system_setting, save_system_setting}
use smart_locker_iot.Database.Settings.{get_system_setting-save_system_setting}
use smart_locker_iot.Settings.{Settings, update_mqtt_config}
use smart_locker_iot.Python.Text.{format, show_int}
use smart_locker_iot.ConfigApi.{post_system}
use smart_locker_iot.ConfigApi.Effects.{
  with_database, with_limit, serve-post_system, update_system_config_lem,
}
use smart_locker_iot.Boot.{configure, with_mqtt_row}
use smart_locker_iot.Gateway.{SerialPort}
use smart_locker_iot.Discovery.Report.{report, discovered}
use smart_locker_iot.Discovery.{discover_and_report}
use smart_locker_iot.System.{System, act, request, with_server, server_of}

max_cabinets-with_mqtt_row :
    (row : Value) (s : Settings) → (with_mqtt_row row s).max_cabinets ≡ s.max_cabinets
unfolding update_mqtt_config
max_cabinets-with_mqtt_row (obj fs) s = ground arith
max_cabinets-with_mqtt_row row s = ground arith

configure-max_cabinets :
    (n : ℤ) (db : Database) (settings : Settings)
    → get_system_setting "max_cabinets" null db ≡ str (show_int n)
    → (t : Settings) × (configure db settings ≡ ok t) × (t.max_cabinets ≡ n)
unfolding configure
configure-max_cabinets n db settings e = (
  with_mqtt_row (get_mqtt_config db) (record settings { max_cabinets = n }),
  rw (update_system_config_lem n db settings e) refl,
  max_cabinets-with_mqtt_row (get_mqtt_config db) (record settings { max_cabinets = n }),
)

module _ {P : SerialPort} where
  act-post_system :
      (n : ℤ) (db : Database) (s : System P)
      → s.gateway.cabinets.db ≡ some db
      → db.reachable ≡ true
      → act (request (post_system (field "max_cabinets" (num n) end))) s
        ≡ with_server
            (with_limit n
              (with_database (save_system_setting "max_cabinets" (num n) db).1 (server_of s)))
            s
  unfolding act
  act-post_system n db s there up =
      ap (λ r. with_server r.1 s) (serve-post_system n db (server_of s) there up)

  -- On a reachable database, once a number of cabinets was posted the gateway looks for that many slaves:
  -- a discovery without a number of its own scans so far and reports what it finds. The number is stored,
  -- so that a start on this database has it too, whatever settings it begins with.
  pub post_system-discover_and_report :
      (n : ℤ) (db : Database) (s : System P) (slaves : List Value) (port : P.State)
      (settings : Settings)
      → s.gateway.cabinets.db ≡ some db
      → db.reachable ≡ true
      → P.scan_slaves (num n) s.gateway.serial ≡ (ok slaves, port)
      → dumps (report s.gateway slaves) ≡ ok (report s.gateway slaves)
      → let s' = act (request (post_system (field "max_cabinets" (num n) end))) s in
        let d = (save_system_setting "max_cabinets" (num n) db).1 in
        ((discover_and_report null s'.gateway).1.outbox
          ≡ s.gateway.outbox
            ++ record {
              topic = "iot/" <> (s.gateway.mac_address <> "/discovery/result");
              payload = report s.gateway slaves;
              qos = 1;
            }
              ∷ [])
        × (s'.gateway.cabinets.db ≡ some d)
        × ((t : Settings) × (configure d settings ≡ ok t) × (t.max_cabinets ≡ n))
  unfolding format
  post_system-discover_and_report n db s slaves port settings there up found json =
      let d : Database = (save_system_setting "max_cabinets" (num n) db).1 in
      let posted = act-post_system n db s there up in
      (
        ap (λ t. (discover_and_report null t.gateway).1.outbox) posted
            ∙ ap (λ r. r.1.outbox) (discovered _ slaves port found json),
        ap (λ t. t.gateway.cabinets.db) posted,
        configure-max_cabinets n d settings
            (get_system_setting-save_system_setting "max_cabinets" (num n) null db up).0,
      )
