-- ===== src/Tests/Systems.antt =====
-- The results at the whole of main.py, in simulation mode.
use smart_locker_iot.Prelude.{◌<>◌, true, false, ◌≡◌, refl, some, [], ◌∷◌, ◌++◌, List}
use smart_locker_iot.Prelude.Int.{pos}
use smart_locker_iot.Python.{
  str, arr, nil, obj, null, num, field, end, ok, dumps, serializable, index,
}
use smart_locker_iot.Database.Tables.{Database}
use smart_locker_iot.Database.Methods.{
  save_system_setting, get_system_setting, get_location, get_mqtt_config,
}
use smart_locker_iot.CabinetState.{missing, create, is_configured, all_cabinets}
use smart_locker_iot.Settings.{Settings, update_system_config}
use smart_locker_iot.Serial.{simulation, simulated_slaves}
use smart_locker_iot.ConfigApi.{post_system, clear_setup}
use smart_locker_iot.Boot.{Started, configure, boot, log_state, first_beat}
use smart_locker_iot.Discovery.{discover_and_report}
use smart_locker_iot.Service.{Event, message, thread, tick, start_up, react_all}
use smart_locker_iot.Service.Closing.{closing, start_up-closing}
use smart_locker_iot.Service.Subscribed.{next_named, none_left, start_up-Named}
use smart_locker_iot.Service.Invariants.{IsConsistent}
use smart_locker_iot.System.{
  Machine, System, Action, event, request, act, acts, built, connected, main,
}
use smart_locker_iot.System.Life.{main-IsConsistent}
use smart_locker_iot.Discovery.Report.{report}
use smart_locker_iot.System.Limit.{post_system-discover_and_report}
use smart_locker_iot.Prelude.Texts.Laws.{free_of}
use smart_locker_iot.Tests.{database, database-Integrity}
use smart_locker_iot.Tests.Gateways.{gateway, client}
use smart_locker_iot.Tests.Configs.{settings}

abbrev machine : Machine simulation
machine = record {
  serial = tt;
  clock = λ n. "now";
  stopwatch = λ n. pos 1;
  client = client;
  ip = "10.0.0.2";
}

abbrev early : List Action
early = request (post_system (field "max_cabinets" (num (pos 3)) end)) ∷ []

abbrev late : List Action
late = event tick ∷ request clear_setup ∷ []

-- The database cannot be reached, so that the start finds no cabinet.
abbrev unreachable : Database
unreachable = record database { reachable = false }

abbrev started : Started
started = record {
  settings = settings;
  cabinets = record {
    location = null;
    cabinets = [];
    lockers = [];
    file = missing;
    writable = true;
    db = some unreachable;
  };
  interval = num (pos 60);
}

main-IsConsistent_example :
    IsConsistent (acts late (connected (acts early (built machine started)))).gateway.cabinets
unfolding main boot configure update_system_config get_system_setting create get_location log_state
    is_configured first_beat get_mqtt_config
main-IsConsistent_example =
    main-IsConsistent machine settings missing true unreachable early late
      (acts late (connected (acts early (built machine started)))) database-Integrity refl

abbrev system : System simulation
system = record { gateway = gateway; settings = settings; ip = "10.0.0.2" }

post_system-discover_and_report_example :
    let s' = act (request (post_system (field "max_cabinets" (num (pos 3)) end))) system in
    let d = (save_system_setting "max_cabinets" (num (pos 3)) database).1 in
    ((discover_and_report null s'.gateway).1.outbox
      ≡ gateway.outbox
        ++ record {
          topic = "iot/" <> (gateway.mac_address <> "/discovery/result");
          payload = report gateway simulated_slaves;
          qos = 1;
        }
          ∷ [])
    × (s'.gateway.cabinets.db ≡ some d)
    × ((t : Settings) × (configure d settings ≡ ok t) × (t.max_cabinets ≡ pos 3))
unfolding serializable dumps
post_system-discover_and_report_example =
    post_system-discover_and_report (pos 3) database system simulated_slaves tt settings refl refl
      refl refl

start_up-Named_example :
    ((start_up gateway).0 ≡ ok tt)
    × ((start_up gateway).1.subscriptions
        ≡ "cabinet/A/command/open" ∷ "cabinet/A/command/close" ∷ [])
    × ((start_up gateway).1.heartbeat.running ≡ true)
unfolding free_of is_configured index serializable dumps all_cabinets
start_up-Named_example =
    start_up-Named gateway ("A" ∷ []) simulated_slaves tt refl (next_named refl none_left) refl refl
      refl refl

-- A setup of another cabinet arrives, without lockers, so that it is kept; its thread runs.
abbrev events : List Event
events =
    message (record {
      topic = "iot/aa/command/setup";
      text = "{}";
      json = some (
          obj (
            field "macAddress" (str "aa") (
              field "action" (str "SETUP_LOCKERS") (
                field "cabinetId" (str "c2")
                  (field "cabinetCode" (str "B") (field "lockerLayout" (arr nil) end))))));
    })
    ∷ thread 0
    ∷ tick
    ∷ []

start_up-closing_example :
    closing (react_all events (start_up gateway).1).subscriptions ≡ "cabinet/A/command/close" ∷ []
unfolding free_of is_configured index serializable dumps all_cabinets closing
start_up-closing_example =
    start_up-closing gateway ("A" ∷ []) simulated_slaves tt refl (next_named refl none_left) refl
      refl refl refl events
