-- ===== src/System.antt =====
-- main.py as a whole: the services with the configuration server beside them, which works on the same
-- cabinet state, database and settings.
pub mod Life
pub mod Limit
use smart_locker_iot.Prelude.{ℕ, String, Bool, false, some, List, [], ◌∷◌}
use smart_locker_iot.Prelude.Int.{ℤ}
use smart_locker_iot.Python.{Result, ok, ◌>>=◌}
use smart_locker_iot.Database.Tables.{Database}
use smart_locker_iot.CabinetState.{StateFile}
use smart_locker_iot.Settings.{Settings}
use smart_locker_iot.ConfigApi.{Server, Request, serve}
use smart_locker_iot.Boot.{Started, boot}
use smart_locker_iot.Gateway.{SerialPort, Gateway, Client}
use smart_locker_iot.Service.{Event, react, start_up}

-- What the machine gives: the serial port, the clock and the stopwatch, and the address of the gateway.
pub record Machine (P : SerialPort) : Type 0 where
  pub serial : P.State
  pub clock : ℕ → String
  pub stopwatch : ℕ → ℤ
  pub client : Client
  pub ip : String

pub record System (P : SerialPort) : Type 0 where
  pub gateway : Gateway P
  pub settings : Settings
  pub ip : String

-- An event of the services, or a request to the configuration server.
pub data Action : Type 0 where
  event : Event → Action
  request : Request → Action

module _ {P : SerialPort} where
  abbrev pub server_of : System P → Server
  server_of s = record { cabinets = s.gateway.cabinets; settings = s.settings; ip = s.ip }

  -- The services see what the server changed: the cabinets, and MAX_CABINETS of the settings.
  abbrev pub with_server : Server → System P → System P
  with_server server s = record s {
    gateway = record s.gateway {
      cabinets = server.cabinets;
      max_cabinets = server.settings.max_cabinets;
    };
    settings = server.settings;
  }

  unfoldable pub act : Action → System P → System P
  act (event e) s = record s { gateway = (react e s.gateway).1 }
  act (request r) s = with_server (serve r (server_of s)).1 s

  unfoldable pub acts : List Action → System P → System P
  unfolding act
  acts [] s = s
  acts (a ∷ rest) s = acts rest (act a s)

  -- The services as `main` builds them.
  abbrev pub built : Machine P → Started → System P
  built m started = record {
    gateway = record {
      cabinets = started.cabinets;
      heartbeat = record { locker_states = []; running = false };
      outbox = [];
      subscriptions = [];
      setup_running = false;
      serial = m.serial;
      mac_address = started.settings.mac_address;
      firmware_version = started.settings.firmware_version;
      max_cabinets = started.settings.max_cabinets;
      clock = m.clock;
      readings = 0;
      stopwatch = m.stopwatch;
      pending = [];
      client = m.client;
    };
    settings = started.settings;
    ip = m.ip;
  }

  -- The connection to the broker and what follows it.
  abbrev pub connected : System P → System P
  connected s = record s { gateway = (start_up s.gateway).1 }

  -- `main`: the server takes requests before the services are connected, and beside them.
  unfoldable pub main :
      Machine P
      → Settings
      → StateFile
      → Bool
      → Database
      → List Action
      → List Action
      → Result (System P)
  unfolding boot acts
  main m settings file writable db early late = boot settings file writable db >>= λ started.
      ok (acts late (connected (acts early (built m started))))
