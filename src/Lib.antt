-- ===== src/Lib.antt =====
-- The gateway of a smart locker installation: a Raspberry Pi between an MQTT broker and Arduino slaves on
-- an RS485 bus. These files model its services and prove what they keep.
--
-- Parts, from the repository's root:
--   Database       infracstructure/database.py. Tables are the constraints of `_init_db`; Methods has one
--                  definition per method under the method's name, Methods.Logs those of logs and settings.
--   CabinetState   infracstructure/cabinet_state.py: one definition per method. The JSON file is a
--                  `StateFile`, the database an optional `Database`, `create` the constructor, and `Call`
--                  with `run` a call of any method that changes the state.
--   Serial         infracstructure/serial_manager.py: `handle_message` is `_handle_incoming_json`, `Wait` what
--                  happens on the line while `_send_and_wait` waits, `hardware` and `simulation` the two
--                  managers behind the interface Gateway.Interface.SerialPort. Serial.Listener cuts the text
--                  of the line into messages; Serial.Port has the search for the adapter, `connect`, and the
--                  turns of `_listener_loop` with the loss of the port and the reconnection.
--   Mqtt           infracstructure/mqtt_client.py: the connection to the broker and the subscriptions.
--   Settings       config/settings.py: `read_settings` is the body of the class.
--   ConfigApi      infracstructure/config_api.py: `serve` answers one request.
--   Boot           main.py from the database to the services; Boot.Shutdown has its end.
--   System         main.py as a whole: the services with the configuration server beside them.
--   Gateway        What the services share, wired as in main.py: the MQTT client
--                  (infracstructure/mqtt_client.py) as an outbox and a list of subscriptions, the clock as
--                  a parameter with a count of its readings, threads that were started as a list.
--   Domain         domain/models.py: the data classes and their JSON; Unsent has those that no service builds.
--   Heartbeat      services/heartbeat_service.py. Service.Beats has the turns of `_heartbeat_loop`.
--   Locker         services/locker_service.py: the commands to open and to close, and door events;
--                  Locker.Hardware has them on the real line, Service.Orders from the message that brings
--                  them.
--   Setup          services/setup_handler.py. Slot has the pure parts.
--   Discovery      services/discovery_service.py.
--   Service        The routing of services/locker_service.py, and runs: an `Event` is a message of the
--                  broker, the run of a thread, a door event or a round of heartbeats; `react_all` plays a
--                  list of them after `start_up`, which is main.py from the connection to the broker on.
--   Simulator      simulate_demo_cabinet.py, the stand-in for the cabinets in a demonstration.
--   Scripts        debug_scan.py, and debug_rs485_rx.py with what the port gives as a parameter.
--   Logger         utils/logger.py: the table of loggers.
--   RpiLocker      hardware/rpi_locker.py, which main.py builds and no service calls.
--   Prelude        Shared tests, equality, dictionaries in insertion order, integers, lists and texts.
--   Python         The values that the code passes about, exceptions, and actions over a state (Exec).
--   Tests          A small installation at which the results are applied.
--
-- Conventions. A Python value is a `Value`; `Exec S A` is code that changes an `S` and returns an `A`
-- or raises, keeping what it wrote before. JSON text is modelled by the value that it denotes, a
-- parsed message as an option (`none` for a JSONDecodeError). How the database driver takes a value is
-- the parameter `Driver`, what the operating system does with a serial port the parameter `Host`,
-- which topics the client of paho takes the parameter `Client`, what the broker does `Broker`, and
-- `json.loads` of a line the parameter `loads`. Loops are structural recursion; only
-- `Serial.Port.connect`, which calls itself, runs on fuel: two calls are enough while the list of
-- ports stays as it is, which connect_ends proves. An event runs to its end before the next.
--
-- Not modelled: log lines, but for those of main.py that read the cabinets; sleeps, but for the
-- seconds of a heartbeat's pause and the wait before a reconnection; text beyond ASCII in strip,
-- lower, upper and int; a start without pyserial; the server, middleware and static files of the
-- configuration API; how the simulator starts its client; the enumerations of domain/enums.py, whose
-- members are texts; the firmware, the user interface and the tests.
pub mod Prelude
pub mod Python
pub mod Database
pub mod CabinetState
pub mod Gateway
pub mod Heartbeat
pub mod Locker
pub mod Setup
pub mod Serial
pub mod Discovery
pub mod Domain
pub mod Logger
pub mod RpiLocker
pub mod Service
pub mod Settings
pub mod ConfigApi
pub mod Boot
pub mod System
pub mod Mqtt
pub mod Simulator
pub mod Scripts
pub mod Tests
