-- ===== src/Service.antt =====
-- The routing of services/locker_service.py, the threads that it starts, and the start of main.py.
pub mod Handlers
pub mod Reach
pub mod Invariants
pub mod Routing
pub mod Beats
pub mod Orders
pub mod Subscribed
pub mod Closing
use mathlib.Core.Option
use smart_locker_iot.Prelude.{
  ℕ, zero, suc, ◌+◌, String, ◌<>◌, Bool, true, false, not, ◌&&◌, ◌||◌, Option, none, some, List, [],
  ◌∷◌, ◌++◌, string_eq, ◌==◌, leb, nat_beq, if◌then◌else◌,
}
use smart_locker_iot.Prelude.Lists.{get_elem?}
use smart_locker_iot.Prelude.Texts.{split, ends_with, contains, lower, same_codes}
use smart_locker_iot.Python.{
  Value, null, str, default, get, get_or, index, same, Result, ok, raise, Fault, attribute_error,
  index_error,
}
use smart_locker_iot.Python.Text.{format}
use smart_locker_iot.Python.Exec.{Exec, pure, lift, gets, modify, attempt, ◌>>=◌, ◌>>◌}
use smart_locker_iot.CabinetState.{CabinetState, with_db, all_cabinets, is_configured}
use smart_locker_iot.CabinetState as Cabinets
use smart_locker_iot.Database.Methods.{log_mqtt}
use smart_locker_iot.Gateway.{
  SerialPort, Gateway, Job, setup, clear, discover, on_cabinets, spawn, subscribe_locker_commands,
}
use smart_locker_iot.Heartbeat.{start, stop, publish_all_heartbeats}
use smart_locker_iot.Locker.{handle_open_command, handle_close_command, handle_door_event}
use smart_locker_iot.Setup.{handle, run_setup}
use smart_locker_iot.Discovery.{discover_and_report}

-- A message from the broker: its text, and what `json.loads` makes of it (`none` for a JSONDecodeError).
pub record Incoming : Type 0 where
  pub topic : String
  pub text : String
  pub json : Option Value

-- x.lower() == y.lower(): only a text has the method.
unfoldable pub same_mac : Value → String → Result Bool
same_mac (str s) mac = ok (same_codes (lower s) (lower mac))
same_mac v mac = raise attribute_error

-- f"{parts[0]}/{parts[1]}"
unfoldable pub prefix_of : List String → Result String
prefix_of (a ∷ b ∷ rest) = ok (a <> ("/" <> b))
prefix_of _ = raise index_error

-- max_cabinets of a discovery command: `None` where anything goes wrong.
abbrev field_or_none : Result (Option Value) → Value
field_or_none (ok found) = default null found
field_or_none (raise e) = null

unfoldable pub wanted_cabinets : Option Value → Value
wanted_cabinets none = null
wanted_cabinets (some v) = field_or_none (get "maxCabinets" v)

-- What may happen next: a message of the broker, the run of a thread that waits, a door event of the
-- listener, a round of the heartbeat. Each runs to its end before the next.
pub data Event : Type 0 where
  message : Incoming → Event
  thread : ℕ → Event
  door : Value → String → Value → Event
  tick : Event

-- The thread at a position, and the others.
unfoldable pub choose : ℕ → List Job → Option (Job × List Job)
choose i [] = none
choose zero (job ∷ jobs) = some (job, jobs)
choose (suc i) (job ∷ jobs) = Option.map (λ (j, rest). (j, job ∷ rest)) (choose i jobs)

module _ {P : SerialPort} where
  unfoldable pub handle_setup_command : String → Value → Exec (Gateway P) (Unit {0})
  handle_setup_command topic payload = do
    action ← lift (get_or "action" (str "") payload)
    if not (same action (str "SETUP_LOCKERS") || same action (str "BULK_SETUP_LOCKERS"))
        then pure tt
        else do
          payload_mac ← lift (get_or "macAddress" (str "") payload)
          my_mac ← gets (λ g. g.mac_address)
          mine ← lift (same_mac payload_mac my_mac)
          if not mine
              then pure tt
              else do prefix ← lift (prefix_of (split b'/' topic)); handle payload prefix

  unfoldable pub handle_clear_setup_command : Value → Exec (Gateway P) (Unit {0})
  handle_clear_setup_command payload = do
    action ← lift (get_or "action" (str "") payload)
    if same action (str "CLEAR_SETUP") then spawn clear else pure tt

  -- The routes of a message that is JSON.
  unfoldable pub route : String → Value → Exec (Gateway P) (Unit {0})
  route topic payload =
      if ends_with topic "/command/setup"
      then handle_setup_command topic payload
      else if ends_with topic "/command/clear-setup"
      then handle_clear_setup_command payload
      else if contains topic "/command/open"
      then handle_open_command topic payload
      else if contains topic "/command/close"
      then handle_close_command topic payload
      else pure tt

  unfoldable pub route_json : String → Option Value → Exec (Gateway P) (Unit {0})
  route_json topic none = pure tt
  route_json topic (some payload) = route topic payload

  unfoldable pub handle_incoming_message : Incoming → Exec (Gateway P) (Unit {0})
  handle_incoming_message m = do
    on_cabinets (with_db (log_mqtt m.topic m.text "IN"))
    if ends_with m.topic "/discovery/start"
        then spawn (discover (wanted_cabinets m.json))
        else route_json m.topic m.json

  -- What a thread runs. An exception ends the thread.
  unfoldable pub run_job : Job → Exec (Gateway P) (Unit {0})
  run_job (setup payload prefix) = run_setup payload prefix
  run_job clear = do on_cabinets Cabinets.clear; stop
  run_job (discover max_cabinets) = discover_and_report max_cabinets

  unfoldable pub subscribe_all : List Value → Exec (Gateway P) (Unit {0})
  subscribe_all [] = pure tt
  subscribe_all (cab ∷ cabs) = do
    name ← lift (index "name" cab)
    subscribe_locker_commands (format name)
    subscribe_all cabs

  -- main, from the connection to the broker on.
  unfoldable pub start_up : Exec (Gateway P) (Unit {0})
  start_up = do
    discover_and_report null
    configured ← gets (λ g. is_configured g.cabinets)
    cabs ← gets (λ g. all_cabinets g.cabinets)
    if configured then subscribe_all cabs >> start else pure tt

  unfoldable pub run_chosen : Option (Job × List Job) → Exec (Gateway P) (Unit {0})
  run_chosen none g = (ok tt, g)
  run_chosen (some (job, rest)) g = run_job job (record g { pending = rest })

  -- What an event does. No exception leaves it: `_on_message`, the listener and the heartbeat's loop
  -- log it, and it ends a thread.
  unfoldable pub react : Event → Exec (Gateway P) (Unit {0})
  react (message m) g = attempt (handle_incoming_message m) g
  react (thread i) g = attempt (run_chosen (choose i g.pending)) g
  react (door slot event slave) g = attempt (handle_door_event slot event slave) g
  react tick g = if g.heartbeat.running then attempt publish_all_heartbeats g else (ok tt, g)

  -- The events of a run, in their order.
  unfoldable pub react_all : List Event → Gateway P → Gateway P
  react_all [] g = g
  react_all (e ∷ es) g = react_all es (react e g).1
