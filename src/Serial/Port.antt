-- ===== src/Serial/Port.antt =====
-- infracstructure/serial_manager.py: the search for the adapter's port, opening it, losing it and
-- opening it again.
use mathlib.Core.Option
use smart_locker_iot.Prelude.{
  ℕ, zero, suc, ◌+◌, String, Bool, true, false, not, ◌&&◌, ◌||◌, Option, none, some, List, [], ◌∷◌,
  string_eq, ◌==◌, if◌then◌else◌,
}
use smart_locker_iot.Prelude.Texts.{lower, upper, same_codes, contains_codes}
use smart_locker_iot.Python.{Fields, Result}
use smart_locker_iot.Serial.{attempts_after}
use smart_locker_iot.Serial.Listener.{Listener, listen}

-- An entry of `comports()`.
pub record Device : Type 0 where
  pub device : String
  pub description : Option String
  pub hwid : Option String

-- What opening a port does: it opens, it raises, or it opens and the reset of its buffer raises.
pub data Opening : Type 0 where
  opened refused broken : Opening

-- The operating system at each moment: the serial ports (`none` where listing them raises), the paths
-- that exist, and what opening one does.
pub record Host : Type 0 where
  pub comports : ℕ → Option (List Device)
  pub exists : ℕ → String → Bool
  pub opens : ℕ → String → Opening

-- `port`, `_ser` with its `is_open`, `_listener_running`, `_reconnect_attempts`, the
-- reconnections, each of which calls `_on_reconnect`; `now` counts the tests of a path, the listings and
-- the openings.
pub record Port : Type 0 where
  pub port : String
  pub ser : Option Bool
  pub listening : Bool
  pub attempts : ℕ
  pub reconnections : ℕ
  pub now : ℕ

abbrev keywords : List String
keywords = "arduino" ∷ "ch34x" ∷ "ch340" ∷ "cp210" ∷ "ft232" ∷ "usb-serial" ∷ "usb serial" ∷ []

-- any(k in text for k in words), for a text in lower case.
unfoldable pub any_in : List ℕ → List String → Bool
any_in text [] = false
any_in text (k ∷ ks) = contains_codes text (lower k) || any_in text ks

abbrev or_empty : Option String → String
or_empty none = ""
or_empty (some s) = s

unfoldable pub is_adapter : Device → Bool
unfolding any_in
is_adapter p =
    any_in (lower (or_empty p.description)) keywords || any_in (lower (or_empty p.hwid)) keywords

unfoldable pub is_usb : Device → Bool
unfolding any_in
is_usb p = any_in (lower p.device) ("ttyusb" ∷ "ttyacm" ∷ [])

-- The device of the first port that passes.
unfoldable pub first_device : (Device → Bool) → List Device → Option String
first_device test [] = none
first_device test (p ∷ ps) = if test p then some p.device else first_device test ps

-- A search that is tried where the one before found nothing.
abbrev pub or_search : Option String → Option String → Option String
or_search none later = later
or_search (some device) later = some device

unfoldable pub find_arduino_port : Option (List Device) → Option String
unfolding is_adapter is_usb first_device
find_arduino_port none = none
find_arduino_port (some ports) =
    or_search (first_device is_adapter ports)
      (or_search (first_device is_usb ports) (first_device (λ p. true) ports))

-- port.upper() == "AUTO"
unfoldable pub is_auto : String → Bool
is_auto port = same_codes (upper port) (upper "AUTO")

module _ (h : Host) where
  unfoldable pub detect : Port → Option String × Port
  unfolding find_arduino_port
  detect s = (find_arduino_port (h.comports s.now), record s { now = s.now + 1 })

  -- Whether the port is to be searched for: a path that is given is tested.
  unfoldable pub is_unusable : Port → Bool × Port
  unfolding is_auto
  is_unusable s =
      if s.port == "" || is_auto s.port
      then (true, s)
      else (not (h.exists s.now s.port), record s { now = s.now + 1 })

  -- The port to open, or `none` for the SerialException.
  unfoldable pub locate : Port → Option String × Port
  unfolding is_unusable detect
  locate s =
      let (search_for, tested) = is_unusable s in
      let (found, s') = detect tested in
      if search_for
      then elim found [
        | some device ↦ (some device, record s' { port = device })
        | none ↦ (if s.port == "" then none else some s.port, s')
      ]
      else (some s.port, tested)

  -- serial.Serial(…), the reset of its buffer and the start of the listener: whether they returned.
  unfoldable pub open_port : String → Port → Bool × Port
  open_port path s = elim (h.opens s.now path) [
    | opened ↦ (true, record s { ser = some true; listening = true; now = s.now + 1 })
    | refused ↦ (false, record s { now = s.now + 1 })
    | broken ↦ (false, record s { ser = some true; now = s.now + 1 })
  ]

  -- After a failure on a path: the port that was detected is tried, `again`, if it is another, or the
  -- exception is raised.
  abbrev pub other_port :
      (Port → Option (Bool × Port)) → String → Option String → Port → Option (Bool × Port)
  other_port again path none s = some (false, s)
  other_port again path (some device) s =
      if device == path then some (false, s) else again (record s { port = device })

  unfoldable pub retry : (Port → Option (Bool × Port)) → String → Port → Option (Bool × Port)
  unfolding is_auto detect
  retry again path s =
      if path == s.port && not (is_auto s.port)
      then other_port again path (detect s).0 (detect s).1
      else some (false, s)

  abbrev pub open_target :
      (Port → Option (Bool × Port)) → Option String → Port → Option (Bool × Port)
  open_target again none s = some (false, s)
  open_target again (some path) s =
      let (done, s') = open_port path s in if done then some (true, s') else retry again path s'

  unfoldable pub try_connect : (Port → Option (Bool × Port)) → Port → Option (Bool × Port)
  unfolding locate open_port retry
  try_connect again s = open_target again (locate s).0 (locate s).1

  -- `_connect`: whether it returns (and does not raise), and the state afterwards; `none` where the
  -- fuel ends.
  unfoldable pub connect : ℕ → Port → Option (Bool × Port)
  unfolding try_connect
  connect zero s = none
  connect (suc fuel) s = try_connect (connect fuel) s

  -- SerialManager(port, baud_rate, simulation)
  unfoldable pub initialise : ℕ → Bool → String → Option (Bool × Port)
  unfolding connect
  initialise fuel simulation port =
      let s : Port = record {
        port = port;
        ser = none;
        listening = false;
        attempts = 0;
        reconnections = 0;
        now = 0;
      } in
      if simulation then some (true, s) else connect fuel s

  -- What `_attempt_reconnect` does after its sleep.
  unfoldable pub attempt_reconnect : Port → Port
  attempt_reconnect s = elim (h.opens s.now s.port) [
    | opened ↦ record s {
      ser = some true;
      attempts = attempts_after true s.attempts;
      reconnections = s.reconnections + 1;
      now = s.now + 1;
    }
    | refused ↦ record s { attempts = attempts_after false s.attempts; now = s.now + 1 }
    | broken ↦ record s {
      ser = some true;
      attempts = attempts_after false s.attempts;
      now = s.now + 1;
    }
  ]

unfoldable pub is_connected : Port → Bool
is_connected s = elim s.ser [ none ↦ false | some is_open ↦ is_open ]

-- `close`: the listener is stopped, and the port closed.
unfoldable pub close : Port → Port
close s = record s { listening = false; ser = Option.map (λ is_open. false) s.ser }

-- What reading the open port gives in one turn of the loop: some bytes, nothing, an OSError or a
-- SerialException, another exception.
pub data Reading : Type 0 where
  bytes : String → Reading
  nothing io_error failure : Reading

-- `waiting`: the listener is in the sleep of `_attempt_reconnect`.
pub record Manager : Type 0 where
  pub listener : Listener
  pub port : Port
  pub waiting : Bool

module _ (h : Host) (loads : String → Result (Option Fields)) where
  -- The port is lost, and the wait for the next attempt begins.
  unfoldable pub handle_fatal_error : Manager → Manager
  handle_fatal_error m = record m { port = record m.port { ser = none }; waiting = true }

  unfoldable pub read : Reading → Manager → Manager
  unfolding handle_fatal_error listen
  read (bytes chunk) m = record m { listener = listen loads chunk m.listener }
  read nothing m = m
  read io_error m = handle_fatal_error m
  read failure m = m

  -- One turn of `_listener_loop`, which ends where the listener was stopped; the attempt after a wait is a
  -- turn of its own, and is made whether the listener was stopped meanwhile or not.
  unfoldable pub turn : Reading → Manager → Manager
  unfolding read is_connected attempt_reconnect
  turn r m =
      if m.waiting
      then record m { port = attempt_reconnect h m.port; waiting = false }
      else if not m.port.listening
      then m
      else if is_connected m.port
      then read r m
      else record m { waiting = true }

  unfoldable pub turns : List Reading → Manager → Manager
  unfolding turn
  turns [] m = m
  turns (r ∷ rs) m = turns rs (turn r m)
