-- ===== src/Tests/Ports.antt =====
-- The results at an adapter that is found, opened and lost, and at text that comes off the line.
use smart_locker_iot.Prelude.{
  nat_beq, if◌then◌else◌, String, true, false, ◌≡◌, ◌≢◌, refl, Option, none, some, List, [], ◌∷◌,
  ◌<>◌, ◌==◌, string_eq, if◌then◌else◌, arith,
}
use smart_locker_iot.Prelude.Int.{pos}
use smart_locker_iot.Prelude.Texts.{join, split}
use smart_locker_iot.Python.{num, str, Fields, field, end, Result, ok, raise, Fault, find, same}
use smart_locker_iot.Python.Text.{is_blank}
use smart_locker_iot.Serial.Listener.{Listener, listen, listen_all}
use smart_locker_iot.Serial.Frames.{listen_all_lem}
use smart_locker_iot.Serial.Port.{
  Device, opened, refused, Host, Port, Manager, bytes, io_error, nothing, read, turn, is_connected,
  attempt_reconnect, handle_fatal_error, connect, turns, find_arduino_port,
}
use smart_locker_iot.Serial.Connect.{EndsWithin, connect_ends}
use smart_locker_iot.Serial.Turns.{turns-io_error}
use smart_locker_iot.Serial.Adapters.{Found, find_arduino_port_lem}

-- One reply is known, and any other text is no JSON.
abbrev pub loads : String → Result (Option Fields)
loads text =
    if text == "{\"result\":\"OK\"}" then ok (some (field "result" (str "OK") end)) else ok none

loads-ok : (s : String) (e : Fault) → loads s ≢ raise e
loads-ok s e = ground arith

abbrev listener : Listener
listener = record {
  buffer = "";
  link = record { waiting = some (num (pos 1)); response = none; door_events = [] };
}

abbrev chunks : List String
chunks = "\"OK\"}\n{\"re" ∷ "sult\"" ∷ []

listen_all_lem_example :
    listen_all loads ("boot {\"result\":" ∷ chunks) listener
    ≡ listen loads (join "" ("boot {\"result\":" ∷ chunks)) listener
listen_all_lem_example = listen_all_lem loads loads-ok "boot {\"result\":" chunks listener

-- The reply of the first line is taken, and the second stays in the buffer.
listen_all_run : (listen_all loads ("boot {\"result\":" ∷ chunks) listener).buffer ≡ "{\"result\""
unfolding listen_all split
listen_all_run = refl

listen_all_response :
    (listen_all loads ("boot {\"result\":" ∷ chunks) listener).link.response
    ≡ some (field "result" (str "OK") end)
unfolding listen_all split is_blank find same
listen_all_response = refl

abbrev devices : List Device
devices =
    record { device = "/dev/ttyS0"; description = none; hwid = none }
    ∷ record { device = "/dev/ttyUSB1"; description = some "CH340 serial"; hwid = none }
    ∷ []

-- The first port is gone, and the adapter can be opened.
abbrev pub host : Host
host = record {
  comports = λ n. some devices;
  exists = λ n path. path == "/dev/ttyUSB1";
  opens = λ n path. if path == "/dev/ttyUSB1" then opened else refused;
}

abbrev port : Port
port = record {
  port = "/dev/ttyUSB0";
  ser = none;
  listening = false;
  attempts = 0;
  reconnections = 0;
  now = 0;
}

connect_ends_example : EndsWithin 8 port (connect host 2 port)
connect_ends_example = connect_ends host (some devices) (λ n. refl) 0 port

find_arduino_port_lem_example : Found devices (find_arduino_port (some devices))
find_arduino_port_lem_example = find_arduino_port_lem devices

abbrev pub manager : Manager
manager = record {
  listener = listener;
  port = record port { port = "/dev/ttyUSB1"; ser = some true; listening = true };
  waiting = false;
}

-- The first attempt fails, and the second opens the port.
abbrev flaky : Host
flaky = record host { opens = λ n path. if nat_beq n 0 then refused else opened }

turns-io_error_example :
    (turn flaky loads (bytes "\"OK\"}\n") (
      turns flaky loads
        (bytes "{\"result\":" ∷ io_error ∷ nothing ∷ nothing ∷ nothing ∷ [])
        manager)).listener
    ≡ listen loads ("{\"result\":" <> "\"OK\"}\n") listener
unfolding turns turn read is_connected attempt_reconnect handle_fatal_error
turns-io_error_example =
    turns-io_error flaky loads loads-ok "{\"result\":" "\"OK\"}\n"
      (nothing ∷ nothing ∷ nothing ∷ []) manager refl refl refl (refl, (refl, (refl, tt))) refl refl
      refl
