-- ===== src/Tests/Gateways.antt =====
-- A gateway in simulation mode, and a command to set up one cabinet of one slot.
use smart_locker_iot.Prelude.{◌&&◌, ℕ, true, false, []}
use smart_locker_iot.Prelude.Int.{pos}
use smart_locker_iot.Python.{Value, num, str, arr, obj, nil, cons, Fields, end, field}
use smart_locker_iot.Gateway.{Gateway, Client}
use smart_locker_iot.Prelude.Texts.Laws.{free_of}
use smart_locker_iot.Serial.{simulation}
use smart_locker_iot.Tests.{cabinet_state}

-- A client that refuses wildcards.
abbrev pub client : Client
client = record {
  publishes = λ topic. free_of b'+' topic && free_of b'#' topic;
  subscribes = λ topic. free_of b'+' topic && free_of b'#' topic;
}

abbrev pub gateway : Gateway simulation
gateway = record {
  cabinets = cabinet_state;
  heartbeat = record { locker_states = []; running = true };
  outbox = [];
  subscriptions = [];
  setup_running = false;
  serial = tt;
  mac_address = "aa";
  firmware_version = "1";
  max_cabinets = pos 1;
  clock = λ n. "now";
  readings = 0;
  stopwatch = λ n. pos 1;
  pending = [];
  client = client;
}

abbrev pub slot : ℕ → Value
slot n =
    obj (
      field "slotIndex" (num (pos n))
        (field "row" (num (pos 0)) (field "column" (num (pos n)) end)))

-- A command to set up one cabinet of one slot.
abbrev pub command_fields : Fields
command_fields =
    field "action" (str "SETUP_LOCKERS")
      (field "cabinetId" (str "c1") (field "lockerLayout" (arr (cons (slot 0) nil)) end))

abbrev pub command : Value
command = obj command_fields
