-- ===== src/Locker/Outcome.antt =====
-- How services/locker_service.py reads the reply of the Arduino to an open or a close command.
use smart_locker_iot.Prelude.{String, ◌<>◌, Bool, true, not, ◌&&◌, string_eq, if◌then◌else◌}
use smart_locker_iot.Python.{Value, null, bool, str, Fields, find, default, truthy, same}
use smart_locker_iot.Python.Text.{format}

-- The local variables `status`, `message`, `hw_state` and `error_code`.
pub record Report : Type 0 where
  pub status : String
  pub message : String
  pub hw_state : String
  pub error_code : Value

-- result.get("result") == "OK"
unfoldable pub is_ok : Fields → Bool
is_ok reply = same (default null (find "result" reply)) (str "OK")

-- result.get("door", True): the door is closed.
unfoldable pub door_is_closed : Fields → Bool
door_is_closed reply = truthy (default (bool true) (find "door" reply))

unfoldable pub open_report : Fields → Report
open_report reply =
    if is_ok reply && not (door_is_closed reply)
    then record {
      status = "SUCCESS";
      message = "Door opened successfully";
      hw_state = "OPENING";
      error_code = null;
    }
    else if is_ok reply && door_is_closed reply
    then record {
      status = "FAILED";
      message = "Command OK but door remained closed (jammed?)";
      hw_state = "CLOSING";
      error_code = str "JAMMED";
    }
    else record {
      status = "FAILED";
      message = "Hardware error: " <> format (default null (find "error" reply));
      hw_state = "CLOSING";
      error_code = default (str "SERIAL_ERROR") (find "error" reply);
    }

unfoldable pub close_report : Fields → Report
close_report reply =
    if is_ok reply && door_is_closed reply
    then record {
      status = "SUCCESS";
      message = "Door is closed and locked";
      hw_state = "CLOSING";
      error_code = null;
    }
    else record {
      status = "FAILED";
      message = "Door failed to lock or is still open";
      hw_state = (if door_is_closed reply then "CLOSING" else "OPENING");
      error_code = default (str "HARDWARE_FAILURE") (find "error" reply);
    }
