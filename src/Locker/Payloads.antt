-- ===== src/Locker/Payloads.antt =====
-- The messages of services/locker_service.py and what its handlers read from a command.
use smart_locker_iot.Prelude.{String, ◌<>◌, Bool, false, [], ◌∷◌, if◌then◌else◌}
use smart_locker_iot.Python.{Value, bool, str}
use smart_locker_iot.Python.Text.{format}
use smart_locker_iot.Gateway.{dict}
use smart_locker_iot.Domain.{open_ack_to_json}
use smart_locker_iot.Locker.Outcome.{Report}

-- What the handlers of open and close read from the command: `slotIndex` is there.
pub record Request : Type 0 where
  pub cabinet_name : String
  pub cabinet_id : Value
  pub slave_id : Value
  pub locker_id : Value
  pub slot_index : Value
  pub command_id : Value

-- The payload of `command/open/result` and of `command/close/result`.
abbrev pub result_payload : Request → Report → Value → Value
result_payload r o now = dict (
    ("commandId", r.command_id)
    ∷ ("lockerId", r.locker_id)
    ∷ ("slotIndex", r.slot_index)
    ∷ ("status", str o.status)
    ∷ ("hwState", str o.hw_state)
    ∷ ("errorCode", o.error_code)
    ∷ ("errorMessage", str o.message)
    ∷ ("timestamp", now)
    ∷ [])

-- The payload of the acknowledgement.
abbrev pub ack_payload : Request → Report → Value → Value
ack_payload r o now = open_ack_to_json (record {
  locker_id = r.locker_id;
  slot_index = r.slot_index;
  status = o.status;
  message = o.message;
  timestamp = now;
  error_code = o.error_code;
})

abbrev pub open_result_topic : Request → String
open_result_topic r = "cabinet/" <> (r.cabinet_name <> "/command/open/result")

abbrev pub ack_topic : Request → String
ack_topic r = "cabinet/" <> (r.cabinet_name <> ("/locker/" <> (format r.locker_id <> "/ack")))

abbrev pub close_result_topic : Request → String
close_result_topic r = "cabinet/" <> (r.cabinet_name <> "/command/close/result")

-- The payload of `locker/…/status`.
abbrev pub status_payload : Value → Value → Bool → Value → Value
status_payload locker_id slot_index opened now = dict (
    ("lockerId", locker_id)
    ∷ ("slotIndex", slot_index)
    ∷ ("hwState", str (if opened then "OPENING" else "CLOSING"))
    ∷ ("doorSensor", bool opened)
    ∷ ("lockSensor", bool false)
    ∷ ("timestamp", now)
    ∷ [])
